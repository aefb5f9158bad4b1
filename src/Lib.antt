-- ===== src/Lib.antt =====
-- hardline: configuration profiles applied to a host over SSH, with a journal that rolls back.
--
-- A profile is a list of action files with steps; each step names a plugin. `apply` walks over the
-- steps: it captures what a step will touch, writes the capture to a journal on the runner, calls
-- the plugin, captures again, and keeps both in the journal. If a step fails or the run is
-- interrupted, the steps so far are rolled back. `rollback` later reads the journal of a successful
-- run from the target, checks that nothing has moved since, and reverts step by step.
--
-- Files, and the code that they are about:
--   Base          texts as lists of bytes, maps, results, and effects that may fail (Base/Exec)
--   Pluginapi     pkg/pluginapi: the records of a capture, object keys and the comparison of
--                 captures (Keys, Unchanged), shell quoting and its inverse (Shell, Shell/Word),
--                 plugins and their registry, file modes (Modes), managed paths (Paths), the probe
--                 that asks `stat` for a file (Probe), base64, and file snapshots (Snapshot)
--   Remote        internals/remote/lock.go: the lock that apply and rollback hold on the host
--   Profile       pkg/profile/validation.go: the graph of watched steps (Graph), what its check
--                 decides (Graph/Spec) and the proof (Graph/Sound, Graph/Watches)
--   Rollback      internals/rollback: the journal (Journal, Persist, Target), the walk (Execute), the
--                 preflight (Conflicts), the command (Command); on order, the calls of the plugins,
--                 atomic files and refusals: Order, Restore, Preflight, Safety, Automatic, Integrity,
--                 Atomic, Finish, Newest
--   Apply         internals/apply: one step (Step), the run (Run), the command (Command), and what
--                 they leave in the journal and on the host (Journalled, Recording, Records,
--                 Recovery)
--   Cli           internals/cli/version.go: versions and their comparison (Version)
--   Plugins       internals/plugins: the plugin for systemd units (Service/Run, Preview, Snapshot,
--                 Settled) and the agreement of its plan with its apply (Service/Agree); the plugins
--                 for package managers (Packages): how often an operation runs (Ops), names and
--                 lists (Names, Validate), commands and guards (Exec), the backend with its handlers
--                 (Backend, Config, Run, Snapshot, Plan), the report (Report, Render), what the
--                 package managers print and the three backends (Rpm, Dnf, Apt), and on removals,
--                 decisions, lists, captures and reports: Named, Guarded, Removal, Decisions,
--                 Since, Lists, Settled, Effects; and the plugin for modes, owners and attributes (FileMeta:
--                 Metadata, Run, Preview, Snapshot, and on a plan without changes Idle)
--   Tests         a small host and disk, with each theorem at a concrete input
--
-- State and effects: an action of the code is a function from a world to a result and the world that
-- it leaves; what was done before an error stays done. The world is any type. The remote host, the
-- runner's disk, the plugins of a profile, the JSON codec, SHA-256 and the clock are parameters; a
-- theorem that relies on them names what it relies on (`DiskLaws`, `AllReadOnly`, `SafeHost`,
-- `Probed`). Go strings are lists of bytes, and the functions of `strings` are those for ASCII.
-- Every loop is structural recursion over the list that it walks, but for three on fuel: reading a
-- quoted shell word, whose fuel is the length of the text and whose every step takes a byte; writing
-- a mode in octal, with fuel for 32 digits, of which a mode needs four; and writing a number in
-- decimal, with fuel for 20 digits, which hold every length and every count of a duration.
-- A number of a version is a Go `int`: the parser refuses what does not fit in 64 bits, and nothing
-- computes with it. A duration is an `int64` of nanoseconds, and a product wraps around. Regular
-- expressions are Boolean functions of a text.
--
-- Not modelled: the SSH transport, the log and the progress lines, JSON schemas, signatures, the
-- flags of the command line, the plan report, and the other plugins. The text of an error that comes
-- from the host stays out of the sentences that report it.
pub mod Apply
pub mod Base
pub mod Cli
pub mod Pluginapi
pub mod Plugins
pub mod Profile
pub mod Remote
pub mod Rollback
pub mod Tests
