-- ===== src/Rollback/Target.antt =====
-- internals/rollback/journal_remote.go: the journals that the target host keeps, one file for each
-- successful run.
use hardline.Base.{
  ℕ, zero, suc, Text, codes, ◌==◌, Bool, false, ◌&&◌, List, [], ◌∷◌, ◌++◌, Result, ok, err,
  if◌then◌else◌, is_nil, leb, nat_eq, trim_space, split, text_gt,
}
use hardline.Base.Exec.{Exec, ◌>>=◌, ◌>>◌, wrapping, lift, wrap_result}
use hardline.Pluginapi.Host.{Host, Fault}
use hardline.Pluginapi.Shell.{shell_arg}
use hardline.Rollback.Journal.{Journal}
use hardline.Rollback.Persist.{Codec, JournalError, sanitize_path, marshal_journal, decode_journal}

pub data TargetError : Type 0 where
  create_remote_dir persist_remote list_remote read_remote delete_remote : Fault → TargetError
  no_journal renamed_journal : TargetError
  bad_journal : JournalError → TargetError

-- A key that sanitizes to nothing is spelled `unknown`.
abbrev or_unknown : Text → Text
or_unknown key = if is_nil key then codes "unknown" else key

abbrev pub runs_dir : Text
runs_dir = codes "/var/lib/hardline/runs/"

-- `path.Dir` of a journal's path: the components of the path are sanitized, so it is clean.
unfoldable pub remote_dir : Text → Text
remote_dir profile_id = runs_dir ++ or_unknown (sanitize_path profile_id)

-- defaultRemoteStatePath
unfoldable pub remote_state_path : Text → Text → Text
unfolding remote_dir
remote_state_path profile_id run_id =
    remote_dir profile_id ++ (b'/' ∷ (or_unknown (sanitize_path run_id) ++ codes ".json"))

-- `n` digits and then the rest.
unfoldable pub digits_then : ℕ → (Text → Bool) → Text → Bool
digits_then zero rest s = rest s
digits_then (suc n) rest [] = false
digits_then (suc n) rest (c ∷ s) = (leb b'0' c && leb c b'9') && digits_then n rest s

unfoldable pub byte_then : ℕ → (Text → Bool) → Text → Bool
byte_then b rest [] = false
byte_then b rest (c ∷ s) = nat_eq c b && rest s

-- ^[0-9]{8}T[0-9]{6}\.[0-9]{9}Z\.json$
unfoldable pub is_journal_file_name : Text → Bool
unfolding digits_then byte_then
is_journal_file_name s =
    digits_then 8
      (byte_then b'T' (digits_then 6 (byte_then b'.' (digits_then 9 (λ t. t == codes "Z.json"))))) s

-- The greatest name of a listing that looks like a journal's, and the empty text if none does.
unfoldable pub newest_name : Text → List Text → Text
newest_name best [] = best
newest_name best (line ∷ rest) =
    let name = trim_space line in
    newest_name (if is_journal_file_name name && text_gt name best then name else best) rest

abbrev require_name : Text → Result TargetError (Unit {0})
require_name [] = err no_journal
require_name (c ∷ s) = ok tt

abbrev require_same : Journal → Text → Result TargetError Journal
require_same j name = if j.run_id ++ codes ".json" == name then ok j else err renamed_journal

module _ (codec : Codec) {W : Type 0} (host : Host W) where
  unfoldable pub save_remote_last : Journal → Exec W TargetError (Unit {0})
  save_remote_last j = do
    let path = remote_state_path j.profile_id j.run_id
    let dir = remote_dir j.profile_id
    wrapping create_remote_dir (host.run_root (codes "mkdir -p " ++ shell_arg dir))
    wrapping persist_remote (host.write_root_file path (marshal_journal codec j) 384)

  unfoldable pub load_remote_last : Text → Exec W TargetError Journal
  load_remote_last profile_id = do
    let dir = remote_dir profile_id
    output ← wrapping list_remote (
        host.run_root_with_output
          (codes "ls -1 " ++ (shell_arg dir ++ codes " 2>/dev/null || true")))
    let name = newest_name [] (split 10 output)
    lift (require_name name)
    bytes ← wrapping read_remote (host.read_root_file (dir ++ (b'/' ∷ name)))
    j ← lift (wrap_result bad_journal (decode_journal codec bytes))
    lift (require_same j name)

  unfoldable pub delete_remote_journal : Text → Text → Exec W TargetError (Unit {0})
  delete_remote_journal profile_id run_id =
      wrapping delete_remote
        (host.run_root (codes "rm -f " ++ shell_arg (remote_state_path profile_id run_id)))
