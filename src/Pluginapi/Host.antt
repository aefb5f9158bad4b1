-- ===== src/Pluginapi/Host.antt =====
-- pkg/pluginapi/registry.go: the `Host` interface. What a command does on the remote machine is
-- not the program's code, so a host is a parameter: its operations act on a state of any type.
use hardline.Base.{Text, ℕ, ℤ}
use hardline.Base.Exec.{Exec}

-- The message of an error that comes from outside the modelled code.
abbrev pub Fault : Type 0
Fault = Text

pub record Host (W : Type 0) : Type 0 where
  pub run_root : Text → Exec W Fault (Unit {0})
  pub run_root_with_output : Text → Exec W Fault Text
  -- The timeout is in nanoseconds.
  pub run_root_with_timeout : Text → ℕ → Exec W Fault Text
  -- `Stat`, with the runner's `time.Since` of the modification time in nanoseconds. It is negative if
  -- the host's clock is ahead.
  pub stat_age : Text → Exec W Fault ℤ
  pub read_root_file : Text → Exec W Fault Text
  pub write_root_file : Text → Text → ℕ → Exec W Fault (Unit {0})
