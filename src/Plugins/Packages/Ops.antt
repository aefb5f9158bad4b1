-- ===== src/Plugins/Packages/Ops.antt =====
-- internals/plugins/packages/ops.go: how often an operation runs. Durations are Go's `int64`
-- nanoseconds, and a product wraps around as it does there.
use hardline.Base.{
  ℕ, zero, suc, ◌+◌, ◌-◌, ◌*◌, ◌/◌, ◌%◌, ◌^◌, Text, codes, Bool, true, false, not, ◌||◌, Option,
  none, some, [], ◌∷◌, ◌++◌, ◌==◌, Result, ok, err, is_ok, if◌then◌else◌, ltb, leb, nat_eq, length,
  ℤ, pos, negsuc, atoi, has_prefix, has_suffix, drop,
}
use hardline.Base.Exec.{Exec, pure}
use hardline.Pluginapi.Host.{Host, Fault}

abbrev pub state_dir : Text
state_dir = codes "/var/lib/hardline"

abbrev pub state_last_update : Text
state_last_update = codes "/var/lib/hardline/last-update"

abbrev pub state_last_upgrade : Text
state_last_upgrade = codes "/var/lib/hardline/last-upgrade"

abbrev pub state_last_autoremove : Text
state_last_autoremove = codes "/var/lib/hardline/last-autoremove"

pub data SinceError : Type 0 where
  bad_format missing_value invalid_count : Text → SinceError
  unknown_unit : ℕ → Text → SinceError

-- The `int64` with these 64 bits, and the bits of an `int64`.
unfoldable pub int64 : ℕ → ℤ
int64 n = let m = n % 2 ^ 64 in if ltb m (2 ^ 63) then pos m else negsuc (2 ^ 64 - 1 - m)

unfoldable pub bits64 : ℤ → ℕ
bits64 (pos n) = n % 2 ^ 64
bits64 (negsuc n) = 2 ^ 64 - 1 - n % 2 ^ 64

-- `a >= b`, and `a - b` of two `int64`.
unfoldable pub int_geb : ℤ → ℤ → Bool
int_geb (pos a) (pos b) = leb b a
int_geb (pos a) (negsuc b) = true
int_geb (negsuc a) (pos b) = false
int_geb (negsuc a) (negsuc b) = leb a b

abbrev int_sub : ℤ → ℤ → ℤ
int_sub a b = int64 (bits64 a + (2 ^ 64 - bits64 b))

abbrev pub hour : ℕ
hour = 3600000000000

-- The nanoseconds of a unit.
abbrev pub unit_length : ℕ → Option ℕ
unit_length c =
    if nat_eq c b'h'
    then some hour
    else if nat_eq c b'd'
    then some (24 * hour)
    else if nat_eq c b'w'
    then some (7 * 24 * hour)
    else none

-- The first `n` bytes, and the last byte.
abbrev pub take : ℕ → Text → Text
take zero s = []
take (suc n) [] = []
take (suc n) (c ∷ s) = c ∷ take n s

abbrev pub last_byte : Text → ℕ
last_byte [] = 0
last_byte (c ∷ []) = c
last_byte (c ∷ (d ∷ s)) = last_byte (d ∷ s)

-- A count in a unit.
abbrev pub in_unit : Text → ℕ → ℕ → Option ℕ → Result SinceError ℤ
in_unit s n unit none = err (unknown_unit unit s)
in_unit s n unit (some l) = ok (int64 (n * l))

abbrev pub counted : Text → Option ℤ → ℕ → Result SinceError ℤ
counted s none unit = err (invalid_count s)
counted s (some (negsuc n)) unit = err (invalid_count s)
counted s (some (pos zero)) unit = err (invalid_count s)
counted s (some (pos (suc n))) unit = in_unit s (suc n) unit (unit_length unit)

abbrev pub since_suffix : Text
since_suffix = codes "_since_last"

-- strings.TrimSuffix and strings.TrimPrefix. The two may overlap, as in `if_since_last`.
abbrev pub trim_suffix : Text → Text → Text
trim_suffix s suffix = if has_suffix s suffix then take (length s - length suffix) s else s

abbrev pub trim_prefix : Text → Text → Text
trim_prefix s prefix = if has_prefix s prefix then drop (length prefix) s else s

abbrev pub since_inner : Text → Text
since_inner s = trim_prefix (trim_suffix s since_suffix) (codes "if_")

unfoldable pub parse_since_duration : Text → Result SinceError ℤ
parse_since_duration s =
    let inner = since_inner s in
    if not (has_prefix s (codes "if_")) || not (has_suffix s since_suffix)
    then err (bad_format s)
    else if ltb (length inner) 2
    then err (missing_value s)
    else counted s (atoi (take (length inner - 1) inner)) (last_byte inner)

-- The cases of the `switch` on a mode.
pub data Mode : Type 0 where
  never always once : Mode
  since : Text → Mode

unfoldable pub mode_of : Text → Mode
mode_of mode =
    if mode == [] || mode == codes "never"
    then never
    else if mode == codes "always"
    then always
    else if mode == codes "once"
    then once
    else since mode

pub data ModeError : Type 0 where
  invalid_value : Text → Text → SinceError → ModeError

unfoldable pub validate_op_mode : Text → Text → Result ModeError (Unit {0})
validate_op_mode field mode = elim (mode_of mode) [
  | since m ↦ elim (parse_since_duration m) [
    | err e ↦ err (invalid_value field mode e)
    | ok d ↦ ok tt
  ]
  | _ ↦ ok tt
]

-- strconv.Itoa of a natural number below 10 ^ fuel.
abbrev decimal_digits : ℕ → ℕ → Text → Text
decimal_digits zero n behind = behind
decimal_digits (suc fuel) n behind =
    let rest = decimal_digits fuel (n / 10) ((b'0' + n % 10) ∷ behind) in
    if ltb n 10 then (b'0' + n) ∷ behind else rest

unfoldable pub decimal : ℕ → Text
decimal n = decimal_digits 20 n []

abbrev pub minute : ℕ
minute = 60000000000

-- The minutes of a negative duration are truncated. Go computes them through a float, whose rounding
-- shows only behind more than half a year.
abbrev minutes_text : ℤ → Text
minutes_text (pos n) = decimal (n / minute)
minutes_text (negsuc n) = if ltb (suc n) minute then codes "0" else b'-' ∷ decimal (suc n / minute)

unfoldable pub format_elapsed : ℤ → Text
format_elapsed d = elim d [
  | negsuc n ↦ minutes_text (negsuc n) ++ codes "m"
  | pos n ↦
      if leb (7 * 24 * hour) n
      then decimal (n / (7 * 24 * hour)) ++ codes "w"
      else if leb (24 * hour) n
      then decimal (n / (24 * hour)) ++ codes "d"
      else if leb hour n
      then decimal (n / hour) ++ codes "h"
      else minutes_text (pos n) ++ codes "m"
]

pub record Decision : Type 0 where
  pub will_run : Bool
  pub reason : Text

abbrev pub decision : Bool → Text → Decision
decision b t = record { will_run = b; reason = t }

-- Whether the file says that the operation is due, and the reason that the plan gives.
unfoldable pub is_due : ℤ → Result Fault ℤ → Bool
is_due dur (err e) = true
is_due dur (ok elapsed) = int_geb elapsed dur

unfoldable pub due_decision : Text → ℤ → Result Fault ℤ → Decision
due_decision mode dur (err e) = decision true (codes "never ran")
due_decision mode dur (ok elapsed) =
    if int_geb elapsed dur
    then decision true
        (codes "last ran " ++ (format_elapsed elapsed ++ (codes " ago, threshold " ++ mode)))
    else decision false (
        codes "ran "
        ++ (format_elapsed elapsed
            ++ (codes " ago, threshold "
                ++ (mode
                    ++ (codes " (next run in ~"
                        ++ (format_elapsed (int_sub dur elapsed) ++ codes ")"))))))

unfoldable pub needs_would_change : Text → Text → Text → Bool
needs_would_change update upgrade autoremove =
    update == codes "once" || (upgrade == codes "once" || autoremove == codes "once")

module _ {W : Type 0} (host : Host W) where
  abbrev pub run_if_due : Text → Result SinceError ℤ → Exec W SinceError Bool
  run_if_due file (err e) w = (err e, w)
  run_if_due file (ok dur) w = let (age, w') = host.stat_age file w in (ok (is_due dur age), w')

  abbrev pub run_mode : Text → Bool → Mode → Exec W SinceError Bool
  run_mode file would_change never = pure false
  run_mode file would_change always = pure true
  run_mode file would_change once = pure would_change
  run_mode file would_change (since mode) = run_if_due file (parse_since_duration mode)

  unfoldable pub should_run : Text → Text → Bool → Exec W SinceError Bool
  should_run mode file would_change = run_mode file would_change (mode_of mode)

  abbrev pub decide_if_due : Text → Text → Result SinceError ℤ → Exec W SinceError Decision
  decide_if_due mode file (err e) w = (err e, w)
  decide_if_due mode file (ok dur) w =
      let (age, w') = host.stat_age file w in (ok (due_decision mode dur age), w')

  abbrev pub decide_mode : Text → Bool → Mode → Exec W SinceError Decision
  decide_mode file would_change never = pure (decision false [])
  decide_mode file would_change always = pure (decision true (codes "always"))
  decide_mode file would_change once = pure (
      if would_change
      then decision true (codes "once: packages need to change")
      else decision false (codes "once: packages already aligned"))
  decide_mode file would_change (since mode) = decide_if_due mode file (parse_since_duration mode)

  unfoldable pub plan_op_decision : Text → Text → Bool → Exec W SinceError Decision
  plan_op_decision mode file would_change = decide_mode file would_change (mode_of mode)

  -- What goes wrong here is only a warning. `now` is the runner's clock, as RFC 3339.
  unfoldable pub mark_ran : (W → Text) → Text → W → W
  mark_ran now file w =
      let (r, w1) = host.run_root (codes "mkdir -p " ++ state_dir) w in
      if is_ok r then (host.write_root_file file (now w1 ++ (10 ∷ [])) 420 w1).1 else w1
