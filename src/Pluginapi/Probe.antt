-- ===== src/Pluginapi/Probe.antt =====
-- pkg/pluginapi/helpers.go: `parseStatProbe`, `statErrorNamesPath` and `detail`. Trimming the carriage
-- returns before the spaces around a line is the same as trimming the spaces.
use hardline.Base.{
  is_negative, ℕ, zero, suc, Text, codes, Bool, true, false, ◌&&◌, ◌||◌, Option, none, some, List,
  [], ◌∷◌, ◌++◌, ◌==◌, if◌then◌else◌, is_nil, ltb, nat_eq, length, trim_space, split, join,
  contains, has_prefix, has_suffix, ℤ, negsuc, atoi, cut_text,
}
use hardline.Pluginapi.Shell.Word.{unquote_shell_word}

abbrev pub stat_probe_prefix : Text
stat_probe_prefix = codes "HL-STAT:"

abbrev pub stat_probe_rc_prefix : Text
stat_probe_rc_prefix = codes "HL-RC:"

abbrev pub stat_error_prefix : Text
stat_error_prefix = codes "stat: "

abbrev pub stat_not_found_suffix : Text
stat_not_found_suffix = codes "No such file or directory"

pub record StatProbe : Type 0 where
  pub stat_line : Text
  pub rc : ℤ
  pub not_found : Bool
  pub failed : Bool
  pub noise : List Text
  pub complete : Bool

-- The text before the last occurrence of another, if there is one.
unfoldable pub before_last : Text → Text → Option Text
before_last sep [] = none
before_last sep (c ∷ s) =
    let rest = before_last sep s in
    elim rest [ some t ↦ some (c ∷ t) | none ↦ if has_prefix (c ∷ s) sep then some [] else none ]

abbrev is_word : Option Text → Text → Bool
is_word none path = false
is_word (some w) path = w == path

-- Whether what follows some space is the path as a quoted word.
unfoldable pub names_after_space : Text → Text → Bool
names_after_space path [] = false
names_after_space path (c ∷ s) =
    (nat_eq c 32 && is_word (unquote_shell_word s) path) || names_after_space path s

unfoldable pub stat_error_names_path : Text → Text → Bool
stat_error_names_path line path = elim (cut_text stat_error_prefix line) [
  | none ↦ false
  | some (before, after) ↦
      contains after (39 ∷ (path ++ (39 ∷ []))) || (elim (before_last (codes ": ") after) [
        | none ↦ false
        | some head ↦ names_after_space path head
      ])
]

abbrev add_noise : Text → StatProbe → StatProbe
add_noise t p = if is_nil t then p else record p { noise = p.noise ++ (t ∷ []) }

-- strings.Cut at a marker: what stands before it, and what behind it.
abbrev cut_pair : Text → Text → Text × Text
cut_pair sep line = elim (cut_text sep line) [ none ↦ (line, []) | some p ↦ p ]

-- One line of the output, without the spaces around it.
unfoldable pub probe_line : Text → StatProbe → Text → StatProbe
probe_line path p line =
    if contains line stat_probe_prefix
    then (let (before, after) = cut_pair stat_probe_prefix line in
        record (add_noise (trim_space before) p) { stat_line = after })
    else if contains line stat_probe_rc_prefix
    then (let (before, after) = cut_pair stat_probe_rc_prefix line in
        elim (atoi (trim_space after)) [
          | none ↦ add_noise line p
          | some code ↦ record (add_noise (trim_space before) p) { rc = code }
        ])
    else if stat_error_names_path line path
    then (let (before, after) = cut_pair stat_error_prefix line in
        let p' = add_noise (trim_space before) p in
        let q =
          (if has_suffix after stat_not_found_suffix
            then record p' { not_found = true }
            else record p' { failed = true }) in
        record q { noise = q.noise ++ ((stat_error_prefix ++ after) ∷ []) })
    else add_noise line p

unfoldable pub probe_lines : Text → StatProbe → List Text → StatProbe
probe_lines path p [] = p
probe_lines path p (line ∷ rest) = probe_lines path (probe_line path p (trim_space line)) rest

abbrev no_answer : List Text → StatProbe
no_answer noise = record {
  stat_line = [];
  rc = negsuc 0;
  not_found = false;
  failed = false;
  noise = noise;
  complete = false;
}

unfoldable pub parse_stat_probe : Text → Text → StatProbe
parse_stat_probe out path =
    let p = probe_lines path (no_answer []) (split 10 out) in
    if is_negative p.rc then no_answer p.noise else record p { complete = true }

-- The last `n` elements.
abbrev last_of : {A : Type 0} → ℕ → List A → List A
last_of n [] = []
last_of n (x ∷ l) = let rest = last_of n l in if ltb n (length (x ∷ l)) then rest else x ∷ l

unfoldable pub detail : StatProbe → Text
detail p =
    let d = join (last_of 3 p.noise) (codes "; ") in
    if ltb 512 (length d) then codes "..." ++ last_of 512 d else d

-- The first `n` elements.
abbrev first_of : {A : Type 0} → ℕ → List A → List A
first_of zero l = []
first_of (suc n) [] = []
first_of (suc n) (x ∷ l) = x ∷ first_of n l

unfoldable pub first_lines : Text → ℕ → Text
first_lines out n =
    if is_nil (trim_space out)
    then []
    else join (first_of n (split 10 (trim_space out))) (codes "; ")
