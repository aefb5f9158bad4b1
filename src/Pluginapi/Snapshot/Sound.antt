-- ===== src/Pluginapi/Snapshot/Sound.antt =====
-- pkg/pluginapi/helpers.go: what a snapshot that is taken says of the host.
use hardline.Base.{
  ℕ, ◌≤◌, ℤ, pos, negsuc, Text, ◌≡◌, ap, ◌∙◌, sym, true, false, Option, none, some, List, [], ◌∷◌,
  ==_refl, Result, ok, length, split, arith, ◌⊎◌, inl, inr, Bool-cases,
}
use hardline.Base.Exec.{lift, wrapping, wrapping-ok, >>=-ok}
use hardline.Pluginapi.Host.{Host}
use hardline.Pluginapi.Records.{FileSnapshot}
use hardline.Pluginapi.Probe.{StatProbe, parse_stat_probe}
use hardline.Pluginapi.Snapshot.{
  SnapshotError, StatFields, stat_failed, read_failed, stat_command, is_length, is_int,
  parse_fields, parse_stat_line, probe_verdict, read_present, after_verdict, snapshot_remote_file,
  snapshot_conflicts, file_snapshot_conflict, present, absent, check_fields,
}

snapshot_conflicts_self : (snap : FileSnapshot) → snapshot_conflicts snap snap ≡ []
unfolding snapshot_conflicts
snapshot_conflicts_self snap =
    ground
      (arith, ==_refl snap.content_b64, ==_refl snap.mode, ==_refl snap.owner, ==_refl snap.group)

-- What the probe has to have said for a file to count as absent.
abbrev pub SaysAbsent : StatProbe → Type 0
SaysAbsent p =
    (p.complete ≡ true) × (p.not_found ≡ true) × (p.failed ≡ false) × (is_int 1 p.rc ≡ true)

-- What it has to have said for a file with these fields.
abbrev pub SaysPresent : StatProbe → StatFields → Type 0
SaysPresent p f =
    (p.complete ≡ true) × (is_int 0 p.rc ≡ true) × (parse_stat_line p.stat_line ≡ ok f)

probe_verdict-absent : (p : StatProbe) → probe_verdict p ≡ ok none → SaysAbsent p
unfolding probe_verdict
probe_verdict-absent p h = ground arith

probe_verdict-present :
    (p : StatProbe) (f : StatFields) → probe_verdict p ≡ ok (some f) → SaysPresent p f
unfolding probe_verdict
probe_verdict-present p f h = ground arith

check_fields-size :
    (type mode owner group size : Text) (f : StatFields)
    → check_fields type mode owner group size ≡ ok f
    → (n : ℕ) → is_length n f.size ≡ true
    → n ≤ 1048576
unfolding check_fields
check_fields-size type mode owner group size f h n e = ground arith

is_length-pos : (n : ℕ) (size : ℤ) → is_length n size ≡ true → size ≡ pos n
is_length-pos n (pos m) h = ap pos (ground arith)
is_length-pos n (negsuc m) h = absurd (cc)

ok_injective :
    (a b : FileSnapshot) → ◌≡◌ {A = Result SnapshotError FileSnapshot} (ok a) (ok b) → a ≡ b
ok_injective a b h = cc

parse_fields-size :
    (line : Text) (l : List Text) (f : StatFields)
    → parse_fields line l ≡ ok f
    → (n : ℕ) → is_length n f.size ≡ true
    → n ≤ 1048576
parse_fields-size line [] f h n e = absurd (cc)
parse_fields-size line (a ∷ []) f h n e = absurd (cc)
parse_fields-size line (a ∷ (b ∷ [])) f h n e = absurd (cc)
parse_fields-size line (a ∷ (b ∷ (c ∷ []))) f h n e = absurd (cc)
parse_fields-size line (a ∷ (b ∷ (c ∷ (d ∷ [])))) f h n e = absurd (cc)
parse_fields-size line (a ∷ (b ∷ (c ∷ (d ∷ (g ∷ []))))) f h n e =
    check_fields-size a b c d g f h n e
parse_fields-size line (a ∷ (b ∷ (c ∷ (d ∷ (g ∷ (i ∷ l)))))) f h n e = absurd (cc)

module _ {W : Type 0} (host : Host W) where
  read_present_sound :
      (path : Text) (f : StatFields) (w : W) (snap : FileSnapshot)
      → (read_present host path f w).0 ≡ ok snap
      → (content : Text) × ((host.read_root_file path w).0 ≡ ok content)
        × (is_length (length content) f.size ≡ true)
        × (snap ≡ present path f content)
  unfolding read_present
  read_present_sound path f w snap h =
      let (content, read, on) =
        >>=-ok (wrapping read_failed (host.read_root_file path)) _ w snap h in
      elim (Bool-cases (is_length (length content) f.size)) [
        | inl e ↦ (
          content,
          wrapping-ok read_failed (host.read_root_file path) w read,
          e,
          sym (ok_injective _ snap (rw e at (rw on at h))),
        )
        | inr e ↦ absurd (cc (rw e at (rw on at h)))
      ]

  -- What stands behind a snapshot: nothing was there, and `stat` said so, or the content was read.
  abbrev pub Backed : Text → FileSnapshot → StatProbe → W → Type 0
  Backed path snap p w =
      ((snap ≡ absent path) × SaysAbsent p)
      ⊎ ((f : StatFields) × (content : Text) × SaysPresent p f
          × ((host.read_root_file path w).0 ≡ ok content)
          × (f.size ≡ pos (length content))
          × (length content ≤ 1048576)
          × (snap ≡ present path f content))

  parse_stat_line-size :
      (line : Text) (f : StatFields)
      → parse_stat_line line ≡ ok f
      → (n : ℕ) → is_length n f.size ≡ true
      → n ≤ 1048576
  unfolding parse_stat_line
  parse_stat_line-size line f h n e = parse_fields-size line (split b'|' line) f h n e

  after_verdict-Backed :
      (path : Text) (p : StatProbe) (v : Option StatFields) (w : W) (snap : FileSnapshot)
      → probe_verdict p ≡ ok v
      → (after_verdict host path v w).0 ≡ ok snap
      → Backed path snap p w
  after_verdict-Backed path p none w snap v h =
      inl (sym (ok_injective (absent path) snap h), probe_verdict-absent p v)
  after_verdict-Backed path p (some f) w snap v h =
      let (content, read, fits, same) = read_present_sound path f w snap h in
      let says = probe_verdict-present p f v in
      inr (
        f,
        content,
        says,
        read,
        is_length-pos (length content) f.size fits,
        parse_stat_line-size p.stat_line f says.2 (length content) fits,
        same,
      )

  pub snapshot_remote_file-Backed :
      (path : Text) (w : W) (snap : FileSnapshot)
      → (snapshot_remote_file host path w).0 ≡ ok snap
      → (out : Text) × ((host.run_root_with_output (stat_command path) w).0 ≡ ok out)
        × Backed path snap
            (parse_stat_probe out path)
            (host.run_root_with_output (stat_command path) w).1
  unfolding snapshot_remote_file
  snapshot_remote_file-Backed path w snap h =
      let (out, said, on) =
        >>=-ok (wrapping stat_failed (host.run_root_with_output (stat_command path))) _ w snap h in
      let v = (host.run_root_with_output (stat_command path) w).1 in
      let (verdict, decided, on1) =
        >>=-ok (lift (probe_verdict (parse_stat_probe out path))) _ v snap (rw on at h) in
      (
        out,
        wrapping-ok stat_failed (host.run_root_with_output (stat_command path)) w said,
        after_verdict-Backed path (parse_stat_probe out path) verdict v snap decided
            (rw on1 at (rw on at h)),
      )

  snapshot_remote_file-path :
      (path : Text) (w : W) (snap : FileSnapshot)
      → (snapshot_remote_file host path w).0 ≡ ok snap
      → snap.path ≡ path
  snapshot_remote_file-path path w snap h =
      let (_, _, backed) = snapshot_remote_file-Backed path w snap h in
      elim backed [
        | inl (e, _) ↦ ap (λ (s : FileSnapshot). s.path) e
        | inr (f, content, _, _, _, _, e) ↦ ap (λ (s : FileSnapshot). s.path) e
      ]

  -- If taking a snapshot does not change the host, a file that was just recorded is in no conflict.
  pub file_snapshot_conflict-settled :
      (path : Text) (w : W) (snap : FileSnapshot)
      → snapshot_remote_file host path w ≡ (ok snap, w)
      → file_snapshot_conflict host snap w ≡ ([], w)
  unfolding file_snapshot_conflict
  file_snapshot_conflict-settled path w snap h =
      let same_path : snap.path ≡ path = snapshot_remote_file-path path w snap (ap (λ r. r.0) h) in
      let again : snapshot_remote_file host snap.path w ≡ (ok snap, w) =
        ap (λ q. snapshot_remote_file host q w) same_path ∙ h in
      rw again (ap (λ (l : List Text). (l, w)) (snapshot_conflicts_self snap))
