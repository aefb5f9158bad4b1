-- ===== src/Plugins/Packages/Settled.antt =====
-- internals/plugins/packages/backend.go: a capture, the conflict check on it, and the rollback that it
-- promises.
use hardline.Base.{
  Text, ◌≡◌, refl, sym, subst, Result, ap, Bool, true, false, ◌&&◌, List, [], ◌∷◌, ◌++◌, ◌==◌,
  ==_refl, ok, if◌then◌else◌, is_nil, arith, All, trim_space, trim_left, trim_right, is_space,
  text_gt, Bool-cases, inl, inr,
}
use hardline.Base.Exec.{wrapping, wrapping-ok, >>=-ok}
use hardline.Pluginapi.Host.{Host}
use hardline.Pluginapi.Records.{CaptureResult, ObjectRecord, PackageState}
use hardline.Plugins.Packages.{Spec}
use hardline.Plugins.Packages.Names.{member}
use hardline.Plugins.Packages.Exec.{trimmed_names, insert_name, sorted_names, targets}
use hardline.Plugins.Packages.Backend.{Backend, PackageError, PkgFound, capture_failed}
use hardline.Plugins.Packages.Snapshot.{
  capture, capture_names, record_of, state_conflict, conflict, detect_conflict,
}

trim_right_idem : (s : Text) → trim_right (trim_right s) ≡ trim_right s
unfolding trim_right
trim_right_idem [] = refl
trim_right_idem (c ∷ s) = elim (Bool-cases (is_space c && is_nil (trim_right s))) [
  | inl e ↦ rw e refl
  | inr e ↦ rw e (rw (trim_right_idem s, e) refl)
]

-- What is left of a text that was trimmed on the left starts with no space.
trim_left-trim_right : (s : Text) → trim_left (trim_right (trim_left s)) ≡ trim_right (trim_left s)
unfolding trim_left trim_right
trim_left-trim_right [] = refl
trim_left-trim_right (c ∷ s) = elim (Bool-cases (is_space c)) [
  | inl e ↦ rw e (trim_left-trim_right s)
  | inr e ↦ rw e (rw e (rw e refl))
]

trim_space_idem : (s : Text) → trim_space (trim_space s) ≡ trim_space s
unfolding trim_space
trim_space_idem s = rw (trim_left-trim_right s) (trim_right_idem (trim_left s))

-- A name as a capture records it.
abbrev IsTrimmed : Text → Type 0
IsTrimmed n = (trim_space n ≡ n) × (is_nil n ≡ false)

trimmed_names-IsTrimmed : (l : List Text) → All IsTrimmed (trimmed_names l)
unfolding trimmed_names
trimmed_names-IsTrimmed [] = tt
trimmed_names-IsTrimmed (raw ∷ l) = elim (Bool-cases (is_nil (trim_space raw))) [
  | inl e ↦ rw e (trimmed_names-IsTrimmed l)
  | inr e ↦ rw e ((trim_space_idem raw, e), trimmed_names-IsTrimmed l)
]

All-append : (l m : List Text) → All IsTrimmed l → All IsTrimmed m → All IsTrimmed (l ++ m)
All-append [] m a b = b
All-append (n ∷ l) m (h, a) b = (h, All-append l m a b)

All-if :
    (c : Bool) (l m : List Text)
    → All IsTrimmed l
    → All IsTrimmed m
    → All IsTrimmed (if c then l else m)
All-if true l m a b = a
All-if false l m a b = b

insert_name-IsTrimmed :
    (n : Text) (l : List Text) → IsTrimmed n → All IsTrimmed l → All IsTrimmed (insert_name n l)
unfolding insert_name
insert_name-IsTrimmed n [] h a = (h, tt)
insert_name-IsTrimmed n (m ∷ l) h (k, a) =
    All-if (n == m) _ _ (k, a)
      (All-if (text_gt n m) _ _ (k, insert_name-IsTrimmed n l h a) (h, (k, a)))

sorted_names-IsTrimmed : (l : List Text) → All IsTrimmed l → All IsTrimmed (sorted_names l)
unfolding sorted_names
sorted_names-IsTrimmed [] a = tt
sorted_names-IsTrimmed (n ∷ l) (h, a) =
    insert_name-IsTrimmed n (sorted_names l) h (sorted_names-IsTrimmed l a)

targets-IsTrimmed : (l m : List Text) → All IsTrimmed (targets l m).names
unfolding targets
targets-IsTrimmed l m = sorted_names-IsTrimmed (trimmed_names l ++ trimmed_names m) (
    All-append (trimmed_names l) (trimmed_names m) (trimmed_names-IsTrimmed l)
      (trimmed_names-IsTrimmed m))

abbrev state_of_found : List Text → List Text → Text → PkgFound → PackageState
state_of_found install purge name f = record {
  name = name;
  was_installed = f.installed;
  version = f.version;
  pin_spec = f.pin;
  requested_install = member name install;
  requested_purge = member name purge;
}

state_conflict_self :
    (name : Text) (i p : List Text) (f : PkgFound)
    → state_conflict name (state_of_found i p name f) f ≡ []
unfolding state_conflict
state_conflict_self name i p f = ground (arith, ==_refl f.version)

at_pair : {A B : Type 0} {a : A} {b : B} (p : A × B) → p.0 ≡ a → p.1 ≡ b → p ≡ (a, b)
at_pair (x, y) h k = rw (h, k) refl

ok_injective : {A : Type 0} (a b : A) → ◌≡◌ {A = Result PackageError A} (ok a) (ok b) → a ≡ b
ok_injective a b h = cc

module _ {W : Type 0} (b : Backend W) (host : Host W) (s : Spec) (w : W)
    (reads : (name : Text) → (b.query host name w).1 ≡ w) where
  -- The record is in no conflict with the host.
  abbrev IsCalm : ObjectRecord → Type 0
  IsCalm o = detect_conflict b host o w ≡ ([], w)

  settled_record :
      (i p : List Text) (n : Text) (f : PkgFound)
      → IsTrimmed n
      → (b.query host n w).0 ≡ ok f
      → IsCalm (record_of i p n f)
  unfolding detect_conflict conflict
  settled_record i p n f (same, filled) found =
      let quiet : state_conflict n (state_of_found i p n f) f ≡ [] = state_conflict_self n i p f in
      rw (same, filled, at_pair (b.query host n w) found (reads n))
        (ap (λ (l : List Text). (l, w)) quiet)

  settled_names :
      (i p d names : List Text) (r : List ObjectRecord × Bool)
      → All IsTrimmed names
      → (capture_names b host i p d names w).0 ≡ ok r
      → ((capture_names b host i p d names w).1 ≡ w) × All IsCalm r.0
  unfolding capture_names
  settled_names i p d [] r a h = (refl, rw (sym (ok_injective _ r h)) tt)
  settled_names i p d (n ∷ names) r (t, a) h =
      let (f, found, on) = >>=-ok (wrapping capture_failed (b.query host n)) _ w r h in
      let asked = wrapping-ok capture_failed (b.query host n) w found in
      let (later, took, on1) =
        >>=-ok (capture_names b host i p d names) _ w r (rw (reads n) at (rw on at h)) in
      let (same, calm) = settled_names i p d names later a took in
      let whole = ok_injective _ r (rw on1 at (rw (reads n) at (rw on at h))) in
      (
        rw (on, reads n, on1) same,
        subst (λ (r : List ObjectRecord × Bool). All IsCalm r.0) whole
            (settled_record i p n f t asked, calm),
      )

  -- If asking for a package leaves the host alone, whatever it answers, then so does a capture that
  -- succeeds, and none of its records is in conflict with the host that it was taken from.
  pub capture-conflict_free :
      (r : CaptureResult)
      → (capture b host s w).0 ≡ ok r
      → ((capture b host s w).1 ≡ w) × All (λ o. detect_conflict b host o w ≡ ([], w)) r.objects
  unfolding capture
  capture-conflict_free r h =
      let t = targets s.install (s.purge ++ s.purge_also_removes) in
      let d = (targets [] s.purge).purge in
      let (taken, took, on) = >>=-ok (capture_names b host t.install t.purge d t.names) _ w r h in
      let (same, calm) =
        settled_names t.install t.purge d t.names taken
          (targets-IsTrimmed s.install (s.purge ++ s.purge_also_removes)) took in
      (
        rw on same,
        subst (λ (r : CaptureResult). All IsCalm r.objects) (ok_injective _ r (rw on at h)) calm,
      )
