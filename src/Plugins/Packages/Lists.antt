-- ===== src/Plugins/Packages/Lists.antt =====
-- internals/plugins/packages/validate.go: what the checks of the two lists decide.
use hardline.Base.{
  Text, ◌≡◌, refl, ap, sym, ◌∙◌, Bool, true, false, not, ◌&&◌, ◌||◌, List, [], ◌∷◌, Result, ok, err,
  is_ok, ◌>>=◌, ◌>>◌, is_nil, all, map, trim_space, arith, ◌==◌, ==_iff,
}
use hardline.Plugins.Packages.Names.{member}
use hardline.Plugins.Packages.Validate.{
  ListError, validate_names, check_install, check_purge, validate_lists,
}

-- No name stands in the list twice.
abbrev pub distinct : List Text → Bool
distinct [] = true
distinct (n ∷ l) = not (member n l) && distinct l

-- No name stands in both lists.
abbrev pub apart : List Text → List Text → Bool
apart l m = all (λ n. not (member n m)) l

-- An entry is blank if it has nothing but spaces.
abbrev pub filled : List Text → Bool
filled l = all (λ raw. not (is_nil (trim_space raw))) l

is_ok-validate_names :
    (pattern : Text → Bool) (l : List Text) → is_ok (validate_names pattern l) ≡ all pattern l
unfolding validate_names
is_ok-validate_names pattern [] = refl
is_ok-validate_names pattern (n ∷ l) = ground (arith, is_ok-validate_names pattern l)

==_sym : (a b : Text) → (a == b) ≡ (b == a)
==_sym a b = ground (arith, ==_iff a b, ==_iff b a)

-- Against names that were seen before: those of the head, or others.
apart-cons : (n : Text) (l seen : List Text) → apart l (n ∷ seen) ≡ not (member n l) && apart l seen
unfolding member
apart-cons n [] seen = refl
apart-cons n (m ∷ l) seen = ground (arith, ==_sym n m, apart-cons n l seen)

is_ok-check_install :
    (seen l : List Text)
    → is_ok (check_install seen l)
      ≡ filled l && (apart (map trim_space l) seen && distinct (map trim_space l))
unfolding check_install
is_ok-check_install seen [] = refl
is_ok-check_install seen (raw ∷ l) = ground (
  arith,
  is_ok-check_install (trim_space raw ∷ seen) l,
  apart-cons (trim_space raw) (map trim_space l) seen,
)

is_ok-check_purge :
    (install seen l : List Text)
    → is_ok (check_purge install seen l)
      ≡ filled l
        && (apart (map trim_space l) seen
            && (distinct (map trim_space l) && apart (map trim_space l) install))
unfolding check_purge
is_ok-check_purge install seen [] = refl
is_ok-check_purge install seen (raw ∷ l) = ground (
  arith,
  is_ok-check_purge install (trim_space raw ∷ seen) l,
  apart-cons (trim_space raw) (map trim_space l) seen,
)

-- The names that the first loop returns.
check_install-member :
    (seen l r : List Text)
    → check_install seen l ≡ ok r
    → (n : Text) → member n r ≡ member n (map trim_space l) || member n seen
unfolding check_install member
check_install-member seen [] r h n = ap (member n) (let e : r ≡ seen = sym (cc) in e)
check_install-member seen (raw ∷ l) r h n =
    let next : check_install (trim_space raw ∷ seen) l ≡ ok r = ground arith in
    ground (arith, check_install-member (trim_space raw ∷ seen) l r next n)

apart-same : (l m k : List Text) → ((n : Text) → member n m ≡ member n k) → apart l m ≡ apart l k
apart-same [] m k h = refl
apart-same (n ∷ l) m k h = ground (arith, h n, apart-same l m k h)

is_ok-bind :
    (r : Result ListError (List Text)) (f : List Text → Result ListError (Unit {0})) (b c : Bool)
    → is_ok r ≡ b
    → ((l : List Text) → r ≡ ok l → is_ok (f l) ≡ c)
    → is_ok (r >>= f) ≡ b && c
is_ok-bind (ok l) f b c e h = rw (sym e) (h l refl)
is_ok-bind (err x) f b c e h = rw (sym e) refl

is_ok-then : (r q : Result ListError (Unit {0})) → is_ok (r >> q) ≡ is_ok r && is_ok q
is_ok-then (ok x) q = refl
is_ok-then (err e) q = refl

apart-nil : (l : List Text) → apart l [] ≡ true
unfolding member
apart-nil [] = refl
apart-nil (n ∷ l) = apart-nil l

member-nil : (b : Bool) (n : Text) → b || member n [] ≡ b
unfolding member
member-nil true n = refl
member-nil false n = refl

-- The second loop, after the first has returned its names.
after_install :
    (pattern : Text → Bool) (i p l : List Text)
    → check_install [] i ≡ ok l
    → is_ok (check_purge l [] p >> validate_names pattern i >> validate_names pattern p)
      ≡ (filled p && (distinct (map trim_space p) && apart (map trim_space p) (map trim_space i)))
        && (all pattern i && all pattern p)
after_install pattern i p l h =
    let same : apart (map trim_space p) l ≡ apart (map trim_space p) (map trim_space i) =
      apart-same (map trim_space p) l (map trim_space i)
        (λ n. check_install-member [] i l h n ∙ member-nil (member n (map trim_space i)) n) in
    rw
      (
        is_ok-then (check_purge l [] p >> validate_names pattern i) (validate_names pattern p),
        is_ok-then (check_purge l [] p) (validate_names pattern i),
        is_ok-check_purge l [] p,
        is_ok-validate_names pattern i,
        is_ok-validate_names pattern p,
        apart-nil (map trim_space p),
        same,
      )
      (ground arith)

-- The check of the two lists succeeds exactly if no entry is blank, no name without the spaces around
-- it stands twice in a list or once in both, and every entry matches the backend's pattern.
pub validate_lists-decides :
    (pattern : Text → Bool) (i p : List Text)
    → is_ok (validate_lists pattern i p)
      ≡ (filled i && distinct (map trim_space i))
        && ((filled p
              && (distinct (map trim_space p) && apart (map trim_space p) (map trim_space i)))
            && (all pattern i && all pattern p))
unfolding validate_lists
validate_lists-decides pattern i p =
    is_ok-bind (check_install [] i) _ (filled i && distinct (map trim_space i)) _
      (rw (is_ok-check_install [] i, apart-nil (map trim_space i)) refl)
      (λ l h. after_install pattern i p l h)
