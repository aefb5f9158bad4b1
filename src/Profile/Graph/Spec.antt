-- ===== src/Profile/Graph/Spec.antt =====
-- What `validateStepGraph` decides: ids are clean and distinct, and a step watches only steps that
-- stand before it.
use hardline.Base.{
  ℕ, ◌+◌, Text, codes, ◌==◌, ==_iff, ◌≡◌, ◌≢◌, refl, Bool, true, false, not, ◌&&◌, Option, none,
  some, List, [], ◌∷◌, ◌++◌, Result, ok, err, if◌then◌else◌, is_nil, trim_space, ltb, any, all,
  arith, ◌||◌, ◌>>=◌, Bool-cases, inl, inr, length, is_some,
}
use hardline.Pluginapi.Host.{Fault}
use hardline.Pluginapi.Registry.{Step, plugin_name}
use hardline.Profile.Graph.{GraphError, check_deps, watched_of, watched_steps}

abbrev pub is_in : Text → List Text → Bool
is_in x l = any (λ y. y == x) l

abbrev pub clean_id : Text → Bool
clean_id id = not (is_nil (trim_space id)) && trim_space id == id

-- The ids of the steps, one after another, are clean, and none stands among the earlier ones.
abbrev pub ids_fresh : List Text → List Text → Bool
ids_fresh earlier [] = true
ids_fresh earlier (id ∷ rest) =
    (clean_id id && not (is_in id earlier)) && ids_fresh (earlier ++ (id ∷ [])) rest

abbrev pub good_watch : List Text → Result GraphError (List Text) → Bool
good_watch earlier (err e) = false
good_watch earlier (ok deps) = all (λ d. is_in d earlier) deps

-- What a decoded config watches has clean ids, and all of it stands before the step.
abbrev pub good_config : List Text → Result Fault (Option (List Text)) → Bool
good_config earlier (err f) = false
good_config earlier (ok none) = true
good_config earlier (ok (some deps)) = all (λ d. clean_id d && is_in d earlier) deps

module _ {C : Type 0} (decode : C → Result Fault (Option (List Text))) where
  -- Only a service step watches others.
  abbrev pub good_step : List Text → Step C → Bool
  good_step earlier s =
      not (plugin_name s == codes "service") || good_config earlier (decode s.config)

  -- Every step decodes, and all that it watches stands before it.
  abbrev pub watches_earlier : List Text → List (Step C) → Bool
  watches_earlier earlier [] = true
  watches_earlier earlier (s ∷ rest) =
      good_step earlier s && watches_earlier (earlier ++ (s.id ∷ [])) rest

good_watch-cons :
    (earlier : List Text) (d : Text) (r : Result GraphError (List Text))
    → good_watch earlier (r >>= λ out. ok (d ∷ out)) ≡ is_in d earlier && good_watch earlier r
good_watch-cons earlier d (ok l) = refl
good_watch-cons earlier d (err e) = ground arith

check_deps-good_watch :
    (earlier : List Text) (id : Text) (deps : List Text)
    → good_watch earlier (check_deps id deps) ≡ all (λ d. clean_id d && is_in d earlier) deps
unfolding check_deps
check_deps-good_watch earlier id [] = refl
check_deps-good_watch earlier id (d ∷ deps) = elim (Bool-cases (is_nil (trim_space d))) [
  | inl e ↦ rw e refl
  | inr e ↦ elim (Bool-cases (trim_space d == d)) [
    | inr f ↦ rw (e, f) refl
    | inl f ↦
        rw
          (
            e,
            f,
            good_watch-cons earlier d (check_deps id deps),
            check_deps-good_watch earlier id deps,
          )
          refl
  ]
]

module _ {C : Type 0} (decode : C → Result Fault (Option (List Text))) where
  watched_of-good_config :
      (earlier : List Text) (id : Text) (r : Result Fault (Option (List Text)))
      → good_watch earlier (watched_of decode id r) ≡ good_config earlier r
  watched_of-good_config earlier id (err f) = refl
  watched_of-good_config earlier id (ok none) = refl
  watched_of-good_config earlier id (ok (some deps)) = check_deps-good_watch earlier id deps

  pub watched_steps-good_step :
      (earlier : List Text) (s : Step C)
      → good_watch earlier (watched_steps decode s) ≡ good_step decode earlier s
  unfolding watched_steps
  watched_steps-good_step earlier s = elim (Bool-cases (plugin_name s == codes "service")) [
    | inl e ↦ rw e (watched_of-good_config earlier s.id (decode s.config))
    | inr e ↦ rw e refl
  ]

-- The first position of a text.
unfoldable pub index_of : Text → List Text → Option ℕ
index_of x [] = none
index_of x (y ∷ l) =
    if y == x then some 0 else elim (index_of x l) [ none ↦ none | some n ↦ some (n + 1) ]

pub index_of-append :
    (x y : Text) (l : List Text)
    → index_of x (l ++ (y ∷ []))
      ≡ elim (index_of x l) [ none ↦ if y == x then some (length l) else none | some n ↦ some n ]
unfolding index_of
index_of-append x y [] = ground arith
index_of-append x y (z ∷ l) = ground (arith, index_of-append x y l)

pub index_of-is_in : (x : Text) (l : List Text) → is_some (index_of x l) ≡ is_in x l
unfolding index_of
index_of-is_in x [] = refl
index_of-is_in x (y ∷ l) = ground (arith, index_of-is_in x l)

-- A position up to that of `y` is one before `y`, for any other text.
abbrev pub at_most : ℕ → Option ℕ → Bool
at_most n none = false
at_most n (some i) = not (ltb n i)

pub index_of-earlier :
    (x y : Text) (l r : List Text)
    → x ≢ y
    → at_most (length l) (index_of x (l ++ (y ∷ r))) ≡ is_in x l
unfolding index_of
index_of-earlier x y [] r ne = ground (arith, ==_iff y x)
index_of-earlier x y (z ∷ l) r ne = ground (arith, index_of-earlier x y l r ne)
