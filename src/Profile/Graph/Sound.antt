-- ===== src/Profile/Graph/Sound.antt =====
-- `validateStepGraph` accepts exactly the profiles whose ids are clean and distinct and whose steps
-- watch only earlier steps.
use hardline.Base.{
  ℕ, ◌+◌, Text, ◌==◌, ==_iff, ◌≡◌, refl, ap, ◌∙◌, sym, Bool, true, false, not, ◌&&◌, Option, none,
  some, List, [], ◌∷◌, ◌++◌, Result, ok, err, ◌>>=◌, if◌then◌else◌, is_nil, trim_space, lookup, put,
  lookup-put, map, arith, length, length-append, Bool-cases, Option-cases, inl, inr, ◌⊎◌,
}
use mathlib.Core.List.{append_assoc, append-nil, map-append}
use hardline.Pluginapi.Registry.{Step, ActionFile, profile_steps}
use hardline.Profile.Graph.{
  GraphError, empty_id, padded_id, duplicate_id, Positions, place_id, place_steps, place_files,
}
use hardline.Profile.Graph.Spec.{
  is_in, clean_id, ids_fresh, index_of, index_of-append, index_of-is_in,
}

-- The map holds the first positions of these ids, and the order is their number.
pub record Holds (ids : List Text) (p : Positions) : Type 0 where
  pub counted : p.order ≡ length ids
  pub found : (k : Text) → lookup k p.position ≡ index_of k ids

-- A test and a result agree: success with what the test promises, or failure.
abbrev pub Agrees : {A : Type 0} → Bool → (A → Type 0) → Result GraphError A → Type 0
Agrees {A} b P r =
    ((b ≡ true) × (a : A) × (r ≡ ok a) × P a) ⊎ ((b ≡ false) × (e : GraphError) × (r ≡ err e))

option_eta : (o : Option ℕ) → o ≡ elim o [ none ↦ none | some n ↦ some n ]
option_eta none = refl
option_eta (some n) = refl

place_here :
    (id k : Text) (ids : List Text) (p : Positions)
    → Holds ids p
    → index_of id ids ≡ none
    → (id == k) ≡ true
    → (if id == k then some p.order else lookup k p.position) ≡ index_of k (ids ++ (id ∷ []))
place_here id k ids p h c g =
    let e = (==_iff id k).0 g in
    let c' = ap (λ t. index_of t ids) (sym e) ∙ c in
    rw (g, index_of-append k id ids, c', g, h.counted) refl

place_other :
    (id k : Text) (ids : List Text) (p : Positions)
    → Holds ids p
    → (id == k) ≡ false
    → (if id == k then some p.order else lookup k p.position) ≡ index_of k (ids ++ (id ∷ []))
place_other id k ids p h g = ground (arith, index_of-append k id ids, h.found k, g)

place_same :
    (id k : Text) (ids : List Text) (p : Positions)
    → Holds ids p
    → index_of id ids ≡ none
    → (if id == k then some p.order else lookup k p.position) ≡ index_of k (ids ++ (id ∷ []))
place_same id k ids p h c = elim (Bool-cases (id == k)) [
  | inl g ↦ place_here id k ids p h c g
  | inr g ↦ place_other id k ids p h g
]

place-Holds :
    (id : Text) (ids : List Text) (p : Positions)
    → Holds ids p
    → trim_space id ≡ id
    → index_of id ids ≡ none
    → Holds
        (ids ++ (id ∷ []))
        (record { position = put (trim_space id) p.order p.position; order = p.order + 1 })
place-Holds id ids p h e c = record {
  counted = omega (arith, h.counted, length-append ids (id ∷ []));
  found = λ k. rw e (lookup-put id k p.order p.position ∙ place_same id k ids p h c);
}

place_id-Agrees :
    (path id : Text) (ids : List Text) (p : Positions)
    → Holds ids p
    → Agrees (clean_id id && not (is_in id ids)) (Holds (ids ++ (id ∷ []))) (place_id path id p)
unfolding place_id
place_id-Agrees path id ids p h = elim (Bool-cases (is_nil (trim_space id))) [
  | inl a ↦ inr (ground arith, empty_id path, rw a)
  | inr a ↦ elim (Bool-cases (trim_space id == id)) [
    | inr b ↦ inr (ground arith, padded_id path id, rw (a, b))
    | inl b ↦
        let e = (==_iff (trim_space id) id).0 b in
        let known = h.found (trim_space id) ∙ ap (λ (t : Text). index_of t ids) e in
        elim (Option-cases (index_of id ids)) [
          | inr (n, c) ↦ inr (
            ground (arith, index_of-is_in id ids),
            duplicate_id path (trim_space id),
            rw (a, b, known ∙ c),
          )
          | inl c ↦ inl (
            ground (arith, index_of-is_in id ids),
            record { position = put (trim_space id) p.order p.position; order = p.order + 1 },
            rw (a, b, known ∙ c),
            place-Holds id ids p h e c,
          )
        ]
  ]
]

-- What follows a first part that agrees with its test.
pub then-Agrees :
    {A B : Type 0} {a b : Bool} {P : A → Type 0} {Q : B → Type 0} {r : Result GraphError A}
    (k : A → Result GraphError B)
    → Agrees a P r
    → ((p : A) → P p → Agrees b Q (k p))
    → Agrees (a && b) Q (r >>= k)
then-Agrees k (inl (x, p, e, h)) next = rw (x, e) (next p h)
then-Agrees k (inr (x, f, e)) next = rw (x, e) (inr (refl, f, refl))

place_steps-Agrees :
    {C : Type 0} (path : Text) (l : List (Step C)) (ids : List Text) (p : Positions)
    → Holds ids p
    → Agrees
        (ids_fresh ids (map (λ s. s.id) l))
        (Holds (ids ++ map (λ s. s.id) l))
        (place_steps path l p)
unfolding place_steps
place_steps-Agrees path [] ids p h = inl (refl, p, refl, rw append-nil h)
place_steps-Agrees path (s ∷ l) ids p h = rw (← append_assoc ids (s.id ∷ []) (map (λ t. t.id) l)) (
    then-Agrees (place_steps path l) (place_id-Agrees path s.id ids p h)
      (place_steps-Agrees path l (ids ++ (s.id ∷ []))))

pub and_assoc : (a b c : Bool) → a && (b && c) ≡ (a && b) && c
and_assoc true b c = refl
and_assoc false b c = refl

pub ids_fresh-append :
    (earlier l m : List Text)
    → ids_fresh earlier (l ++ m) ≡ ids_fresh earlier l && ids_fresh (earlier ++ l) m
ids_fresh-append earlier [] m = rw append-nil
ids_fresh-append earlier (x ∷ l) m =
    rw (ids_fresh-append (earlier ++ (x ∷ [])) l m, append_assoc earlier (x ∷ []) l)
      (and_assoc (clean_id x && not (is_in x earlier)) (ids_fresh (earlier ++ (x ∷ [])) l)
        (ids_fresh (earlier ++ (x ∷ l)) m))

pub place_files-Agrees :
    {C : Type 0} (files : List (ActionFile C)) (ids : List Text) (p : Positions)
    → Holds ids p
    → Agrees
        (ids_fresh ids (map (λ s. s.id) (profile_steps files)))
        (Holds (ids ++ map (λ s. s.id) (profile_steps files)))
        (place_files files p)
unfolding place_files
place_files-Agrees [] ids p h = inl (refl, p, refl, rw append-nil h)
place_files-Agrees (af ∷ rest) ids p h =
    rw
      (
        map-append,
        ids_fresh-append ids (map (λ s. s.id) af.steps),
        ← append_assoc ids (map (λ s. s.id) af.steps) (map (λ s. s.id) (profile_steps rest)),
      )
      (then-Agrees (place_files rest) (place_steps-Agrees af.path af.steps ids p h)
        (place_files-Agrees rest (ids ++ map (λ s. s.id) af.steps)))
