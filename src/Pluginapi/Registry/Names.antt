-- ===== src/Pluginapi/Registry/Names.antt =====
-- A registry has one plugin for each name, and finds every plugin that it has accepted.
use hardline.Base.{
  Text, ◌==◌, ==_iff, ◌≡◌, refl, ap, ◌∙◌, sym, Bool, true, not, ◌&&◌, Option, none, some, List, [],
  ◌∷◌, ◌++◌, ok, err, if◌then◌else◌, is_some, arith, Bool-cases, Result-cases, inl, inr,
}
use hardline.Pluginapi.Registry.{
  Plugin, Candidate, already_registered, prepare_plugin, find_plugin, register,
}

module _ {C W : Type 0} where
  -- No two plugins of a registry have one name.
  abbrev pub names_distinct : List (Plugin C W) → Bool
  names_distinct [] = true
  names_distinct (p ∷ ps) = not (is_some (find_plugin p.name ps)) && names_distinct ps

  find_plugin-snoc :
      (n : Text) (ps : List (Plugin C W)) (p : Plugin C W)
      → find_plugin n (ps ++ (p ∷ []))
        ≡ elim (find_plugin n ps) [ some q ↦ some q | none ↦ if p.name == n then some p else none ]
  unfolding find_plugin
  find_plugin-snoc n [] p = refl
  find_plugin-snoc n (q ∷ ps) p = elim (Bool-cases (q.name == n)) [
    | inl e ↦ rw e refl
    | inr e ↦ rw e (find_plugin-snoc n ps p)
  ]

  find_plugin-name :
      (n : Text) (ps : List (Plugin C W)) (p : Plugin C W) → find_plugin n ps ≡ some p → p.name ≡ n
  unfolding find_plugin
  find_plugin-name n [] p h = absurd (cc)
  find_plugin-name n (q ∷ ps) p h = elim (Bool-cases (q.name == n)) [
    | inl e ↦
        let same : q ≡ p = cc (rw e at h) in
        ap (λ (x : Plugin C W). x.name) (sym same) ∙ (==_iff q.name n).0 e
    | inr e ↦ find_plugin-name n ps p (rw e at h)
  ]

  names_distinct-snoc :
      (ps : List (Plugin C W)) (p : Plugin C W)
      → names_distinct ps ≡ true
      → find_plugin p.name ps ≡ none
      → names_distinct (ps ++ (p ∷ [])) ≡ true
  unfolding find_plugin
  names_distinct-snoc [] p d h = refl
  names_distinct-snoc (q ∷ ps) p d h = ground (
    arith,
    find_plugin-snoc q.name ps p,
    ==_iff p.name q.name,
    ==_iff q.name p.name,
    names_distinct-snoc ps p,
  )

  registered :
      (o : Option (Plugin C W)) (p : Plugin C W) (ps qs : List (Plugin C W))
      → (elim o [ none ↦ ok (ps ++ (p ∷ [])) | some q ↦ err (already_registered p.name) ]) ≡ ok qs
      → (o ≡ none) × (qs ≡ ps ++ (p ∷ []))
  registered none p ps qs h = (refl, sym (cc))
  registered (some q) p ps qs h = absurd (cc)

  -- What a registration that is accepted has done.
  register-accepts :
      (c : Candidate C W) (ps qs : List (Plugin C W))
      → register c ps ≡ ok qs
      → (p : Plugin C W) × (prepare_plugin c ≡ ok p)
        × (find_plugin p.name ps ≡ none)
        × (qs ≡ ps ++ (p ∷ []))
  unfolding register
  register-accepts c ps qs h = elim (Result-cases (prepare_plugin c)) [
    | inr (e, r) ↦ absurd (cc (rw r at h))
    | inl (p, r) ↦
        let (new, same) = registered (find_plugin p.name ps) p ps qs (rw r at h) in
        (p, r, new, same)
  ]

  -- Registration keeps the names of a registry distinct.
  pub register-names_distinct :
      (c : Candidate C W) (ps qs : List (Plugin C W))
      → names_distinct ps ≡ true
      → register c ps ≡ ok qs
      → names_distinct qs ≡ true
  register-names_distinct c ps qs d h =
      let (p, _, new, same) = register-accepts c ps qs h in rw same (names_distinct-snoc ps p d new)
