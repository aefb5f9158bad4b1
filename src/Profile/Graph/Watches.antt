-- ===== src/Profile/Graph/Watches.antt =====
-- `validateStepGraph` as a whole: the second loops of the source, and what both decide together.
use hardline.Base.{
  ℕ, ◌+◌, Text, ◌==◌, ==_iff, ne_of_==, ◌≡◌, refl, ap, ◌∙◌, sym, subst, fun_ext, Bool, true, false,
  ◌&&◌, Option, List, [], ◌∷◌, ◌++◌, Result, ok, err, is_ok, ◌>>=◌, ◌>>◌, Map, lookup, map, all,
  arith, length, length-append, Bool-cases, Option-cases, Result-cases, inl, inr,
}
use mathlib.Core.List.{append_assoc, append-nil}
use hardline.Pluginapi.Host.{Fault}
use hardline.Pluginapi.Registry.{Step, ActionFile, profile_steps}
use hardline.Profile.Graph.{
  GraphError, check_watch, check_watches, watched_steps, watch_steps, watch_files,
  validate_step_graph,
}
use hardline.Profile.Graph.Spec.{
  is_in, ids_fresh, good_watch, good_step, watched_steps-good_step, watches_earlier, index_of,
  index_of-earlier,
}
use hardline.Profile.Graph.Sound.{Agrees, then-Agrees, place_files-Agrees}

-- One watched id, in a step at the end of `earlier`.
check_watch-is_ok :
    (m : Map ℕ) (earlier rest : List Text) (id dep : Text)
    → (lookup dep m ≡ index_of dep (earlier ++ (id ∷ rest)))
    → is_in id earlier ≡ false
    → is_ok (check_watch m (length earlier) id dep) ≡ is_in dep earlier
unfolding check_watch
check_watch-is_ok m earlier rest id dep h fresh = elim (Bool-cases (dep == id)) [
  | inl e ↦ rw (e, (==_iff dep id).0 e, fresh) refl
  | inr e ↦
      let at = index_of-earlier dep id earlier rest (ne_of_== dep id e) in
      elim (Option-cases (lookup dep m)) [
        | inl n ↦ ground (arith, e, n, h, at)
        | inr (i, n) ↦ ground (arith, e, n, h, at)
      ]
]

check_watches-is_ok :
    (m : Map ℕ) (earlier rest : List Text) (id : Text) (deps : List Text)
    → ((k : Text) → lookup k m ≡ index_of k (earlier ++ (id ∷ rest)))
    → is_in id earlier ≡ false
    → is_ok (check_watches m (length earlier) id deps) ≡ all (λ d. is_in d earlier) deps
unfolding check_watches
check_watches-is_ok m earlier rest id [] h fresh = refl
check_watches-is_ok m earlier rest id (dep ∷ deps) h fresh =
    let first = check_watch-is_ok m earlier rest id dep (h dep) fresh in
    let others = check_watches-is_ok m earlier rest id deps h fresh in
    elim (Result-cases (check_watch m (length earlier) id dep)) [
      | inl (x, e) ↦ ground (arith, first, others, e)
      | inr (x, e) ↦ ground (arith, first, others, e)
    ]

is_ok-Agrees :
    {b : Bool} (r : Result GraphError (Unit {0}))
    → is_ok r ≡ b
    → Agrees b (λ (x : Unit {0}). Unit {0}) r
is_ok-Agrees (ok x) h = inl (sym h, x, refl, tt)
is_ok-Agrees (err e) h = inr (sym h, e, refl)

>>=-assoc :
    {A B D : Type 0} (r : Result GraphError A) (f : A → Result GraphError B)
    (g : B → Result GraphError D)
    → (r >>= f) >>= g ≡ r >>= (λ a. f a >>= g)
>>=-assoc (ok a) f g = refl
>>=-assoc (err e) f g = refl

length-snoc : (l : List Text) (x : Text) → length (l ++ (x ∷ [])) ≡ length l + 1
length-snoc l x = omega (arith, length-append l (x ∷ []))

-- What freshness says of the first id.
fresh_parts :
    (earlier rest : List Text) (id : Text)
    → ids_fresh earlier (id ∷ rest) ≡ true
    → (is_in id earlier ≡ false) × (ids_fresh (earlier ++ (id ∷ [])) rest ≡ true)
fresh_parts earlier rest id h = (ground arith, ground arith)

module _ {C : Type 0} (decode : C → Result Fault (Option (List Text))) where
  watch_result-Agrees :
      (m : Map ℕ) (earlier rest : List Text) (s : Step C)
      → ((k : Text) → lookup k m ≡ index_of k (earlier ++ (s.id ∷ rest)))
      → is_in s.id earlier ≡ false
      → Agrees
          (good_watch earlier (watched_steps decode s))
          (λ (x : Unit {0}). Unit {0})
          (watched_steps decode s >>= check_watches m (length earlier) s.id)
  watch_result-Agrees m earlier rest s h fresh = elim (Result-cases (watched_steps decode s)) [
    | inr (x, e) ↦ rw e (inr (refl, x, refl))
    | inl (deps, e) ↦ rw e (
        is_ok-Agrees (check_watches m (length earlier) s.id deps)
          (check_watches-is_ok m earlier rest s.id deps h fresh))
  ]

  watch_step-Agrees :
      (m : Map ℕ) (earlier rest : List Text) (s : Step C)
      → ((k : Text) → lookup k m ≡ index_of k (earlier ++ (s.id ∷ rest)))
      → is_in s.id earlier ≡ false
      → Agrees
          (good_step decode earlier s)
          (λ (x : Unit {0}). Unit {0})
          (watched_steps decode s >>= check_watches m (length earlier) s.id)
  watch_step-Agrees m earlier rest s h fresh =
      rw (← watched_steps-good_step decode earlier s) (watch_result-Agrees m earlier rest s h fresh)

  watch_steps-Agrees :
      (m : Map ℕ) (earlier : List Text) (l : List (Step C))
      → ((k : Text) → lookup k m ≡ index_of k (earlier ++ map (λ s. s.id) l))
      → ids_fresh earlier (map (λ s. s.id) l) ≡ true
      → Agrees
          (watches_earlier decode earlier l)
          (λ n. n ≡ length (earlier ++ map (λ s. s.id) l))
          (watch_steps decode m l (length earlier))
  unfolding watch_steps
  watch_steps-Agrees m earlier [] h fresh = inl (refl, length earlier, refl, rw append-nil refl)
  watch_steps-Agrees m earlier (s ∷ l) h fresh =
      let (new, others) = fresh_parts earlier (map (λ s. s.id) l) s.id fresh in
      rw
        (
          ← append_assoc earlier (s.id ∷ []) (map (λ s. s.id) l),
          ← >>=-assoc (watched_steps decode s) (check_watches m (length earlier) s.id)
              (λ x. watch_steps decode m l (length earlier + 1)),
        )
        (then-Agrees (λ x. watch_steps decode m l (length earlier + 1))
          (watch_step-Agrees m earlier (map (λ s. s.id) l) s h new)
          (λ x y.
            subst
              (λ n.
                Agrees (watches_earlier decode (earlier ++ (s.id ∷ [])) l)
                  (λ n. n ≡ length ((earlier ++ (s.id ∷ [])) ++ map (λ s. s.id) l))
                  (watch_steps decode m l n))
              (length-snoc earlier s.id)
              (watch_steps-Agrees m (earlier ++ (s.id ∷ [])) l
                (λ k.
                  h k
                  ∙ ap (index_of k) (sym (append_assoc earlier (s.id ∷ []) (map (λ s. s.id) l))))
                others)))

  watch_steps-append :
      (m : Map ℕ) (l r : List (Step C)) (n : ℕ)
      → watch_steps decode m (l ++ r) n ≡ watch_steps decode m l n >>= watch_steps decode m r
  unfolding watch_steps
  watch_steps-append m [] r n = refl
  watch_steps-append m (s ∷ l) r n = elim (Result-cases (watched_steps decode s)) [
    | inr (x, e) ↦ rw e refl
    | inl (deps, e) ↦ elim (Result-cases (check_watches m n s.id deps)) [
      | inr (x, c) ↦ rw (e, c) refl
      | inl (x, c) ↦ rw (e, c) (watch_steps-append m l r (n + 1))
    ]
  ]

  -- The files do not matter to the second loops, only the steps one after another.
  watch_files-flat :
      (m : Map ℕ) (files : List (ActionFile C)) (n : ℕ)
      → watch_files decode m files n ≡ watch_steps decode m (profile_steps files) n
  unfolding watch_files watch_steps
  watch_files-flat m [] n = refl
  watch_files-flat m (af ∷ rest) n =
      rw (watch_steps-append m af.steps (profile_steps rest) n)
        (ap (λ k. watch_steps decode m af.steps n >>= k) (fun_ext (λ i. watch_files-flat m rest i)))

  Agrees-is_ok :
      {A : Type 0} {b : Bool} {P : A → Type 0} (r : Result GraphError A)
      → Agrees b P r
      → is_ok {0, 0} (r >> ok tt) ≡ b
  Agrees-is_ok r (inl (x, a, e, p)) = rw (x, e) refl
  Agrees-is_ok r (inr (x, f, e)) = rw (x, e) refl

  -- `validateStepGraph` accepts a profile exactly if its step ids, over all action files in order,
  -- are neither blank nor padded and distinct, and every service step's config decodes and watches,
  -- under no blank or padded id, only steps that stand before it.
  pub validate_step_graph-decides :
      (files : List (ActionFile C))
      → is_ok (validate_step_graph decode files)
        ≡ ids_fresh [] (map (λ s. s.id) (profile_steps files))
          && watches_earlier decode [] (profile_steps files)
  unfolding validate_step_graph lookup index_of
  validate_step_graph-decides files =
      elim (place_files-Agrees files [] (record { position = []; order = 0 })
        (record { counted = refl; found = λ k. refl })) [
          | inl (fresh, p, e, h) ↦
              rw (fresh, e, watch_files-flat p.position files 0)
                (Agrees-is_ok (watch_steps decode p.position (profile_steps files) 0)
                  (watch_steps-Agrees p.position [] (profile_steps files) h.found fresh))
          | inr (old, x, e) ↦ rw (old, e) refl
        ]
