-- ===== src/Rollback/Order.antt =====
-- The order in which the walk reverts, and where it stops. What a step's record has to show to be
-- reverted is said here again, apart from the code's own tests.
use mathlib.Core.List.{append_assoc, append-nil}
use hardline.Base.{
  Text, codes, ◌==◌, ◌≡◌, refl, ap, fun_ext, ◌∙◌, sym, Bool, true, false, not, ◌&&◌, ◌||◌, Option,
  none, some, List, [], ◌∷◌, ◌++◌, any, is_nil, reverse, select, Bool-cases, Option-cases, inl, inr,
  arith, if◌then◌else◌,
}
use hardline.Pluginapi.Records.{
  ObjectKind, object_file, object_file_meta, object_service, object_package, object_runtime_policy,
  unknown_kind, ObjectRecord, ServiceReload, records_eq,
}
use hardline.Pluginapi.Registry.{Plugin}
use hardline.Rollback.Journal.{
  StepRecord, rollback_step_applies, step_has_service_objects, step_actually_changed,
  step_changed_by_id, is_service_reload_action, service_reload_triggered, reload_triggered,
  is_service,
}
use hardline.Rollback.Execute.{
  Walk, Degraded, RevertError, after_note, run_rollback_one_step, run_deferred, run_first,
  execute_rollback_steps,
}

-- The two captures of the step differ.
abbrev pub has_changed : StepRecord → Bool
has_changed s = not (records_eq s.before s.after)

-- The first step of that id has changed.
abbrev pub changed_by_id : List StepRecord → Text → Bool
changed_by_id [] id = false
changed_by_id (s ∷ rest) id =
    (s.id == id && has_changed s) || (not (s.id == id) && changed_by_id rest id)

abbrev pub reload_words : List Text
reload_words =
    codes "restarted"
    ∷ (codes "restart" ∷ (codes "reloaded" ∷ (codes "reload" ∷ (codes "reload-or-restart" ∷ []))))

-- The step restarted or reloaded its service: always, or because a step that it watches has changed.
abbrev pub reloaded : Option ServiceReload → List StepRecord → Bool
reloaded none steps = false
reloaded (some r) steps =
    any (λ w. r.action == w) reload_words
    && (not (r.restart_policy == codes "on_change") || any (changed_by_id steps) r.restart_deps)

abbrev pub to_revert : List StepRecord → StepRecord → Bool
to_revert all s = has_changed s || reloaded s.reload all

abbrev pub is_unit : ObjectKind → Bool
is_unit object_service = true
is_unit _ = false

abbrev pub has_service : StepRecord → Bool
has_service s = any (λ o. is_unit o.kind) s.before

-- Last step first, and every step with a service object behind all the others.
abbrev pub revert_order : List StepRecord → List StepRecord
revert_order steps =
    select (λ s. to_revert steps s && not (has_service s)) (reverse steps)
    ++ select (λ s. to_revert steps s && has_service s) (reverse steps)

-- Two empty captures do not differ, so the test of the source for them changes nothing.
changed_captures :
    (before after : List ObjectRecord)
    → (if is_nil before && is_nil after then false else not (records_eq before after))
      ≡ not (records_eq before after)
unfolding records_eq
changed_captures [] [] = refl
changed_captures [] (a ∷ after) = refl
changed_captures (b ∷ before) after = refl

changed-has_changed : (s : StepRecord) → step_actually_changed s ≡ has_changed s
unfolding step_actually_changed
changed-has_changed s = changed_captures s.before s.after

changed_by_id-same :
    (l : List StepRecord) (id : Text) → step_changed_by_id l id ≡ changed_by_id l id
unfolding step_changed_by_id
changed_by_id-same [] id = refl
changed_by_id-same (s ∷ l) id = ground (arith, changed-has_changed s, changed_by_id-same l id)

any-same : {A : Type 0} (f g : A → Bool) (l : List A) → ((a : A) → f a ≡ g a) → any f l ≡ any g l
any-same f g [] h = refl
any-same f g (a ∷ l) h = rw (h a, any-same f g l h) refl

pub select-same :
    {A : Type 0} (f g : A → Bool) (l : List A) → ((a : A) → f a ≡ g a) → select f l ≡ select g l
select-same f g [] h = refl
select-same f g (a ∷ l) h = rw (h a, select-same f g l h) refl

reloaded-same :
    (r : Option ServiceReload) (steps : List StepRecord)
    → reload_triggered r steps ≡ reloaded r steps
unfolding reload_triggered is_service_reload_action
reloaded-same none steps = refl
reloaded-same (some r) steps =
    rw
      (any-same (step_changed_by_id steps) (changed_by_id steps) r.restart_deps
        (changed_by_id-same steps))
      (ground arith)

applies-to_revert :
    (s : StepRecord) (all : List StepRecord) → rollback_step_applies s all ≡ to_revert all s
unfolding rollback_step_applies service_reload_triggered
applies-to_revert s all = rw (changed-has_changed s, reloaded-same s.reload all) refl

is_service-is_unit : (k : ObjectKind) → is_service k ≡ is_unit k
is_service-is_unit object_file = refl
is_service-is_unit object_file_meta = refl
is_service-is_unit object_service = refl
is_service-is_unit object_package = refl
is_service-is_unit object_runtime_policy = refl
is_service-is_unit (unknown_kind t) = refl

has_service-same : (s : StepRecord) → step_has_service_objects s ≡ has_service s
unfolding step_has_service_objects
has_service-same s =
    any-same (λ (o : ObjectRecord). is_service o.kind) (λ o. is_unit o.kind) s.before
      (λ o. is_service-is_unit o.kind)

-- The steps that the walk reverts at once, and those that it puts off, out of `l`.
abbrev pub now_steps : List StepRecord → List StepRecord → List StepRecord
now_steps all l = select (λ s. rollback_step_applies s all && not (step_has_service_objects s)) l

abbrev pub later_steps : List StepRecord → List StepRecord → List StepRecord
later_steps all l = select (λ s. rollback_step_applies s all && step_has_service_objects s) l

pub revert_order-steps :
    (steps : List StepRecord)
    → now_steps steps (reverse steps) ++ later_steps steps (reverse steps) ≡ revert_order steps
revert_order-steps steps =
    rw
      (
        select-same (λ s. rollback_step_applies s steps && not (step_has_service_objects s))
            (λ s. to_revert steps s && not (has_service s)) (reverse steps)
            (λ s. rw (applies-to_revert s steps, has_service-same s) refl),
        select-same (λ s. rollback_step_applies s steps && step_has_service_objects s)
            (λ s. to_revert steps s && has_service s) (reverse steps)
            (λ s. rw (applies-to_revert s steps, has_service-same s) refl),
      )
      refl

module _ {C W : Type 0} (plugins : List (Plugin C W)) where
  run_first-order :
      (all l deferred : List StepRecord) (w : W)
      → run_first plugins all l deferred w
        ≡ run_deferred plugins (now_steps all l ++ (deferred ++ later_steps all l)) w
  unfolding run_first run_deferred
  run_first-order all [] deferred w = rw append-nil refl
  run_first-order all (s ∷ l) deferred w = elim (Bool-cases (rollback_step_applies s all)) [
    | inl e ↦ elim (Bool-cases (step_has_service_objects s)) [
      | inl f ↦
          rw (e, f)
            (run_first-order all l (deferred ++ (s ∷ [])) w
              ∙ ap (λ (x : List StepRecord). run_deferred plugins (now_steps all l ++ x) w)
                  (append_assoc deferred (s ∷ []) (later_steps all l)))
      | inr f ↦ rw (e, f) (rw (fun_ext (run_first-order all l deferred)) refl)
    ]
    | inr e ↦ rw e (run_first-order all l deferred w)
  ]

  pub execute_rollback_steps-deferred :
      (steps : List StepRecord) (w : W)
      → execute_rollback_steps plugins steps w ≡ run_deferred plugins (revert_order steps) w
  unfolding execute_rollback_steps
  execute_rollback_steps-deferred steps w =
      run_first-order steps (reverse steps) [] w
      ∙ ap (λ (l : List StepRecord). run_deferred plugins l w) (revert_order-steps steps)

  -- These steps, one after another, are reverted with no error; what they note is kept.
  abbrev pub Reverts : List StepRecord → W → List Degraded → W → Type 0
  Reverts [] w notes v = (w ≡ v) × (notes ≡ [])
  Reverts (s ∷ l) w notes v =
      ((run_rollback_one_step plugins s w).error ≡ none)
      × (more : List Degraded) × (notes ≡ (run_rollback_one_step plugins s w).degraded ++ more)
      × Reverts l (run_rollback_one_step plugins s w).world more v

  -- The walk has ended behind the last step, or with the error of the next one.
  abbrev pub Ends : List StepRecord → W → List Degraded → Walk W → Type 0
  Ends [] v notes r = r ≡ record { degraded = notes; error = none; world = v }
  Ends (s ∷ l) v notes r =
      (e : RevertError) × ((run_rollback_one_step plugins s v).error ≡ some e)
      × (r ≡ record {
        degraded = notes ++ (run_rollback_one_step plugins s v).degraded;
        error = some e;
        world = (run_rollback_one_step plugins s v).world;
      })

  -- The steps that were reverted, those that are left, and the world between the two.
  abbrev pub StopsAtFirst : List StepRecord → W → Walk W → Type 0
  StopsAtFirst l w r =
      (done left : List StepRecord) × (l ≡ done ++ left)
      × (notes : List Degraded) × (v : W) × Reverts done w notes v
      × Ends left v notes r

  Ends-note :
      (left : List StepRecord) (v : W) (n notes : List Degraded) (r : Walk W)
      → Ends left v notes r
      → Ends left v (n ++ notes) (after_note n r)
  Ends-note [] v n notes r h = ap (after_note n) h
  Ends-note (s ∷ l) v n notes r (e, f, h) = (
    e,
    f,
    ap (after_note n) h
        ∙ ap
            (λ (d : List Degraded). record {
              degraded = d;
              error = some e;
              world = (run_rollback_one_step plugins s v).world;
            })
            (sym (append_assoc n notes (run_rollback_one_step plugins s v).degraded)),
  )

  run_deferred-StopsAtFirst :
      (l : List StepRecord) (w : W) → StopsAtFirst l w (run_deferred plugins l w)
  unfolding run_deferred
  run_deferred-StopsAtFirst [] w = ([], [], refl, [], w, (refl, refl), refl)
  run_deferred-StopsAtFirst (s ∷ l) w =
      elim (Option-cases (run_rollback_one_step plugins s w).error) [
        | inl e ↦
            let v' = (run_rollback_one_step plugins s w).world in
            let (done, left, split, notes, v, reverts, ends) = run_deferred-StopsAtFirst l v' in
            (
              s ∷ done,
              left,
              ap (λ (x : List StepRecord). s ∷ x) split,
              (run_rollback_one_step plugins s w).degraded ++ notes,
              v,
              (e, notes, refl, reverts),
              rw e (Ends-note left v (run_rollback_one_step plugins s w).degraded notes _ ends),
            )
        | inr (x, e) ↦ ([], s ∷ l, refl, [], w, (refl, refl), (x, e, rw e refl))
      ]

  -- The walk over a journal's steps reverts those whose captures differ, and those that restarted or
  -- reloaded a service: with the policy on_change, only if the first step of a watched id has captures
  -- that differ. It takes them last first, those with a service object after all the others. It stops
  -- at the first step that gives an error, and ends with that error and the world that the step left;
  -- with no such step it reverts them all. What was noted on the way is kept.
  pub execute_rollback_steps-order :
      (steps : List StepRecord) (w : W)
      → StopsAtFirst (revert_order steps) w (execute_rollback_steps plugins steps w)
  execute_rollback_steps-order steps w =
      rw (execute_rollback_steps-deferred steps w)
        (run_deferred-StopsAtFirst (revert_order steps) w)
