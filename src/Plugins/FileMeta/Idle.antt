-- ===== src/Plugins/FileMeta/Idle.antt =====
-- internals/plugins/filemeta/execution.go: a plan and the apply that follows it.
use hardline.Base.{
  Text, ◌≡◌, refl, ap, sym, ◌∙◌, subst, trim_space, codes, quoted, Bool, true, false, not, ◌&&◌,
  ◌||◌, ◌++◌, ◌==◌, Result, ok, err, if◌then◌else◌, is_nil, arith, ==_refl, inl, inr, ◌⊎◌,
}
use hardline.Base.Exec.{Exec, ◌>>=◌, lift, fail, >>=-ok}
use hardline.Pluginapi.Host.{Host}
use hardline.Pluginapi.Records.{FileMetaSnapshot, PlanResult}
use hardline.Plugins.FileMeta.{
  Spec, FileMetaError, target_of, is_set, manages_attrs, does_not_exist,
}
use hardline.Plugins.FileMeta.Metadata.{Desired, desired, snapshot_file_meta, desired_with}
use hardline.Plugins.FileMeta.Run.{
  mode_changes, owner_changes, attrs_change, stamp_if_needed, stamp_desired, stamp_existing, apply,
}
use hardline.Plugins.FileMeta.Preview.{
  absent_plan, row_if, diff_of, preview, plan, report, report_desired,
}

desired_ok : (a b : Desired) → ◌≡◌ {A = Result FileMetaError Desired} (ok a) (ok b) → a ≡ b
desired_ok a b h = cc

kept : (b : Bool) (x y : Text) → b || ((if b then x else y) == y) ≡ true
kept true x y = refl
kept false x y = ==_refl y

desired_with-owners :
    (s : Spec) (cur : FileMetaSnapshot) (m : Result FileMetaError Text) (d : Desired)
    → desired_with s cur m ≡ ok d
    → (is_set s.owner || (d.owner == cur.owner) ≡ true)
      × (is_set s.group || (d.group == cur.group) ≡ true)
desired_with-owners s cur (err e) d h = absurd (cc)
desired_with-owners s cur (ok mode) d h =
    subst
      (λ (q : Desired).
        (is_set s.owner || (q.owner == cur.owner) ≡ true)
        × (is_set s.group || (q.group == cur.group) ≡ true))
      (desired_ok _ d h)
      (
        kept (is_set s.owner) (trim_space s.owner) cur.owner,
        kept (is_set s.group) (trim_space s.group) cur.group,
      )

four_rows :
    (a b c d : Bool) (t u v x : Text)
    → is_nil (row_if a t ++ (row_if b u ++ (row_if c v ++ row_if d x))) ≡ true
    → (a ≡ false) × (b ≡ false) × (c ≡ false) × (d ≡ false)
four_rows true b c d t u v x h = absurd (cc)
four_rows false true c d t u v x h = absurd (cc)
four_rows false false true d t u v x h = absurd (cc)
four_rows false false false true t u v x h = absurd (cc)
four_rows false false false false t u v x h = (refl, refl, refl, refl)

-- With an empty diff, none of the three comparisons of `apply` sees a change.
no_diff :
    (s : Spec) (target : Text) (cur : FileMetaSnapshot) (d : Desired)
    → desired s cur ≡ ok d
    → is_nil (diff_of s target cur d) ≡ true
    → not (mode_changes s cur d) && (not (owner_changes s cur d) && not (attrs_change s cur d))
      ≡ true
unfolding diff_of mode_changes owner_changes attrs_change desired
no_diff s target cur d h e =
    let (o, g) = desired_with-owners s cur _ d h in
    let (nm, nw, ng, na) =
      four_rows (is_set s.mode && not (d.mode == cur.mode))
        (is_set s.owner && not (d.owner == cur.owner))
        (is_set s.group && not (d.group == cur.group))
        (manages_attrs s && not (d.attrs == cur.attrs))
        (codes "mode " ++ (quoted target ++ (codes ": " ++ (cur.mode ++ (codes " -> " ++ d.mode)))))
        (codes "owner "
          ++ (quoted target ++ (codes ": " ++ (cur.owner ++ (codes " -> " ++ d.owner)))))
        (codes "group "
          ++ (quoted target ++ (codes ": " ++ (cur.group ++ (codes " -> " ++ d.group)))))
        (codes "attrs "
          ++ (quoted target
              ++ (codes ": " ++ (quoted cur.attrs ++ (codes " -> " ++ quoted d.attrs)))))
        e in
    ground arith

plan_ok : (a b : PlanResult) → ◌≡◌ {A = Result FileMetaError PlanResult} (ok a) (ok b) → a ≡ b
plan_ok a b h = cc

will_change-diff :
    (s : Spec) (target : Text) (cur : FileMetaSnapshot) (d : Desired) (r : PlanResult)
    → preview s target cur d ≡ r
    → r.will_change ≡ false
    → is_nil (diff_of s target cur d) ≡ true
unfolding preview
will_change-diff s target cur d r e h =
    let w : (preview s target cur d).will_change ≡ false =
      ap (λ (q : PlanResult). q.will_change) e ∙ h in
    ground arith

bind_runs :
    {W E A B : Type 0} (m : Exec W E A) (f : A → Exec W E B) (w : W) (a : A)
    → (m w).0 ≡ ok a
    → (m >>= f) w ≡ f a (m w).1
bind_runs m f w a h = rw h refl

module _ {W : Type 0} (host : Host W) (s : Spec) where
  idle_desired :
      (target : Text) (cur : FileMetaSnapshot) (m : Result FileMetaError Desired) (w : W)
      (r : PlanResult)
      → desired s cur ≡ m
      → report_desired s target cur m ≡ ok r
      → r.will_change ≡ false
      → stamp_desired host s target cur m w ≡ (ok tt, w)
  unfolding stamp_if_needed
  idle_desired target cur (err e) w r k h i = absurd (cc)
  idle_desired target cur (ok d) w r k h i =
      let same : preview s target cur d ≡ r = plan_ok _ r h in
      let quiet : is_nil (diff_of s target cur d) ≡ true =
        will_change-diff s target cur d r same i in
      let idle = no_diff s target cur d k quiet in rw idle refl

  -- After the same snapshot, of a path that is there or not.
  idle_case :
      (there : Bool) (target : Text) (cur : FileMetaSnapshot) (w : W) (r : PlanResult)
      → (if there then report_desired s target cur (desired s cur) else ok (absent_plan target))
        ≡ ok r
      → r.will_change ≡ false
      → ((if there
              then stamp_desired host s target cur (desired s cur)
              else fail (does_not_exist target))
            w
          ≡ (ok tt, w))
        ⊎ ((if there
                then stamp_desired host s target cur (desired s cur)
                else fail (does_not_exist target))
              w
            ≡ (err (does_not_exist target), w))
  idle_case true target cur w r h i = inl (idle_desired target cur (desired s cur) w r refl h i)
  idle_case false target cur w r h i = inr refl

  idle_existing :
      (target : Text) (cur : FileMetaSnapshot) (w : W) (r : PlanResult)
      → report s target cur ≡ ok r
      → r.will_change ≡ false
      → (stamp_existing host s target cur w ≡ (ok tt, w))
        ⊎ (stamp_existing host s target cur w ≡ (err (does_not_exist target), w))
  unfolding stamp_existing
  idle_existing target cur w r h i = idle_case cur.existed target cur w r h i

  -- A plan that sees no change is followed by an apply that runs no command that changes the host: it
  -- ends where the plan ended, with success, or with the error that the path is not there.
  pub plan-apply_idle :
      (w : W) (r : PlanResult)
      → (plan host s w).0 ≡ ok r
      → r.will_change ≡ false
      → (apply host s w ≡ (ok tt, (plan host s w).1))
        ⊎ ((target : Text) × (apply host s w ≡ (err (does_not_exist target), (plan host s w).1)))
  unfolding plan apply
  plan-apply_idle w r h i =
      let (target, t, on) = >>=-ok (lift (target_of s.path)) _ w r h in
      let (cur, c, on1) = >>=-ok (snapshot_file_meta host target) _ w r (rw on at h) in
      let w' = (snapshot_file_meta host target w).1 in
      let planned : plan host s w ≡ (report s target cur, w') = on ∙ on1 in
      let applied : apply host s w ≡ stamp_existing host s target cur w' =
        bind_runs (lift (target_of s.path)) _ w target t
        ∙ bind_runs (snapshot_file_meta host target) _ w cur c in
      let reported : report s target cur ≡ ok r = sym (ap (λ q. q.0) planned) ∙ h in
      rw (planned, applied)
        (elim (idle_existing target cur w' r reported i) [
          | inl e ↦ inl e
          | inr e ↦ inr (target, e)
        ])
