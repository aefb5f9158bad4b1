-- ===== src/Plugins/Packages/Guarded.antt =====
-- internals/plugins/packages/backend.go: what an apply and a rollback can remove.
use hardline.Base.{
  Text, codes, ◌≡◌, refl, Bool, true, false, List, [], ◌∷◌, ◌++◌, Result, ok, err, if◌then◌else◌,
  is_nil, arith, has_prefix, is_ok,
}
use hardline.Base.Exec.{Exec, ◌>>=◌, ◌>>◌, lift, wrapping, wrap_result-ok}
use hardline.Base.Keeps.{Keeps, Keeps-pure, Keeps-if, Keeps-wrapping, Keeps-bind, Keeps-bind-at}
use hardline.Pluginapi.Host.{Host}
use hardline.Plugins.Packages.{Spec}
use hardline.Plugins.Packages.Ops.{
  SinceError, Mode, never, always, once, since, mode_of, run_mode, run_if_due, should_run, mark_ran,
  state_dir, state_last_update, state_last_upgrade, state_last_autoremove, parse_since_duration,
}
use hardline.Plugins.Packages.Named.{AllDeclared, unexpected_removals-AllDeclared}
use hardline.Plugins.Packages.Exec.{run_root, append_packages, guard_purge_transaction}
use hardline.Plugins.Packages.Backend.{
  Backend, PackageError, infos, lock_failed, since_failed, run_failed, purge_preview_failed,
  autoremove_preview_failed, guard_refused,
}
use hardline.Plugins.Packages.Run.{
  asked_change, mark, run_marked, run_op, run_install, run_purge, guard_autoremove, guarded_purge,
  guarded_autoremove, autoremove_now, run_autoremove, apply, run_command,
}

-- What is true of the host stays true under everything but the two commands that remove packages, and
-- under those where they follow a preview of which the step declares every name, as one to purge or
-- one to lose by it.
pub record SafeHost {W : Type 0} (P : W → Type 0) (b : Backend W) (host : Host W) (s : Spec)
    : Type 0 where
  pub locks : Keeps P (b.check_lock host)
  pub queries : (name : Text) → Keeps P (b.query host name)
  pub ages : (file : Text) (w : W) → P w → P (host.stat_age file w).1
  pub makes_dir : Keeps P (host.run_root (codes "mkdir -p " ++ state_dir))
  pub writes : (file text : Text) → Keeps P (host.write_root_file file text 420)
  pub updates : Keeps P (run_root host b.commands.update)
  pub upgrades : Keeps P (run_root host b.commands.upgrade)
  pub installs : Keeps P (run_root host (append_packages b.commands.install s.install))
  pub previews_purge : Keeps P (b.previews.purge host s.purge)
  pub previews_autoremove : Keeps P (b.previews.autoremove host)
  pub purges :
      (w : W) (names : List Text)
      → P (b.previews.purge host s.purge w).1
      → (b.previews.purge host s.purge w).0 ≡ ok names
      → AllDeclared (s.purge ++ s.purge_also_removes) names
      → P
          (run_root host
            (append_packages b.commands.purge s.purge)
            (b.previews.purge host s.purge w).1).1
  pub autoremoves :
      (w : W) (names : List Text)
      → P (b.previews.autoremove host w).1
      → (b.previews.autoremove host w).0 ≡ ok names
      → AllDeclared (s.purge ++ s.purge_also_removes) names
      → P (run_root host b.commands.autoremove (b.previews.autoremove host w).1).1

guard-AllDeclared :
    (s : Spec) (preview : List Text)
    → guard_purge_transaction s.purge s.purge_also_removes preview ≡ ok tt
    → AllDeclared (s.purge ++ s.purge_also_removes) preview
unfolding guard_purge_transaction
guard-AllDeclared s preview h = unexpected_removals-AllDeclared _ preview (ground arith)

module _ {W : Type 0} (P : W → Type 0) (b : Backend W) (host : Host W) (s : Spec) (now : W → Text)
    (safe : SafeHost P b host s) where
  infos-Keeps : (names : List Text) → Keeps P (infos b host names)
  unfolding infos
  infos-Keeps [] = Keeps-pure []
  infos-Keeps (n ∷ names) =
      Keeps-bind P _ _ (safe.queries n)
        (λ f. Keeps-bind P _ _ (infos-Keeps names) (λ l. Keeps-pure _))

  asked_change-Keeps : Keeps P (asked_change b host now s)
  unfolding asked_change
  asked_change-Keeps =
      Keeps-if _ _ _
        (Keeps-bind P _ _ (Keeps-wrapping _ _ (infos-Keeps s.install))
          (λ i. Keeps-bind P _ _ (Keeps-wrapping _ _ (infos-Keeps s.purge)) (λ p. Keeps-pure _)))
        (Keeps-pure false)

  due-Keeps : (file : Text) (r : Result SinceError _) → Keeps P (run_if_due host file r)
  due-Keeps file (err e) = record { at = λ w h. h }
  due-Keeps file (ok d) = record { at = λ w h. safe.ages file w h }

  mode-Keeps : (file : Text) (change : Bool) (m : Mode) → Keeps P (run_mode host file change m)
  mode-Keeps file change never = Keeps-pure false
  mode-Keeps file change always = Keeps-pure true
  mode-Keeps file change once = Keeps-pure change
  mode-Keeps file change (since mode) = due-Keeps file (parse_since_duration mode)

  should_run-Keeps : (mode file : Text) (change : Bool) → Keeps P (should_run host mode file change)
  unfolding should_run
  should_run-Keeps mode file change = mode-Keeps file change (mode_of mode)

  either : (c : Bool) (x y : W) → P x → P y → P (if c then x else y)
  either true x y px py = px
  either false x y px py = py

  mark_ran-keeps : (file : Text) (w : W) → P w → P (mark_ran host now file w)
  unfolding mark_ran
  mark_ran-keeps file w h =
      let (r, w1) = host.run_root (codes "mkdir -p " ++ state_dir) w in
      let h1 = safe.makes_dir.at w h in
      either (is_ok r) _ _ ((safe.writes file (now w1 ++ (10 ∷ []))).at w1 h1) h1

  mark-Keeps : (mode file : Text) → Keeps P (mark b host now mode file)
  mark-Keeps mode file = record {
    at = λ w h. either (has_prefix mode (codes "if_")) _ _ (mark_ran-keeps file w h) h;
  }

  run_marked-Keeps :
      (run : Bool) (mode file cmd failure : Text)
      → Keeps P (run_root host cmd)
      → Keeps P (run_marked b host now run mode file cmd failure)
  run_marked-Keeps true mode file cmd failure k =
      Keeps-bind P _ _ (Keeps-wrapping (run_failed failure) _ k) (λ x. mark-Keeps mode file)
  run_marked-Keeps false mode file cmd failure k = Keeps-pure tt

  run_op-Keeps :
      (mode file cmd failure : Text) (change : Bool)
      → Keeps P (run_root host cmd)
      → Keeps P (run_op b host now mode file cmd failure change)
  unfolding run_op
  run_op-Keeps mode file cmd failure change k =
      Keeps-bind P _ _ (Keeps-wrapping since_failed _ (should_run-Keeps mode file change))
        (λ run. run_marked-Keeps run mode file cmd failure k)

  run_install-Keeps : Keeps P (run_install b host now s)
  unfolding run_install
  run_install-Keeps =
      Keeps-if (is_nil s.install) _ _ (Keeps-pure tt) (Keeps-wrapping _ _ safe.installs)

  -- What follows a guard may use that the guard has passed.
  guarded :
      {F : Type 0} (f : F → PackageError) (g : Result F (Unit {0}))
      (k : Exec W PackageError (Unit {0})) (w : W)
      → P w
      → (g ≡ ok tt → P (k w).1)
      → P ((wrapping f (lift g) >> k) w).1
  guarded f (ok x) k w h kp = kp refl
  guarded f (err e) k w h kp = h

  purge_now-keeps :
      (w : W)
      → P w
      → P
          ((wrapping purge_preview_failed (b.previews.purge host s.purge)
              >>= guarded_purge b host now s)
            w).1
  purge_now-keeps w h =
      let h1 = safe.previews_purge.at w h in
      Keeps-bind-at P (wrapping purge_preview_failed (b.previews.purge host s.purge))
        (guarded_purge b host now s) w h1
        (λ preview e. guarded guard_refused _ _ _ h1 (λ g.
          safe.purges w preview h1 (wrap_result-ok purge_preview_failed _ e)
            (guard-AllDeclared s preview g)))

  run_purge-Keeps : Keeps P (run_purge b host now s)
  unfolding run_purge
  run_purge-Keeps = Keeps-if (is_nil s.purge) _ _ (Keeps-pure tt) (record { at = purge_now-keeps })

  guard_autoremove-AllDeclared :
      (preview : List Text)
      → guard_autoremove b host now s preview ≡ ok tt
      → AllDeclared (s.purge ++ s.purge_also_removes) preview
  guard_autoremove-AllDeclared preview h = unexpected_removals-AllDeclared _ preview (ground arith)

  guarded_lift :
      (g : Result PackageError (Unit {0})) (k : Exec W PackageError (Unit {0})) (w : W)
      → P w
      → (g ≡ ok tt → P (k w).1)
      → P ((lift g >> k) w).1
  guarded_lift (ok x) k w h kp = kp refl
  guarded_lift (err e) k w h kp = h

  autoremove_now-keeps : (w : W) → P w → P (autoremove_now b host now s w).1
  unfolding autoremove_now
  autoremove_now-keeps w h =
      let h1 = safe.previews_autoremove.at w h in
      let file = state_last_autoremove in
      let command =
        run_command b host now (codes "package autoremove failed") b.commands.autoremove in
      Keeps-bind-at P (wrapping autoremove_preview_failed (b.previews.autoremove host))
        (guarded_autoremove b host now s) w h1
        (λ preview e. guarded_lift (guard_autoremove b host now s preview) _ _ h1 (λ g.
          let h2 =
            safe.autoremoves w preview h1 (wrap_result-ok autoremove_preview_failed _ e)
              (guard_autoremove-AllDeclared preview g) in
          Keeps-bind-at P command (λ x. mark b host now s.autoremove file) _ h2
            (λ x ran. (mark-Keeps s.autoremove file).at _ h2)))

  run_autoremove-Keeps : (change : Bool) → Keeps P (run_autoremove b host now s change)
  unfolding run_autoremove
  run_autoremove-Keeps change =
      Keeps-bind P _ _
        (Keeps-wrapping since_failed _ (should_run-Keeps s.autoremove state_last_autoremove change))
        (λ run. Keeps-if run _ _ (record { at = autoremove_now-keeps }) (Keeps-pure tt))

  -- Whatever else happens in an apply, and wherever it stops, the purge runs only right after a preview
  -- of it, and the autoremove right after one of its own; and every name of such a preview is, without
  -- the spaces around it, an entry that the step declares to purge or to lose by it, or such an entry
  -- less its RPM architecture. So what is true of the host before, and stays true under those two and
  -- under the harmless rest, is true after the apply.
  pub apply-keeps : (w : W) → P w → P (apply b host now s w).1
  unfolding apply
  apply-keeps w h =
      (Keeps-bind P _ _ (Keeps-wrapping lock_failed _ safe.locks) (λ x.
          Keeps-bind P _ _ asked_change-Keeps (λ change.
            Keeps-bind P _ _
              (run_op-Keeps s.update state_last_update b.commands.update _ change safe.updates)
              (λ x1.
                Keeps-bind P _ _
                  (run_op-Keeps s.upgrade state_last_upgrade b.commands.upgrade _ change
                    safe.upgrades)
                  (λ x2. Keeps-bind P _ _ run_install-Keeps (λ x3.
                    Keeps-bind P _ _ run_purge-Keeps (λ x4. run_autoremove-Keeps change))))))).at
        w h
