-- ===== src/Plugins/Packages/Plan.antt =====
-- internals/plugins/packages/backend.go: `plan`. It reads the host in this order: the state of each
-- package, how long ago each operation ran, and the previews.
use hardline.Base.{Text, Bool, true, false, List, [], ◌∷◌, ok}
use hardline.Base.Exec.{Exec, ◌>>=◌, pure, wrapping}
use hardline.Pluginapi.Host.{Host}
use hardline.Pluginapi.Records.{PlanResult}
use hardline.Plugins.Packages.{Spec}
use hardline.Plugins.Packages.Ops.{
  Decision, plan_op_decision, state_last_update, state_last_upgrade, state_last_autoremove,
}
use hardline.Plugins.Packages.Backend.{
  Backend, PackageError, PreviewError, PkgInfo, infos, infos_failed, since_failed,
}
use hardline.Plugins.Packages.Run.{would_change}
use hardline.Plugins.Packages.Report.{Preview, PlanInputs}
use hardline.Plugins.Packages.Render.{render_plan}

-- The decisions on the three operations.
pub record Decisions : Type 0 where
  pub update : Decision
  pub upgrade : Decision
  pub autoremove : Decision

module _ {W : Type 0} (b : Backend W) (host : Host W) where
  unfoldable pub decide : Spec → Bool → Exec W PackageError Decisions
  decide s change = do
    update ← wrapping since_failed (plan_op_decision host s.update state_last_update change)
    upgrade ← wrapping since_failed (plan_op_decision host s.upgrade state_last_upgrade change)
    autoremove ←
        wrapping since_failed (plan_op_decision host s.autoremove state_last_autoremove change)
    pure (record { update = update; upgrade = upgrade; autoremove = autoremove })

  -- A preview that fails does not end the plan.
  abbrev pub attempted : Bool → Exec W PreviewError (List Text) → Exec W PackageError Preview
  attempted true m w = let (r, w') = m w in (ok r, w')
  attempted false m w = (ok (ok []), w)

  abbrev is_cons : List Text → Bool
  is_cons [] = false
  is_cons (n ∷ l) = true

  unfoldable pub previewed :
      Spec → List PkgInfo → List PkgInfo → Decisions → Exec W PackageError PlanInputs
  previewed s install_infos purge_infos d = do
    upgrade_preview ← attempted d.upgrade.will_run (b.previews.upgrade host)
    install_preview ← attempted (is_cons s.install) (b.previews.install host s.install)
    purge_preview ← attempted (is_cons s.purge) (b.previews.purge host s.purge)
    autoremove_preview ← attempted d.autoremove.will_run (b.previews.autoremove host)
    pure (record {
      update_mode = s.update;
      upgrade_mode = s.upgrade;
      autoremove_mode = s.autoremove;
      install_infos = install_infos;
      purge_infos = purge_infos;
      update = d.update;
      upgrade = d.upgrade;
      autoremove = d.autoremove;
      upgrade_preview = upgrade_preview;
      install_preview = install_preview;
      purge_preview = purge_preview;
      autoremove_preview = autoremove_preview;
      purge_also_removes = s.purge_also_removes;
    })

  unfoldable pub plan : Spec → Exec W PackageError PlanResult
  plan s = do
    install_infos ← wrapping infos_failed (infos b host s.install)
    purge_infos ← wrapping infos_failed (infos b host s.purge)
    d ← decide s (would_change install_infos purge_infos)
    inputs ← previewed s install_infos purge_infos d
    pure (render_plan inputs)
