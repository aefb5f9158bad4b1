-- ===== src/Plugins/Packages/Removal.antt =====
-- internals/plugins/packages/backend.go: what a rollback of a package can remove.
use hardline.Base.{
  Text, ◌≡◌, Bool, true, false, not, ◌&&◌, List, [], ◌∷◌, Result, ok, if◌then◌else◌, is_nil, arith,
  trim_space, is_ok,
}
use hardline.Base.Exec.{◌>>◌, lift, wrapping, wrap_result-ok}
use hardline.Base.Keeps.{Keeps, Keeps-pure, Keeps-lift, Keeps-if, Keeps-bind, Keeps-bind-at}
use hardline.Pluginapi.Host.{Host}
use hardline.Pluginapi.Records.{PackageState}
use hardline.Plugins.Packages.Exec.{append_packages}
use hardline.Plugins.Packages.Backend.{
  Backend, PackageError, removal_preview_failed, removal_failed,
}
use hardline.Plugins.Packages.Snapshot.{
  rollback_preview, rollback_remove_command, guard_removal, remove_installed, reinstall, restore,
  name_checked,
}
use hardline.Plugins.Packages.Named.{AllDeclared, unexpected_removals-AllDeclared}

-- What is true of the host stays true under the preview and the installs of a package, and under its
-- removal where that follows a preview with nothing else.
pub record SafeRemoval {W : Type 0} (P : W → Type 0) (b : Backend W) (host : Host W)
    (p : PackageState) : Type 0 where
  pub previews : Keeps P (rollback_preview b host host (trim_space p.name ∷ []))
  pub installs :
      (name : Text) → Keeps P (host.run_root (append_packages b.commands.install (name ∷ [])))
  pub removes :
      (w : W) (names : List Text)
      → P (rollback_preview b host host (trim_space p.name ∷ []) w).1
      → (rollback_preview b host host (trim_space p.name ∷ []) w).0 ≡ ok names
      → AllDeclared (trim_space p.name ∷ []) names
      → P
          (host.run_root
            (append_packages (rollback_remove_command b host) (trim_space p.name ∷ []))
            (rollback_preview b host host (trim_space p.name ∷ []) w).1).1

module _ {W : Type 0} (P : W → Type 0) (b : Backend W) (host : Host W) (p : PackageState)
    (safe : SafeRemoval P b host p) where
  abbrev name : Text
  name = trim_space p.name

  removed-keeps : (w : W) → P w → P (remove_installed b host name w).1
  unfolding remove_installed
  removed-keeps w h =
      let h1 = safe.previews.at w h in
      Keeps-bind-at P (wrapping removal_preview_failed (rollback_preview b host host (name ∷ [])))
        (λ preview.
          lift (guard_removal b host name preview)
          >> wrapping (removal_failed name)
              (host.run_root (append_packages (rollback_remove_command b host) (name ∷ []))))
        w h1
        (λ preview e. Keeps-bind-at P (lift (guard_removal b host name preview)) _ _ h1 (λ x g.
          safe.removes w preview h1 (wrap_result-ok removal_preview_failed _ e)
            (unexpected_removals-AllDeclared (name ∷ []) preview (ground arith))))

  at_if :
      (c : Bool) (x y : Result PackageError (Unit {0}) × W)
      → P x.1
      → P y.1
      → P (if c then x else y).1
  at_if true x y px py = px
  at_if false x y px py = py

  reinstall-Keeps : (pin : Text) → Keeps P (reinstall b host name pin)
  unfolding reinstall
  reinstall-Keeps pin = record {
    at = λ w h.
        let h1 = (safe.installs pin).at w h in
        let h2 =
          (safe.installs name).at
            (host.run_root (append_packages b.commands.install (pin ∷ [])) w).1 h1 in
        at_if (not (is_nil pin) && b.pin_pattern pin) _ _
          (at_if (is_ok (host.run_root (append_packages b.commands.install (pin ∷ [])) w).0) _ _ h1
            h2)
          ((safe.installs name).at w h);
  }

  -- A rollback removes a package only right after a preview of the removal in which every name
  -- is the package's, with its RPM architecture cut off or not: what is true of the host, and stays true under such a removal, the preview and the installs, is
  -- true after the rollback, however it ends.
  pub restore-keeps : (w : W) → P w → P (restore b host p w).1
  unfolding restore
  restore-keeps w h =
      (Keeps-if (is_nil name) _ _ (record { at = λ w h. h })
          (Keeps-bind P _ _ (Keeps-lift (name_checked b host name)) (λ x.
            Keeps-bind P _ _
              (Keeps-if (p.requested_install && not p.was_installed) _ _
                (record { at = removed-keeps }) (Keeps-pure tt))
              (λ y.
                Keeps-if (p.requested_purge && p.was_installed) _ _ (reinstall-Keeps p.pin_spec)
                  (Keeps-pure tt))))).at
        w h
