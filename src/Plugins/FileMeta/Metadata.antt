-- ===== src/Plugins/FileMeta/Metadata.antt =====
-- internals/plugins/filemeta/execution.go: reading the metadata of a path, what a step wants of it, and
-- the commands that change it.
use hardline.Base.{
  ℕ, Text, codes, Bool, true, false, not, Option, none, some, List, [], ◌∷◌, ◌++◌, Result, ok, err,
  is_ok, if◌then◌else◌, is_nil, any, nat_eq, trim_space, fields,
}
use hardline.Base.Exec.{Exec, ◌>>=◌, ◌>>◌, pure, lift, wrapping}
use hardline.Pluginapi.Host.{Host, Fault}
use hardline.Pluginapi.Shell.{shell_arg}
use hardline.Pluginapi.Records.{FileMetaSnapshot}
use hardline.Plugins.FileMeta.{
  FileMetaError, Spec, attrs_failed, checked_mode, chmod_failed, chown_failed, clear_failed,
  inspect_failed, is_set, manages_attrs, set_failed, unexpected_format,
}

-- strings.IndexByte(s, c) >= 0
unfoldable pub has_byte : Text → ℕ → Bool
has_byte s c = any (λ d. nat_eq d c) s

abbrev letter_if : Bool → ℕ → Text
letter_if true c = c ∷ []
letter_if false c = []

abbrev chosen : Option Bool → Bool → Bool
chosen none now = now
chosen (some want) now = want

unfoldable pub desired_managed_attrs : Text → Spec → Text
desired_managed_attrs cur s =
    letter_if (chosen s.append_only (has_byte cur b'a')) b'a'
    ++ letter_if (chosen s.immutable (has_byte cur b'i')) b'i'

-- The metadata that a step wants, of a path with this metadata.
pub record Desired : Type 0 where
  pub mode : Text
  pub owner : Text
  pub group : Text
  pub attrs : Text

abbrev pub desired_with :
    Spec → FileMetaSnapshot → Result FileMetaError Text → Result FileMetaError Desired
desired_with s cur (err e) = err e
desired_with s cur (ok mode) = ok (record {
  mode = mode;
  owner = if is_set s.owner then trim_space s.owner else cur.owner;
  group = if is_set s.group then trim_space s.group else cur.group;
  attrs = if manages_attrs s then desired_managed_attrs cur.attrs s else cur.attrs;
})

unfoldable pub desired : Spec → FileMetaSnapshot → Result FileMetaError Desired
desired s cur = desired_with s cur (if is_set s.mode then checked_mode s.mode else ok cur.mode)

abbrev pub blank : Text → Bool → FileMetaSnapshot
blank target existed = record {
  path = target;
  existed = existed;
  mode = [];
  owner = [];
  group = [];
  attrs = [];
}

abbrev with_stat : Text → List Text → Result FileMetaError FileMetaSnapshot
with_stat target (mode ∷ (owner ∷ (group ∷ []))) = ok (record {
  path = target;
  existed = true;
  mode = mode;
  owner = owner;
  group = group;
  attrs = [];
})
with_stat target l = err (unexpected_format target)

-- The managed letters among the flags that `lsattr` prints.
unfoldable pub managed_attrs : List Text → Text
managed_attrs [] = []
managed_attrs (flags ∷ l) =
    letter_if (has_byte flags b'a') b'a' ++ letter_if (has_byte flags b'i') b'i'

module _ {W : Type 0} (host : Host W) where
  unfoldable pub read_managed_attrs : Text → Exec W FileMetaError Text
  read_managed_attrs target = do
    out ←
        wrapping attrs_failed
          (host.run_root_with_output (codes "lsattr -d -- " ++ shell_arg target))
    pure (managed_attrs (fields (trim_space out)))

  unfoldable pub read_metadata : Text → Exec W FileMetaError FileMetaSnapshot
  read_metadata target = do
    out ←
        wrapping inspect_failed
          (host.run_root_with_output (codes "stat -c '%a %U %G' -- " ++ shell_arg target))
    snap ← lift (with_stat target (fields (trim_space out)))
    attrs ← read_managed_attrs target
    pure (record snap { attrs = attrs })

  unfoldable pub snapshot_file_meta : Text → Exec W FileMetaError FileMetaSnapshot
  snapshot_file_meta target w =
      let (r, w') = host.run_root (codes "test -e " ++ shell_arg target) w in
      if is_ok r then read_metadata target w' else (ok (blank target false), w')

  abbrev attr_command : (Fault → FileMetaError) → ℕ → Text → Text → Exec W FileMetaError (Unit {0})
  attr_command f sign letters target =
      if is_nil letters
      then pure tt
      else wrapping f (
          host.run_root
            ((codes "chattr " ++ (sign ∷ letters ++ (codes " -- " ++ shell_arg target)))))

  unfoldable pub apply_managed_attrs : Text → Text → Exec W FileMetaError (Unit {0})
  apply_managed_attrs target wanted = do
    attr_command clear_failed b'-'
        (letter_if (not (has_byte wanted b'a')) b'a' ++ letter_if (not (has_byte wanted b'i')) b'i')
        target
    attr_command set_failed b'+'
        (letter_if (has_byte wanted b'a') b'a' ++ letter_if (has_byte wanted b'i') b'i') target

  abbrev pub chmod : Text → Text → Exec W FileMetaError (Unit {0})
  chmod mode target =
      wrapping chmod_failed
        (host.run_root ((codes "chmod " ++ (shell_arg mode ++ (codes " -- " ++ shell_arg target)))))

  abbrev pub chown : Text → Text → Exec W FileMetaError (Unit {0})
  chown owner target =
      wrapping chown_failed (
        host.run_root ((codes "chown " ++ (shell_arg owner ++ (codes " -- " ++ shell_arg target)))))
