-- ===== src/Pluginapi/Keys.antt =====
-- pkg/pluginapi/helpers.go: what identifies an object, and whether two captures differ.

use hardline.Base.{
  Text, String, ◌==◌, codes, Bool, true, false, not, ◌||◌, ◌&&◌, Option, none, some, List, [], ◌∷◌,
  ◌++◌, length, nat_eq, if◌then◌else◌, Map, lookup, put, is_some,
}
use hardline.Pluginapi.Records.{
  ObjectRecord, ObjectKind, CaptureResult, object_file, object_file_meta, object_service,
  object_package, object_runtime_policy, unknown_kind, FileSnapshot, FileMetaSnapshot, ServiceState,
  PackageState, RuntimePolicy,
}

-- The text of a kind, and the NUL byte behind it.
abbrev keyed : String → Text → Text
keyed kind name = codes kind ++ (0 ∷ name)

kind_key : ObjectKind → ObjectRecord → Text
kind_key object_file o = elim o.file [ none ↦ [] | some f ↦ keyed "file" f.path ]
kind_key object_file_meta o = elim o.file_meta [ none ↦ [] | some f ↦ keyed "file_meta" f.path ]
kind_key object_service o = elim o.service [ none ↦ [] | some s ↦ keyed "service" s.unit ]
kind_key object_package o = elim o.pkg [ none ↦ [] | some p ↦ keyed "package" p.name ]
kind_key object_runtime_policy o = elim o.runtime_policy [
  | none ↦ []
  | some r ↦ keyed "runtime_policy" r.name
]
kind_key (unknown_kind k) o = []

unfoldable pub object_key : ObjectRecord → Text
unfolding kind_key
object_key o = kind_key o.kind o

unfoldable pub kind_payload : ObjectKind → ObjectRecord → Bool
kind_payload object_file o = is_some o.file
kind_payload object_file_meta o = is_some o.file_meta
kind_payload object_service o = is_some o.service
kind_payload object_package o = is_some o.pkg
kind_payload object_runtime_policy o = is_some o.runtime_policy
kind_payload (unknown_kind k) o = false

unfoldable pub object_payload_present : ObjectRecord → Bool
object_payload_present o = kind_payload o.kind o

abbrev pub bool_ne : Bool → Bool → Bool
bool_ne true b = not b
bool_ne false b = b

abbrev pub text_ne : Text → Text → Bool
text_ne a b = not (a == b)

unfoldable pub file_differs : FileSnapshot → FileSnapshot → Bool
file_differs b a =
    bool_ne b.existed a.existed
    || (text_ne b.content_b64 a.content_b64
        || (text_ne b.mode a.mode || (text_ne b.owner a.owner || text_ne b.group a.group)))

unfoldable pub file_meta_differs : FileMetaSnapshot → FileMetaSnapshot → Bool
file_meta_differs b a =
    bool_ne b.existed a.existed
    || (text_ne b.mode a.mode
        || (text_ne b.owner a.owner || (text_ne b.group a.group || text_ne b.attrs a.attrs)))

unfoldable pub service_differs : ServiceState → ServiceState → Bool
service_differs b a =
    bool_ne b.active a.active
    || (bool_ne b.enabled a.enabled
        || (text_ne b.enabled_state a.enabled_state || text_ne b.active_state a.active_state))

unfoldable pub package_differs : PackageState → PackageState → Bool
package_differs b a =
    bool_ne b.was_installed a.was_installed
    || (text_ne b.version a.version || text_ne b.pin_spec a.pin_spec)

unfoldable pub runtime_policy_differs : RuntimePolicy → RuntimePolicy → Bool
runtime_policy_differs b a = text_ne b.name a.name || text_ne b.state a.state

-- A payload that is missing on one side cannot be reached here: the caller compares only objects
-- of one key whose payloads are both present. The source would panic; the model says `true`.
abbrev pub both {ℓ} : {A : Type ℓ} → (A → A → Bool) → Option A → Option A → Bool
both d none y = true
both d (some x) none = true
both d (some x) (some y) = d x y

-- The `switch b.Kind` of `CapturesDiffer`.
unfoldable pub payload_differs : ObjectKind → ObjectRecord → ObjectRecord → Bool
payload_differs object_file b a = both file_differs b.file a.file
payload_differs object_file_meta b a = both file_meta_differs b.file_meta a.file_meta
payload_differs object_service b a = both service_differs b.service a.service
payload_differs object_package b a = both package_differs b.pkg a.pkg
payload_differs object_runtime_policy b a =
    both runtime_policy_differs b.runtime_policy a.runtime_policy
payload_differs (unknown_kind k) b a = false

-- The body of the loop over the later capture, for one object and what it is paired with.
unfoldable pub object_differs : Option ObjectRecord → ObjectRecord → Bool
object_differs none a = true
object_differs (some b) a =
    bool_ne (object_payload_present b) (object_payload_present a)
    || (object_payload_present b && payload_differs b.kind b a)

unfoldable pub by_key : List ObjectRecord → Map ObjectRecord → Map ObjectRecord
by_key [] m = m
by_key (o ∷ os) m = by_key os (put (object_key o) o m)

unfoldable pub any_differs : Map ObjectRecord → List ObjectRecord → Bool
any_differs m [] = false
any_differs m (a ∷ rest) = object_differs (lookup (object_key a) m) a || any_differs m rest

unfoldable pub captures_differ : CaptureResult → CaptureResult → Bool
captures_differ before after =
    let indexed = by_key before.objects [] in
    if not (nat_eq (length before.objects) (length after.objects))
    then true
    else if not (nat_eq (length indexed) (length before.objects))
    then true
    else any_differs indexed after.objects
