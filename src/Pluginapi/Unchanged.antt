-- ===== src/Pluginapi/Unchanged.antt =====
-- A capture never differs from itself, when no two of its objects have one key.
use hardline.Base.{
  Text, ◌==◌, ==_iff, ==_refl, ◌≡◌, refl, ◌∙◌, Bool, true, false, not, ◌&&◌, Option, none, some,
  List, [], ◌∷◌, length, any, all, All, arith, Map, lookup, put, lookup-put, ◌+◌, suc, is_some,
}
use hardline.Pluginapi.Records.{
  ObjectRecord, ObjectKind, CaptureResult, object_file, object_file_meta, object_service,
  object_package, object_runtime_policy, unknown_kind,
}
use hardline.Pluginapi.Keys.{
  object_key, object_payload_present, kind_payload, both, file_differs, file_meta_differs,
  service_differs, package_differs, runtime_policy_differs, payload_differs, object_differs,
  any_differs, by_key, captures_differ,
}

-- No key of the list occurs twice in it.
abbrev pub distinct_keys : List ObjectRecord → Bool
distinct_keys [] = true
distinct_keys (o ∷ os) = not (any (λ p. object_key o == object_key p) os) && distinct_keys os

module _ {V : Type 0} where
  length-put :
      (k : Text) (v : V) (m : Map V) → lookup k m ≡ none → length (put k v m) ≡ suc (length m)
  unfolding lookup put
  length-put k v [] h = refl
  length-put k v ((j, w) ∷ m) h = ground (arith, length-put k v m)

lookup-by_key_other :
    (k : Text) (os : List ObjectRecord) (m : Map ObjectRecord)
    → any (λ p. k == object_key p) os ≡ false
    → lookup k (by_key os m) ≡ lookup k m
unfolding by_key
lookup-by_key_other k [] m h = refl
lookup-by_key_other k (o ∷ os) m h =
    lookup-by_key_other k os (put (object_key o) o m) (ground arith)
    ∙ ground
        (arith, lookup-put (object_key o) k o m, ==_iff (object_key o) k, ==_iff k (object_key o))

lookup-by_key_self :
    (o : ObjectRecord) (os : List ObjectRecord) (m : Map ObjectRecord)
    → any (λ p. object_key o == object_key p) os ≡ false
    → lookup (object_key o) (by_key (o ∷ os) m) ≡ some o
unfolding by_key
lookup-by_key_self o os m h =
    lookup-by_key_other (object_key o) os (put (object_key o) o m) h
    ∙ ground (arith, lookup-put (object_key o) (object_key o) o m, ==_refl (object_key o))

-- None of the keys is in the map.
abbrev all_new : List ObjectRecord → Map ObjectRecord → Bool
all_new os m = all (λ o. not (is_some (lookup (object_key o) m))) os

all_new-put :
    (o : ObjectRecord) (os : List ObjectRecord) (m : Map ObjectRecord)
    → any (λ p. object_key o == object_key p) os ≡ false
    → all_new os m ≡ true
    → all_new os (put (object_key o) o m) ≡ true
all_new-put o [] m h new = refl
all_new-put o (p ∷ os) m h new =
    ground (arith, all_new-put o os m, lookup-put (object_key o) (object_key p) o m)

length-by_key :
    (os : List ObjectRecord) (m : Map ObjectRecord)
    → distinct_keys os ≡ true
    → all_new os m ≡ true
    → length (by_key os m) ≡ length os + length m
unfolding by_key
length-by_key [] m d new = omega arith
length-by_key (o ∷ os) m d new = ground (
  arith,
  all_new-put o os m,
  length-by_key os (put (object_key o) o m),
  length-put (object_key o) o m,
)

both_refl :
    {A : Type 0} (d : A → A → Bool)
    → ((x : A) → d x x ≡ false)
    → (o : Option A) → is_some o ≡ true
    → both d o o ≡ false
both_refl d h none p = absurd (cc)
both_refl d h (some x) p = h x

payload_differs_refl :
    (k : ObjectKind) (o : ObjectRecord) → kind_payload k o ≡ true → payload_differs k o o ≡ false
unfolding kind_payload payload_differs file_differs file_meta_differs service_differs
    package_differs runtime_policy_differs
payload_differs_refl object_file o =
    both_refl _
      (λ x. ground (arith, ==_refl x.content_b64, ==_refl x.mode, ==_refl x.owner, ==_refl x.group))
      o.file
payload_differs_refl object_file_meta o =
    both_refl _
      (λ x. ground (arith, ==_refl x.mode, ==_refl x.owner, ==_refl x.group, ==_refl x.attrs))
      o.file_meta
payload_differs_refl object_service o =
    both_refl _ (λ x. ground (arith, ==_refl x.enabled_state, ==_refl x.active_state)) o.service
payload_differs_refl object_package o =
    both_refl _ (λ x. ground (arith, ==_refl x.version, ==_refl x.pin_spec)) o.pkg
payload_differs_refl object_runtime_policy o =
    both_refl _ (λ x. ground (arith, ==_refl x.name, ==_refl x.state)) o.runtime_policy
payload_differs_refl (unknown_kind k) o = λ h. refl

object_differs_refl : (o : ObjectRecord) → object_differs (some o) o ≡ false
unfolding object_differs object_payload_present
object_differs_refl o = ground (arith, payload_differs_refl o.kind o)

any_differs_self :
    (m : Map ObjectRecord) (os : List ObjectRecord)
    → All (λ o. lookup (object_key o) m ≡ some o) os
    → any_differs m os ≡ false
unfolding any_differs
any_differs_self m [] h = refl
any_differs_self m (o ∷ os) h = rw h.0 (rw (object_differs_refl o) (any_differs_self m os h.1))

by_key-All :
    (os : List ObjectRecord) (m : Map ObjectRecord)
    → distinct_keys os ≡ true
    → All (λ o. lookup (object_key o) (by_key os m) ≡ some o) os
unfolding by_key
by_key-All [] m d = tt
by_key-All (o ∷ os) m d = (
  lookup-by_key_self o os m (ground arith),
  by_key-All os (put (object_key o) o m) (ground arith),
)

all_new_nil : (os : List ObjectRecord) → all_new os [] ≡ true
unfolding lookup
all_new_nil [] = refl
all_new_nil (o ∷ os) = all_new_nil os

-- Two captures with the same objects do not differ, if no two of the objects have one key.
pub captures_differ-same :
    (before after : CaptureResult)
    → before.objects ≡ after.objects
    → distinct_keys before.objects ≡ true
    → captures_differ before after ≡ false
unfolding captures_differ
captures_differ-same before after e d = rw (← e) (
    ground (
      arith,
      length-by_key before.objects [] d (all_new_nil before.objects),
      any_differs_self (by_key before.objects []) before.objects (by_key-All before.objects [] d),
    ))
