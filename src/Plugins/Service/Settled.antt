-- ===== src/Plugins/Service/Settled.antt =====
-- internals/plugins/service: a capture and the conflict check on it.
use hardline.Base.{
  ℕ, Text, codes, ◌≡◌, refl, ap, subst, Bool, true, false, not, ◌&&◌, List, [], ◌∷◌, Result, ok,
  is_nil, all, leb, length, All, arith, trim_space, trim_left, trim_right, is_space, Bool-cases,
  inl, inr,
}
use hardline.Base.Exec.{lift, >>=-ok}
use hardline.Pluginapi.Host.{Host}
use hardline.Pluginapi.Records.{CaptureResult, ServiceState}
use hardline.Plugins.Service.{
  Spec, ServiceError, unit_of, same, is_unit_byte, is_alnum, matches_unit, validate_unit,
}
use hardline.Plugins.Service.Snapshot.{
  unit_state_word, state_from_words, snapshot_service_state, state_conflicts,
  service_state_conflict, detect_conflict, capture, service_record,
}

unit_byte_visible : (c : ℕ) → is_unit_byte c ≡ true → is_space c ≡ false
unfolding is_space
unit_byte_visible c h = ground arith

trim_right-visible : (s : Text) → all is_unit_byte s ≡ true → trim_right s ≡ s
unfolding trim_right
trim_right-visible [] h = refl
trim_right-visible (c ∷ s) h =
    let v : is_space c ≡ false = unit_byte_visible c (ground arith) in
    rw (v, trim_right-visible s (ground arith)) refl

trim_space-unit : (u : Text) → validate_unit u ≡ ok tt → trim_space u ≡ u
unfolding validate_unit matches_unit trim_space trim_left
trim_space-unit [] h = refl
trim_space-unit (c ∷ s) h =
    let shape : is_alnum c && (all is_unit_byte s && leb (length s) 127) ≡ true = ground arith in
    let v : is_space c ≡ false = unit_byte_visible c (ground arith) in
    rw v (trim_right-visible (c ∷ s) (ground arith))

same_refl : (b : Bool) → same b b ≡ true
same_refl true = refl
same_refl false = refl

state_conflicts_self : (u : Text) (st : ServiceState) → state_conflicts u st st ≡ []
unfolding state_conflicts
state_conflicts_self u st = rw (same_refl st.enabled, same_refl st.active) refl

-- What the two words of a unit are on a host, which asking for them does not change.
pub record Worded {W : Type 0} (host : Host W) (unit : Text) (w : W) : Type 0 where
  pub enabled_word : Text
  pub active_word : Text
  pub asks_enabled : unit_state_word host (codes "is-enabled") unit w ≡ (ok enabled_word, w)
  pub asks_active : unit_state_word host (codes "is-active") unit w ≡ (ok active_word, w)

objects_of :
    (q r : CaptureResult)
    → ◌≡◌ {A = Result ServiceError CaptureResult} (ok q) (ok r)
    → q.objects ≡ r.objects
objects_of q r h = ap (λ x. x.objects) (let same_result : q ≡ r = cc in same_result)

module _ {W : Type 0} (host : Host W) (s : Spec) (w : W) (words : Worded host (unit_of s) w) where
  abbrev state : ServiceState
  state = state_from_words (unit_of s) words.enabled_word words.active_word

  snapshot_reads : snapshot_service_state host (unit_of s) w ≡ (ok state, w)
  unfolding snapshot_service_state
  snapshot_reads = rw (words.asks_enabled, words.asks_active) refl

  conflict_free : validate_unit (unit_of s) ≡ ok tt → service_state_conflict host state w ≡ ([], w)
  unfolding service_state_conflict state_from_words
  conflict_free v =
      let same_unit = trim_space-unit (unit_of s) v in
      elim (Bool-cases (state.known && not (is_nil (trim_space (unit_of s))))) [
        | inl e ↦
            rw (e, same_unit, snapshot_reads)
              (ap (λ (l : List Text). (l, w)) (state_conflicts_self (unit_of s) state))
        | inr e ↦ rw e refl
      ]

  -- If asking for the two words of a unit only reads the host, a capture of the unit is in no
  -- conflict with the host that it was taken from, and detecting conflicts leaves the host alone.
  pub capture-settled :
      (r : CaptureResult)
      → (capture host s w).0 ≡ ok r
      → All (λ o. detect_conflict host o w ≡ ([], w)) r.objects
  unfolding capture detect_conflict
  capture-settled r h =
      let (x, v, on) = >>=-ok (lift (validate_unit (unit_of s))) _ w r h in
      let (st, snapped, on1) =
        >>=-ok (snapshot_service_state host (unit_of s)) _ w r (rw on at h) in
      let last = rw on1 at (rw on at h) in
      let held : st ≡ state = cc (ap (λ t. t.0) snapshot_reads, snapped) in
      let listed : service_record st ∷ [] ≡ r.objects = objects_of _ r last in
      subst (All (λ o. detect_conflict host o w ≡ ([], w))) listed (rw held (conflict_free v), tt)
