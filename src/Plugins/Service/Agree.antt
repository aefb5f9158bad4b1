-- ===== src/Plugins/Service/Agree.antt =====
-- `Plan` and `Apply` of the service plugin agree on whether there is anything to do.
use hardline.Base.{
  Text, codes, Bool, true, false, not, ◌||◌, some, ◌==◌, Result, ok, is_nil, Map, lookup, to_lower,
  trim_space, ◌≡◌, refl, ap, arith, Bool-cases, Option-cases, Result-cases, inl, inr, any,
}
use hardline.Pluginapi.Host.{Host}
use hardline.Pluginapi.Records.{PlanResult}
use hardline.Plugins.Service.{
  Spec, ServiceError, step_changed, Action, keep, start, stop, restart, reload, unsupported,
  action_of, state_of, unit_of, same, validate_unit, service_is_enabled, service_is_active,
  restart_policy_suppressed,
}
use hardline.Plugins.Service.Run.{toggle, act, apply}
use hardline.Plugins.Service.Preview.{plan, preview, Found, enablement_changes, activity_changes}

-- What the two probes answer for a unit, without changing the host.
pub record Probed {W : Type 0} (host : Host W) (unit : Text) (w : W) : Type 0 where
  pub enabled_now : Bool
  pub active_now : Bool
  pub asks_enabled : service_is_enabled host unit w ≡ (ok enabled_now, w)
  pub asks_active : service_is_active host unit w ≡ (ok active_now, w)

-- The texts of the states say no more than the answers of the probes.
enablement_changes-same :
    (want : Bool) (f : Found) → enablement_changes (some want) f ≡ not (same want f.enabled_now)
unfolding enablement_changes ◌==◌
enablement_changes-same true f = elim (Bool-cases f.enabled_now) [
  | inl b ↦ rw b refl
  | inr b ↦ rw b refl
]
enablement_changes-same false f = elim (Bool-cases f.enabled_now) [
  | inl b ↦ rw b refl
  | inr b ↦ rw b refl
]

activity_changes-start : (f : Found) → activity_changes f start ≡ not f.active_now
unfolding activity_changes ◌==◌
activity_changes-start f = elim (Bool-cases f.active_now) [ inl b ↦ rw b refl | inr b ↦ rw b refl ]

activity_changes-stop : (f : Found) → activity_changes f stop ≡ f.active_now
unfolding activity_changes ◌==◌
activity_changes-stop f = elim (Bool-cases f.active_now) [ inl b ↦ rw b refl | inr b ↦ rw b refl ]

preview_idle :
    (s : Spec) (f : Found) (a : Action) (q : Result ServiceError PlanResult) (r : PlanResult)
    → q ≡ ok (preview s f a)
    → q ≡ ok r
    → r.will_change ≡ false
    → (enablement_changes s.enabled f ≡ false) × (activity_changes f a ≡ false)
unfolding preview
preview_idle s f a q r e e' h =
    let same_flag : enablement_changes s.enabled f || activity_changes f a ≡ r.will_change =
      ap (λ t. t.will_change) (let same_result : preview s f a ≡ r = cc in same_result) in
    (ground arith, ground arith)

module _ {W : Type 0} (host : Host W) (changes : Map Bool) (s : Spec) (w : W)
    (p : Probed host (unit_of s) w) where
  suppressed_reads : (b : Bool) × (restart_policy_suppressed host changes s w ≡ (ok b, w))
  unfolding restart_policy_suppressed
  suppressed_reads = elim (Option-cases s.restart_policy) [
    | inl n ↦ (false, rw n refl)
    | inr (pol, e) ↦ elim (Bool-cases (to_lower (trim_space pol.type) == codes "on_change")) [
      | inr t ↦ (false, rw (e, t) refl)
      | inl t ↦ elim (Bool-cases (any (λ id. step_changed (lookup id changes)) pol.steps)) [
        | inl c ↦ (false, rw (e, t, c) refl)
        | inr c ↦ elim (Bool-cases p.active_now) [
          | inr a ↦ (false, rw (e, t, c, p.asks_active, a) refl)
          | inl a ↦ elim (Option-cases s.enabled) [
            | inl n ↦ (true, rw (e, t, c, p.asks_active, a, n) refl)
            | inr (want, n) ↦
                (same want p.enabled_now, rw (e, t, c, p.asks_active, a, n, p.asks_enabled) refl)
          ]
        ]
      ]
    ]
  ]

  abbrev found : Action → Found
  found a = record {
    enabled_now = p.enabled_now;
    active_now = p.active_now;
    skip_diff = elim a [ restart ↦ suppressed_reads.0 | reload ↦ suppressed_reads.0 | _ ↦ false ];
    skip_change = elim a [ restart ↦ suppressed_reads.0 | reload ↦ suppressed_reads.0 | _ ↦ false ];
  }

  plan-reads :
      (a : Action)
      → action_of (state_of s) ≡ a
      → is_nil s.name ≡ false
      → validate_unit (unit_of s) ≡ ok tt
      → plan host changes s w ≡ (ok (preview s (found a) a), w)
  unfolding plan
  plan-reads keep e n v = rw (n, v, p.asks_enabled, p.asks_active, e) refl
  plan-reads start e n v = rw (n, v, p.asks_enabled, p.asks_active, e) refl
  plan-reads stop e n v = rw (n, v, p.asks_enabled, p.asks_active, e) refl
  plan-reads restart e n v =
      rw (n, v, p.asks_enabled, p.asks_active, e, suppressed_reads.1, suppressed_reads.1) refl
  plan-reads reload e n v =
      rw (n, v, p.asks_enabled, p.asks_active, e, suppressed_reads.1, suppressed_reads.1) refl
  plan-reads unsupported e n v = rw (n, v, p.asks_enabled, p.asks_active, e) refl

  toggle_idle :
      (f : Found)
      → f.enabled_now ≡ p.enabled_now
      → enablement_changes s.enabled f ≡ false
      → toggle host (unit_of s) s.enabled w ≡ (ok tt, w)
  unfolding toggle enablement_changes
  toggle_idle f q h = elim (Option-cases s.enabled) [
    | inl n ↦ rw n refl
    | inr (want, n) ↦
        let idle : same want p.enabled_now ≡ true = ground (
          arith,
          enablement_changes-same want f,
          ap (same want) q,
          ap (λ o. enablement_changes o f) n,
          h,
        ) in
        rw (n, p.asks_enabled, idle) refl
  ]

  act_idle :
      (a : Action) → activity_changes (found a) a ≡ false → act host changes s a w ≡ (ok tt, w)
  unfolding act activity_changes
  act_idle keep h = refl
  act_idle start h =
      let on : p.active_now ≡ true = ground (arith, activity_changes-start (found start)) in
      rw (p.asks_active, on) refl
  act_idle stop h =
      let off : p.active_now ≡ false = ground (arith, activity_changes-stop (found stop)) in
      rw (p.asks_active, off) refl
  act_idle restart h =
      let skip : suppressed_reads.0 ≡ true = ground arith in rw (suppressed_reads.1, skip) refl
  act_idle reload h =
      let skip : suppressed_reads.0 ≡ true = ground arith in rw (suppressed_reads.1, skip) refl
  act_idle unsupported h = absurd (cc)

  -- If the two probes of a service step only read the host, and `Plan` says that nothing will
  -- change, then `Apply` succeeds and leaves the host as it is.
  pub plan-idle :
      (r : PlanResult)
      → (plan host changes s w).0 ≡ ok r
      → r.will_change ≡ false
      → apply host changes s w ≡ (ok tt, w)
  unfolding plan apply
  plan-idle r h idle = elim (Bool-cases (is_nil s.name)) [
    | inl n ↦ absurd (ground arith)
    | inr n ↦ elim (Result-cases (validate_unit (unit_of s))) [
      | inr (x, v) ↦ absurd (ground arith)
      | inl (x, v) ↦
          let a = action_of (state_of s) in
          let read = plan-reads a refl n v in
          let (quiet, still) =
            preview_idle s (found a) a (plan host changes s w).0 r (ap (λ t. t.0) read) h idle in
          rw (n, v, toggle_idle (found a) refl quiet, act_idle a still) refl
    ]
  ]
