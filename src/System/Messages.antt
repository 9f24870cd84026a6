-- ===== src/System/Messages.antt =====
-- What messages and confirmations do to the permissions of connections, at each of their steps
-- (skill/src/message-manager.ts, skill/src/autonomy/enforcement-pipeline.ts).
use pinch.Prelude.Act.{Result-cases}
use pinch.Prelude.{
  ℕ, String, ◌≡◌, refl, sym, subst, inl, inr, true, Option, none, some, arith, Bool-cases,
  Option-cases,
}
use pinch.Connections.{full_manual, no_updates, update_connection}
use pinch.Messages.{MessageRecord}
use pinch.Feed.{Runtime, TriggerType, message_flood}
use pinch.Wire.{Payload, Envelope}
use pinch.World.{World, stored, send_envelope}
use pinch.Breaker.{
  CircuitBreakerConfig, Check, checks, events_of, count_events, first_exceeded, is_tripped,
  add_event, trip, check_and_trip, record_trigger, record_message, record_violation,
}
use pinch.Evaluator.{PolicyDecision}
use pinch.Enforcer.{EnforcementResult}
use pinch.Router.{RoutedMessage, route, note_autonomous}
use pinch.Pipeline.{intercept, route_stage, start_evaluation, report_violation, resume, decide}
use pinch.Manager.{Setup}
use pinch.Manager.Receiving.{
  send_delivery_confirmation, handle_delivery_confirmation, confirm_message, confirm_payload,
}
use pinch.System.Widening.{Narrows, Narrows-same, Tightens, Tightens-bind}
use pinch.System.Envelopes.{stored-update-Tightens, save_store-Tightens}

module _ (rt : Runtime) (now : ℕ) (addr : String) where
  trip-Tightens : (k : Check) (n : ℕ) → Tightens (trip rt now addr k n)
  unfolding trip
  trip-Tightens k n =
      let u1 = record no_updates { autonomy_level = some full_manual } in
      let u2 = record no_updates { circuit_breaker_tripped = some true } in
      Tightens-bind (stored (update_connection now addr u1)) _
        (stored-update-Tightens now addr u1 (inr refl, refl, refl))
        (λ _.
          Tightens-bind (stored (update_connection now addr u2)) _
            (stored-update-Tightens now addr u2 (inl refl, refl, refl))
            (λ _ w. save_store-Tightens w))

  check_and_trip-Tightens : (cfg : CircuitBreakerConfig) → Tightens (check_and_trip rt cfg now addr)
  unfolding check_and_trip
  check_and_trip-Tightens cfg w = elim (Bool-cases (is_tripped addr w)) [
    | inl y ↦ Narrows-same w.store (check_and_trip rt cfg now addr w).0.store (ground arith)
    | inr n ↦ elim (Option-cases (first_exceeded now (events_of addr w) (checks cfg))) [
      | inl f ↦ Narrows-same w.store (check_and_trip rt cfg now addr w).0.store (ground arith)
      | inr (k, f) ↦
          let c = count_events now k (events_of addr w) in
          let same : (check_and_trip rt cfg now addr w).0.store ≡ (trip rt now addr k c w).0.store =
            elim (Result-cases (trip rt now addr k c w).1) [
              | inl (a, e) ↦ ground arith
              | inr (x, e) ↦ ground arith
            ] in
          subst (Narrows w.store) (sym same) (trip-Tightens k c w)
    ]
  ]

  record_trigger-Tightens :
      (cfg : CircuitBreakerConfig) (t : TriggerType) → Tightens (record_trigger rt cfg now addr t)
  unfolding record_trigger add_event
  record_trigger-Tightens cfg t w = check_and_trip-Tightens cfg (add_event cfg now addr t w)

module _ (rt : Runtime) (cfg : CircuitBreakerConfig) (m : MessageRecord) (addr : String)
    (now : ℕ) where
  route_stage-store : (w : World) → (route_stage rt cfg m addr now w).0.store ≡ w.store
  unfolding route_stage start_evaluation route note_autonomous
  route_stage-store w = ground arith

  pub intercept-store : (w : World) → (intercept rt cfg m addr now w).0.store ≡ w.store
  unfolding intercept
  intercept-store w = ground arith

  pub decide-store :
      (d : Option PolicyDecision) (r : RoutedMessage) (w : World)
      → (decide rt cfg m addr now d r w).0.store ≡ w.store
  unfolding decide
  decide-store d r w = ground arith

  report_violation-Tightens :
      (t : Option TriggerType) → Tightens (report_violation rt cfg m addr now t)
  unfolding record_violation
  report_violation-Tightens none = λ w. Narrows-same w.store w.store refl
  report_violation-Tightens (some t) = record_trigger-Tightens rt now addr cfg t

  pub resume-Tightens : (e : EnforcementResult) → Tightens (resume rt cfg m addr now e)
  unfolding resume record_message
  resume-Tightens e w = elim (Bool-cases e.allowed) [
    | inl a ↦
        let same : (resume rt cfg m addr now e w).0.store
            ≡ (record_message rt cfg now addr w).0.store =
          elim (Result-cases (record_message rt cfg now addr w).1) [
            | inl (b, o) ↦ ground (arith, route_stage-store (record_message rt cfg now addr w).0)
            | inr (x, o) ↦ ground arith
          ] in
        subst (Narrows w.store) (sym same) (record_trigger-Tightens rt now addr cfg message_flood w)
    | inr a ↦ elim (Bool-cases e.escalate_to_human) [
      | inl y ↦ Narrows-same w.store (resume rt cfg m addr now e w).0.store (ground arith)
      | inr n ↦
          let v = e.violation_type in
          let same : (resume rt cfg m addr now e w).0.store
              ≡ (report_violation rt cfg m addr now v w).0.store =
            elim (Result-cases (report_violation rt cfg m addr now v w).1) [
              | inl (b, o) ↦ ground arith
              | inr (x, o) ↦ ground arith
            ] in
          subst (Narrows w.store) (sym same) (report_violation-Tightens v w)
    ]
  ]

module _ (st : Setup) (now : ℕ) where
  pub send_delivery_confirmation-store :
      (id sender : String) (w : World)
      → (send_delivery_confirmation st now id sender w).0.store ≡ w.store
  unfolding send_delivery_confirmation send_envelope
  send_delivery_confirmation-store id sender w = ground arith

  confirm_payload-store :
      (e : Envelope) (p : Payload) (w : World) → (confirm_payload st now e p w).0.store ≡ w.store
  unfolding confirm_message
  confirm_payload-store e (Payload.confirm c) w = ground arith
  confirm_payload-store e _ w = refl

  pub handle_delivery_confirmation-store :
      (e : Envelope) (w : World) → (handle_delivery_confirmation st now e w).0.store ≡ w.store
  unfolding handle_delivery_confirmation
  handle_delivery_confirmation-store e w = confirm_payload-store e e.payload w
