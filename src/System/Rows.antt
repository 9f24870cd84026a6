-- ===== src/System/Rows.antt =====
-- The rows of the message store under the steps of messages and confirmations
-- (skill/src/message-manager.ts, skill/src/autonomy/enforcement-pipeline.ts).
use pinch.Prelude.Act.{Result-cases}
use pinch.Prelude.{
  ℕ, String, ◌≡◌, refl, ap, ◌∙◌, inl, inr, Option, none, some, ◌==◌, List, [], ◌∷◌, map, arith,
  Bool-cases, Option-cases,
}
use pinch.Connections.{get_connection, is_active}
use pinch.Messages.{MessageRecord, set_state, update_state}
use pinch.Feed.{Runtime, TriggerType, Action, message_flood}
use pinch.Wire.{Payload, Envelope}
use pinch.World.{World, send_envelope, restated}
use pinch.Breaker.{
  CircuitBreakerConfig, checks, events_of, count_events, first_exceeded, is_tripped, add_event,
  trip, check_and_trip, record_trigger, record_message, record_violation,
}
use pinch.Breaker.Trip.{trip_messages}
use pinch.Evaluator.{PolicyDecision}
use pinch.Enforcer.{EnforcementResult}
use pinch.Router.{RoutedMessage, route, routed_state, note_autonomous, inactive_sender}
use pinch.Pipeline.{
  intercept, route_stage, start_evaluation, report_violation, resume, decide, by_decision, conclude,
}
use pinch.Pipeline.Agreement.{note_autonomous-messages}
use pinch.Manager.{Setup}
use pinch.Manager.Receiving.{
  send_delivery_confirmation, handle_delivery_confirmation, confirm_message, confirm_payload,
}

abbrev pub ids : World → List String
ids w = map (λ m. m.id) w.messages.messages

restated_rows :
    (now : ℕ) (id state : String) (reason : Option String) (ms : List MessageRecord)
    → map (λ m. m.id) (map (set_state now id state reason) ms) ≡ map (λ m. m.id) ms
restated_rows now id state reason [] = refl
restated_rows now id state reason (m ∷ ms) = ground (arith, restated_rows now id state reason ms)

ids-restated :
    (now : ℕ) (id state : String) (reason : Option String) (w : World)
    → ids (restated now id state reason w) ≡ ids w
unfolding update_state
ids-restated now id state reason w = restated_rows now id state reason w.messages.messages

pub ids_same : (w v : World) → w.messages ≡ v.messages → ids w ≡ ids v
ids_same w v e = ap (λ s. map (λ m. m.id) s.messages) e

module _ (rt : Runtime) (cfg : CircuitBreakerConfig) (now : ℕ) (addr : String) where
  check_and_trip-messages : (w : World) → (check_and_trip rt cfg now addr w).0.messages ≡ w.messages
  unfolding check_and_trip
  check_and_trip-messages w = elim (Bool-cases (is_tripped addr w)) [
    | inl y ↦ ground (arith, y)
    | inr n ↦ elim (Option-cases (first_exceeded now (events_of addr w) (checks cfg))) [
      | inl f ↦ ground (arith, n, f)
      | inr (k, f) ↦
          let c = count_events now k (events_of addr w) in
          elim (Result-cases (trip rt now addr k c w).1) [
            | inl (a, e) ↦ ground (arith, n, f, e, trip_messages rt cfg now addr w k c)
            | inr (x, e) ↦ ground (arith, n, f, e, trip_messages rt cfg now addr w k c)
          ]
    ]
  ]

  record_trigger-messages :
      (t : TriggerType) (w : World) → (record_trigger rt cfg now addr t w).0.messages ≡ w.messages
  unfolding record_trigger add_event
  record_trigger-messages t w = check_and_trip-messages (add_event cfg now addr t w)

module _ (rt : Runtime) (cfg : CircuitBreakerConfig) (m : MessageRecord) (addr : String)
    (now : ℕ) where
  ids-route : (w : World) → ids (route rt now m addr w).0 ≡ ids w
  unfolding route
  ids-route w = elim (Option-cases (get_connection addr w.store)) [
    | inl e ↦ rw (e, route) (ids-restated now m.id "failed" (some inactive_sender) w)
    | inr (c, e) ↦ elim (Bool-cases (is_active c.state)) [
      | inr n ↦ rw (e, route, n) (ids-restated now m.id "failed" (some inactive_sender) w)
      | inl y ↦
          rw (e, route, y)
            (ids-restated now m.id (routed_state c.autonomy_level) none
                (note_autonomous rt now addr m.id c.autonomy_level w)
              ∙ ids_same (note_autonomous rt now addr m.id c.autonomy_level w) w
                  (note_autonomous-messages rt now addr m.id c.autonomy_level w))
    ]
  ]

  pub ids-intercept : (w : World) → ids (intercept rt cfg m addr now w).0 ≡ ids w
  unfolding intercept
  ids-intercept w = ground (
    arith,
    ids-restated now m.id "delivered" none w,
    ids-restated now m.id "escalated_to_human" none w,
  )

  conclude_rows :
      (d : PolicyDecision) (state : String) (reason : Option String) (r : RoutedMessage) (w : World)
      → ids (conclude rt cfg m addr now d state reason r w).0 ≡ ids w
  conclude_rows d state reason r w = ids-restated now m.id state reason w

  pub ids-decide :
      (d : Option PolicyDecision) (r : RoutedMessage) (w : World)
      → ids (decide rt cfg m addr now d r w).0 ≡ ids w
  unfolding decide
  ids-decide none r w = ids-restated now m.id "escalated_to_human" none w
  ids-decide (some d) r w = ids-by_decision d.action
    where
      ids-by_decision : (a : Action) → ids (by_decision rt cfg m addr a now d r w).0 ≡ ids w
      ids-by_decision Action.allow = ids-restated now m.id "read_by_agent" none w
      ids-by_decision Action.deny = ids-restated now m.id "failed" (some d.reasoning) w
      ids-by_decision Action.escalate = ids-restated now m.id "escalated_to_human" none w

  ids-start_evaluation :
      (r : RoutedMessage) (w : World) → ids (start_evaluation rt cfg m addr now r w).0 ≡ ids w
  unfolding start_evaluation
  ids-start_evaluation r w = ground (arith, ids-restated now m.id "escalated_to_human" none w)

  ids-route_stage : (w : World) → ids (route_stage rt cfg m addr now w).0 ≡ ids w
  unfolding route_stage
  ids-route_stage w =
      let (v, r) = route rt now m addr w in
      elim (Bool-cases (r.state == "pending_policy_eval")) [
        | inl y ↦ ground (arith, y, ids-start_evaluation r v, ids-route w)
        | inr n ↦ ground (arith, n, ids-route w)
      ]

  report_violation-messages :
      (t : Option TriggerType) (w : World)
      → (report_violation rt cfg m addr now t w).0.messages ≡ w.messages
  unfolding record_violation
  report_violation-messages none w = refl
  report_violation-messages (some t) w = record_trigger-messages rt cfg now addr t w

  pub ids-resume :
      (e : EnforcementResult) (w : World) → ids (resume rt cfg m addr now e w).0 ≡ ids w
  unfolding resume record_message
  ids-resume e w = elim (Bool-cases e.allowed) [
    | inl a ↦
        let v = (record_message rt cfg now addr w).0 in
        let same : ids v ≡ ids w =
          ids_same v w (record_trigger-messages rt cfg now addr message_flood w) in
        elim (Result-cases (record_message rt cfg now addr w).1) [
          | inl (b, o) ↦ ground (arith, a, o, ids-route_stage v, same)
          | inr (x, o) ↦ ground (arith, a, o, same)
        ]
    | inr a ↦ elim (Bool-cases e.escalate_to_human) [
      | inl y ↦ ground (arith, a, y, ids-restated now m.id "escalated_to_human" e.reason w)
      | inr n ↦
          let v = (report_violation rt cfg m addr now e.violation_type w).0 in
          let same : ids v ≡ ids w = ids_same v w (report_violation-messages e.violation_type w) in
          elim (Result-cases (report_violation rt cfg m addr now e.violation_type w).1) [
            | inl (b, o) ↦ ground (arith, a, n, o, ids-restated now m.id "failed" e.reason v, same)
            | inr (x, o) ↦ ground (arith, a, n, o, same)
          ]
    ]
  ]

module _ (st : Setup) (now : ℕ) where
  pub ids-send_delivery_confirmation :
      (id sender : String) (w : World)
      → ids (send_delivery_confirmation st now id sender w).0 ≡ ids w
  unfolding send_delivery_confirmation send_envelope
  ids-send_delivery_confirmation id sender w = ground arith

  ids-confirm_payload :
      (e : Envelope) (p : Payload) (w : World) → ids (confirm_payload st now e p w).0 ≡ ids w
  unfolding confirm_message
  ids-confirm_payload e (Payload.confirm c) w =
      ground (arith, ids-restated now (st.codecs.decode_text c.message_id) c.state none w)
  ids-confirm_payload e _ w = refl

  pub ids-handle_delivery_confirmation :
      (e : Envelope) (w : World) → ids (handle_delivery_confirmation st now e w).0 ≡ ids w
  unfolding handle_delivery_confirmation
  ids-handle_delivery_confirmation e w = ids-confirm_payload e e.payload w
