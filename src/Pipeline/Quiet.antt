-- ===== src/Pipeline/Quiet.antt =====
-- The pipeline sends nothing (skill/src/autonomy/enforcement-pipeline.ts).
use pinch.Prelude.Act.{Result-cases}
use pinch.Prelude.{ℕ, String, ◌≡◌, refl, Option, arith, Bool-cases, Option-cases, inl, inr}
use pinch.Messages.{MessageRecord}
use pinch.Feed.{Runtime, TriggerType, message_flood}
use pinch.World.{World}
use pinch.Breaker.{
  CircuitBreakerConfig, Check, checks, events_of, count_events, first_exceeded, add_event, trip,
  check_and_trip, record_trigger, record_message, record_violation,
}
use pinch.Evaluator.{PolicyDecision, PolicyEvaluator}
use pinch.Enforcer.{EnforcementResult, check}
use pinch.Router.{RoutedMessage, route, note_autonomous}
use pinch.Pipeline.{
  Stage, finished, evaluating, intercept, start_evaluation, route_stage, resume, decide, finish,
  process,
}

module _ (rt : Runtime) (now : ℕ) (addr : String) (w : World) where
  trip-relay : (k : Check) (n : ℕ) → (trip rt now addr k n w).0.relay ≡ w.relay
  unfolding trip
  trip-relay k n = ground arith

  check_and_trip-relay :
      (cfg : CircuitBreakerConfig) → (check_and_trip rt cfg now addr w).0.relay ≡ w.relay
  unfolding check_and_trip
  check_and_trip-relay cfg =
      elim (Option-cases (first_exceeded now (events_of addr w) (checks cfg))) [
        | inl n ↦ ground arith
        | inr (k, e) ↦ ground (arith, trip-relay k (count_events now k (events_of addr w)))
      ]

record_trigger-relay :
    (rt : Runtime) (cfg : CircuitBreakerConfig) (now : ℕ) (addr : String) (t : TriggerType)
    (w : World)
    → (record_trigger rt cfg now addr t w).0.relay ≡ w.relay
unfolding record_trigger add_event
record_trigger-relay rt cfg now addr t w =
    check_and_trip-relay rt now addr (add_event cfg now addr t w) cfg

module _ (rt : Runtime) (cfg : CircuitBreakerConfig) (m : MessageRecord) (addr : String) where
  route_stage-relay : (now : ℕ) (w : World) → (route_stage rt cfg m addr now w).0.relay ≡ w.relay
  unfolding route_stage start_evaluation route note_autonomous
  route_stage-relay now w = ground arith

  intercept-relay : (now : ℕ) (w : World) → (intercept rt cfg m addr now w).0.relay ≡ w.relay
  unfolding intercept
  intercept-relay now w = ground arith

  decide-relay :
      (now : ℕ) (d : Option PolicyDecision) (r : RoutedMessage) (w : World)
      → (decide rt cfg m addr now d r w).0.relay ≡ w.relay
  unfolding decide
  decide-relay now d r w = ground arith

  resume-relay :
      (now : ℕ) (e : EnforcementResult) (w : World)
      → (resume rt cfg m addr now e w).0.relay ≡ w.relay
  unfolding resume record_message record_violation
  resume-relay now e w =
      let w1 = (record_trigger rt cfg now addr message_flood w).0 in
      elim (Bool-cases e.allowed) [
        | inl y ↦
            ground (
              arith,
              record_trigger-relay rt cfg now addr message_flood w,
              route_stage-relay now w1,
            )
        | inr n ↦ elim (Option-cases e.violation_type) [
          | inl v ↦ ground arith
          | inr (t, v) ↦ ground (arith, record_trigger-relay rt cfg now addr t w)
        ]
      ]

  finish-relay :
      (ev : PolicyEvaluator) (now : ℕ) (s : Stage) (w : World)
      → (finish rt cfg m addr ev now s w).0.relay ≡ w.relay
  finish-relay ev now (finished r) w = refl
  finish-relay ev now (evaluating r q) w = decide-relay now (ev.evaluate_policy q) r w

  -- Whatever becomes of a message, its processing sends nothing and leaves the client as it was.
  pub process_sends_nothing :
      (ev : PolicyEvaluator) (t0 t1 t2 : ℕ) (w : World)
      → (process rt cfg m addr ev t0 t1 t2 w).0.relay ≡ w.relay
  unfolding process
  process_sends_nothing ev t0 t1 t2 w =
      let w1 = (intercept rt cfg m addr t0 w).0 in
      let e = check ev m.body addr w.store in
      let w2 = (resume rt cfg m addr t1 e w1).0 in
      elim (Option-cases (intercept rt cfg m addr t0 w).1) [
        | inr (r, i) ↦ ground (arith, intercept-relay t0 w)
        | inl i ↦ elim (Result-cases (resume rt cfg m addr t1 e w1).1) [
          | inl (s, o) ↦
              ground (arith, intercept-relay t0 w, resume-relay t1 e w1, finish-relay ev t2 s w2)
          | inr (x, o) ↦ ground (arith, intercept-relay t0 w, resume-relay t1 e w1)
        ]
      ]
