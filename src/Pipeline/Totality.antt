-- ===== src/Pipeline/Totality.antt =====
-- `process` always ends with a routed message, and the store agrees with it
-- (skill/src/autonomy/enforcement-pipeline.ts).
use pinch.Prelude.Act.{Result, ok, and_then}
use pinch.Prelude.{
  ℕ, String, ◌≡◌, ◌⊎◌, refl, Bool, true, false, Option, none, some, arith, inl, inr, Bool-cases,
  Option-cases,
}
use pinch.Connections.{Connection, ConnectionStore, get_connection}
use pinch.Messages.{MessageRecord}
use pinch.Feed.{Runtime, TriggerType, message_flood}
use pinch.World.{World, restated}
use pinch.Breaker.{CircuitBreakerConfig, record_message, record_violation}
use pinch.Breaker.Trip.{trigger_known}
use pinch.Evaluator.{PolicyEvaluator}
use pinch.Enforcer.{EnforcementResult, check}
use pinch.Enforcer.Verdicts.{check_allowed_iff}
use pinch.Router.{RoutedMessage, routed}
use pinch.Pipeline.{
  Stage, finished, evaluating, intercept, route_stage, resume, decide, finish, report_violation,
  is_muted, is_passthrough, process,
}
use pinch.Pipeline.Agreement.{
  StoredAs, Agrees, restated-StoredAs, route_stage-Agrees, decide-StoredAs,
}

abbrev Known : String → ConnectionStore → Type 0
Known addr s = (c : Connection) × (get_connection addr s ≡ some c)

-- A denied message of an unknown sender reports no violation.
unknown_reports_nothing :
    (ev : PolicyEvaluator) (body addr : String) (s : ConnectionStore)
    → get_connection addr s ≡ none
    → (check ev body addr s).violation_type ≡ none
unfolding check
unknown_reports_nothing ev body addr s h = ground arith

module _ (rt : Runtime) (cfg : CircuitBreakerConfig) (m : MessageRecord) (addr : String) where
  -- A stage returned, and the store agrees with it.
  abbrev StageDone : World × Result Stage → Type 0
  StageDone o = (s : Stage) × (o.1 ≡ ok s) × Agrees rt cfg m addr o.0 s

  abbrev pub Done : World × Result RoutedMessage → Type 0
  Done o = (r : RoutedMessage) × (o.1 ≡ ok r) × StoredAs m.id r.state o.0.messages

  module _ (now : ℕ) (e : EnforcementResult) (old : String) (w : World)
      (h : StoredAs m.id old w.messages) where
    resume_allowed :
        (b : Bool)
        → e.allowed ≡ true
        → (record_message rt cfg now addr w).1 ≡ ok b
        → resume rt cfg m addr now e w ≡ (
          (route_stage rt cfg m addr now (record_message rt cfg now addr w).0).0,
          ok (route_stage rt cfg m addr now (record_message rt cfg now addr w).0).1,
        )
    unfolding resume
    resume_allowed b a k = ground arith

    resume_escalated :
        e.allowed ≡ false
        → e.escalate_to_human ≡ true
        → resume rt cfg m addr now e w ≡ (
          restated now m.id "escalated_to_human" e.reason w,
          ok (finished (routed m addr "escalated_to_human" e.reason)),
        )
    unfolding resume
    resume_escalated a k = ground arith

    resume_failed :
        (b : Bool)
        → e.allowed ≡ false
        → e.escalate_to_human ≡ false
        → (report_violation rt cfg m addr now e.violation_type w).1 ≡ ok b
        → resume rt cfg m addr now e w ≡ (
          restated now m.id "failed" e.reason
              (report_violation rt cfg m addr now e.violation_type w).0,
          ok (finished (routed m addr "failed" e.reason)),
        )
    unfolding resume
    resume_failed b a k o = ground arith

    resume_allowed-done :
        Known addr w.store → e.allowed ≡ true → StageDone (resume rt cfg m addr now e w)
    unfolding record_message
    resume_allowed-done (c, k) a =
        let o = trigger_known rt cfg now addr message_flood w c k in
        let w1 = (record_message rt cfg now addr w).0 in
        rw (resume_allowed o.answer a o.returns) (
          (route_stage rt cfg m addr now w1).1,
          refl,
          route_stage-Agrees rt cfg m addr now old w1 (rw (o.same_messages) h),
        )

    report-done :
        (v : Option TriggerType)
        → ((t : TriggerType) → v ≡ some t → Known addr w.store)
        → (b : Bool) × ((report_violation rt cfg m addr now v w).1 ≡ ok b)
          × ((report_violation rt cfg m addr now v w).0.messages ≡ w.messages)
    unfolding record_violation
    report-done none k = (false, refl, refl)
    report-done (some t) k =
        let (c, f) = k t refl in
        let o = trigger_known rt cfg now addr t w c f in (o.answer, o.returns, o.same_messages)

    resume-Done :
        (e.allowed ≡ true → Known addr w.store)
        → ((t : TriggerType) → e.violation_type ≡ some t → Known addr w.store)
        → StageDone (resume rt cfg m addr now e w)
    resume-Done known reported = elim (Bool-cases e.allowed) [
      | inl a ↦ resume_allowed-done (known a) a
      | inr a ↦ elim (Bool-cases e.escalate_to_human) [
        | inl y ↦ rw (resume_escalated a y) (
          finished (routed m addr "escalated_to_human" e.reason),
          refl,
          restated-StoredAs rt cfg m addr now "escalated_to_human" old e.reason w h,
        )
        | inr n ↦
            let (b, o, same) = report-done e.violation_type reported in
            rw (resume_failed b a n o) (
              finished (routed m addr "failed" e.reason),
              refl,
              restated-StoredAs rt cfg m addr now "failed" old e.reason
                  (report_violation rt cfg m addr now e.violation_type w).0 (rw same h),
            )
      ]
    ]

  finish-Done :
      (ev : PolicyEvaluator) (now : ℕ) (s : Stage) (w : World)
      → Agrees rt cfg m addr w s
      → Done (finish rt cfg m addr ev now s w)
  finish-Done ev now (finished r) w h = (r, refl, h)
  finish-Done ev now (evaluating r q) w h = (
    (decide rt cfg m addr now (ev.evaluate_policy q) r w).1,
    refl,
    decide-StoredAs rt cfg m addr now (ev.evaluate_policy q) r w h,
  )

  check-Known :
      (ev : PolicyEvaluator) (w : World)
      → (check ev m.body addr w.store).allowed ≡ true
      → Known addr w.store
  check-Known ev w a =
      let (c, k, active, admits) = (check_allowed_iff ev m.body addr w.store).0 a in (c, k)

  check-reported :
      (ev : PolicyEvaluator) (w : World) (t : TriggerType)
      → (check ev m.body addr w.store).violation_type ≡ some t
      → Known addr w.store
  check-reported ev w t v = elim (Option-cases (get_connection addr w.store)) [
    | inl n ↦ absurd (ground (arith, unknown_reports_nothing ev m.body addr w.store n))
    | inr known ↦ known
  ]

  intercept-cases :
      (now : ℕ) (old : String) (w : World)
      → StoredAs m.id old w.messages
      → (intercept rt cfg m addr now w ≡ (w, none))
        ⊎ ((r : RoutedMessage) × ((intercept rt cfg m addr now w).1 ≡ some r)
            × StoredAs m.id r.state (intercept rt cfg m addr now w).0.messages)
  unfolding intercept
  intercept-cases now old w h = elim (Bool-cases (is_muted (get_connection addr w.store))) [
    | inl t ↦ inr (
      routed m addr "delivered" none,
      ground arith,
      rw (t, intercept) (restated-StoredAs rt cfg m addr now "delivered" old none w h),
    )
    | inr t ↦ elim (Bool-cases (is_passthrough (get_connection addr w.store))) [
      | inl p ↦ inr (
        routed m addr "escalated_to_human" none,
        ground arith,
        rw (t, p, intercept)
            (restated-StoredAs rt cfg m addr now "escalated_to_human" old none w h),
      )
      | inr p ↦ inl (rw (t, p, intercept) refl)
    ]
  ]

  bind-Done :
      (ev : PolicyEvaluator) (now : ℕ) (w : World) (x : Result Stage) (s : Stage)
      → x ≡ ok s
      → Agrees rt cfg m addr w s
      → Done (and_then (w, x) (finish rt cfg m addr ev now))
  bind-Done ev now w x s e a = rw e (finish-Done ev now s w a)

  -- `process` never throws: for a stored message it returns a routed message, whatever the state of
  -- the stores and the answers of the evaluator, and the store then holds the message with the
  -- state that was returned.
  pub process_returns :
      (ev : PolicyEvaluator) (t0 t1 t2 : ℕ) (w : World) (old : String)
      → StoredAs m.id old w.messages
      → Done (process rt cfg m addr ev t0 t1 t2 w)
  unfolding process
  process_returns ev t0 t1 t2 w old h =
      let e = check ev m.body addr w.store in
      elim (intercept-cases t0 old w h) [
        | inl same ↦
            let (s, o, a) = resume-Done t1 e old w h (check-Known ev w) (check-reported ev w) in
            rw same (
              bind-Done ev t2 (resume rt cfg m addr t1 e w).0 (resume rt cfg m addr t1 e w).1 s o a)
        | inr (r, stops, st) ↦ rw stops (r, refl, st)
      ]
