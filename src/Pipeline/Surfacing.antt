-- ===== src/Pipeline/Surfacing.antt =====
-- When a message reaches the agent (skill/src/autonomy/enforcement-pipeline.ts,
-- skill/src/inbound-router.ts).
use pinch.Prelude.Act.{ok, Result-cases, and_then}
use pinch.Prelude.{
  ℕ, String, ◌≡◌, ◌≢◌, ◌⊎◌, refl, true, false, Option, none, some, eq_iff, arith, inl, inr,
  Bool-cases, Option-cases,
}
use pinch.Messages.{MessageRecord}
use pinch.Feed.{Runtime, allow}
use pinch.World.{World}
use pinch.Breaker.{CircuitBreakerConfig, record_message}
use pinch.Evaluator.{PolicyDecision, PolicyQuestion, PolicyEvaluator}
use pinch.Enforcer.{EnforcementResult, check}
use pinch.Enforcer.Verdicts.{Admitted, check_allowed_iff}
use pinch.Router.{RoutedMessage, routed}
use pinch.Pipeline.{
  Stage, finished, evaluating, intercept, route_stage, resume, decide, finish, report_violation,
  process,
}
use pinch.Pipeline.Levels.{
  read, PassesOn, AsksPolicy, route_stage-read, route_stage-evaluating, counted,
}

module _ (rt : Runtime) (cfg : CircuitBreakerConfig) (m : MessageRecord) (addr : String) where
  module _ (now : ℕ) (e : EnforcementResult) (w : World) where
    resume_allowed :
        (s : Stage)
        → e.allowed ≡ true
        → (resume rt cfg m addr now e w).1 ≡ ok s
        → (route_stage rt cfg m addr now (counted rt cfg m addr now w)).1 ≡ s
    unfolding resume
    resume_allowed s a h = elim (Result-cases (record_message rt cfg now addr w).1) [
      | inl (b, o) ↦ ground arith
      | inr (x, o) ↦ absurd (ground arith)
    ]

    resume_denied :
        (s : Stage)
        → e.allowed ≡ false
        → (resume rt cfg m addr now e w).1 ≡ ok s
        → (r : RoutedMessage) × (s ≡ finished r) × (r.state ≢ read)
    unfolding resume
    resume_denied s a h = elim (Bool-cases e.escalate_to_human) [
      | inl y ↦ (
        routed m addr "escalated_to_human" e.reason,
        ground arith,
        λ f. ground (arith, eq_iff "escalated_to_human" read),
      )
      | inr n ↦ elim (Result-cases (report_violation rt cfg m addr now e.violation_type w).1) [
        | inl (b, o) ↦ (
          routed m addr "failed" e.reason,
          ground arith,
          λ f. ground (arith, eq_iff "failed" read),
        )
        | inr (x, o) ↦ absurd (ground arith)
      ]
    ]

    -- The second stage hands a message to the agent only if the enforcer allowed it and the
    -- connection, after the flood check, is active with a level that passes messages on.
    pub resume-read :
        (r : RoutedMessage)
        → (resume rt cfg m addr now e w).1 ≡ ok (finished r)
        → r.state ≡ read
        → (e.allowed ≡ true) × PassesOn rt cfg m addr (counted rt cfg m addr now w)
    resume-read r h s = elim (Bool-cases e.allowed) [
      | inl a ↦ (
        a,
        route_stage-read rt cfg m addr now (counted rt cfg m addr now w) r
            (resume_allowed (finished r) a h) s,
      )
      | inr a ↦ let (r', same, n) = resume_denied (finished r) a h in absurd (n (ground arith))
    ]

    pub resume-evaluating :
        (r : RoutedMessage) (q : PolicyQuestion)
        → (resume rt cfg m addr now e w).1 ≡ ok (evaluating r q)
        → (e.allowed ≡ true) × AsksPolicy rt cfg m addr q (counted rt cfg m addr now w)
    resume-evaluating r q h = elim (Bool-cases e.allowed) [
      | inl a ↦ (
        a,
        route_stage-evaluating rt cfg m addr now (counted rt cfg m addr now w) r q
            (resume_allowed (evaluating r q) a h),
      )
      | inr a ↦ let (r', same, n) = resume_denied (evaluating r q) a h in absurd (ground arith)
    ]

  pub decide-read :
      (now : ℕ) (o : Option PolicyDecision) (r : RoutedMessage) (w : World)
      → (decide rt cfg m addr now o r w).1.state ≡ read
      → (d : PolicyDecision) × (o ≡ some d) × (d.action ≡ allow)
  unfolding decide
  decide-read now none r w h = absurd (ground (arith, eq_iff "escalated_to_human" read))
  decide-read now (some d) r w h =
      (d, refl, ground (arith, eq_iff "escalated_to_human" read, eq_iff "failed" read))

  -- The policy of the connection was put to the evaluator, which answered `allow`.
  abbrev pub PolicyAllows : PolicyEvaluator → World → Type 0
  PolicyAllows ev w =
      (q : PolicyQuestion) × AsksPolicy rt cfg m addr q w
      × ((d : PolicyDecision) × (ev.evaluate_policy q ≡ some d) × (d.action ≡ allow))

  stage-read :
      (ev : PolicyEvaluator) (t1 t2 : ℕ) (e : EnforcementResult) (w : World) (s : Stage) (v : World)
      (r : RoutedMessage)
      → (resume rt cfg m addr t1 e w).1 ≡ ok s
      → (finish rt cfg m addr ev t2 s v).1 ≡ ok r
      → r.state ≡ read
      → (e.allowed ≡ true)
        × (PassesOn rt cfg m addr (counted rt cfg m addr t1 w)
            ⊎ PolicyAllows ev (counted rt cfg m addr t1 w))
  stage-read ev t1 t2 e w (finished r') v r o f s =
      let (a, p) = resume-read t1 e w r' o (ground arith) in (a, inl p)
  stage-read ev t1 t2 e w (evaluating r' q) v r o f s =
      let (a, p) = resume-evaluating t1 e w r' q o in
      (a, inr (q, p, decide-read t2 (ev.evaluate_policy q) r' v (ground arith)))

  go_on-read :
      (ev : PolicyEvaluator) (t1 t2 : ℕ) (e : EnforcementResult) (w : World) (r : RoutedMessage)
      → (and_then (resume rt cfg m addr t1 e w) (finish rt cfg m addr ev t2)).1 ≡ ok r
      → r.state ≡ read
      → (e.allowed ≡ true)
        × (PassesOn rt cfg m addr (counted rt cfg m addr t1 w)
            ⊎ PolicyAllows ev (counted rt cfg m addr t1 w))
  go_on-read ev t1 t2 e w r h s = elim (Result-cases (resume rt cfg m addr t1 e w).1) [
    | inl (stage, o) ↦
        stage-read ev t1 t2 e w stage (resume rt cfg m addr t1 e w).0 r o (ground arith) s
    | inr (x, o) ↦ absurd (ground arith)
  ]

  intercept-unread :
      (now : ℕ) (w : World) (r : RoutedMessage)
      → (intercept rt cfg m addr now w).1 ≡ some r
      → r.state ≢ read
  unfolding intercept
  intercept-unread now w r h s =
      ground (arith, eq_iff "delivered" read, eq_iff "escalated_to_human" read)

  intercept-same :
      (now : ℕ) (w : World)
      → (intercept rt cfg m addr now w).1 ≡ none
      → (intercept rt cfg m addr now w).0 ≡ w
  unfolding intercept
  intercept-same now w h = ground arith

  -- A message reaches the agent (`read_by_agent`) only if it was not intercepted by a mute or a
  -- human's takeover, the enforcer admitted it, and after the flood check the connection is active
  -- and either has a level that passes messages on, or has a policy under which the evaluator
  -- answered `allow`.
  pub read_by_agent_needs_consent :
      (ev : PolicyEvaluator) (t0 t1 t2 : ℕ) (w : World) (r : RoutedMessage)
      → (process rt cfg m addr ev t0 t1 t2 w).1 ≡ ok r
      → r.state ≡ read
      → ((intercept rt cfg m addr t0 w).1 ≡ none)
        × Admitted ev m.body addr w.store
        × (PassesOn rt cfg m addr (counted rt cfg m addr t1 w)
            ⊎ PolicyAllows ev (counted rt cfg m addr t1 w))
  unfolding process
  read_by_agent_needs_consent ev t0 t1 t2 w r h s =
      elim (Option-cases (intercept rt cfg m addr t0 w).1) [
        | inl e ↦
            let (a, c) =
              go_on-read ev t1 t2 (check ev m.body addr w.store) w r
                (ground (arith, intercept-same t0 w e)) s in
            (e, (check_allowed_iff ev m.body addr w.store).0 a, c)
        | inr (r', e) ↦ absurd (intercept-unread t0 w r' e (ground arith))
      ]
