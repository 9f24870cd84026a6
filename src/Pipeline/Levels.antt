-- ===== src/Pipeline/Levels.antt =====
-- How the level of a connection decides where a message goes (skill/src/inbound-router.ts,
-- skill/src/autonomy/enforcement-pipeline.ts).
use pinch.Prelude.{
  ℕ, String, ◌≡◌, ◌≢◌, ◌⊎◌, refl, sym, ◌∙◌, true, some, ◌==◌, eq_iff, arith, inl, inr, Bool-cases,
  Option-cases,
}
use pinch.Connections.{
  AutonomyLevel, full_manual, notify, auto_respond, full_auto, Connection, is_active,
  get_connection,
}
use pinch.Messages.{MessageRecord}
use pinch.Feed.{Runtime}
use pinch.World.{World}
use pinch.Breaker.{CircuitBreakerConfig, record_message}
use pinch.Evaluator.{PolicyQuestion}
use pinch.Router.{RoutedMessage, routed_state, route, note_autonomous}
use pinch.Pipeline.{finished, evaluating, start_evaluation, route_stage}

abbrev pub read : String
read = "read_by_agent"

routed_state-read : (l : AutonomyLevel) → routed_state l ≡ read → (l ≡ notify) ⊎ (l ≡ full_auto)
unfolding routed_state
routed_state-read full_auto h = inr refl
routed_state-read notify h = inl refl
routed_state-read auto_respond h = absurd (ground (arith, eq_iff "pending_policy_eval" read))
routed_state-read full_manual h = absurd (ground (arith, eq_iff "escalated_to_human" read))

routed_state-pending :
    (l : AutonomyLevel) → routed_state l ≡ "pending_policy_eval" → l ≡ auto_respond
unfolding routed_state
routed_state-pending full_auto h = absurd (ground (arith, eq_iff read "pending_policy_eval"))
routed_state-pending notify h = absurd (ground (arith, eq_iff read "pending_policy_eval"))
routed_state-pending auto_respond h = refl
routed_state-pending full_manual h =
    absurd (ground (arith, eq_iff "escalated_to_human" "pending_policy_eval"))

module _ (rt : Runtime) (now : ℕ) (m : MessageRecord) (addr : String) (w : World) where
  -- The router gives a state other than `failed` only to an active connection, by its level.
  route_active :
      (r : RoutedMessage)
      → (route rt now m addr w).1 ≡ r
      → r.state ≢ "failed"
      → (c : Connection) × (get_connection addr w.store ≡ some c)
        × (is_active c.state ≡ true)
        × (r.state ≡ routed_state c.autonomy_level)
  unfolding route
  route_active r h n = elim (Option-cases (get_connection addr w.store)) [
    | inl e ↦ absurd (ground arith)
    | inr (c, e) ↦ elim (Bool-cases (is_active c.state)) [
      | inl a ↦ (c, e, a, ground arith)
      | inr i ↦ absurd (ground arith)
    ]
  ]

  pub route-store : (route rt now m addr w).0.store ≡ w.store
  unfolding route note_autonomous
  route-store = ground arith

abbrev pub ByLevel : AutonomyLevel → Type 0
ByLevel l = (l ≡ notify) ⊎ (l ≡ full_auto)

module _ (rt : Runtime) (cfg : CircuitBreakerConfig) (m : MessageRecord) (addr : String) where
  -- The connection is active in `w`, and its level passes messages on.
  abbrev pub PassesOn : World → Type 0
  PassesOn w =
      (c : Connection) × (get_connection addr w.store ≡ some c)
      × (is_active c.state ≡ true)
      × ByLevel c.autonomy_level

  -- The connection is active in `w`, and answers by a policy.
  abbrev pub AsksPolicy : PolicyQuestion → World → Type 0
  AsksPolicy q w =
      (c : Connection) × (get_connection addr w.store ≡ some c)
      × (is_active c.state ≡ true)
      × (c.autonomy_level ≡ auto_respond)
      × (c.auto_respond_policy ≡ some q.policy)

  module _ (now : ℕ) (w : World) where
    pub route_stage-read :
        (r : RoutedMessage)
        → (route_stage rt cfg m addr now w).1 ≡ finished r
        → r.state ≡ read
        → PassesOn w
    unfolding route_stage start_evaluation
    route_stage-read r h s =
        elim (Bool-cases ((route rt now m addr w).1.state == "pending_policy_eval")) [
          | inl p ↦ absurd (ground (arith, eq_iff "escalated_to_human" read))
          | inr p ↦
              let same : (route rt now m addr w).1 ≡ r = ground arith in
              let (c, e, a, l) =
                route_active rt now m addr w r same (λ f. ground (arith, eq_iff "failed" read)) in
              (c, e, a, routed_state-read c.autonomy_level (sym l ∙ s))
        ]

    start_evaluation-policy :
        (r : RoutedMessage) (v : World) (c : Connection) (r' : RoutedMessage) (q : PolicyQuestion)
        → get_connection addr v.store ≡ some c
        → (start_evaluation rt cfg m addr now r v).1 ≡ evaluating r' q
        → c.auto_respond_policy ≡ some q.policy
    unfolding start_evaluation
    start_evaluation-policy r v c r' q e h = ground arith

    pub route_stage-evaluating :
        (r : RoutedMessage) (q : PolicyQuestion)
        → (route_stage rt cfg m addr now w).1 ≡ evaluating r q
        → AsksPolicy q w
    unfolding route_stage start_evaluation
    route_stage-evaluating r q h =
        elim (Bool-cases ((route rt now m addr w).1.state == "pending_policy_eval")) [
          | inl p ↦
              let (c, e, a, l) = route_active rt now m addr w (route rt now m addr w).1 refl (λ f.
                ground (
                  arith,
                  eq_iff "failed" "pending_policy_eval",
                  eq_iff (route rt now m addr w).1.state "pending_policy_eval",
                )) in
              (
                c,
                e,
                a,
                routed_state-pending c.autonomy_level (sym l ∙ (eq_iff _ _).0 p),
                start_evaluation-policy (route rt now m addr w).1 (route rt now m addr w).0 c r q
                    (ground (arith, route-store rt now m addr w)) (ground arith),
              )
          | inr p ↦ absurd (ground arith)
        ]

  -- The state after the flood check of a message.
  abbrev pub counted : ℕ → World → World
  counted now w = (record_message rt cfg now addr w).0
