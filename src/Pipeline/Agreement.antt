-- ===== src/Pipeline/Agreement.antt =====
-- The state of a message in the store, through routing and evaluation
-- (skill/src/inbound-router.ts, skill/src/autonomy/enforcement-pipeline.ts).
use pinch.Prelude.{
  ℕ, String, ◌≡◌, refl, Option, none, some, List, [], ◌∷◌, ◌==◌, eq_iff, given, arith, inl, inr,
  Bool-cases, Option-cases,
}
use pinch.Connections.{
  AutonomyLevel, full_manual, notify, auto_respond, full_auto, is_active, get_connection,
}
use pinch.Messages.{MessageRecord, MessageStore, find_message, get_message, update_state}
use pinch.Messages.Rows.{get_message-update_state}
use pinch.Feed.{Runtime, Action, allow, deny, escalate}
use pinch.World.{World, restated}
use pinch.Breaker.{CircuitBreakerConfig}
use pinch.Evaluator.{PolicyDecision}
use pinch.Router.{RoutedMessage, routed_state, inactive_sender, route, note_autonomous}
use pinch.Pipeline.{
  Stage, finished, evaluating, start_evaluation, route_stage, decide, by_decision, policy_of,
}

module _ (id : String) where
  -- The message of the id is in the store, with a state.
  abbrev pub StoredAs : String → MessageStore → Type 0
  StoredAs state s = (x : MessageRecord) × (get_message id s ≡ some x) × (x.state ≡ state)

  pub find_message-id :
      (ms : List MessageRecord) (x : MessageRecord) → find_message id ms ≡ some x → x.id ≡ id
  unfolding find_message
  find_message-id [] x h = absurd (ground arith)
  find_message-id (m ∷ ms) x h = ground (arith, eq_iff m.id id, find_message-id ms x)

  pub update_state-StoredAs :
      (now : ℕ) (state old : String) (reason : Option String) (s : MessageStore)
      → StoredAs old s
      → StoredAs state (update_state now id state reason s)
  unfolding get_message
  update_state-StoredAs now state old reason s (x, e, p) = (
    record x { state = state; failure_reason = reason; updated_at = now },
    ground (
      arith,
      get_message-update_state now id state reason id s,
      find_message-id s.messages x,
      eq_iff x.id id,
    ),
    refl,
  )

pub note_autonomous-messages :
    (rt : Runtime) (now : ℕ) (addr id : String) (l : AutonomyLevel) (w : World)
    → (note_autonomous rt now addr id l w).messages ≡ w.messages
unfolding note_autonomous
note_autonomous-messages rt now addr id full_auto w = refl
note_autonomous-messages rt now addr id notify w = refl
note_autonomous-messages rt now addr id auto_respond w = refl
note_autonomous-messages rt now addr id full_manual w = refl

module _ (rt : Runtime) (cfg : CircuitBreakerConfig) (m : MessageRecord) (addr : String) where
  -- A finished message has in the store the state that was returned; a waiting one is there.
  abbrev pub Agrees : World → Stage → Type 0
  Agrees w (finished r) = StoredAs m.id r.state w.messages
  Agrees w (evaluating r q) = StoredAs m.id r.state w.messages

  pub restated-StoredAs :
      (now : ℕ) (state old : String) (reason : Option String) (w : World)
      → StoredAs m.id old w.messages
      → StoredAs m.id state (restated now m.id state reason w).messages
  restated-StoredAs now state old reason w h =
      update_state-StoredAs m.id now state old reason w.messages h

  pub route-StoredAs :
      (now : ℕ) (old : String) (w : World)
      → StoredAs m.id old w.messages
      → StoredAs m.id (route rt now m addr w).1.state (route rt now m addr w).0.messages
  unfolding route
  route-StoredAs now old w h = elim (Option-cases (get_connection addr w.store)) [
    | inl e ↦ rw (e, route) (restated-StoredAs now "failed" old (some inactive_sender) w h)
    | inr (c, e) ↦ elim (Bool-cases (is_active c.state)) [
      | inl a ↦
          rw (e, route, a)
            (restated-StoredAs now (routed_state c.autonomy_level) old none
              (note_autonomous rt now addr m.id c.autonomy_level w)
              (rw (note_autonomous-messages rt now addr m.id c.autonomy_level w) h))
      | inr a ↦ rw (e, route, a) (restated-StoredAs now "failed" old (some inactive_sender) w h)
    ]
  ]

  pub start_evaluation-Agrees :
      (now : ℕ) (r : RoutedMessage) (w : World)
      → StoredAs m.id r.state w.messages
      → Agrees (start_evaluation rt cfg m addr now r w).0 (start_evaluation rt cfg m addr now r w).1
  unfolding start_evaluation
  start_evaluation-Agrees now r w h =
      elim (Bool-cases (given (policy_of rt cfg m addr (get_connection addr w.store)))) [
        | inl g ↦ rw (g, start_evaluation) h
        | inr g ↦
            rw (g, start_evaluation) (restated-StoredAs now "escalated_to_human" r.state none w h)
      ]

  pub route_stage-Agrees :
      (now : ℕ) (old : String) (w : World)
      → StoredAs m.id old w.messages
      → Agrees (route_stage rt cfg m addr now w).0 (route_stage rt cfg m addr now w).1
  unfolding route_stage
  route_stage-Agrees now old w h =
      let routed = route-StoredAs now old w h in
      elim (Bool-cases ((route rt now m addr w).1.state == "pending_policy_eval")) [
        | inl p ↦
            rw (p, route_stage)
              (start_evaluation-Agrees now (route rt now m addr w).1 (route rt now m addr w).0
                routed)
        | inr p ↦ rw (p, route_stage) routed
      ]

  pub by_decision-StoredAs :
      (now : ℕ) (a : Action) (d : PolicyDecision) (r : RoutedMessage) (w : World)
      → StoredAs m.id r.state w.messages
      → StoredAs m.id
          (by_decision rt cfg m addr a now d r w).1.state
          (by_decision rt cfg m addr a now d r w).0.messages
  by_decision-StoredAs now allow d r w h = restated-StoredAs now "read_by_agent" r.state none w h
  by_decision-StoredAs now deny d r w h =
      restated-StoredAs now "failed" r.state (some d.reasoning) w h
  by_decision-StoredAs now escalate d r w h =
      restated-StoredAs now "escalated_to_human" r.state none w h

  pub decide-StoredAs :
      (now : ℕ) (o : Option PolicyDecision) (r : RoutedMessage) (w : World)
      → StoredAs m.id r.state w.messages
      → StoredAs m.id
          (decide rt cfg m addr now o r w).1.state
          (decide rt cfg m addr now o r w).0.messages
  unfolding decide
  decide-StoredAs now none r w h = restated-StoredAs now "escalated_to_human" r.state none w h
  decide-StoredAs now (some d) r w h = by_decision-StoredAs now d.action d r w h
