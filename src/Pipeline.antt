-- ===== src/Pipeline.antt =====
-- skill/src/autonomy/enforcement-pipeline.ts: an inbound message from its storing to its final
-- state. `process` waits for the enforcer and may wait for the evaluator, and other code may run at
-- each wait: it is three stages, each a step on the state at the time when it runs.
pub mod Levels
pub mod Surfacing
pub mod Agreement
pub mod Totality
pub mod Muted
pub mod Quiet
use pinch.Prelude.Act.{Act, Result, ok, throw, return, and_then, ◌>>=◌, ◌>>◌}
use pinch.Prelude.{
  ℕ, String, Bool, true, false, Option, none, some, List, [], ◌∷◌, ◌==◌, given, ◌or◌, or_else,
  if◌then◌else◌,
}
use pinch.Connections.{Connection, get_connection}
use pinch.Messages.{MessageRecord}
use pinch.Feed.{
  Runtime, TriggerType, Action, allow, deny, escalate, Confidence, low, Details, event,
}
use pinch.World.{World, recorded, restated}
use pinch.Breaker.{CircuitBreakerConfig, record_message, record_violation}
use pinch.Evaluator.{PolicyDecision, PolicyQuestion, PolicyEvaluator}
use pinch.Enforcer.{EnforcementResult, check}
use pinch.Router.{RoutedMessage, routed, route}

-- Where a message stands: finished, or waiting for the evaluator under the policy and nickname
-- that were read before the wait.
pub data Stage : Type 0 where
  finished : RoutedMessage → Stage
  evaluating : RoutedMessage → PolicyQuestion → Stage

abbrev pub is_muted : Option Connection → Bool
is_muted none = false
is_muted (some c) = c.muted or false

abbrev pub is_passthrough : Option Connection → Bool
is_passthrough none = false
is_passthrough (some c) = c.passthrough or false

module _ (rt : Runtime) (cfg : CircuitBreakerConfig) (m : MessageRecord) (addr : String) where
  abbrev deliver_muted : ℕ → World → World × RoutedMessage
  deliver_muted now w = (
    restated now m.id "delivered" none (
        recorded rt now
          (record (event addr "message_received_muted") {
            message_id = some m.id;
            action_type = some "message_receive_muted";
            badge = some "muted";
          })
          w),
    routed m addr "delivered" none,
  )

  abbrev hand_to_human : ℕ → World → World × RoutedMessage
  hand_to_human now w = (
    recorded rt now
        (record (event addr "message_during_intervention") {
          message_id = some m.id;
          action_type = some "message_receive_intervention";
          badge = some "intervention";
        })
        (restated now m.id "escalated_to_human" none w),
    routed m addr "escalated_to_human" none,
  )

  -- Steps 0 and 0b; `none` goes on with the permissions check of this state.
  unfoldable pub intercept : ℕ → World → World × Option RoutedMessage
  intercept now w =
      if is_muted (get_connection addr w.store)
      then (let (w', r) = deliver_muted now w in (w', some r))
      else if is_passthrough (get_connection addr w.store)
      then (let (w', r) = hand_to_human now w in (w', some r))
      else (w, none)

  -- `recordAutoRespondDecision`
  abbrev pub note_decision : ℕ → PolicyDecision → World → World
  note_decision now d w =
      recorded rt now
        (record (event addr "auto_respond_decision") {
          message_id = some m.id;
          badge = some "auto_respond";
          details = some (Details.decision d.action d.confidence d.reasoning);
        })
        w

  abbrev no_policy : PolicyDecision
  no_policy = record {
    action = escalate;
    confidence = low;
    reasoning = "No auto-respond policy configured -- escalating to human";
  }

  abbrev policy_error : PolicyDecision
  policy_error = record {
    action = escalate;
    confidence = low;
    reasoning = "Policy evaluation error -- escalating to human";
  }

  abbrev pub conclude :
      ℕ → PolicyDecision → String → Option String → RoutedMessage → World → World × RoutedMessage
  conclude now d state reason r w = (
    note_decision now d (restated now m.id state reason w),
    record r { state = state; failure_reason = or_else reason r.failure_reason },
  )

  abbrev pub by_decision :
      Action → ℕ → PolicyDecision → RoutedMessage → World → World × RoutedMessage
  by_decision allow now d r w = conclude now d "read_by_agent" none r w
  by_decision deny now d r w = conclude now d "failed" (some d.reasoning) r w
  by_decision escalate now d r w = conclude now d "escalated_to_human" none r w

  -- The rest of `evaluateAutoRespondPolicy`, after the wait for the evaluator.
  unfoldable pub decide : ℕ → Option PolicyDecision → RoutedMessage → World → World × RoutedMessage
  decide now none r w = conclude now policy_error "escalated_to_human" none r w
  decide now (some d) r w = by_decision d.action now d r w

  abbrev pub policy_of : Option Connection → Option String
  policy_of none = none
  policy_of (some c) = c.auto_respond_policy

  abbrev nickname_of : Option Connection → String
  nickname_of none = ""
  nickname_of (some c) = c.nickname

  -- `evaluateAutoRespondPolicy` up to the wait.
  unfoldable pub start_evaluation : ℕ → RoutedMessage → World → World × Stage
  start_evaluation now r w =
      let c = get_connection addr w.store in
      if given (policy_of c)
      then (
        w,
        evaluating r (record {
          policy = policy_of c or "";
          message_body = m.body;
          sender_address = addr;
          connection_nickname = nickname_of c;
        }),
      )
      else (let (w', r') = conclude now no_policy "escalated_to_human" none r w in
          (w', finished r'))

  -- Step 3 and the start of step 4.
  unfoldable pub route_stage : ℕ → World → World × Stage
  route_stage now w =
      let (w', r) = route rt now m addr w in
      if r.state == "pending_policy_eval" then start_evaluation now r w' else (w', finished r)

  abbrev close : ℕ → String → Option String → World → World × Stage
  close now state reason w =
      (restated now m.id state reason w, finished (routed m addr state reason))

  abbrev pub report_violation : ℕ → Option TriggerType → Act World Bool
  report_violation now none = return false
  report_violation now (some t) = record_violation rt cfg now addr t

  -- Steps 1 to 3 once the enforcer has answered.
  unfoldable pub resume : ℕ → EnforcementResult → Act World Stage
  resume now e w =
      if e.allowed
      then (record_message rt cfg now addr >>= λ tripped w1.
            let (w2, stage) = route_stage now w1 in (w2, ok stage))
          w
      else if e.escalate_to_human
      then (let (w', s) = close now "escalated_to_human" e.reason w in (w', ok s))
      else (report_violation now e.violation_type >>= λ tripped w1.
            let (w2, s) = close now "failed" e.reason w1 in (w2, ok s))
          w

  abbrev pub finish : PolicyEvaluator → ℕ → Stage → Act World RoutedMessage
  finish ev now (finished r) w = (w, ok r)
  finish ev now (evaluating r q) w =
      (let (w', r') = decide now (ev.evaluate_policy q) r w in (w', ok r'))

  abbrev pub go_on :
      PolicyEvaluator → ℕ → ℕ → EnforcementResult → Option RoutedMessage → Act World RoutedMessage
  go_on ev t1 t2 e (some r) = return r
  go_on ev t1 t2 e none = resume t1 e >>= finish ev t2

  -- `process` where nothing else runs at its waits, with the times of its three stages.
  unfoldable pub process : PolicyEvaluator → ℕ → ℕ → ℕ → Act World RoutedMessage
  process ev t0 t1 t2 w =
      let (w', r) = intercept t0 w in go_on ev t1 t2 (check ev m.body addr w.store) r w'
