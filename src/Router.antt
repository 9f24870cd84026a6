-- ===== src/Router.antt =====
-- skill/src/inbound-router.ts: the state of an inbound message by the autonomy level of its
-- connection, and the review of messages that were escalated.
pub mod Review
use pinch.Prelude.{
  ℕ, String, Bool, true, false, Option, none, some, List, [], ◌∷◌, ◌==◌, reverse, if◌then◌else◌,
}
use pinch.Connections.{
  AutonomyLevel, full_manual, notify, auto_respond, full_auto, Connection, is_active,
  get_connection,
}
use pinch.Messages.{
  MessageRecord, MessageStore, Priority, get_message, update_state, get_history, all_history,
}
use pinch.Feed.{Runtime, event}
use pinch.World.{World, recorded, restated}

pub record RoutedMessage : Type 0 where
  pub message_id : String
  pub sender_address : String
  pub body : String
  pub thread_id : Option String
  pub reply_to : Option String
  pub priority : Priority
  pub state : String
  pub failure_reason : Option String

abbrev pub routed : MessageRecord → String → String → Option String → RoutedMessage
routed m addr state reason = record {
  message_id = m.id;
  sender_address = addr;
  body = m.body;
  thread_id = m.thread_id;
  reply_to = m.reply_to;
  priority = m.priority;
  state = state;
  failure_reason = reason;
}

unfoldable pub routed_state : AutonomyLevel → String
routed_state full_auto = "read_by_agent"
routed_state notify = "read_by_agent"
routed_state auto_respond = "pending_policy_eval"
routed_state full_manual = "escalated_to_human"

-- Under `notify` the human sees an entry in the activity log.
unfoldable pub note_autonomous : Runtime → ℕ → String → String → AutonomyLevel → World → World
note_autonomous rt now addr id notify w =
    recorded rt now
      (record (event addr "message_processed_autonomously") {
        message_id = some id;
        badge = some "processed_autonomously";
      })
      w
note_autonomous rt now addr id full_auto w = w
note_autonomous rt now addr id auto_respond w = w
note_autonomous rt now addr id full_manual w = w

abbrev pub inactive_sender : String
inactive_sender = "Message from unknown or inactive sender"

abbrev reject_inactive : ℕ → MessageRecord → String → World → World × RoutedMessage
reject_inactive now m addr w = (
  restated now m.id "failed" (some inactive_sender) w,
  routed m addr "failed" (some inactive_sender),
)

-- `route`
unfoldable pub route : Runtime → ℕ → MessageRecord → String → World → World × RoutedMessage
route rt now m addr w = elim (get_connection addr w.store) [
  | none ↦ reject_inactive now m addr w
  | some c ↦
      if is_active c.state
      then (
        restated now m.id (routed_state c.autonomy_level) none
            (note_autonomous rt now addr m.id c.autonomy_level w),
        routed m addr (routed_state c.autonomy_level) none,
      )
      else reject_inactive now m addr w
]

-- `getPendingForReview` and `getPendingPolicyEval`
unfoldable pub get_pending_for_review : MessageStore → List MessageRecord
get_pending_for_review s =
    reverse
      (get_history (record all_history { state = some "escalated_to_human"; limit = some 1000 }) s)

unfoldable pub get_pending_policy_eval : MessageStore → List MessageRecord
get_pending_policy_eval s =
    reverse
      (get_history (record all_history { state = some "pending_policy_eval"; limit = some 1000 }) s)

pub data Approval : Type 0 where
  agent_handle human_respond : Approval

abbrev pub approved_state : Approval → String
approved_state agent_handle = "read_by_agent"
approved_state human_respond = "delivered"

-- `approveMessage`
unfoldable pub approve_message :
    ℕ → String → Approval → MessageStore → MessageStore × Option MessageRecord
approve_message now id action s = elim (get_message id s) [
  | none ↦ (s, none)
  | some m ↦
      if m.state == "escalated_to_human"
      then (let s' = update_state now id (approved_state action) none s in (s', get_message id s'))
      else (s, none)
]
