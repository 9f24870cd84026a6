-- ===== src/Tests.antt =====
-- Small data for the runs of the model: two agents, their connections, messages and logs.
pub mod Stores
pub mod Changes
pub mod Logs
pub mod Breakers
pub mod Inbound
pub mod Requests
pub mod Texts
pub mod Codes
pub mod Agents
pub mod Relays
pub mod Systems
pub mod Starts
use pinch.Prelude.Objects.{Object}
use pinch.Prelude.{ℕ, String, Bool, true, false, Option, none, some, List, [], ◌∷◌}
use pinch.Connections.{
  ConnectionState, AutonomyLevel, Connection, NewConnection, ConnectionStore, new_connection,
}
use pinch.Messages.{Direction, Priority, MessageRecord, MessageStore}
use pinch.Feed.{Runtime, Action, Confidence, empty_feed}
use pinch.Evaluator.{PolicyDecision, PolicyEvaluator}
use pinch.World.{World, Relay}

-- Texts that stand for digests and dates.
abbrev pub test_runtime : Runtime
test_runtime = record {
  sha256 = λ t. "digest";
  uuid = λ n. "0190-0000";
  iso = λ t. "2026-01-01T00:00:00.000Z";
  base64 = λ b. "a2V5";
}

abbrev pub alice : String
alice = "pinch:alice@relay"

abbrev pub bob : String
bob = "pinch:bob@relay"

abbrev pub connection_of : String → ConnectionState → AutonomyLevel → Connection
connection_of addr state level = new_connection 10 (record {
  peer_address = addr;
  peer_public_key = "a2V5";
  state = state;
  nickname = "peer";
  autonomy_level = some level;
  permissions_manifest = none;
  short_message = none;
  expires_at = none;
})

abbrev pub store_of : Connection → ConnectionStore
store_of c = record {
  connections =
      (bob, connection_of bob ConnectionState.active AutonomyLevel.notify) ∷ (alice, c) ∷ [];
  saved = [];
}

abbrev pub greeting : MessageRecord
greeting = record {
  id = "m1";
  connection_address = alice;
  direction = Direction.inbound;
  body = "hello";
  thread_id = none;
  reply_to = none;
  priority = Priority.normal;
  sequence = 1;
  state = "delivered";
  failure_reason = none;
  attribution = none;
  created_at = 20;
  updated_at = 20;
}

abbrev pub question : MessageRecord
question = record greeting { id = "m2"; state = "escalated_to_human"; created_at = 30 }

abbrev pub two_messages : MessageStore
two_messages = record { messages = greeting ∷ question ∷ []; sequences = [] }

-- The state with one connection for `alice`.
abbrev pub world_of : Connection → World
world_of c = record {
  store = store_of c;
  messages = two_messages;
  feed = empty_feed;
  events = [];
  relay = record { assigned_address = some "pinch:me@relay"; is_open = true; sent = [] };
}

-- A language model that agrees to everything.
abbrev pub agreeable : PolicyEvaluator
agreeable = record {
  evaluate_policy = λ q.
      some (record { action = Action.allow; confidence = Confidence.high; reasoning = "fine" });
  check_information_boundary = λ b t.
      some (record { action = Action.allow; confidence = Confidence.high; reasoning = "fine" });
}
