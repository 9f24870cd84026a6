-- ===== src/RelayClient/Types.antt =====
-- The types of skill/src/relay-client.ts, and the small steps of a client's state.
use pinch.Prelude.Act.{Error}
use pinch.Prelude.{ℕ, String, Bool, true, false, ◌&&◌, Option, List, []}
use pinch.Wire.{Bytes, MessageType}
use pinch.Delivery.{Signatures}

-- The cases of an envelope's payload that the handshake looks at.
pub data AuthPayload : Type 0 where
  challenge : (nonce : Bytes) → (relay_host : String) → AuthPayload
  result : (success : Bool) → (assigned_address : String) → AuthPayload
  another : AuthPayload

pub record AuthEnvelope : Type 0 where
  pub type : MessageType
  pub payload : AuthPayload

pub record AuthResponse : Type 0 where
  pub public_key : Bytes
  pub signature : Bytes
  pub nonce : Bytes

pub record Protocol : Type 0 where
  -- `fromBinary(EnvelopeSchema, data)`, which throws on other bytes
  pub from_binary : Bytes → Option AuthEnvelope
  -- `new TextEncoder().encode` and `toLowerCase`
  pub encode_text : String → Bytes
  pub to_lower_case : String → String
  pub signatures : Signatures

-- What a client is built with.
pub record ClientConfig : Type 0 where
  pub protocol : Protocol
  pub relay_host : String
  pub public_key : Bytes
  pub private_key : Bytes
  pub heartbeat_interval : ℕ
  pub pong_timeout : ℕ

pub data AuthState : Type 0 where
  awaiting_challenge awaiting_result done : AuthState

-- `readyState`
pub data Socket : Type 0 where
  connecting opened closing closed : Socket

-- The promise of `connect`.
pub data Promise : Type 0 where
  pending resolved : Promise
  rejected : Error → Promise

-- `sent` are the answers to challenges, `received` the messages passed on to the handlers, `pings` and
-- `reconnects` count the pings sent and the calls of `attemptReconnect`. `reconnect_attempt` is the count
-- of the loop of Reconnect.
pub record Client : Type 0 where
  pub auth_state : AuthState
  pub promise : Promise
  pub auth_timer : Bool
  pub socket : Socket
  pub authenticated : Bool
  pub assigned_address : Option String
  pub last_pong_time : ℕ
  pub heartbeat : Bool
  pub auto_reconnect : Bool
  pub sent : List AuthResponse
  pub received : List Bytes
  pub pings : ℕ
  pub reconnects : ℕ
  pub reconnect_attempt : ℕ

-- What `connect` starts with.
abbrev pub connect : Option String → ℕ → Bool → ℕ → Client
connect address pong auto attempts = record {
  auth_state = AuthState.awaiting_challenge;
  promise = Promise.pending;
  auth_timer = true;
  socket = Socket.connecting;
  authenticated = false;
  assigned_address = address;
  last_pong_time = pong;
  heartbeat = false;
  auto_reconnect = auto;
  sent = [];
  received = [];
  pings = 0;
  reconnects = 0;
  reconnect_attempt = attempts;
}

-- `connect` of a client that was connected before; the counts of pings and calls begin anew.
abbrev pub connect_again : Client → Client
connect_again c = connect c.assigned_address c.last_pong_time c.auto_reconnect c.reconnect_attempt

abbrev pub is_unsettled : Promise → Bool
is_unsettled Promise.pending = true
is_unsettled _ = false

abbrev pub is_resolved : Promise → Bool
is_resolved Promise.resolved = true
is_resolved _ = false

-- `resolveOnce` and `rejectOnce`
abbrev pub settle_once : Promise → Promise → Promise
settle_once new Promise.pending = new
settle_once new p = p

abbrev pub resolve_once : Client → Client
resolve_once c = record c { promise = settle_once Promise.resolved c.promise }

abbrev pub reject_once : Error → Client → Client
reject_once e c = record c { promise = settle_once (Promise.rejected e) c.promise }

-- `ws.close()` and `ws.terminate()`
abbrev pub close_socket : Socket → Socket
close_socket Socket.closed = Socket.closed
close_socket _ = Socket.closing

abbrev pub is_opened : Socket → Bool
is_opened Socket.opened = true
is_opened _ = false

-- `isConnected`, which is also what `send` asks for.
abbrev pub is_connected : Client → Bool
is_connected c = c.authenticated && is_opened c.socket

-- `cleanup`
abbrev pub cleanup : Client → Client
cleanup c = record c { authenticated = false; heartbeat = false }
