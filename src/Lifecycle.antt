-- ===== src/Lifecycle.antt =====
-- skill/src/connection.ts: the life of a connection, from request to approval, rejection, block,
-- unblock and revoke. A sent envelope is not serialised. The key pair is the public key alone.
pub mod Responses
pub mod Requests
pub mod Decisions
use pinch.Prelude.Act.{
  Act, Result, ok, throw, fail, return, and_then, ◌>>=◌, ◌>>◌, message_exceeds_limit,
  not_connected_to_relay, invalid_date, connection_not_found, cannot_approve, cannot_reject,
}
use pinch.Prelude.{
  ℕ, ◌+◌, ◌*◌, ◌/◌, String, Bool, true, false, Option, none, some, List, [], ◌∷◌, ◌==◌, ltb, eqb,
  length, given, ◌or◌, if◌then◌else◌,
}
use pinch.Instant.{max_instant}
use pinch.Connections.{
  ConnectionState, active, pending_outbound, pending_inbound, blocked, revoked, full_manual,
  Connection, NewConnection, Updates, no_updates, eq_state, get_connection, add_connection,
  update_connection,
}
use pinch.Feed.{Runtime}
use pinch.Wire
use pinch.Wire.{Bytes, MessageType, Payload, Envelope}
use pinch.World.{World, stored, save_store, send_envelope}

abbrev pub max_message_length : ℕ
max_message_length = 280

-- Seven days, in seconds.
abbrev pub request_ttl_seconds : ℕ
request_ttl_seconds = 604_800

-- `relayClient.assignedAddress`, which must be there and not empty.
unfoldable pub own_address : Act World String
own_address w =
    if given w.relay.assigned_address
    then (w, ok (w.relay.assigned_address or ""))
    else (w, throw not_connected_to_relay)

abbrev pub envelope : String → String → MessageType → Payload → Envelope
envelope from to type payload = record {
  from_address = from;
  to_address = to;
  type = type;
  message_id = [];
  timestamp = 0;
  payload = payload;
}

abbrev expiry_seconds : ℕ → ℕ
expiry_seconds now = now / 1000 + request_ttl_seconds

abbrev pub request_envelope : ℕ → Bytes → String → String → List ℕ → Envelope
request_envelope now key own to message = envelope own to MessageType.connection_request (
    Payload.request (record {
      from_address = own;
      to_address = to;
      message = message;
      sender_public_key = key;
      expires_at = expiry_seconds now;
    }))

abbrev pub outbound_connection : ℕ → String → List ℕ → NewConnection
outbound_connection now to message = record {
  peer_address = to;
  peer_public_key = "";
  state = pending_outbound;
  nickname = "";
  autonomy_level = some full_manual;
  permissions_manifest = none;
  short_message = some message;
  expires_at = some (expiry_seconds now * 1000);
}

-- `sendRequest`
unfoldable pub send_request : ℕ → Bytes → String → List ℕ → Act World (Unit {0})
send_request now key to message w =
    if ltb max_message_length (length message)
    then (w, throw message_exceeds_limit)
    else (do
      own ← own_address
      send_envelope (request_envelope now key own to message)
      stored (add_connection now (outbound_connection now to message))
      save_store)
        w

abbrev pub key_text : Runtime → Bytes → String
key_text rt [] = ""
key_text rt (b ∷ bs) = rt.base64 (b ∷ bs)

-- `new Date(Number(expiresAt) * 1000).toISOString()`, or `undefined` for zero.
abbrev pub request_expiry : ℕ → Result (Option ℕ)
request_expiry t =
    if eqb t 0
    then ok none
    else if ltb max_instant (t * 1000)
    then throw invalid_date
    else ok (some (t * 1000))

abbrev pub inbound_connection : Runtime → Wire.ConnectionRequest → Option ℕ → NewConnection
inbound_connection rt r expires = record {
  peer_address = r.from_address;
  peer_public_key = key_text rt r.sender_public_key;
  state = pending_inbound;
  nickname = "";
  autonomy_level = some full_manual;
  permissions_manifest = none;
  short_message = some r.message;
  expires_at = expires;
}

abbrev pub lifted : {A : Type 0} → Result A → Act World A
lifted r w = (w, r)

-- `handleIncomingRequest` on its payload.
unfoldable pub receive_request : Runtime → ℕ → Wire.ConnectionRequest → Act World (Unit {0})
receive_request rt now r = do
  expires ← lifted (request_expiry r.expires_at)
  stored (add_connection now (inbound_connection rt r expires))
  save_store

-- A change of one connection, followed by `save()`.
unfoldable pub set_and_save : ℕ → String → Updates → Act World (Unit {0})
set_and_save now addr u = do stored (update_connection now addr u); save_store

abbrev pub to_state : ConnectionState → Updates
to_state s = record no_updates { state = some s }

abbrev pub check_pending : Act World (Unit {0}) → Option Connection → String → Act World (Unit {0})
check_pending refuse none addr = fail (connection_not_found addr)
check_pending refuse (some c) addr = if eq_state c.state pending_inbound then return tt else refuse

-- `approveRequest`
unfoldable pub approve_request : ℕ → Bytes → String → Act World (Unit {0})
approve_request now key addr w =
    (do
      check_pending (fail cannot_approve) (get_connection addr w.store) addr
      own ← own_address
      send_envelope (
          envelope own addr MessageType.connection_response (
            Payload.response (record {
              from_address = own;
              to_address = addr;
              accepted = true;
              responder_public_key = key;
            })))
      set_and_save now addr (to_state active))
      w

-- `rejectRequest`
unfoldable pub reject_request : ℕ → String → Act World (Unit {0})
reject_request now addr w =
    (do
      check_pending (fail cannot_reject) (get_connection addr w.store) addr
      set_and_save now addr (to_state revoked))
      w

-- `responderPubKeyBase64 || undefined`: without a key the stored one is overwritten by `undefined`.
abbrev pub response_updates : Runtime → Wire.ConnectionResponse → Updates
response_updates rt r =
    if r.accepted
    then record no_updates {
      state = some active;
      peer_public_key = some (
          if key_text rt r.responder_public_key == ""
          then none
          else some (key_text rt r.responder_public_key));
    }
    else to_state revoked

-- `handleIncomingResponse` on its payload.
unfoldable pub receive_response : Runtime → ℕ → Wire.ConnectionResponse → Act World (Unit {0})
receive_response rt now r = set_and_save now r.from_address (response_updates rt r)

-- `handleIncomingRevoke` on its payload.
unfoldable pub receive_revoke : ℕ → String → Act World (Unit {0})
receive_revoke now from w = elim (get_connection from w.store) [
  | none ↦ (w, ok tt)
  | some c ↦ set_and_save now from (to_state revoked) w
]

-- `blockConnection`
unfoldable pub block_connection : ℕ → String → Act World (Unit {0})
block_connection now addr = do
  own ← own_address
  stored (update_connection now addr (to_state blocked))
  send_envelope (envelope own "" MessageType.block_notification (Payload.block own addr))
  save_store

-- `unblockConnection`
unfoldable pub unblock_connection : ℕ → String → Act World (Unit {0})
unblock_connection now addr = do
  own ← own_address
  stored (update_connection now addr (to_state active))
  send_envelope (envelope own "" MessageType.unblock_notification (Payload.unblock own addr))
  save_store

-- `revokeConnection`
unfoldable pub revoke_connection : ℕ → String → Act World (Unit {0})
revoke_connection now addr = do
  own ← own_address
  send_envelope (envelope own addr MessageType.connection_revoke (Payload.revoke own addr))
  set_and_save now addr (to_state revoked)

abbrev pub on_request : Runtime → ℕ → Payload → Act World (Unit {0})
on_request rt now (Payload.request r) = receive_request rt now r
on_request rt now _ = return tt

abbrev pub on_response : Runtime → ℕ → Payload → Act World (Unit {0})
on_response rt now (Payload.response r) = receive_response rt now r
on_response rt now _ = return tt

abbrev pub on_revoke : ℕ → Payload → Act World (Unit {0})
on_revoke now (Payload.revoke from to) = receive_revoke now from
on_revoke now _ = return tt

abbrev pub by_type : Runtime → ℕ → MessageType → Payload → Act World (Unit {0})
by_type rt now MessageType.connection_request p = on_request rt now p
by_type rt now MessageType.connection_response p = on_response rt now p
by_type rt now MessageType.connection_revoke p = on_revoke now p
by_type rt now _ p = return tt

-- The handler of `setupHandlers`. Its promise is not awaited: the result is the rejection that
-- nobody handles.
unfoldable pub handle_envelope : Runtime → ℕ → Envelope → Act World (Unit {0})
handle_envelope rt now e = by_type rt now e.type e.payload
