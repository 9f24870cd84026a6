-- ===== src/RelayClient.antt =====
-- skill/src/relay-client.ts: one connection to the relay, from its opening to its end, as a machine
-- that takes the socket's events, its timers and the calls of the client. The socket itself is not
-- modelled. What libraries do with bytes and texts is the parameter `Protocol`.
mod Types
pub mod Handshake
pub mod Admission
pub mod Challenge
pub mod Reconnect
pub mod Heartbeat
pub mod Settling
pub mod Kept
pub use Types.*
use pinch.Prelude.Act.{
  Error, Result, ok, throw, expected_binary_challenge, expected_binary_result,
  expected_auth_challenge, expected_auth_result, invalid_nonce_length, missing_relay_host,
  relay_host_mismatch, malformed_envelope, auth_failed, auth_timed_out, closed_during_auth,
  socket_error,
}
use pinch.Prelude.{
  ℕ, suc, ◌+◌, ◌-◌, String, Bool, true, false, not, ◌&&◌, Option, none, some, List, [], ◌∷◌, ◌++◌,
  ◌==◌, eqb, ltb, length, if◌then◌else◌,
}
use pinch.Wire.{Bytes, MessageType}

-- `buildSignPayload`
unfoldable pub build_sign_payload : Protocol → String → Bytes → Bytes
build_sign_payload pr relay_host nonce =
    pr.encode_text "pinch-auth-v1" ++ 0 ∷ (pr.encode_text relay_host ++ 0 ∷ nonce)

abbrev pub auth_response : ClientConfig → Bytes → String → AuthResponse
auth_response cfg nonce host = record {
  public_key = cfg.public_key;
  signature =
      cfg.protocol.signatures.sign (build_sign_payload cfg.protocol host nonce) cfg.private_key;
  nonce = nonce;
}

abbrev pub is_other_host : ClientConfig → String → Bool
is_other_host cfg host =
    not (cfg.relay_host == "")
    && not (cfg.protocol.to_lower_case host == cfg.protocol.to_lower_case cfg.relay_host)

unfoldable pub answer_challenge : ClientConfig → Bytes → String → Result AuthResponse
answer_challenge cfg nonce host =
    if eqb (length nonce) 32
    then (if host == ""
        then throw missing_relay_host
        else if is_other_host cfg host
        then throw relay_host_mismatch
        else ok (auth_response cfg nonce host))
    else throw invalid_nonce_length

abbrev pub answer_payload : ClientConfig → MessageType → AuthPayload → Result AuthResponse
answer_payload cfg MessageType.auth_challenge (AuthPayload.challenge nonce host) =
    answer_challenge cfg nonce host
answer_payload cfg _ _ = throw expected_auth_challenge

abbrev answer_envelope : ClientConfig → Option AuthEnvelope → Result AuthResponse
answer_envelope cfg none = throw malformed_envelope
answer_envelope cfg (some e) = answer_payload cfg e.type e.payload

-- `respondToAuthChallenge`: the answer that it sends
abbrev pub respond_to_auth_challenge : ClientConfig → Bytes → Result AuthResponse
respond_to_auth_challenge cfg data' = answer_envelope cfg (cfg.protocol.from_binary data')

-- A failure in the handshake: the timer is cleared, the socket is closed, the promise is rejected.
abbrev pub give_up : Error → Client → Client
give_up e c = reject_once e (record c { auth_timer = false; socket = close_socket c.socket })

abbrev pub answered : Result AuthResponse → Client → Client
answered (throw e) c = give_up e c
answered (ok r) c = record c { sent = c.sent ++ r ∷ []; auth_state = AuthState.awaiting_result }

abbrev pub admitted : ℕ → String → Client → Client
admitted now address c = resolve_once (record c {
  assigned_address = some address;
  authenticated = true;
  auth_state = AuthState.done;
  auth_timer = false;
  last_pong_time = now;
  heartbeat = true;
})

abbrev pub read_result : ℕ → AuthPayload → Client → Client
read_result now (AuthPayload.result success address) c =
    if success then admitted now address c else give_up auth_failed c
read_result now _ c = give_up expected_auth_result c

abbrev pub read_envelope : ℕ → Option AuthEnvelope → Client → Client
read_envelope now none c = give_up malformed_envelope c
read_envelope now (some e) c = read_result now e.payload c

-- The handler of `message`, in each state of the handshake.
unfoldable pub message_in : ClientConfig → ℕ → Bool → Bytes → AuthState → Client → Client
message_in cfg now is_binary data' AuthState.awaiting_challenge c =
    if is_binary
    then answered (respond_to_auth_challenge cfg data') c
    else give_up expected_binary_challenge c
message_in cfg now is_binary data' AuthState.awaiting_result c =
    if is_binary
    then read_envelope now (cfg.protocol.from_binary data') c
    else give_up expected_binary_result c
message_in cfg now is_binary data' AuthState.done c = record c {
  received = c.received ++ data' ∷ [];
}

-- The handler of `close`, which may call `attemptReconnect`.
unfoldable pub close_in : AuthState → Client → Client
close_in AuthState.done c =
    if c.authenticated && c.auto_reconnect
    then record (cleanup c) {
      auth_timer = false;
      socket = Socket.closed;
      reconnects = suc c.reconnects;
    }
    else record (cleanup c) { auth_timer = false; socket = Socket.closed }
close_in _ c =
    reject_once closed_during_auth
      (record (cleanup c) { auth_timer = false; socket = Socket.closed })

-- One tick of the timer of `startHeartbeat`. A clock set back counts as no time passed: either is at
-- most the limit.
unfoldable pub heartbeat_tick : ClientConfig → ℕ → Client → Client
heartbeat_tick cfg now c =
    if is_opened c.socket
    then (if ltb (cfg.heartbeat_interval + cfg.pong_timeout) (now - c.last_pong_time)
        then record (cleanup c) { socket = close_socket c.socket }
        else record c { pings = suc c.pings })
    else cleanup c

-- The timer of the handshake runs out, unless it was cleared.
unfoldable pub time_out : Client → Client
time_out c =
    if c.auth_timer
    then reject_once auth_timed_out
        (record c { auth_timer = false; socket = close_socket c.socket })
    else c

-- `disconnect`, and `disconnectAsync` up to its wait for the event `close`, which cleans up in any case.
abbrev pub disconnect : Client → Client
disconnect c = cleanup (record c { auto_reconnect = false; socket = close_socket c.socket })

abbrev pub disconnect_async : Client → Client
disconnect_async c = record c { auto_reconnect = false; socket = close_socket c.socket }

-- Three seconds after `disconnectAsync`, where no `close` came.
abbrev end_wait : Client → Client
end_wait c = cleanup (record c { socket = close_socket c.socket })

pub data Event : Type 0 where
  socket_open socket_close failure auth_timer_ends disconnects disconnects_async : Event
  wait_ends : Event
  message : (now : ℕ) → (is_binary : Bool) → Bytes → Event
  pong tick : (now : ℕ) → Event

unfoldable pub step : ClientConfig → Event → Client → Client
step cfg Event.socket_open c = record c { socket = Socket.opened }
step cfg Event.socket_close c = close_in c.auth_state c
step cfg Event.failure c = reject_once socket_error (record c { auth_timer = false })
step cfg Event.auth_timer_ends c = time_out c
step cfg Event.disconnects c = disconnect c
step cfg Event.disconnects_async c = disconnect_async c
step cfg Event.wait_ends c = end_wait c
step cfg (Event.message now is_binary data') c = message_in cfg now is_binary data' c.auth_state c
step cfg (Event.pong now) c = record c { last_pong_time = now }
step cfg (Event.tick now) c = if c.heartbeat then heartbeat_tick cfg now c else c

unfoldable pub run : ClientConfig → List Event → Client → Client
run cfg [] c = c
run cfg (e ∷ es) c = run cfg es (step cfg e c)
