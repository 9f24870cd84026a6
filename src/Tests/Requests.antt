-- ===== src/Tests/Requests.antt =====
-- Runs of the requests, the answers and the human's decisions.
use pinch.Prelude.Act.{ok}
use pinch.Prelude.Objects.{lookup, insert}
use pinch.Prelude.{
  ◌&&◌, given, false, ℕ, String, ◌≡◌, ◌≢◌, ◌⊎◌, ◌↔◌, refl, true, some, List, [], ◌∷◌, ◌==◌, arith,
  if◌then◌else◌,
}
use pinch.Connections.{
  active, blocked, pending_inbound, AutonomyLevel, Connection, new_connection, get_connection,
  update_connection, save, put, assign,
}
use pinch.Wire
use pinch.Wire.{Envelope, Payload, MessageType}
use pinch.World.{World}
use pinch.Lifecycle.{
  envelope, inbound_connection, handle_envelope, receive_response, set_and_save, to_state,
  approve_request, send_request, request_envelope, outbound_connection, block_connection,
}
use pinch.Lifecycle.Requests.{request_replaces_connection, can_send, send_request_all_or_nothing}
use pinch.Lifecycle.Responses.{
  IsActiveIn, AcceptedBy, activation_needs_response, response_activates_any_state,
}
use pinch.Lifecycle.Decisions.{
  is_waiting, acceptance, Changed, Waiting, approve_effect, block_effect,
}
use pinch.Tests.{test_runtime, alice, bob, connection_of, world_of}

abbrev blocked_peer : Connection
blocked_peer = connection_of alice blocked AutonomyLevel.full_manual

abbrev waiting_peer : Connection
waiting_peer = connection_of alice pending_inbound AutonomyLevel.full_manual

abbrev w_blocked : World
w_blocked = world_of blocked_peer

abbrev w_waiting : World
w_waiting = world_of waiting_peer

abbrev hello : List ℕ
hello = 104 ∷ 105 ∷ []

abbrev incoming : Wire.ConnectionRequest
incoming = record {
  from_address = alice;
  to_address = "pinch:me@relay";
  message = hello;
  sender_public_key = 7 ∷ [];
  expires_at = 2000;
}

abbrev accepting : Wire.ConnectionResponse
accepting = record {
  from_address = alice;
  to_address = "pinch:me@relay";
  accepted = true;
  responder_public_key = 7 ∷ [];
}

abbrev request_arrives : Envelope
request_arrives =
    envelope alice "pinch:me@relay" MessageType.connection_request (Payload.request incoming)

abbrev response_arrives : Envelope
response_arrives =
    envelope alice "pinch:me@relay" MessageType.connection_response (Payload.response accepting)

request_replaces_connection_example :
    ((handle_envelope test_runtime 90 request_arrives w_blocked).1 ≡ ok tt)
    × ((j : String)
        → get_connection j (handle_envelope test_runtime 90 request_arrives w_blocked).0.store ≡ (
            if alice == j
            then some
                (new_connection 90 (inbound_connection test_runtime incoming (some 2_000_000)))
            else get_connection j w_blocked.store))
    × ((handle_envelope test_runtime 90 request_arrives w_blocked).0.store.saved
        ≡ (handle_envelope test_runtime 90 request_arrives w_blocked).0.store.connections)
request_replaces_connection_example =
    request_replaces_connection test_runtime 90 request_arrives incoming (some 2_000_000) w_blocked
      refl refl (ground arith) (ground arith)

activation_needs_response_example :
    (IsActiveIn bob w_blocked ⊎ AcceptedBy bob response_arrives w_blocked)
    × ((sender : String)
        → handle_envelope test_runtime 90
            (record response_arrives { from_address = sender })
            w_blocked
          ≡ handle_envelope test_runtime 90 response_arrives w_blocked)
unfolding handle_envelope receive_response set_and_save update_connection save get_connection lookup
    insert put
activation_needs_response_example =
    activation_needs_response test_runtime 90 response_arrives w_blocked bob
      (connection_of bob active AutonomyLevel.notify, refl, refl)

response_activates_any_state_example :
    IsActiveIn alice (handle_envelope test_runtime 90 response_arrives w_blocked).0
unfolding get_connection lookup
response_activates_any_state_example =
    response_activates_any_state test_runtime 90 response_arrives accepting w_blocked blocked_peer
      refl refl refl refl

approve_effect_example :
    ((c : Connection) × Waiting 90 alice w_waiting c
      × ((approve_request 90 (7 ∷ []) alice w_waiting).1 ≡ ok tt)
      × Changed 90 alice
          (to_state active)
          w_waiting
          c
          (approve_request 90 (7 ∷ []) alice w_waiting).0.store
      × ((approve_request 90 (7 ∷ []) alice w_waiting).0.relay.sent
          ≡ acceptance (7 ∷ []) "pinch:me@relay" alice ∷ []))
    ⊎ (is_waiting (get_connection alice w_waiting.store)
          && (given w_waiting.relay.assigned_address && w_waiting.relay.is_open)
        ≡ false)
      × ((approve_request 90 (7 ∷ []) alice w_waiting).0 ≡ w_waiting)
      × ((approve_request 90 (7 ∷ []) alice w_waiting).1 ≢ ok tt)
approve_effect_example = approve_effect 90 alice w_waiting (7 ∷ [])

send_request_all_or_nothing_example :
    (((send_request 90 (7 ∷ []) alice hello w_blocked).1 ≡ ok tt)
      × (can_send hello w_blocked ≡ true)
      × ((send_request 90 (7 ∷ []) alice hello w_blocked).0.relay.sent
          ≡ request_envelope 90 (7 ∷ []) "pinch:me@relay" alice hello ∷ [])
      × (get_connection alice (send_request 90 (7 ∷ []) alice hello w_blocked).0.store
          ≡ some (new_connection 90 (outbound_connection 90 alice hello)))
      × ((send_request 90 (7 ∷ []) alice hello w_blocked).0.store.saved
          ≡ (send_request 90 (7 ∷ []) alice hello w_blocked).0.store.connections))
    ⊎ (can_send hello w_blocked ≡ false)
      × ((send_request 90 (7 ∷ []) alice hello w_blocked).0 ≡ w_blocked)
      × ((send_request 90 (7 ∷ []) alice hello w_blocked).1 ≢ ok tt)
send_request_all_or_nothing_example = send_request_all_or_nothing 90 (7 ∷ []) alice hello w_blocked

block_effect_example :
    ((j : String)
      → get_connection j (block_connection 90 alice w_waiting).0.store ≡ (
          if alice == j
          then some (assign 90 (to_state blocked) waiting_peer)
          else get_connection j w_waiting.store))
    × (((block_connection 90 alice w_waiting).1 ≡ ok tt) ↔ (true ≡ true))
    × ((block_connection 90 alice w_waiting).0.store.saved
        ≡ (block_connection 90 alice w_waiting).0.store.connections)
unfolding get_connection lookup
block_effect_example = block_effect 90 alice w_waiting waiting_peer refl refl
