-- ===== src/Tests/Agents.antt =====
-- Runs of addresses, messages, confirmations and the queue between two agents.
use pinch.Prelude.Act.{ok}
use pinch.Prelude.Bytes.{to_list, eq_bytes, eq_bytes_refl, replicate}
use pinch.Prelude.{
  ℕ, String, ◌≡◌, ◌↔◌, ◌⊎◌, refl, true, false, Option, none, some, [], ◌∷◌, ◌++◌, length, arith,
}
use pinch.Prelude.Objects.{lookup}
use pinch.Connections.{active, AutonomyLevel, get_connection}
use pinch.Messages.{find_message, MessageRecord, get_message, human, save_message, next_sequence}
use pinch.Wire
use pinch.Wire.{Bytes, Envelope, Payload, MessageType}
use pinch.World.{World}
use pinch.Pipeline.{process}
use pinch.Pipeline.Agreement.{StoredAs}
use pinch.Router.{RoutedMessage}
use pinch.Breaker.{default_circuit_breaker_config}
use pinch.Delivery.{Signatures, build_payload, verify_delivery_confirmation}
use pinch.Identity.{generate_address, validate_address, is_host}
use pinch.Identity.RoundTrip.{validate_address_iff}
use pinch.Crypto.{Sodium, encrypt}
use pinch.Manager.{
  Setup, SendMessageParams, send_message, get_peer_public_key, resolve_thread, outbound_record,
  plaintext, message_envelope,
}
use pinch.Manager.Arrival.{sent_contents, message_arrives}
use pinch.Manager.Sending.{send_message_effect}
use pinch.Manager.Receiving.{
  open_message, inbound_record, confirmation, handle_incoming_message, handle_delivery_confirmation,
}
use pinch.Manager.Stored.{incoming_message_effect}
use pinch.Manager.Confirming.{
  ConfirmedBy, confirmation_needs_signature, confirmation_sets_any_state,
}
use pinch.Manager.Flush.{Flush, flushed, flush_all, flush_completes}
use pinch.Messages.{Priority}
use pinch.Tools.Arguments.{SendArgs}
use pinch.Tools.Commands.{run_send, send_params, run_send_written}
use pinch.Tests.{test_runtime, alice, bob, connection_of, world_of, agreeable, question}
use pinch.Tests.Texts.{unary, unary_decodes, unary_encodes, unary_digits, unary_filled}
use pinch.Tests.Codes.{coded, coded_text, coded_plaintext, coded_wrapper}

-- A box that only puts a mark in front.
abbrev unmarked : Bytes → Option Bytes
unmarked [] = none
unmarked (x ∷ m) = some m

abbrev marking : Sodium
marking = record {
  pub_to_curve = λ k. some k;
  priv_to_curve = λ k. some k;
  box = λ m n pk sk. 9 ∷ m;
  open_box = λ c n pk sk. unmarked c;
}

abbrev text_scheme : Signatures
text_scheme = record { sign = λ m k. m; verify = λ s m k. eq_bytes s m }

abbrev pub agent_with : ℕ → Setup
agent_with n = record {
  runtime = test_runtime;
  sodium = marking;
  signatures = text_scheme;
  encodings = unary;
  codecs = coded;
  public_key = replicate 32 n;
  private_key = replicate 64 n;
  breaker = default_circuit_breaker_config;
  evaluator = agreeable;
}

abbrev pub key : Bytes
key = replicate 32 0

abbrev written : String
written = "pinch:2222222222222222222222222222222212121212@relay"

validate_address_iff_example : (validate_address unary written ≡ ok (key, "relay")) ↔ (
    (length key ≡ 32)
    × (is_host (to_list "relay") ≡ true)
    × (generate_address unary key "relay" ≡ ok written))
validate_address_iff_example =
    validate_address_iff unary (λ b. refl) unary_decodes unary_encodes unary_digits unary_filled
      written "relay" key

abbrev letter : SendMessageParams
letter = record {
  recipient = alice;
  body = "see you";
  thread_id = none;
  reply_to = some "m1";
  priority = none;
  attribution = some human;
}

abbrev nonce : Bytes
nonce = replicate 24 1

abbrev sealed_letter : Bytes
sealed_letter = nonce ++ 9 ∷ coded.encode_plaintext (plaintext coded 50 letter "t1" 4)

message_arrives_example :
    open_message (agent_with 2) 60 (message_envelope (agent_with 1) 50 bob alice "m7" sealed_letter)
    ≡ ok (inbound_record 60 "m7" bob 4 (sent_contents letter "t1"))
message_arrives_example =
    message_arrives (agent_with 1) (agent_with 2) coded_wrapper coded_text coded_plaintext 50 60 bob
      alice "m7" "t1" letter 4 nonce (replicate 32 1) (replicate 64 1) (replicate 32 2)
      (replicate 64 2) refl refl refl refl refl (λ m. refl) sealed_letter (unfold encrypt in refl)

abbrev pub active_alice : World
active_alice = world_of (connection_of alice active AutonomyLevel.notify)

send_message_effect_example :
    (get_message "m7" (send_message (agent_with 1) 50 nonce "m7" letter active_alice).0.messages
      ≡ some (outbound_record 50 "m7" letter "m7" 1))
    × (((send_message (agent_with 1) 50 nonce "m7" letter active_alice).1 ≡ ok "m7")
        ↔ (true ≡ true))
    × ((send_message (agent_with 1) 50 nonce "m7" letter active_alice).0.relay.sent
        ≡ message_envelope
            (agent_with 1)
            50
            "pinch:me@relay"
            alice
            "m7"
            (nonce ++ 9 ∷ coded.encode_plaintext (plaintext coded 50 letter "m7" 1))
          ∷ [])
unfolding get_connection get_message next_sequence get_peer_public_key resolve_thread lookup
    find_message
send_message_effect_example =
    send_message_effect (agent_with 1) 50 nonce "m7" letter active_alice
      (connection_of alice active AutonomyLevel.notify) (unary.from_base64 "a2V5")
      (nonce ++ 9 ∷ coded.encode_plaintext (plaintext coded 50 letter "m7" 1)) refl refl refl
      (unfold encrypt in refl) refl refl refl

abbrev pub arriving : Envelope
arriving = message_envelope (agent_with 1) 50 alice bob "m7" sealed_letter

abbrev pub arrived : MessageRecord
arrived = inbound_record 60 "m7" alice 4 (sent_contents letter "t1")

incoming_message_effect_example :
    ((r : RoutedMessage) × ((process test_runtime default_circuit_breaker_config arrived alice
          agreeable 60 61 62
          (record active_alice { messages = (save_message arrived active_alice.messages).0 })).1
        ≡ ok r)
      × StoredAs "m7" r.state
          (handle_incoming_message (agent_with 2) 60 61 62 63 arriving active_alice).0.messages)
    × ((handle_incoming_message (agent_with 2) 60 61 62 63 arriving active_alice).0.relay.sent
        ≡ confirmation (agent_with 2) 63 "pinch:me@relay" "m7" alice ∷ [])
unfolding get_message find_message
incoming_message_effect_example =
    incoming_message_effect (agent_with 2) 60 61 62 63 arriving active_alice arrived
      (message_arrives (agent_with 1) (agent_with 2) coded_wrapper coded_text coded_plaintext 50 60
        alice bob "m7" "t1" letter 4 nonce (replicate 32 1) (replicate 64 1) (replicate 32 2)
        (replicate 64 2) refl refl refl refl refl (λ m. refl) sealed_letter
        (unfold encrypt in refl))
      refl

abbrev read_confirm : Wire.DeliveryConfirm
read_confirm = record {
  message_id = coded.encode_text "m2";
  signature = build_payload (coded.encode_text "m2") 70;
  timestamp = 70;
  state = "read_by_agent";
  was_stored = false;
}

abbrev confirming : Envelope
confirming = record {
  from_address = alice;
  to_address = "pinch:me@relay";
  type = MessageType.delivery_confirm;
  message_id = [];
  timestamp = 70;
  payload = Payload.confirm read_confirm;
}

confirmation_needs_signature_example :
    ((handle_delivery_confirmation (agent_with 2) 80 confirming active_alice).0 ≡ active_alice)
    ⊎ ((c : Wire.DeliveryConfirm) × (confirming.payload ≡ Payload.confirm c)
        × ConfirmedBy
            (agent_with 2)
            80
            confirming
            active_alice
            c
            (handle_delivery_confirmation (agent_with 2) 80 confirming active_alice).0)
confirmation_needs_signature_example =
    confirmation_needs_signature (agent_with 2) 80 confirming active_alice

confirmation_sets_any_state_example :
    get_message "m2"
      (handle_delivery_confirmation (agent_with 2) 80 confirming active_alice).0.messages
    ≡ some (record question { state = "read_by_agent"; failure_reason = none; updated_at = 80 })
unfolding get_message get_peer_public_key get_connection verify_delivery_confirmation lookup
    find_message
confirmation_sets_any_state_example =
    confirmation_sets_any_state (agent_with 2) 80 confirming active_alice read_confirm question refl
      (unary.from_base64 "a2V5", refl, eq_bytes_refl (build_payload (coded.encode_text "m2") 70))
      refl

abbrev two_left : Flush
two_left = record { remaining = some 2; received = true; waiting = true; resolved = 0 }

flush_completes_example : flush_all (arriving ∷ confirming ∷ []) two_left ≡ flushed 1 2 two_left
flush_completes_example =
    flush_completes (arriving ∷ confirming ∷ []) 1 two_left (refl, (refl, tt)) refl refl
      (omega arith)

abbrev typed : SendArgs
typed = record {
  to = alice;
  body = "see you";
  thread = none;
  reply_to = some "m1";
  priority = some Priority.urgent;
}

run_send_written_example :
    run_send
      (agent_with 1)
      50
      nonce
      "m7"
      ("--to" ∷ alice ∷ "--body" ∷ "see you" ∷ "--reply-to" ∷ "m1" ∷ "--priority" ∷ "urgent" ∷ [])
      active_alice
    ≡ send_message (agent_with 1) 50 nonce "m7" (send_params typed) active_alice
run_send_written_example = run_send_written (agent_with 1) 50 nonce "m7" typed active_alice
