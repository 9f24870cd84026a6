-- ===== src/Manager.antt =====
-- skill/src/message-manager.ts: messages sent, received and confirmed. What libraries do with bytes
-- and texts (protobuf, JSON, UTF-8) is the parameter `Codecs`.
pub mod Receiving
pub mod Arrival
pub mod Stored
pub mod Sending
pub mod Confirming
pub mod Flush
use pinch.Prelude.Act.{
  Act, Result, ok, throw, fail, return, and_then, ◌>>=◌, ◌>>◌, connection_not_active,
  peer_key_unavailable, message_too_large, invalid_key, expected_encrypted,
  expected_delivery_confirm, decryption_failed, malformed_payload,
}
use pinch.Prelude.{
  ℕ, String, Bool, true, false, Option, none, some, List, [], ◌∷◌, ◌++◌, ◌==◌, ltb, length, take,
  drop, given, ◌or◌, or_else, if◌then◌else◌,
}
use pinch.Connections.{Connection, ConnectionStore, is_active, get_connection}
use pinch.Messages.{
  Direction, inbound, outbound, Priority, normal, Attribution, agent, human, MessageRecord,
  MessageStore, get_message, save_message, next_sequence,
}
use pinch.Feed.{Runtime}
use pinch.Wire
use pinch.Wire.{Bytes, Envelope, Payload, MessageType}
use pinch.World.{World, restated, send_envelope}
use pinch.Breaker.{CircuitBreakerConfig}
use pinch.Evaluator.{PolicyEvaluator}
use pinch.Pipeline.{process}
use pinch.Lifecycle.{own_address}
use pinch.Identity.{Encodings, validate_address}
use pinch.Crypto.{
  Sodium, nonce_bytes, ed25519_pub_to_x25519, ed25519_priv_to_x25519, encrypt, decrypt,
}
use pinch.Delivery.{Signatures, sign_delivery_confirmation, verify_delivery_confirmation}

-- `PlaintextPayload` of the protocol; its version is 1 and is not read.
pub record Plaintext : Type 0 where
  pub sequence : ℕ
  pub timestamp : ℕ
  pub content : Bytes
  pub content_type : String

-- The JSON object inside a message. A field that is no text counts as missing; of `text` that is
-- so only for a missing one or `null`, and no other is modelled.
pub record Wrapper : Type 0 where
  pub text : Option String
  pub attribution : Option String
  pub thread_id : Option String
  pub reply_to : Option String

pub record Codecs : Type 0 where
  -- `toBinary` and `fromBinary` of a `PlaintextPayload`
  pub encode_plaintext : Plaintext → Bytes
  pub decode_plaintext : Bytes → Option Plaintext
  -- `new TextEncoder().encode` and `new TextDecoder().decode`
  pub encode_text : String → Bytes
  pub decode_text : Bytes → String
  -- `JSON.stringify`, and `JSON.parse` where reading fields of what it gives does not throw
  pub stringify : Wrapper → String
  pub parse_json : String → Option Wrapper
  -- `toBinary(EnvelopeSchema, envelope).length`
  pub envelope_size : Envelope → ℕ

-- What a manager is built with, and the libraries that it calls.
pub record Setup : Type 0 where
  pub runtime : Runtime
  pub sodium : Sodium
  pub signatures : Signatures
  pub encodings : Encodings
  pub codecs : Codecs
  pub public_key : Bytes
  pub private_key : Bytes
  pub breaker : CircuitBreakerConfig
  pub evaluator : PolicyEvaluator

abbrev pub max_envelope_size : ℕ
max_envelope_size = 61_440

pub record SendMessageParams : Type 0 where
  pub recipient : String
  pub body : String
  pub thread_id : Option String
  pub reply_to : Option String
  pub priority : Option Priority
  pub attribution : Option Attribution

abbrev key_of_address : Result (Bytes × String) → Option Bytes
key_of_address (ok (key, host)) = some key
key_of_address (throw e) = none

abbrev stored_key : Option Connection → String
stored_key none = ""
stored_key (some c) = c.peer_public_key or ""

-- `getPeerPublicKey` of skill/src/connection-store.ts
unfoldable pub get_peer_public_key : Encodings → String → ConnectionStore → Option Bytes
get_peer_public_key enc addr s =
    let key = stored_key (get_connection addr s) in
    if key == "" then key_of_address (validate_address enc addr) else some (enc.from_base64 key)

abbrev pub attribution_text : Attribution → String
attribution_text agent = "agent"
attribution_text human = "human"

abbrev pub thread_of_message : Option MessageRecord → Option String
thread_of_message none = none
thread_of_message (some m) = m.thread_id

-- The thread given, or else that of the message replied to, or else a new one.
unfoldable pub resolve_thread : SendMessageParams → String → MessageStore → String
resolve_thread p id s =
    let replied = thread_of_message (get_message (p.reply_to or "") s) in
    if given p.thread_id
    then p.thread_id or ""
    else if given p.reply_to
    then (if given replied then replied or "" else id)
    else id

abbrev pub wrapped : SendMessageParams → String → Wrapper
wrapped p thread = record {
  text = some p.body;
  attribution = some (attribution_text (p.attribution or agent));
  thread_id = some thread;
  reply_to = p.reply_to;
}

abbrev pub plaintext : Codecs → ℕ → SendMessageParams → String → ℕ → Plaintext
plaintext cs now p thread sequence = record {
  sequence = sequence;
  timestamp = now;
  content = cs.encode_text (cs.stringify (wrapped p thread));
  content_type = "application/x-pinch+json";
}

abbrev pub message_envelope : Setup → ℕ → String → String → String → Bytes → Envelope
message_envelope st now own to id sealed = record {
  from_address = own;
  to_address = to;
  type = MessageType.message;
  message_id = st.codecs.encode_text id;
  timestamp = now;
  payload = Payload.encrypted (record {
    nonce = take nonce_bytes sealed;
    ciphertext = drop nonce_bytes sealed;
    sender_public_key = st.public_key;
  });
}

abbrev pub outbound_record : ℕ → String → SendMessageParams → String → ℕ → MessageRecord
outbound_record now id p thread sequence = record {
  id = id;
  connection_address = p.recipient;
  direction = outbound;
  body = p.body;
  thread_id = some thread;
  reply_to = p.reply_to;
  priority = p.priority or normal;
  sequence = sequence;
  state = "sent";
  failure_reason = none;
  attribution = some (p.attribution or agent);
  created_at = now;
  updated_at = now;
}

-- An operation of the message store.
abbrev pub kept {ℓ} : {A : Type ℓ} → World → MessageStore × Result A → World × Result A
kept w (s, r) = (record w { messages = s }, r)

abbrev pub checked : {A : Type 0} → Result A → Act World A
checked r w = (w, r)

-- Steps 8 to 10
abbrev pub seal : Setup → Bytes → Bytes → Bytes → Result Bytes
seal st nonce peer_key bytes = elim (ed25519_priv_to_x25519 st.sodium st.private_key) [
  | none ↦ throw invalid_key
  | some mine ↦ elim (ed25519_pub_to_x25519 st.sodium peer_key) [
    | none ↦ throw invalid_key
    | some theirs ↦ ok (encrypt st.sodium nonce bytes theirs mine)
  ]
]

abbrev pub check_size : Setup → Envelope → Result (Unit {0})
check_size st e =
    if ltb max_envelope_size (st.codecs.envelope_size e) then throw message_too_large else ok tt

-- Steps 6 to 15, once the sequence number is taken.
unfoldable pub send_sealed :
    Setup → ℕ → Bytes → String → SendMessageParams → String → Bytes → ℕ → Act World String
send_sealed st now nonce id p thread peer_key sequence = do
  sealed ← checked (
      seal st nonce peer_key
        (st.codecs.encode_plaintext (plaintext st.codecs now p thread sequence)))
  own ← own_address
  checked (check_size st (message_envelope st now own p.recipient id sealed))
  λ w. kept w (save_message (outbound_record now id p thread sequence) w.messages)
  send_envelope (message_envelope st now own p.recipient id sealed)
  return id

abbrev is_active_connection : Option Connection → Bool
is_active_connection none = false
is_active_connection (some c) = is_active c.state

-- `sendMessage`, with the UUID `id` and the random nonce that it makes.
unfoldable pub send_message : Setup → ℕ → Bytes → String → SendMessageParams → Act World String
send_message st now nonce id p w =
    if is_active_connection (get_connection p.recipient w.store)
    then elim (get_peer_public_key st.encodings p.recipient w.store) [
      | none ↦ (w, throw peer_key_unavailable)
      | some key ↦
          let (s, n) = next_sequence p.recipient w.messages in
          send_sealed st now nonce id p (resolve_thread p id w.messages) key n
            (record w { messages = s })
    ]
    else (w, throw connection_not_active)
