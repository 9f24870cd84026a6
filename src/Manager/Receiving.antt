-- ===== src/Manager/Receiving.antt =====
-- The receiving side of skill/src/message-manager.ts: incoming messages and delivery confirmations.
use pinch.Prelude.Act.{
  Act, Result, ok, throw, return, ◌>>=◌, ◌>>◌, invalid_key, expected_encrypted,
  expected_delivery_confirm, decryption_failed, malformed_payload,
}
use pinch.Prelude.{ℕ, String, false, Option, none, some, [], ◌++◌, ◌==◌, given, ◌or◌, if◌then◌else◌}
use pinch.Messages.{
  inbound, normal, Attribution, agent, human, MessageRecord, get_message, save_message,
}
use pinch.Wire
use pinch.Wire.{Bytes, Envelope, Payload, MessageType}
use pinch.World.{World, restated, send_envelope}
use pinch.Pipeline.{process}
use pinch.Crypto.{ed25519_pub_to_x25519, ed25519_priv_to_x25519, decrypt}
use pinch.Delivery.{sign_delivery_confirmation, verify_delivery_confirmation}
use pinch.Manager.{Plaintext, Wrapper, Codecs, Setup, get_peer_public_key, kept, checked}

-- Body, attribution, thread and message replied to.
pub record Contents : Type 0 where
  pub body : String
  pub attribution : Attribution
  pub thread_id : Option String
  pub reply_to : Option String

abbrev pub raw_contents : String → Contents
raw_contents raw = record { body = raw; attribution = agent; thread_id = none; reply_to = none }

abbrev pub read_attribution : Option String → Attribution
read_attribution none = agent
read_attribution (some a) = if a == "human" then human else agent

abbrev read_wrapper : String → Option Wrapper → Contents
read_wrapper raw none = raw_contents raw
read_wrapper raw (some w) = record {
  body = w.text or raw;
  attribution = read_attribution w.attribution;
  thread_id = w.thread_id;
  reply_to = w.reply_to;
}

-- Step 8
unfoldable pub read_contents : Codecs → Plaintext → Contents
read_contents cs p =
    let raw = cs.decode_text p.content in
    if p.content_type == "application/x-pinch+json"
    then read_wrapper raw (cs.parse_json raw)
    else raw_contents raw

abbrev pub inbound_record : ℕ → String → String → ℕ → Contents → MessageRecord
inbound_record now id sender sequence c = record {
  id = id;
  connection_address = sender;
  direction = inbound;
  body = c.body;
  thread_id = c.thread_id;
  reply_to = c.reply_to;
  priority = normal;
  sequence = sequence;
  state = "delivered";
  failure_reason = none;
  attribution = some c.attribution;
  created_at = now;
  updated_at = now;
}

abbrev opened : Setup → Wire.EncryptedPayload → Result Bytes
opened st p = elim (ed25519_pub_to_x25519 st.sodium p.sender_public_key) [
  | none ↦ throw invalid_key
  | some theirs ↦ elim (ed25519_priv_to_x25519 st.sodium st.private_key) [
    | none ↦ throw invalid_key
    | some mine ↦ elim (decrypt st.sodium (p.nonce ++ p.ciphertext) theirs mine) [
      | none ↦ throw decryption_failed
      | some bytes ↦ ok bytes
    ]
  ]
]

abbrev read_bytes : Setup → ℕ → Envelope → Option Plaintext → Result MessageRecord
read_bytes st now e none = throw malformed_payload
read_bytes st now e (some p) = ok (
    inbound_record now (st.codecs.decode_text e.message_id) e.from_address p.sequence
      (read_contents st.codecs p))

-- Steps 4 to 10 on the payload.
unfoldable pub open_encrypted : Setup → ℕ → Envelope → Wire.EncryptedPayload → Result MessageRecord
open_encrypted st now e p = elim (opened st p) [
  | throw x ↦ throw x
  | ok bytes ↦ read_bytes st now e (st.codecs.decode_plaintext bytes)
]

abbrev pub open_payload : Setup → ℕ → Envelope → Payload → Result MessageRecord
open_payload st now e (Payload.encrypted p) = open_encrypted st now e p
open_payload st now e _ = throw expected_encrypted

-- Steps 1 to 10: the record that is stored. The sender's key is the one that the payload brings.
abbrev pub open_message : Setup → ℕ → Envelope → Result MessageRecord
open_message st now e = open_payload st now e e.payload

abbrev pub confirmation : Setup → ℕ → String → String → String → Envelope
confirmation st now own id sender = record {
  from_address = own;
  to_address = sender;
  type = MessageType.delivery_confirm;
  message_id = [];
  timestamp = now;
  payload = Payload.confirm (record {
    message_id = st.codecs.encode_text id;
    signature =
        sign_delivery_confirmation st.signatures (st.codecs.encode_text id) now st.private_key;
    timestamp = now;
    state = "delivered";
    was_stored = false;
  });
}

-- `sendDeliveryConfirmation`
unfoldable pub send_delivery_confirmation : Setup → ℕ → String → String → Act World (Unit {0})
send_delivery_confirmation st now id sender w =
    if given w.relay.assigned_address
    then send_envelope (confirmation st now (w.relay.assigned_address or "") id sender) w
    else (w, ok tt)

-- `handleIncomingMessage` where nothing else runs at its waits: opened and stored at `t0`, processed
-- in the pipeline's three stages, and confirmed at `t3`.
unfoldable pub handle_incoming_message : Setup → (t0 t1 t2 t3 : ℕ) → Envelope → Act World (Unit {0})
handle_incoming_message st t0 t1 t2 t3 e = do
  m ← checked (open_message st t0 e)
  λ w. kept w (save_message m w.messages)
  process st.runtime st.breaker m e.from_address st.evaluator t0 t1 t2
  send_delivery_confirmation st t3 m.id e.from_address

abbrev settle_confirmation :
    Setup → ℕ → Envelope → Wire.DeliveryConfirm → Option Bytes → World → World
settle_confirmation st now e c none w = w
settle_confirmation st now e c (some key) w =
    if verify_delivery_confirmation st.signatures c.signature c.message_id c.timestamp key
    then restated now (st.codecs.decode_text c.message_id) c.state none w
    else w

-- Steps 2 to 7. A signature on which the library throws counts as one that is not valid.
unfoldable pub confirm_message : Setup → ℕ → Envelope → Wire.DeliveryConfirm → World → World
confirm_message st now e c w = elim (get_message (st.codecs.decode_text c.message_id) w.messages) [
  | none ↦ w
  | some m ↦
      settle_confirmation st now e c (get_peer_public_key st.encodings e.from_address w.store) w
]

abbrev pub confirm_payload : Setup → ℕ → Envelope → Payload → Act World (Unit {0})
confirm_payload st now e (Payload.confirm c) w = (confirm_message st now e c w, ok tt)
confirm_payload st now e _ w = (w, throw expected_delivery_confirm)

-- `handleDeliveryConfirmation`
unfoldable pub handle_delivery_confirmation : Setup → ℕ → Envelope → Act World (Unit {0})
handle_delivery_confirmation st now e = confirm_payload st now e e.payload

-- The messages of `setupHandlers`: the handler's promise is not awaited. Reports of the relay's queue
-- change nothing here; `Flush` has them.
abbrev pub manage_by_type :
    Setup → (t0 t1 t2 t3 : ℕ) → MessageType → Envelope → Act World (Unit {0})
manage_by_type st t0 t1 t2 t3 MessageType.message e = handle_incoming_message st t0 t1 t2 t3 e
manage_by_type st t0 t1 t2 t3 MessageType.delivery_confirm e = handle_delivery_confirmation st t0 e
manage_by_type st t0 t1 t2 t3 _ e = return tt

unfoldable pub manage_envelope : Setup → (t0 t1 t2 t3 : ℕ) → Envelope → Act World (Unit {0})
manage_envelope st t0 t1 t2 t3 e = manage_by_type st t0 t1 t2 t3 e.type e
