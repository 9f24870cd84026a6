-- ===== src/Wire.antt =====
-- The envelopes of the relay protocol as the skill reads and builds them (proto/pinch/v1, compiled
-- to gen/ts by a build step), before they are serialised. Bytes are numbers below 256; the numbers
-- of the protocol are taken as not negative.
use pinch.Prelude.{ℕ, String, Bool, List}

abbrev pub Bytes : Type 0
Bytes = List ℕ

pub data MessageType : Type 0 where
  message delivery_confirm connection_request connection_response connection_revoke : MessageType
  block_notification unblock_notification queue_status queue_full rate_limited : MessageType
  handshake auth_challenge auth_response auth_result heartbeat unspecified : MessageType

pub record ConnectionRequest : Type 0 where
  pub from_address : String
  pub to_address : String
  pub message : List ℕ
  pub sender_public_key : Bytes
  pub expires_at : ℕ

pub record ConnectionResponse : Type 0 where
  pub from_address : String
  pub to_address : String
  pub accepted : Bool
  pub responder_public_key : Bytes

pub record EncryptedPayload : Type 0 where
  pub nonce : Bytes
  pub ciphertext : Bytes
  pub sender_public_key : Bytes

pub record DeliveryConfirm : Type 0 where
  pub message_id : Bytes
  pub signature : Bytes
  pub timestamp : ℕ
  pub state : String
  pub was_stored : Bool

pub data Payload : Type 0 where
  request : ConnectionRequest → Payload
  response : ConnectionResponse → Payload
  revoke : (from_address to_address : String) → Payload
  block unblock : (by_address address : String) → Payload
  encrypted : EncryptedPayload → Payload
  confirm : DeliveryConfirm → Payload
  queue : (pending_count : ℕ) → Payload
  full : (recipient_address reason : String) → Payload
  limited : (retry_after_ms : ℕ) → (reason : String) → Payload
  -- Any other case of the payload.
  other : Payload

-- The type and the case of the payload are two fields, which a peer sets as it likes.
pub record Envelope : Type 0 where
  pub from_address : String
  pub to_address : String
  pub type : MessageType
  pub message_id : Bytes
  pub timestamp : ℕ
  pub payload : Payload
