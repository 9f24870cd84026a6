-- ===== src/Delivery.antt =====
-- skill/src/delivery.ts and skill/src/auth.ts: what is signed for a delivery confirmation and for the
-- relay's challenge. The signature scheme is libsodium's, and is the parameter `Signatures`.
pub mod Binding
use pinch.Prelude.{ℕ, zero, suc, ◌/◌, ◌%◌, ◌^◌, Bool, List, [], ◌∷◌, ◌++◌}
use pinch.Wire.{Bytes}

pub record Signatures : Type 0 where
  -- `crypto_sign_detached(message, privateKey)`
  pub sign : Bytes → Bytes → Bytes
  -- `crypto_sign_verify_detached(signature, message, publicKey)`
  pub verify : Bytes → Bytes → Bytes → Bool

-- The lowest bytes of a number, the most significant one first.
unfoldable pub big_endian : ℕ → ℕ → Bytes
big_endian zero t = []
big_endian (suc n) t = big_endian n (t / 256) ++ t % 256 ∷ []

-- `setBigInt64(0, timestamp)`, which keeps the number modulo 2 ^ 64.
abbrev pub timestamp_bytes : ℕ → Bytes
timestamp_bytes t = big_endian 8 (t % 2 ^ 64)

-- `buildPayload`
unfoldable pub build_payload : Bytes → ℕ → Bytes
build_payload message_id timestamp = message_id ++ timestamp_bytes timestamp

-- `signDeliveryConfirmation`
unfoldable pub sign_delivery_confirmation : Signatures → Bytes → ℕ → Bytes → Bytes
sign_delivery_confirmation s message_id timestamp private_key =
    s.sign (build_payload message_id timestamp) private_key

-- `verifyDeliveryConfirmation`
unfoldable pub verify_delivery_confirmation : Signatures → Bytes → Bytes → ℕ → Bytes → Bool
verify_delivery_confirmation s signature message_id timestamp sender_public_key =
    s.verify signature (build_payload message_id timestamp) sender_public_key

-- `signChallenge`
unfoldable pub sign_challenge : Signatures → Bytes → Bytes → Bytes
sign_challenge s nonce private_key = s.sign nonce private_key
