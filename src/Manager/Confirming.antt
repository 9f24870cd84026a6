-- ===== src/Manager/Confirming.antt =====
-- Delivery confirmations (skill/src/message-manager.ts, `handleDeliveryConfirmation`).
use pinch.Prelude.{ℕ, ◌≡◌, ◌⊎◌, inl, inr, refl, true, none, some, arith, Option-cases, Bool-cases}
use pinch.Messages.{MessageRecord, get_message}
use pinch.Messages.Rows.{get_message-update_state}
use pinch.Router.Review.{found_id}
use pinch.Wire
use pinch.Wire.{Bytes, Envelope, Payload}
use pinch.World.{World, restated}
use pinch.Delivery.{verify_delivery_confirmation}
use pinch.Manager.{Setup, get_peer_public_key}
use pinch.Manager.Receiving.{confirm_message, confirm_payload, handle_delivery_confirmation}

module _ (st : Setup) (now : ℕ) (e : Envelope) (w : World) where
  -- The signature is valid under the key that the store has for the sender of the envelope.
  abbrev pub SignedBySender : Wire.DeliveryConfirm → Type 0
  SignedBySender c =
      (key : Bytes) × (get_peer_public_key st.encodings e.from_address w.store ≡ some key)
      × (verify_delivery_confirmation st.signatures c.signature c.message_id c.timestamp key ≡ true)

  abbrev pub ConfirmedBy : Wire.DeliveryConfirm → World → Type 0
  ConfirmedBy c w' =
      SignedBySender c
      × ((m : MessageRecord) × (get_message (st.codecs.decode_text c.message_id) w.messages
            ≡ some m))
      × (w' ≡ restated now (st.codecs.decode_text c.message_id) c.state none w)

  confirm_message-cases :
      (c : Wire.DeliveryConfirm)
      → (confirm_message st now e c w ≡ w) ⊎ ConfirmedBy c (confirm_message st now e c w)
  unfolding confirm_message
  confirm_message-cases c =
      elim (Option-cases (get_message (st.codecs.decode_text c.message_id) w.messages)) [
        | inl n ↦ inl (ground arith)
        | inr (m, f) ↦
            elim (Option-cases (get_peer_public_key st.encodings e.from_address w.store)) [
              | inl n ↦ inl (ground arith)
              | inr (key, k) ↦
                  elim (Bool-cases (
                    verify_delivery_confirmation st.signatures c.signature c.message_id c.timestamp
                      key)) [
                        | inl v ↦ inr ((key, k, v), (m, f), ground arith)
                        | inr v ↦ inl (ground arith)
                      ]
            ]
      ]

  confirm_payload-cases :
      (q : Payload)
      → ((confirm_payload st now e q w).0 ≡ w)
        ⊎ ((c : Wire.DeliveryConfirm) × (q ≡ Payload.confirm c)
            × ConfirmedBy c (confirm_payload st now e q w).0)
  confirm_payload-cases (Payload.confirm c) = elim (confirm_message-cases c) [
    | inl same ↦ inl same
    | inr by ↦ inr (c, refl, by)
  ]
  confirm_payload-cases _ = inl refl

  -- A delivery confirmation changes nothing, or it carries a signature that is valid under the key
  -- of the envelope's sender for a message that is stored; only that message's state changes then.
  pub confirmation_needs_signature :
      ((handle_delivery_confirmation st now e w).0 ≡ w)
      ⊎ ((c : Wire.DeliveryConfirm) × (e.payload ≡ Payload.confirm c)
          × ConfirmedBy c (handle_delivery_confirmation st now e w).0)
  unfolding handle_delivery_confirmation
  confirmation_needs_signature = confirm_payload-cases e.payload

  -- A signed confirmation sets any state on any message: neither the direction nor the connection
  -- nor the state of the message is looked at, so the sender of a message that waits for the human
  -- can set it to any text, `read_by_agent` among them.
  pub confirmation_sets_any_state :
      (c : Wire.DeliveryConfirm) (m : MessageRecord)
      → e.payload ≡ Payload.confirm c
      → SignedBySender c
      → get_message (st.codecs.decode_text c.message_id) w.messages ≡ some m
      → get_message
          (st.codecs.decode_text c.message_id)
          (handle_delivery_confirmation st now e w).0.messages
        ≡ some (record m { state = c.state; failure_reason = none; updated_at = now })
  unfolding handle_delivery_confirmation confirm_message get_message
  confirmation_sets_any_state c m p (key, k, v) f = ground (
    arith,
    get_message-update_state now (st.codecs.decode_text c.message_id) c.state none
        (st.codecs.decode_text c.message_id) w.messages,
    found_id (st.codecs.decode_text c.message_id) w.messages.messages m,
  )
