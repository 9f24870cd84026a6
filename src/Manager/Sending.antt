-- ===== src/Manager/Sending.antt =====
-- What `sendMessage` leaves (skill/src/message-manager.ts).
use pinch.Prelude.Act.{ok}
use pinch.Prelude.{
  ℕ, String, ◌≡◌, ◌↔◌, refl, true, false, none, some, [], ◌∷◌, ◌++◌, eq_refl, ltb, given, ◌or◌,
  if◌then◌else◌, arith, Bool-cases, inl, inr,
}
use pinch.Connections.{Connection, is_active, get_connection}
use pinch.Messages.{MessageStore, get_message, next_sequence}
use pinch.Messages.Rows.{save_message_effect}
use pinch.Wire.{Bytes, Envelope}
use pinch.World.{World, send_envelope}
use pinch.Lifecycle.{own_address}
use pinch.Manager.{
  Setup, SendMessageParams, max_envelope_size, get_peer_public_key, resolve_thread, plaintext, seal,
  message_envelope, outbound_record, send_sealed, send_message,
}

next_sequence-messages :
    (a : String) (s : MessageStore) → (next_sequence a s).0.messages ≡ s.messages
unfolding next_sequence
next_sequence-messages a s = refl

module _ (st : Setup) (now : ℕ) (nonce : Bytes) (id : String) (p : SendMessageParams)
    (w : World) where
  -- The number and the thread that the message gets.
  abbrev pub number : ℕ
  number = (next_sequence p.recipient w.messages).1

  abbrev pub thread : String
  thread = resolve_thread p id w.messages

  abbrev pub own : String
  own = w.relay.assigned_address or ""

  abbrev pub sealed_envelope : Bytes → Envelope
  sealed_envelope sealed = message_envelope st now own p.recipient id sealed

  -- A message to an active connection with a key, that can be sealed, is small enough and has a new
  -- id, on a client with an address, is stored as `sent` whether the socket is open or not; the call
  -- returns its id, and the envelope goes out, exactly when the socket is open.
  pub send_message_effect :
      (c : Connection) (key sealed : Bytes)
      → get_connection p.recipient w.store ≡ some c
      → is_active c.state ≡ true
      → get_peer_public_key st.encodings p.recipient w.store ≡ some key
      → seal st nonce key (st.codecs.encode_plaintext (plaintext st.codecs now p thread number))
        ≡ ok sealed
      → given w.relay.assigned_address ≡ true
      → ltb max_envelope_size (st.codecs.envelope_size (sealed_envelope sealed)) ≡ false
      → get_message id w.messages ≡ none
      → (get_message id (send_message st now nonce id p w).0.messages
          ≡ some (outbound_record now id p thread number))
        × (((send_message st now nonce id p w).1 ≡ ok id) ↔ (w.relay.is_open ≡ true))
        × ((send_message st now nonce id p w).0.relay.sent ≡ (
            if w.relay.is_open then w.relay.sent ++ sealed_envelope sealed ∷ [] else w.relay.sent))
  unfolding send_message send_sealed own_address send_envelope get_message
  send_message_effect c key sealed found a k s addr size new =
      let store = (next_sequence p.recipient w.messages).0 in
      let m = outbound_record now id p thread number in
      let (saved, there) =
        (save_message_effect m store).0 (rw (next_sequence-messages p.recipient w.messages) new) in
      let f = there id in
      elim (Bool-cases w.relay.is_open) [
        | inl o ↦ (
          ground (arith, f, eq_refl id, saved),
          (λ r. o, λ r. ground (arith, saved)),
          ground (arith, saved),
        )
        | inr o ↦ (
          ground (arith, f, eq_refl id, saved),
          (λ r. absurd (ground (arith, saved)), λ r. absurd (ground arith)),
          ground (arith, saved),
        )
      ]
