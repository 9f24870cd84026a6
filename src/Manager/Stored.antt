-- ===== src/Manager/Stored.antt =====
-- What becomes of an incoming message (skill/src/message-manager.ts, `handleIncomingMessage`).
use pinch.Prelude.Act.{ok}
use pinch.Prelude.{
  ℕ, String, ◌≡◌, refl, ◌∙◌, Bool, none, [], ◌∷◌, ◌++◌, eq_refl, given, ◌or◌, ◌&&◌, if◌then◌else◌,
  arith,
}
use pinch.Messages.{MessageRecord, get_message, save_message}
use pinch.Messages.Rows.{save_message_effect}
use pinch.Wire.{Envelope}
use pinch.World.{World, send_envelope}
use pinch.Pipeline.{process}
use pinch.Pipeline.Agreement.{StoredAs}
use pinch.Pipeline.Totality.{process_returns}
use pinch.Pipeline.Quiet.{process_sends_nothing}
use pinch.Router.{RoutedMessage}
use pinch.Manager.{Setup}
use pinch.Manager.Receiving.{
  open_message, confirmation, send_delivery_confirmation, handle_incoming_message,
}

module _ (st : Setup) (t : ℕ) (id sender : String) (w : World) where
  abbrev reachable : Bool
  reachable = given w.relay.assigned_address && w.relay.is_open

  confirmation_effect :
      ((send_delivery_confirmation st t id sender w).0.messages ≡ w.messages)
      × ((send_delivery_confirmation st t id sender w).0.relay.sent ≡ (
          if reachable
          then w.relay.sent ++ confirmation st t (w.relay.assigned_address or "") id sender ∷ []
          else w.relay.sent))
  unfolding send_delivery_confirmation send_envelope
  confirmation_effect = (ground arith, ground arith)

module _ (st : Setup) (t0 t1 t2 t3 : ℕ) (e : Envelope) (w : World) where
  -- A message that opens and has a new id is stored and routed, whoever sent it: it ends in the
  -- state that the pipeline gave it. One confirmation goes out to its sender, if the client has an
  -- address and the socket is open, and nothing else.
  pub incoming_message_effect :
      (m : MessageRecord)
      → open_message st t0 e ≡ ok m
      → get_message m.id w.messages ≡ none
      → ((r : RoutedMessage) × ((process st.runtime st.breaker m e.from_address st.evaluator t0 t1
              t2
              (record w { messages = (save_message m w.messages).0 })).1
            ≡ ok r)
          × StoredAs m.id r.state (handle_incoming_message st t0 t1 t2 t3 e w).0.messages)
        × ((handle_incoming_message st t0 t1 t2 t3 e w).0.relay.sent ≡ (
            if given w.relay.assigned_address && w.relay.is_open
            then w.relay.sent
              ++ confirmation st t3 (w.relay.assigned_address or "") m.id e.from_address ∷ []
            else w.relay.sent))
  unfolding handle_incoming_message
  incoming_message_effect m o new =
      let (saved, there) = (save_message_effect m w.messages).0 new in
      let w1 = record w { messages = (save_message m w.messages).0 } in
      let (r, done, st1) =
        process_returns st.runtime st.breaker m e.from_address st.evaluator t0 t1 t2 w1 m.state
          (m, there m.id ∙ rw (eq_refl m.id) refl, refl) in
      let w2 = (process st.runtime st.breaker m e.from_address st.evaluator t0 t1 t2 w1).0 in
      let same : w2.relay ≡ w.relay =
        process_sends_nothing st.runtime st.breaker m e.from_address st.evaluator t0 t1 t2 w1 in
      let (messages, sent) = confirmation_effect st t3 m.id e.from_address w2 in
      let runs : (handle_incoming_message st t0 t1 t2 t3 e w).0
          ≡ (send_delivery_confirmation st t3 m.id e.from_address w2).0 =
        unfold handle_incoming_message in ground (arith, saved, done) in
      ((r, done, rw (runs, messages) st1), rw (runs, sent, same) refl)
