-- ===== src/System/Still.antt =====
-- The message store under the envelopes of connections (skill/src/connection.ts).
use pinch.Prelude.Act.{Act, ◌>>=◌, Result-cases}
use pinch.Prelude.{ℕ, String, ◌≡◌, refl, inl, inr, arith, Option-cases}
use pinch.Connections.{get_connection, update_connection, Updates, add_connection, revoked}
use pinch.Feed.{Runtime}
use pinch.Wire
use pinch.Wire.{Payload, Envelope, MessageType}
use pinch.World.{World, stored, save_store}
use pinch.Lifecycle.{
  handle_envelope, receive_request, receive_response, receive_revoke, set_and_save, lifted,
  request_expiry, inbound_connection, to_state, response_updates, by_type, on_request, on_response,
  on_revoke,
}

abbrev Still : {A : Type 0} → Act World A → Type 0
Still act = (w : World) → (act w).0.messages ≡ w.messages

module _ {A B : Type 0} where
  Still-bind :
      (act : Act World A) (f : A → Act World B)
      → Still act
      → ((a : A) → Still (f a))
      → Still (act >>= f)
  Still-bind act f h k w = elim (Result-cases (act w).1) [
    | inl (a, e) ↦ ground (arith, e, h w, k a (act w).0)
    | inr (x, e) ↦ ground (arith, e, h w)
  ]

set_and_save-Still : (now : ℕ) (addr : String) (u : Updates) → Still (set_and_save now addr u)
unfolding set_and_save
set_and_save-Still now addr u =
    Still-bind (stored (update_connection now addr u)) (λ _. save_store) (λ w. refl) (λ _ w. refl)

receive_request-Still :
    (rt : Runtime) (now : ℕ) (r : Wire.ConnectionRequest) → Still (receive_request rt now r)
unfolding receive_request
receive_request-Still rt now r =
    Still-bind (lifted (request_expiry r.expires_at)) _ (λ w. refl)
      (λ x.
        Still-bind (stored (add_connection now (inbound_connection rt r x))) (λ _. save_store)
          (λ w. refl) (λ _ w. refl))

receive_revoke-Still : (now : ℕ) (from : String) → Still (receive_revoke now from)
unfolding receive_revoke
receive_revoke-Still now from w = elim (Option-cases (get_connection from w.store)) [
  | inl n ↦ ground (arith, n)
  | inr (c, e) ↦ rw (e, receive_revoke) (set_and_save-Still now from (to_state revoked) w)
]

module _ (rt : Runtime) (now : ℕ) where
  on_request-Still : (p : Payload) → Still (on_request rt now p)
  on_request-Still (Payload.request r) = receive_request-Still rt now r
  on_request-Still _ = λ w. refl

  on_response-Still : (p : Payload) → Still (on_response rt now p)
  unfolding receive_response
  on_response-Still (Payload.response r) =
      set_and_save-Still now r.from_address (response_updates rt r)
  on_response-Still _ = λ w. refl

  on_revoke-Still : (p : Payload) → Still (on_revoke now p)
  on_revoke-Still (Payload.revoke from to) = receive_revoke-Still now from
  on_revoke-Still _ = λ w. refl

  by_type-Still : (t : MessageType) (p : Payload) → Still (by_type rt now t p)
  by_type-Still MessageType.connection_request p = on_request-Still p
  by_type-Still MessageType.connection_response p = on_response-Still p
  by_type-Still MessageType.connection_revoke p = on_revoke-Still p
  by_type-Still _ p = λ w. refl

  pub handle_envelope-messages :
      (e : Envelope) (w : World) → (handle_envelope rt now e w).0.messages ≡ w.messages
  unfolding handle_envelope
  handle_envelope-messages e w = by_type-Still e.type e.payload w
