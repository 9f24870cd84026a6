-- ===== src/System/Envelopes.antt =====
-- What connection envelopes do to the permissions of connections (skill/src/connection.ts).
use pinch.Prelude.{ℕ, String, refl, inl, inr, arith, Bool-cases, Option-cases}
use pinch.Connections.{revoked, Updates, get_connection, add_connection, update_connection}
use pinch.Feed.{Runtime}
use pinch.Wire
use pinch.Wire.{MessageType, Payload, Envelope}
use pinch.World.{stored, save_store}
use pinch.Lifecycle.{
  lifted, request_expiry, inbound_connection, receive_request, set_and_save, to_state,
  response_updates, receive_response, receive_revoke, on_request, on_response, on_revoke, by_type,
  handle_envelope,
}
use pinch.System.Widening.{
  Narrows-same, IsTightening, Tightens, Tightens-bind, update-Narrows, add-Narrows, save-Narrows,
}

pub stored-update-Tightens :
    (now : ℕ) (addr : String) (u : Updates)
    → IsTightening u
    → Tightens (stored (update_connection now addr u))
stored-update-Tightens now addr u t w = update-Narrows now addr u w.store t

pub save_store-Tightens : Tightens save_store
save_store-Tightens w = save-Narrows w.store

pub set_and_save-Tightens :
    (now : ℕ) (addr : String) (u : Updates) → IsTightening u → Tightens (set_and_save now addr u)
unfolding set_and_save
set_and_save-Tightens now addr u t =
    Tightens-bind (stored (update_connection now addr u)) (λ _. save_store)
      (stored-update-Tightens now addr u t) (λ _. save_store-Tightens)

receive_request-Tightens :
    (rt : Runtime) (now : ℕ) (r : Wire.ConnectionRequest) → Tightens (receive_request rt now r)
unfolding receive_request
receive_request-Tightens rt now r =
    Tightens-bind (lifted (request_expiry r.expires_at)) _ (λ w. Narrows-same w.store w.store refl)
      (λ x.
        Tightens-bind (stored (add_connection now (inbound_connection rt r x))) (λ _. save_store)
          (λ w. add-Narrows now (inbound_connection rt r x) w.store refl refl)
          (λ _. save_store-Tightens))

response_updates-IsTightening :
    (rt : Runtime) (r : Wire.ConnectionResponse) → IsTightening (response_updates rt r)
response_updates-IsTightening rt r = elim (Bool-cases r.accepted) [
  | inl y ↦ (inl (ground arith), ground arith, ground arith)
  | inr n ↦ (inl (ground arith), ground arith, ground arith)
]

receive_revoke-Tightens : (now : ℕ) (from : String) → Tightens (receive_revoke now from)
unfolding receive_revoke
receive_revoke-Tightens now from w = elim (Option-cases (get_connection from w.store)) [
  | inl n ↦ Narrows-same w.store (receive_revoke now from w).0.store (ground arith)
  | inr (c, e) ↦
      rw (e, receive_revoke)
        (set_and_save-Tightens now from (to_state revoked) (inl refl, refl, refl) w)
]

module _ (rt : Runtime) (now : ℕ) where
  on_request-Tightens : (p : Payload) → Tightens (on_request rt now p)
  on_request-Tightens (Payload.request r) = receive_request-Tightens rt now r
  on_request-Tightens _ = λ w. Narrows-same w.store w.store refl

  on_response-Tightens : (p : Payload) → Tightens (on_response rt now p)
  unfolding receive_response
  on_response-Tightens (Payload.response r) =
      set_and_save-Tightens now r.from_address (response_updates rt r)
        (response_updates-IsTightening rt r)
  on_response-Tightens _ = λ w. Narrows-same w.store w.store refl

  on_revoke-Tightens : (p : Payload) → Tightens (on_revoke now p)
  on_revoke-Tightens (Payload.revoke from to) = receive_revoke-Tightens now from
  on_revoke-Tightens _ = λ w. Narrows-same w.store w.store refl

  by_type-Tightens : (t : MessageType) (p : Payload) → Tightens (by_type rt now t p)
  by_type-Tightens MessageType.connection_request p = on_request-Tightens p
  by_type-Tightens MessageType.connection_response p = on_response-Tightens p
  by_type-Tightens MessageType.connection_revoke p = on_revoke-Tightens p
  by_type-Tightens _ p = λ w. Narrows-same w.store w.store refl

  pub handle_envelope-Tightens : (e : Envelope) → Tightens (handle_envelope rt now e)
  unfolding handle_envelope
  handle_envelope-Tightens e = by_type-Tightens e.type e.payload
