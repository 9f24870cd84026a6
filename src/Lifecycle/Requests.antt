-- ===== src/Lifecycle/Requests.antt =====
-- Connection requests, sent and received (skill/src/connection.ts).
use pinch.Prelude.Act.{ok}
use pinch.Prelude.{
  Bool, true, not, ◌&&◌, ℕ, ◌≤◌, String, ◌≡◌, ◌≢◌, ◌⊎◌, inl, inr, Bool-cases, ltb, false, Option,
  some, List, [], ◌∷◌, ◌++◌, ◌==◌, eq_refl, arith, length, given, if◌then◌else◌, ◌or◌,
}
use pinch.Connections.{new_connection, too_long, get_connection, add_connection, save}
use pinch.Connections.Writes.{add_accepted, get_connection-add, get_connection-save}
use pinch.Feed.{Runtime}
use pinch.Wire
use pinch.Wire.{Bytes, Envelope, Payload, MessageType}
use pinch.World.{World, send_envelope}
use pinch.Lifecycle.{
  own_address, send_request, request_envelope, outbound_connection, receive_request, request_expiry,
  inbound_connection, handle_envelope,
}

-- A request that arrives replaces whatever the store held for its sender. With a short enough
-- message and a date in range, the sender's connection is then a new one that waits for the human,
-- at full manual with the default manifest, also where an active or a blocked connection stood; no
-- other connection changes, and the store is saved.
pub request_replaces_connection :
    (rt : Runtime) (now : ℕ) (e : Envelope) (r : Wire.ConnectionRequest) (t : Option ℕ) (w : World)
    → e.type ≡ MessageType.connection_request
    → e.payload ≡ Payload.request r
    → request_expiry r.expires_at ≡ ok t
    → length r.message ≤ 280
    → ((handle_envelope rt now e w).1 ≡ ok tt)
      × ((j : String)
          → get_connection j (handle_envelope rt now e w).0.store ≡ (
              if r.from_address == j
              then some (new_connection now (inbound_connection rt r t))
              else get_connection j w.store))
      × ((handle_envelope rt now e w).0.store.saved
          ≡ (handle_envelope rt now e w).0.store.connections)
unfolding handle_envelope receive_request
request_replaces_connection rt now e r t w p q x l =
    let n = inbound_connection rt r t in
    let short : too_long n.short_message ≡ false = ground arith in
    (
      ground (arith, add_accepted now n w.store short),
      λ j. ground (
        arith,
        add_accepted now n w.store short,
        get_connection-add now n w.store j short,
        get_connection-save j (add_connection now n w.store).0,
      ),
      unfold save in ground (arith, add_accepted now n w.store short),
    )

-- The message is short enough, the relay has assigned an address, and the socket is open.
abbrev pub can_send : List ℕ → World → Bool
can_send message w =
    not (ltb 280 (length message)) && (given w.relay.assigned_address && w.relay.is_open)

module _ (now : ℕ) (key : Bytes) (to : String) (message : List ℕ) (w : World) where
  -- A request is sent and stored, or neither: `sendRequest` returns exactly when the message is
  -- short enough, the relay has assigned an address and the socket is open. It then has sent one
  -- envelope and saved a pending connection; otherwise nothing at all has changed.
  pub send_request_all_or_nothing :
      (((send_request now key to message w).1 ≡ ok tt)
        × (can_send message w ≡ true)
        × ((send_request now key to message w).0.relay.sent
            ≡ w.relay.sent
              ++ request_envelope now key (w.relay.assigned_address or "") to message ∷ [])
        × (get_connection to (send_request now key to message w).0.store
            ≡ some (new_connection now (outbound_connection now to message)))
        × ((send_request now key to message w).0.store.saved
            ≡ (send_request now key to message w).0.store.connections))
      ⊎ (can_send message w ≡ false)
        × ((send_request now key to message w).0 ≡ w)
        × ((send_request now key to message w).1 ≢ ok tt)
  unfolding send_request own_address send_envelope
  send_request_all_or_nothing = elim (Bool-cases (ltb 280 (length message))) [
    | inl long ↦ inr (ground arith, ground arith, ground arith)
    | inr short ↦ elim (Bool-cases (given w.relay.assigned_address)) [
      | inr nobody ↦ inr (ground arith, ground arith, ground arith)
      | inl known ↦ elim (Bool-cases w.relay.is_open) [
        | inr shut ↦ inr (ground arith, ground arith, ground arith)
        | inl opened ↦
            let n = outbound_connection now to message in
            let accepted = add_accepted now n w.store short in
            inl (
              ground (arith, accepted),
              ground arith,
              ground (arith, accepted),
              ground (
                arith,
                accepted,
                get_connection-add now n w.store to short,
                get_connection-save to (add_connection now n w.store).0,
                eq_refl to,
              ),
              unfold save in ground (arith, accepted),
            )
      ]
    ]
  ]
