-- ===== src/Lifecycle/Responses.antt =====
-- How an envelope from a peer can make a connection active (skill/src/connection.ts).
use pinch.Prelude.Act.{Result-cases}
use pinch.Prelude.{
  ℕ, String, ◌≡◌, ◌⊎◌, refl, true, false, none, some, ◌==◌, eq_iff, eq_refl, arith, inl, inr,
  Bool-cases, Option-cases, if◌then◌else◌,
}
use pinch.Connections.{
  ConnectionState, revoked, Connection, Updates, assign, is_active, too_long, get_connection,
  add_connection, update_connection,
}
use pinch.Connections.Writes.{
  update_found, get_connection-update, update_missing, get_connection-save, add_accepted,
  get_connection-add, add_refused,
}
use pinch.Feed.{Runtime}
use pinch.Wire
use pinch.Wire.{Envelope, Payload, MessageType}
use pinch.World.{World}
use pinch.Lifecycle.{
  response_updates, set_and_save, receive_request, receive_response, receive_revoke, to_state,
  handle_envelope, request_expiry, inbound_connection, on_request, on_response, on_revoke, by_type,
}

module _ (now : ℕ) (addr : String) (u : Updates) (w : World) where
  pub get_connection-set_and_save :
      (c : Connection) (j : String)
      → get_connection addr w.store ≡ some c
      → get_connection j (set_and_save now addr u w).0.store
        ≡ (if addr == j then some (assign now u c) else get_connection j w.store)
  unfolding set_and_save
  get_connection-set_and_save c j h = ground (
    arith,
    update_found now addr u w.store c h,
    get_connection-update now addr u w.store c j h,
    get_connection-save j (update_connection now addr u w.store).0,
  )

  pub set_and_save_missing : get_connection addr w.store ≡ none → (set_and_save now addr u w).0 ≡ w
  unfolding set_and_save
  set_and_save_missing h = ground (arith, update_missing now addr u w.store h)

abbrev pub IsActiveIn : String → World → Type 0
IsActiveIn j w = (c : Connection) × (get_connection j w.store ≡ some c) × (is_active c.state ≡ true)

-- An update that does not set the state to active makes no connection active.
set_and_save-inactive :
    (now : ℕ) (addr : String) (s : ConnectionState) (w : World) (j : String)
    → is_active s ≡ false
    → IsActiveIn j (set_and_save now addr (to_state s) w).0
    → IsActiveIn j w
set_and_save-inactive now addr s w j n (c', f, a) =
    elim (Option-cases (get_connection addr w.store)) [
      | inl e ↦ (c', ground (arith, set_and_save_missing now addr (to_state s) w e), a)
      | inr (c, e) ↦
          (c', ground (arith, get_connection-set_and_save now addr (to_state s) w c j e), a)
    ]

receive_request-inactive :
    (rt : Runtime) (now : ℕ) (r : Wire.ConnectionRequest) (w : World) (j : String)
    → IsActiveIn j (receive_request rt now r w).0
    → IsActiveIn j w
unfolding receive_request
receive_request-inactive rt now r w j (c', f, a) =
    elim (Result-cases (request_expiry r.expires_at)) [
      | inl (t, e) ↦
          let n = inbound_connection rt r t in
          elim (Bool-cases (too_long n.short_message)) [
            | inl l ↦ (c', ground (arith, add_refused now n w.store l), a)
            | inr l ↦ (
              c',
              ground (
                arith,
                add_accepted now n w.store l,
                get_connection-add now n w.store j l,
                get_connection-save j (add_connection now n w.store).0,
              ),
              a,
            )
          ]
      | inr (x, e) ↦ (c', ground arith, a)
    ]

receive_revoke-inactive :
    (now : ℕ) (from : String) (w : World) (j : String)
    → IsActiveIn j (receive_revoke now from w).0
    → IsActiveIn j w
unfolding receive_revoke
receive_revoke-inactive now from w j h = elim (Option-cases (get_connection from w.store)) [
  | inl e ↦ rw (e, receive_revoke) at h
  | inr (c, e) ↦ set_and_save-inactive now from revoked w j refl (rw (e, receive_revoke) at h)
]

-- An accepting response whose payload names the address, for a connection that is in the store.
abbrev pub AcceptedBy : String → Envelope → World → Type 0
AcceptedBy j e w =
    (e.type ≡ MessageType.connection_response)
    × ((r : Wire.ConnectionResponse) × (e.payload ≡ Payload.response r)
        × (r.accepted ≡ true)
        × (r.from_address ≡ j)
        × ((c : Connection) × (get_connection j w.store ≡ some c)))

receive_response-active :
    (rt : Runtime) (now : ℕ) (r : Wire.ConnectionResponse) (w : World) (j : String)
    → IsActiveIn j (receive_response rt now r w).0
    → IsActiveIn j w
      ⊎ ((r.accepted ≡ true)
          × (r.from_address ≡ j)
          × ((c : Connection) × (get_connection j w.store ≡ some c)))
unfolding receive_response
receive_response-active rt now r w j (c', f, a) =
    let u = response_updates rt r in
    elim (Option-cases (get_connection r.from_address w.store)) [
      | inl e ↦ inl (c', ground (arith, set_and_save_missing now r.from_address u w e), a)
      | inr (c, e) ↦ elim (Bool-cases (r.from_address == j)) [
        | inl k ↦ elim (Bool-cases r.accepted) [
          | inl y ↦
              inr (y, (eq_iff r.from_address j).0 k, (c, ground (arith, eq_iff r.from_address j)))
          | inr n ↦ inl (
              set_and_save-inactive now r.from_address revoked w j refl
                (c', rw (n, response_updates) at f, a))
        ]
        | inr k ↦
            inl (c', ground (arith, get_connection-set_and_save now r.from_address u w c j e), a)
      ]
    ]

abbrev Accepts : String → MessageType → Payload → World → Type 0
Accepts j t p w =
    (t ≡ MessageType.connection_response)
    × ((r : Wire.ConnectionResponse) × (p ≡ Payload.response r)
        × (r.accepted ≡ true)
        × (r.from_address ≡ j)
        × ((c : Connection) × (get_connection j w.store ≡ some c)))

module _ (rt : Runtime) (now : ℕ) (w : World) (j : String) where
  on_request-inactive : (p : Payload) → IsActiveIn j (on_request rt now p w).0 → IsActiveIn j w
  on_request-inactive (Payload.request r) h = receive_request-inactive rt now r w j h
  on_request-inactive _ h = h

  on_revoke-inactive : (p : Payload) → IsActiveIn j (on_revoke now p w).0 → IsActiveIn j w
  on_revoke-inactive (Payload.revoke from to) h = receive_revoke-inactive now from w j h
  on_revoke-inactive _ h = h

  on_response-active :
      (p : Payload)
      → IsActiveIn j (on_response rt now p w).0
      → IsActiveIn j w ⊎ Accepts j MessageType.connection_response p w
  on_response-active (Payload.response r) h = elim (receive_response-active rt now r w j h) [
    | inl a ↦ inl a
    | inr (y, k, c) ↦ inr (refl, (r, refl, y, k, c))
  ]
  on_response-active _ h = inl h

  by_type-active :
      (t : MessageType) (p : Payload)
      → IsActiveIn j (by_type rt now t p w).0
      → IsActiveIn j w ⊎ Accepts j t p w
  by_type-active MessageType.connection_request p h = inl (on_request-inactive p h)
  by_type-active MessageType.connection_response p h = on_response-active p h
  by_type-active MessageType.connection_revoke p h = inl (on_revoke-inactive p h)
  by_type-active _ p h = inl h

-- No envelope makes a connection active, but an accepting response that names its address in the
-- payload: any connection that is active after an envelope was active before it, or is known and such
-- a response came. The address from which the envelope itself came plays no part: with any other
-- sender it has the same effect.
pub activation_needs_response :
    (rt : Runtime) (now : ℕ) (e : Envelope) (w : World) (j : String)
    → IsActiveIn j (handle_envelope rt now e w).0
    → (IsActiveIn j w ⊎ AcceptedBy j e w)
      × ((sender : String)
          → handle_envelope rt now (record e { from_address = sender }) w
            ≡ handle_envelope rt now e w)
unfolding handle_envelope
activation_needs_response rt now e w j h =
    (by_type-active rt now w j e.type e.payload h, λ sender. refl)

-- Nothing in an accepting response is checked against the state of the connection: whatever that is
-- (a request that waits for the human's decision, one that the human rejected, a revoked or a
-- blocked connection), the peer's response makes the connection active.
pub response_activates_any_state :
    (rt : Runtime) (now : ℕ) (e : Envelope) (r : Wire.ConnectionResponse) (w : World)
    (c : Connection)
    → e.type ≡ MessageType.connection_response
    → e.payload ≡ Payload.response r
    → r.accepted ≡ true
    → get_connection r.from_address w.store ≡ some c
    → IsActiveIn r.from_address (handle_envelope rt now e w).0
unfolding handle_envelope receive_response
response_activates_any_state rt now e r w c t p a h = (
  assign now (response_updates rt r) c,
  ground (
    arith,
    get_connection-set_and_save now r.from_address (response_updates rt r) w c r.from_address h,
    eq_refl r.from_address,
  ),
  ground arith,
)
