-- ===== src/Lifecycle/Decisions.antt =====
-- What the human decides on a connection: approval, rejection and block (skill/src/connection.ts).
use pinch.Prelude.Act.{ok}
use pinch.Prelude.{
  Bool, Bool-cases, Option, Option-cases, String, [], ap, arith, false, given, if◌then◌else◌, inl,
  inr, none, refl, some, true, ℕ, ◌&&◌, ◌++◌, ◌==◌, ◌or◌, ◌↔◌, ◌∙◌, ◌∷◌, ◌≡◌, ◌≢◌, ◌⊎◌,
}
use pinch.Connections.{
  ConnectionStore, active, blocked, pending_inbound, revoked, eq_state, Connection, Updates, assign,
  get_connection, update_connection, save,
}
use pinch.Connections.Writes.{update_found, get_connection-update, get_connection-save}
use pinch.Wire.{Bytes, Envelope, Payload, MessageType}
use pinch.World.{World, send_envelope}
use pinch.Lifecycle.{
  own_address, envelope, to_state, set_and_save, approve_request, reject_request, block_connection,
}
use pinch.Lifecycle.Responses.{get_connection-set_and_save}

abbrev pub acceptance : Bytes → String → String → Envelope
acceptance key own addr = envelope own addr MessageType.connection_response (
    Payload.response (record {
      from_address = own;
      to_address = addr;
      accepted = true;
      responder_public_key = key;
    }))

module _ (now : ℕ) (addr : String) (u : Updates) (w : World) where
  -- The connection takes the update, the others stay, and the store is saved.
  abbrev pub Changed : Connection → ConnectionStore → Type 0
  Changed c s =
      ((j : String)
        → get_connection j s
          ≡ (if addr == j then some (assign now u c) else get_connection j w.store))
      × (s.saved ≡ s.connections)

  pub set_and_save-Changed :
      (c : Connection)
      → get_connection addr w.store ≡ some c
      → ((set_and_save now addr u w).1 ≡ ok tt)
        × Changed c (set_and_save now addr u w).0.store
        × ((set_and_save now addr u w).0.relay ≡ w.relay)
  unfolding set_and_save
  set_and_save-Changed c h =
      let found = update_found now addr u w.store c h in
      (
        ground (arith, found),
        (λ j. get_connection-set_and_save now addr u w c j h, unfold save in ground (arith, found)),
        ground (arith, found),
      )

abbrev pub is_waiting : Option Connection → Bool
is_waiting none = false
is_waiting (some c) = eq_state c.state pending_inbound

module _ (now : ℕ) (addr : String) (w : World) where
  -- The connection waits for the human.
  abbrev pub Waiting : Connection → Type 0
  Waiting c = (get_connection addr w.store ≡ some c) × (eq_state c.state pending_inbound ≡ true)

  -- A rejection acts on a connection that waits for the human: it revokes that connection, leaves
  -- the others, saves the store and sends nothing. It throws only where the connection does not
  -- wait, and nothing has changed then.
  pub reject_effect :
      ((c : Connection) × Waiting c
        × ((reject_request now addr w).1 ≡ ok tt)
        × Changed now addr (to_state revoked) w c (reject_request now addr w).0.store
        × ((reject_request now addr w).0.relay ≡ w.relay))
      ⊎ (is_waiting (get_connection addr w.store) ≡ false)
        × ((reject_request now addr w).0 ≡ w)
        × ((reject_request now addr w).1 ≢ ok tt)
  unfolding reject_request
  reject_effect = elim (Option-cases (get_connection addr w.store)) [
    | inl e ↦ inr (ground arith, ground arith, ground arith)
    | inr (c, e) ↦ elim (Bool-cases (eq_state c.state pending_inbound)) [
      | inr n ↦ inr (ground arith, ground arith, ground arith)
      | inl y ↦
          let (done, changed, quiet) = set_and_save-Changed now addr (to_state revoked) w c e in
          inl (rw (e, y) (c, (refl, y), done, changed, quiet))
    ]
  ]

  abbrev announced : Bytes → World
  announced key = record w {
    relay = record w.relay {
      sent = w.relay.sent ++ acceptance key (w.relay.assigned_address or "") addr ∷ [];
    };
  }

  approve_runs :
      (key : Bytes) (c : Connection)
      → get_connection addr w.store ≡ some c
      → eq_state c.state pending_inbound ≡ true
      → given w.relay.assigned_address ≡ true
      → w.relay.is_open ≡ true
      → approve_request now key addr w ≡ set_and_save now addr (to_state active) (announced key)
  unfolding approve_request own_address send_envelope
  approve_runs key c e y known opened = ground arith

  -- An approval acts on a connection that waits for the human: it sends one accepting response with
  -- the own key, makes that connection active, leaves the others and saves the store. It throws only
  -- where the connection does not wait, the relay has assigned no address or the socket is not open,
  -- and nothing has been sent or changed then.
  pub approve_effect :
      (key : Bytes)
      → ((c : Connection) × Waiting c
          × ((approve_request now key addr w).1 ≡ ok tt)
          × Changed now addr (to_state active) w c (approve_request now key addr w).0.store
          × ((approve_request now key addr w).0.relay.sent
              ≡ w.relay.sent ++ acceptance key (w.relay.assigned_address or "") addr ∷ []))
        ⊎ (is_waiting (get_connection addr w.store)
              && (given w.relay.assigned_address && w.relay.is_open)
            ≡ false)
          × ((approve_request now key addr w).0 ≡ w)
          × ((approve_request now key addr w).1 ≢ ok tt)
  unfolding approve_request own_address send_envelope
  approve_effect key = elim (Option-cases (get_connection addr w.store)) [
    | inl e ↦ inr (ground arith, ground arith, ground arith)
    | inr (c, e) ↦ elim (Bool-cases (eq_state c.state pending_inbound)) [
      | inr n ↦ inr (ground arith, ground arith, ground arith)
      | inl y ↦ elim (Bool-cases (given w.relay.assigned_address)) [
        | inr nobody ↦ inr (ground arith, ground arith, ground arith)
        | inl known ↦ elim (Bool-cases w.relay.is_open) [
          | inr shut ↦ inr (ground arith, ground arith, ground arith)
          | inl opened ↦
              let runs = approve_runs key c e y known opened in
              let (done, changed, quiet) =
                set_and_save-Changed now addr (to_state active) (announced key) c e in
              inl (
                c,
                (e, y),
                ap (λ x. x.1) runs ∙ done,
                rw runs changed,
                rw runs (ap (λ r. r.sent) quiet),
              )
        ]
      ]
    ]
  ]

  -- A block takes effect before it is announced: once the relay has assigned an address, the
  -- connection is blocked also where the sending throws. The store is saved, and the call returns,
  -- exactly when the socket is open.
  pub block_effect :
      (c : Connection)
      → get_connection addr w.store ≡ some c
      → given w.relay.assigned_address ≡ true
      → ((j : String)
          → get_connection j (block_connection now addr w).0.store ≡ (
              if addr == j
              then some (assign now (to_state blocked) c)
              else get_connection j w.store))
        × (((block_connection now addr w).1 ≡ ok tt) ↔ (w.relay.is_open ≡ true))
        × ((block_connection now addr w).0.store.saved ≡ (
            if w.relay.is_open
            then (block_connection now addr w).0.store.connections
            else w.store.saved))
  unfolding block_connection own_address send_envelope
  block_effect c h k =
      let found = update_found now addr (to_state blocked) w.store c h in
      (
        λ j. ground (
          arith,
          found,
          get_connection-update now addr (to_state blocked) w.store c j h,
          get_connection-save j (update_connection now addr (to_state blocked) w.store).0,
        ),
        (λ y. ground (arith, found), λ y. ground (arith, found)),
        unfold save in unfold update_connection in ground (arith, found),
      )
