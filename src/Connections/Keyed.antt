-- ===== src/Connections/Keyed.antt =====
-- The keys of the store of skill/src/connection-store.ts, over all its operations.
use pinch.Prelude.Objects.{Object, lookup, insert, map_values}
use pinch.Prelude.{
  ℕ, String, ◌≡◌, refl, sym, ◌∙◌, Bool, some, [], ◌∷◌, All, ◌==◌, eq_iff, arith, Bool-cases,
  Option-cases, List-cases, inl, inr,
}
use pinch.Manifest.{PermissionsManifest, validate_manifest}
use pinch.Connections.{
  AutonomyLevel, Connection, NewConnection, new_connection, Updates, no_updates, assign,
  ConnectionStore, empty_store, load, save, put, too_long, add_connection, update_connection,
  upgrade_refused, clear_tripped, set_autonomy, set_permissions, expire, expire_pending_requests,
  clear_passthrough, clear_passthrough_flags,
}

-- Each connection stands under its own address.
abbrev pub KeyedObject : Object Connection → Type 0
KeyedObject o = All (λ e. e.0 ≡ e.1.peer_address) o

abbrev pub IsKeyed : ConnectionStore → Type 0
IsKeyed s = KeyedObject s.connections × KeyedObject s.saved

-- One call of an operation that changes the store, or a new start from what the file holds.
pub data Step : ConnectionStore → ConnectionStore → Type 0 where
  added : (now : ℕ) (c : NewConnection) (s : ConnectionStore) → Step s (add_connection now c s).0
  updated :
      (now : ℕ) (addr : String) (u : Updates) (s : ConnectionStore)
      → Step s (update_connection now addr u s).0
  leveled :
      (now : ℕ) (addr : String) (l : AutonomyLevel) (confirmed : Bool) (s : ConnectionStore)
      → Step s (set_autonomy now addr l confirmed s).0
  permitted :
      (now : ℕ) (addr : String) (m : PermissionsManifest) (s : ConnectionStore)
      → Step s (set_permissions now addr m s).0
  expired : (now : ℕ) (s : ConnectionStore) → Step s (expire_pending_requests now s).0
  cleared : (s : ConnectionStore) → Step s (clear_passthrough_flags s)
  written : (s : ConnectionStore) → Step s (save s)
  restarted : (s : ConnectionStore) → Step s (load (some s.saved))

pub data Reachable : ConnectionStore → Type 0 where
  fresh : Reachable empty_store
  next : {s t : ConnectionStore} → Reachable s → Step s t → Reachable t

KeyedObject-insert :
    (addr : String) (c : Connection) (o : Object Connection)
    → addr ≡ c.peer_address
    → KeyedObject o
    → KeyedObject (insert addr c o)
unfolding insert
KeyedObject-insert addr c [] p h = (p, tt)
KeyedObject-insert addr c ((k, d) ∷ o) p h = elim (Bool-cases (k == addr)) [
  | inl y ↦ ground (arith, eq_iff k addr)
  | inr n ↦ ground (arith, KeyedObject-insert addr c o p h.1)
]

KeyedObject-map :
    (f : Connection → Connection) (o : Object Connection)
    → ((c : Connection) → (f c).peer_address ≡ c.peer_address)
    → KeyedObject o
    → KeyedObject (map_values f o)
unfolding map_values
KeyedObject-map f [] p h = tt
KeyedObject-map f ((k, c) ∷ o) p h = (ground (arith, p c), KeyedObject-map f o p h.1)

found_under_address :
    (addr : String) (c : Connection) (o : Object Connection)
    → lookup addr o ≡ some c
    → KeyedObject o
    → addr ≡ c.peer_address
unfolding lookup
found_under_address addr c [] e h = absurd (ground arith)
found_under_address addr c ((k, d) ∷ o) e h = elim (Bool-cases (k == addr)) [
  | inl y ↦ ground (arith, eq_iff k addr)
  | inr n ↦ found_under_address addr c o (ground arith) h.1
]

put-IsKeyed :
    (addr : String) (c : Connection) (s : ConnectionStore)
    → addr ≡ c.peer_address
    → IsKeyed s
    → IsKeyed (put addr c s)
unfolding put
put-IsKeyed addr c s p h = (KeyedObject-insert addr c s.connections p h.0, h.1)

update-IsKeyed :
    (now : ℕ) (addr : String) (u : Updates) (s : ConnectionStore)
    → IsKeyed s
    → IsKeyed (update_connection now addr u s).0
unfolding update_connection
update-IsKeyed now addr u s h = elim (Option-cases (lookup addr s.connections)) [
  | inl e ↦ rw (e, update_connection) h
  | inr (c, e) ↦
      rw (e, update_connection)
        (put-IsKeyed addr (assign now u c) s (found_under_address addr c s.connections e h.0) h)
]

clear_tripped_address : (c : Connection) → (clear_tripped c).peer_address ≡ c.peer_address
clear_tripped_address c = ground arith

set_autonomy-IsKeyed :
    (now : ℕ) (addr : String) (l : AutonomyLevel) (confirmed : Bool) (s : ConnectionStore)
    → IsKeyed s
    → IsKeyed (set_autonomy now addr l confirmed s).0
unfolding set_autonomy
set_autonomy-IsKeyed now addr l confirmed s h = elim (Option-cases (lookup addr s.connections)) [
  | inl e ↦ rw (e, set_autonomy) h
  | inr (c, e) ↦ elim (Bool-cases (upgrade_refused l c.autonomy_level confirmed)) [
    | inl r ↦ rw (e, set_autonomy, r) h
    | inr r ↦
        rw (e, set_autonomy, r)
          (update-IsKeyed now addr (record no_updates { autonomy_level = some l })
            (put addr (clear_tripped c) s)
            (put-IsKeyed addr (clear_tripped c) s
              (found_under_address addr c s.connections e h.0 ∙ sym (clear_tripped_address c)) h))
  ]
]

set_permissions-IsKeyed :
    (now : ℕ) (addr : String) (m : PermissionsManifest) (s : ConnectionStore)
    → IsKeyed s
    → IsKeyed (set_permissions now addr m s).0
unfolding set_permissions
set_permissions-IsKeyed now addr m s h = elim (List-cases (validate_manifest m)) [
  | inl v ↦
      rw (v, set_permissions)
        (update-IsKeyed now addr (record no_updates { permissions_manifest = some m }) s h)
  | inr (e, fs, p) ↦ rw (p, set_permissions) h
]

add-IsKeyed :
    (now : ℕ) (c : NewConnection) (s : ConnectionStore)
    → IsKeyed s
    → IsKeyed (add_connection now c s).0
unfolding add_connection
add-IsKeyed now c s h = elim (Bool-cases (too_long c.short_message)) [
  | inl l ↦ rw (l, add_connection) h
  | inr l ↦ rw (l, add_connection) (put-IsKeyed c.peer_address (new_connection now c) s refl h)
]

expire-address : (now : ℕ) (c : Connection) → (expire now c).peer_address ≡ c.peer_address
unfolding expire
expire-address now c = ground arith

clear_passthrough-address : (c : Connection) → (clear_passthrough c).peer_address ≡ c.peer_address
clear_passthrough-address c = ground arith

Step-IsKeyed : {s t : ConnectionStore} → Step s t → IsKeyed s → IsKeyed t
unfolding expire_pending_requests clear_passthrough_flags save
Step-IsKeyed (added now c s) h = add-IsKeyed now c s h
Step-IsKeyed (updated now addr u s) h = update-IsKeyed now addr u s h
Step-IsKeyed (leveled now addr l confirmed s) h = set_autonomy-IsKeyed now addr l confirmed s h
Step-IsKeyed (permitted now addr m s) h = set_permissions-IsKeyed now addr m s h
Step-IsKeyed (expired now s) h =
    (KeyedObject-map (expire now) s.connections (expire-address now) h.0, h.1)
Step-IsKeyed (cleared s) h =
    let k = KeyedObject-map clear_passthrough s.connections clear_passthrough-address h.0 in (k, k)
Step-IsKeyed (written s) h = (h.0, h.0)
Step-IsKeyed (restarted s) h = (h.1, h.1)

-- Through any calls of the store's operations, saves and restarts, from an empty store on, each
-- connection stands under its own address, in memory and in the file.
pub Reachable-IsKeyed : {s : ConnectionStore} → Reachable s → IsKeyed s
Reachable-IsKeyed fresh = (tt, tt)
Reachable-IsKeyed (next r p) = Step-IsKeyed p (Reachable-IsKeyed r)
