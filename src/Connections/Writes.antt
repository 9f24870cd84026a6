-- ===== src/Connections/Writes.antt =====
-- What `updateConnection` does to the store (skill/src/connection-store.ts).
use pinch.Prelude.Act.{ok, throw, connection_not_found, short_message_too_long}
use pinch.Prelude.Objects.{lookup-insert}
use pinch.Prelude.{ℕ, String, ◌≡◌, true, false, none, some, ◌==◌, if◌then◌else◌, arith}
use pinch.Connections.{
  Connection, NewConnection, new_connection, too_long, add_connection, ConnectionStore, Updates,
  assign, get_connection, update_connection, save,
}

module _ (now : ℕ) (addr : String) (u : Updates) (s : ConnectionStore) where
  pub update_found :
      (c : Connection)
      → get_connection addr s ≡ some c
      → (update_connection now addr u s).1 ≡ ok (assign now u c)
  unfolding update_connection get_connection
  update_found c h = ground arith

  pub get_connection-update :
      (c : Connection) (j : String)
      → get_connection addr s ≡ some c
      → get_connection j (update_connection now addr u s).0
        ≡ (if addr == j then some (assign now u c) else get_connection j s)
  unfolding update_connection get_connection
  get_connection-update c j h = ground (arith, lookup-insert addr j (assign now u c) s.connections)

  pub update_missing :
      get_connection addr s ≡ none
      → update_connection now addr u s ≡ (s, throw (connection_not_found addr))
  unfolding update_connection get_connection
  update_missing h = ground arith

pub get_connection-save :
    (j : String) (s : ConnectionStore) → get_connection j (save s) ≡ get_connection j s
unfolding save get_connection
get_connection-save j s = ground arith

module _ (now : ℕ) (conn : NewConnection) (s : ConnectionStore) where
  pub add_accepted :
      too_long conn.short_message ≡ false
      → (add_connection now conn s).1 ≡ ok (new_connection now conn)
  unfolding add_connection
  add_accepted h = ground arith

  pub get_connection-add :
      (j : String)
      → too_long conn.short_message ≡ false
      → get_connection j (add_connection now conn s).0
        ≡ (if conn.peer_address == j then some (new_connection now conn) else get_connection j s)
  unfolding add_connection get_connection
  get_connection-add j h =
      ground (arith, lookup-insert conn.peer_address j (new_connection now conn) s.connections)

  pub add_refused :
      too_long conn.short_message ≡ true
      → add_connection now conn s ≡ (s, throw short_message_too_long)
  unfolding add_connection
  add_refused h = ground arith
