-- ===== src/Connections/Expiry.antt =====
-- `expirePendingRequests` of skill/src/connection-store.ts.
use pinch.Prelude.Objects.{Object, map_values, map_some, lookup-map_values}
use pinch.Prelude.{ℕ, String, ◌≡◌, refl, true, false, [], ◌∷◌, arith}
use pinch.Connections.{
  revoked, is_pending, Connection, ConnectionStore, get_connection, is_expired, expire,
  expired_addresses, expire_pending_requests,
}

module _ (now : ℕ) where
  -- A connection that has been through the loop is not expired.
  expire_once : (c : Connection) → is_expired now (expire now c) ≡ false
  unfolding expire is_expired
  expire_once c = ground arith

  expire_again : (c : Connection) → expire now (expire now c) ≡ expire now c
  unfolding expire
  expire_again c = ground (arith, expire_once c)

  map_values-again :
      (o : Object Connection)
      → map_values (expire now) (map_values (expire now) o) ≡ map_values (expire now) o
  unfolding map_values
  map_values-again [] = refl
  map_values-again ((addr, c) ∷ o) = ground (arith, expire_again c, map_values-again o)

  none_expired : (o : Object Connection) → expired_addresses now (map_values (expire now) o) ≡ []
  unfolding expired_addresses map_values
  none_expired [] = refl
  none_expired ((addr, c) ∷ o) = ground (arith, expire_once c, none_expired o)

  -- An expiry at some time revokes each connection that is pending and past its date, with that
  -- time as its last activity, and changes no other connection; the file is not written.
  pub expiry_effect :
      (s : ConnectionStore) (j : String)
      → (get_connection j (expire_pending_requests now s).0
          ≡ map_some (expire now) (get_connection j s))
        × ((c : Connection) → is_expired now c ≡ false → expire now c ≡ c)
        × ((c : Connection)
            → is_expired now c ≡ true
            → (is_pending c.state ≡ true)
              × (expire now c ≡ record c { state = revoked; last_activity = now }))
        × ((expire_pending_requests now s).0.saved ≡ s.saved)
  unfolding expire_pending_requests get_connection expire is_expired
  expiry_effect s j = (
    lookup-map_values (expire now) j s.connections,
    λ c h. ground arith,
    λ c h. (ground arith, ground arith),
    refl,
  )

  -- A second expiry at the same time finds nothing and changes nothing.
  pub expiry_settles :
      (s : ConnectionStore)
      → expire_pending_requests now (expire_pending_requests now s).0
        ≡ ((expire_pending_requests now s).0, [])
  unfolding expire_pending_requests
  expiry_settles s = ground (arith, map_values-again s.connections, none_expired s.connections)
