-- ===== src/Connections/Gate.antt =====
-- The confirmation gate of `setAutonomy` (skill/src/connection-store.ts).
use pinch.Prelude.Act.{ok}
use pinch.Prelude.Objects.{insert, lookup-insert}
use pinch.Prelude.{
  ℕ, String, ◌≡◌, ◌≢◌, Bool, true, false, Option, none, some, ◌==◌, eq_iff, arith, inl, inr, ◌⊎◌,
  Option-cases, Bool-cases, if◌then◌else◌,
}
use pinch.Connections.{
  AutonomyLevel, full_auto, Connection, ConnectionStore, clear_tripped, get_connection,
  upgrade_refused, set_autonomy,
}

-- What `setAutonomy` leaves of a connection once it lets the change through.
unfoldable pub regraded : ℕ → AutonomyLevel → Connection → Connection
regraded now level c = record c {
  autonomy_level = level;
  circuit_breaker_tripped = (clear_tripped c).circuit_breaker_tripped;
  last_activity = now;
}

module _ (now : ℕ) (addr : String) (level : AutonomyLevel) (confirmed : Bool)
    (s : ConnectionStore) where
  set_autonomy_found :
      (c : Connection)
      → get_connection addr s ≡ some c
      → upgrade_refused level c.autonomy_level confirmed ≡ false
      → (set_autonomy now addr level confirmed s).1 ≡ ok (regraded now level c)
  unfolding set_autonomy regraded get_connection
  set_autonomy_found c h g =
      ground (arith, lookup-insert addr addr (clear_tripped c) s.connections, eq_iff addr addr)

  get_connection-set_autonomy :
      (c : Connection) (j : String)
      → get_connection addr s ≡ some c
      → upgrade_refused level c.autonomy_level confirmed ≡ false
      → get_connection j (set_autonomy now addr level confirmed s).0
        ≡ (if addr == j then some (regraded now level c) else get_connection j s)
  unfolding set_autonomy regraded get_connection
  get_connection-set_autonomy c j h g = ground (
    arith,
    lookup-insert addr addr (clear_tripped c) s.connections,
    lookup-insert addr j (clear_tripped c) s.connections,
    lookup-insert addr j (regraded now level c) (insert addr (clear_tripped c) s.connections),
    eq_iff addr addr,
  )

  -- What `setAutonomy` does once the gate lets it through: it returns, the connection has the new
  -- level and no raised circuit breaker flag, and every other connection is as it was.
  pub set_autonomy_effect :
      (c : Connection)
      → get_connection addr s ≡ some c
      → upgrade_refused level c.autonomy_level confirmed ≡ false
      → ((set_autonomy now addr level confirmed s).1 ≡ ok (regraded now level c))
        × ((regraded now level c).circuit_breaker_tripped ≢ some true)
        × ((j : String)
            → get_connection j (set_autonomy now addr level confirmed s).0
              ≡ (if addr == j then some (regraded now level c) else get_connection j s))
  unfolding regraded
  set_autonomy_effect c h g =
      (set_autonomy_found c h g, λ e. ground arith, λ j. get_connection-set_autonomy c j h g)

  unchanged_if_missing :
      get_connection addr s ≡ none → (set_autonomy now addr level confirmed s).0 ≡ s
  unfolding set_autonomy get_connection
  unchanged_if_missing h = ground arith

  unchanged_if_refused :
      (c : Connection)
      → get_connection addr s ≡ some c
      → upgrade_refused level c.autonomy_level confirmed ≡ true
      → (set_autonomy now addr level confirmed s).0 ≡ s
  unfolding set_autonomy get_connection
  unchanged_if_refused c h g = ground arith

  full_auto_before :
      (c c' : Connection)
      → confirmed ≡ false
      → upgrade_refused level c.autonomy_level confirmed ≡ false
      → ◌≡◌ {A = Option Connection} (some (regraded now level c)) (some c')
      → c'.autonomy_level ≡ full_auto
      → c.autonomy_level ≡ full_auto
  unfolding upgrade_refused regraded
  full_auto_before c c' n g e f = ground arith

  -- A connection that `setAutonomy` leaves at full autonomy was confirmed, or was there before.
  pub full_auto_is_confirmed :
      (j : String) (c' : Connection)
      → get_connection j (set_autonomy now addr level confirmed s).0 ≡ some c'
      → c'.autonomy_level ≡ full_auto
      → (confirmed ≡ true)
        ⊎ ((c : Connection) × (get_connection j s ≡ some c) × (c.autonomy_level ≡ full_auto))
  full_auto_is_confirmed j c' h f = elim (Bool-cases confirmed) [
    | inl y ↦ inl y
    | inr n ↦ inr (elim (Option-cases (get_connection addr s)) [
      | inl m ↦ (c', ground (arith, unchanged_if_missing m), f)
      | inr (c, m) ↦ elim (Bool-cases (upgrade_refused level c.autonomy_level confirmed)) [
        | inl r ↦ (c', ground (arith, unchanged_if_refused c m r), f)
        | inr g ↦ elim (Bool-cases (addr == j)) [
          | inl k ↦ (
            c,
            ground (arith, eq_iff addr j),
            full_auto_before c c' n g (ground (arith, get_connection-set_autonomy c j m g)) f,
          )
          | inr k ↦ (c', ground (arith, get_connection-set_autonomy c j m g), f)
        ]
      ]
    ])
  ]
