-- ===== src/Breaker.antt =====
-- skill/src/autonomy/circuit-breaker.ts: sliding windows of events for each connection, and the
-- downgrade to full manual when a threshold is met. `Date.now()` is one value within a call.
pub mod Window
pub mod Trip
use Prim.Native.Nat.{max}
use pinch.Prelude.Act.{Act, return, ok, ◌>>=◌, ◌>>◌}
use pinch.Prelude.Objects.{lookup, insert}
use pinch.Prelude.{
  ℕ, ◌+◌, String, Bool, true, false, ◌&&◌, Option, none, some, List, [], ◌∷◌, ◌++◌, if◌then◌else◌,
  ltb, leb, length, keep, ◌or◌,
}
use pinch.Connections.{full_manual, no_updates, get_connection, update_connection}
use pinch.Feed.{
  Runtime, TriggerType, message_flood, permission_violation, spending_exceeded, boundary_probe,
  information_boundary, Details, event,
}
use pinch.World.{EventRecord, World, stored, save_store, recorded}

pub record CircuitBreakerConfig : Type 0 where
  pub flood_threshold : ℕ
  pub flood_window_ms : ℕ
  pub violation_threshold : ℕ
  pub violation_window_ms : ℕ
  pub boundary_probe_threshold : ℕ
  pub boundary_probe_window_ms : ℕ

abbrev pub default_circuit_breaker_config : CircuitBreakerConfig
default_circuit_breaker_config = record {
  flood_threshold = 50;
  flood_window_ms = 60_000;
  violation_threshold = 5;
  violation_window_ms = 300_000;
  boundary_probe_threshold = 3;
  boundary_probe_window_ms = 600_000;
}

-- `a === b` on triggers.
abbrev pub eq_trigger : TriggerType → TriggerType → Bool
eq_trigger message_flood message_flood = true
eq_trigger permission_violation permission_violation = true
eq_trigger spending_exceeded spending_exceeded = true
eq_trigger boundary_probe boundary_probe = true
eq_trigger information_boundary information_boundary = true
eq_trigger _ _ = false

-- `isTripped`
unfoldable pub is_tripped : String → World → Bool
is_tripped addr w = elim (get_connection addr w.store) [
  | none ↦ false
  | some c ↦ c.circuit_breaker_tripped or false
]

-- `e.timestamp > now - windowMs`, over the integers.
abbrev pub in_window : ℕ → ℕ → EventRecord → Bool
in_window now window e = ltb now (e.timestamp + window)

abbrev pub longest_window : CircuitBreakerConfig → ℕ
longest_window cfg =
    max (max cfg.flood_window_ms cfg.violation_window_ms) cfg.boundary_probe_window_ms

abbrev pub events_of : String → World → List EventRecord
events_of addr w = lookup addr w.events or []

-- `addEvent` with its `pruneOldEvents`.
unfoldable pub add_event : CircuitBreakerConfig → ℕ → String → TriggerType → World → World
add_event cfg now addr type w = record w {
  events =
      insert addr
        (keep (in_window now (longest_window cfg))
          (events_of addr w ++ record { timestamp = now; type = type } ∷ []))
        w.events;
}

pub record Check : Type 0 where
  pub type : TriggerType
  pub threshold : ℕ
  pub window_ms : ℕ

unfoldable pub checks : CircuitBreakerConfig → List Check
checks cfg =
    record {
      type = message_flood;
      threshold = cfg.flood_threshold;
      window_ms = cfg.flood_window_ms;
    }
    ∷ record {
      type = permission_violation;
      threshold = cfg.violation_threshold;
      window_ms = cfg.violation_window_ms;
    }
    ∷ record {
      type = spending_exceeded;
      threshold = cfg.violation_threshold;
      window_ms = cfg.violation_window_ms;
    }
    ∷ record {
      type = boundary_probe;
      threshold = cfg.boundary_probe_threshold;
      window_ms = cfg.boundary_probe_window_ms;
    }
    ∷ []

abbrev pub counts_for : ℕ → Check → EventRecord → Bool
counts_for now c e = eq_trigger e.type c.type && in_window now c.window_ms e

unfoldable pub count_events : ℕ → Check → List EventRecord → ℕ
count_events now c es = length (keep (counts_for now c) es)

-- The first check whose count reaches its threshold.
unfoldable pub first_exceeded : ℕ → List EventRecord → List Check → Option Check
first_exceeded now es [] = none
first_exceeded now es (c ∷ cs) =
    let rest = first_exceeded now es cs in
    if leb c.threshold (count_events now c es) then some c else rest

-- `trip`
unfoldable pub trip : Runtime → ℕ → String → Check → ℕ → Act World (Unit {0})
trip rt now addr c count = do
  stored (update_connection now addr (record no_updates { autonomy_level = some full_manual }))
  stored (update_connection now addr (record no_updates { circuit_breaker_tripped = some true }))
  save_store
  λ w. (
    recorded rt now
        (record (event addr "circuit_breaker_tripped") {
          badge = some "circuit_breaker";
          details = some (Details.trip c.type count c.threshold c.window_ms);
        })
        w,
    ok tt,
  )

-- `checkAndTrip`
unfoldable pub check_and_trip : Runtime → CircuitBreakerConfig → ℕ → String → Act World Bool
check_and_trip rt cfg now addr w =
    if is_tripped addr w
    then (w, ok true)
    else elim (first_exceeded now (events_of addr w) (checks cfg)) [
      | none ↦ (w, ok false)
      | some c ↦
          (trip rt now addr c (count_events now c (events_of addr w)) >>= λ done. return true) w
    ]

-- What `recordMessage` and `recordViolation` do with their trigger.
unfoldable pub record_trigger :
    Runtime → CircuitBreakerConfig → ℕ → String → TriggerType → Act World Bool
record_trigger rt cfg now addr type w =
    check_and_trip rt cfg now addr (add_event cfg now addr type w)

unfoldable pub record_message : Runtime → CircuitBreakerConfig → ℕ → String → Act World Bool
unfolding record_trigger
record_message rt cfg now addr = record_trigger rt cfg now addr message_flood

unfoldable pub record_violation :
    Runtime → CircuitBreakerConfig → ℕ → String → TriggerType → Act World Bool
unfolding record_trigger
record_violation rt cfg now addr type = record_trigger rt cfg now addr type
