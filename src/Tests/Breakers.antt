-- ===== src/Tests/Breakers.antt =====
-- Runs of the circuit breaker.
use pinch.Prelude.Act.{ok}
use pinch.Prelude.{
  String, ◌≡◌, refl, inl, true, some, List, [], ◌∷◌, keep, All, ◌==◌, if◌then◌else◌, arith,
}
use pinch.Prelude.Objects.{lookup}
use pinch.Connections.{ConnectionState, AutonomyLevel, Connection, get_connection}
use pinch.Feed.{message_flood, information_boundary}
use pinch.World.{EventRecord, World}
use pinch.Breaker.{
  CircuitBreakerConfig, default_circuit_breaker_config, checks, in_window, longest_window,
  events_of, count_events, check_and_trip, record_violation,
}
use pinch.Breaker.Window.{IsQuiet, pruning_is_invisible}
use pinch.Breaker.Trip.{downgraded, threshold_trips, boundary_violations_never_trip}
use pinch.Tests.{test_runtime, alice, connection_of, world_of}

-- Two messages in one window trip this breaker.
abbrev strict : CircuitBreakerConfig
strict = record default_circuit_breaker_config { flood_threshold = 2 }

abbrev two_events : List EventRecord
two_events =
    record { timestamp = 100; type = message_flood }
    ∷ record { timestamp = 200; type = message_flood }
    ∷ []

abbrev talkative : Connection
talkative = connection_of alice ConnectionState.active AutonomyLevel.notify

abbrev flooded : World
flooded = record (world_of talkative) { events = (alice, two_events) ∷ [] }

pruning_is_invisible_example :
    All
      (λ c.
        count_events 90_000 c (keep (in_window 70_000 (longest_window strict)) two_events)
        ≡ count_events 90_000 c two_events)
      (checks strict)
pruning_is_invisible_example = pruning_is_invisible strict 70_000 90_000 two_events (ground arith)

threshold_trips_example :
    ((check_and_trip test_runtime strict 300 alice flooded).1 ≡ ok true)
    × ((j : String)
        → get_connection j (check_and_trip test_runtime strict 300 alice flooded).0.store ≡ (
            if alice == j then some (downgraded 300 talkative) else get_connection j flooded.store))
    × ((check_and_trip test_runtime strict 300 alice flooded).0.store.saved
        ≡ (check_and_trip test_runtime strict 300 alice flooded).0.store.connections)
unfolding get_connection lookup count_events checks
threshold_trips_example =
    threshold_trips test_runtime strict 300 alice flooded talkative refl refl (inl (ground arith))

boundary_violations_never_trip_example :
    IsQuiet default_circuit_breaker_config 300 (
      events_of alice
        (record_violation test_runtime default_circuit_breaker_config 300 alice information_boundary
          flooded).0)
    × ((record_violation test_runtime default_circuit_breaker_config 300 alice information_boundary
          flooded).0.store
        ≡ flooded.store)
    × ((record_violation test_runtime default_circuit_breaker_config 300 alice information_boundary
          flooded).0.feed
        ≡ flooded.feed)
unfolding count_events lookup checks
boundary_violations_never_trip_example =
    boundary_violations_never_trip test_runtime default_circuit_breaker_config 300 alice flooded
      (ground arith, (ground arith, (ground arith, (ground arith, tt))))
