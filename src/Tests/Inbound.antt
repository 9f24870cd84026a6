-- ===== src/Tests/Inbound.antt =====
-- Runs of the enforcer and of the enforcement pipeline.
use pinch.Prelude.Act.{ok}
use pinch.Prelude.Objects.{lookup, insert}
use pinch.Prelude.{◌≡◌, ◌↔◌, refl, inl, true, none, some, arith}
use pinch.Connections.{ConnectionState, AutonomyLevel, Connection, get_connection}
use pinch.Messages.{find_message, get_message}
use pinch.World.{World}
use pinch.Breaker.{
  CircuitBreakerConfig, default_circuit_breaker_config, checks, count_events, add_event,
}
use pinch.Breaker.Trip.{downgraded}
use pinch.Enforcer.{passed, check}
use pinch.Enforcer.Verdicts.{Admitted, check_allowed_iff}
use pinch.Router.{routed}
use pinch.Pipeline.{finished, resume, process}
use pinch.Pipeline.Totality.{Done, process_returns}
use pinch.Pipeline.Muted.{flood_escalates}
use pinch.Tests.{test_runtime, alice, connection_of, world_of, greeting, agreeable}

abbrev notified : Connection
notified = connection_of alice ConnectionState.active AutonomyLevel.notify

abbrev cfg : CircuitBreakerConfig
cfg = default_circuit_breaker_config

-- One message trips this breaker.
abbrev strictest : CircuitBreakerConfig
strictest = record cfg { flood_threshold = 1 }

abbrev w0 : World
w0 = world_of notified

check_allowed_iff_example :
    ((check agreeable "hello" alice w0.store).allowed ≡ true)
    ↔ Admitted agreeable "hello" alice w0.store
check_allowed_iff_example = check_allowed_iff agreeable "hello" alice w0.store

process_returns_example :
    Done test_runtime cfg greeting alice
      (process test_runtime cfg greeting alice agreeable 40 41 42 w0)
unfolding get_message find_message
process_returns_example =
    process_returns test_runtime cfg greeting alice agreeable 40 41 42 w0 "delivered"
      (greeting, refl, refl)

flood_escalates_example :
    ((resume test_runtime strictest greeting alice 41 passed w0).1
      ≡ ok (finished (routed greeting alice "escalated_to_human" none)))
    × (get_connection alice (resume test_runtime strictest greeting alice 41 passed w0).0.store
        ≡ some (downgraded 41 notified))
unfolding get_connection lookup insert add_event count_events checks
flood_escalates_example =
    flood_escalates test_runtime strictest greeting alice 41 passed w0 notified refl refl refl refl
      (inl (ground arith))
