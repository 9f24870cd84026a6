-- ===== src/Tests/Changes.antt =====
-- Runs of the connection store's other operations and of the tools.
use pinch.Prelude.Objects.{lookup, insert}
use pinch.Prelude.{◌≡◌, ◌⊎◌, refl, true, none, some, [], ◌∷◌}
use pinch.Connections.{
  ConnectionState, AutonomyLevel, Connection, NewConnection, get_connection, add_connection,
  empty_store, expire_pending_requests, save,
}
use pinch.Connections.Keyed.{Step, Reachable, IsKeyed, Reachable-IsKeyed}
use pinch.Connections.{set_autonomy, upgrade_refused}
use pinch.Connections.Gate.{regraded}
use pinch.Tools.Arguments.{settings, set_all}
use pinch.Tools.Control.{run_autonomy}
use pinch.Tools.Autonomy.{is_among, run_autonomy_args, set_flag, check_flags, full_auto_needs_flag}
use pinch.Tests.{alice, bob, connection_of, store_of}

abbrev request_of_bob : NewConnection
request_of_bob = record {
  peer_address = bob;
  peer_public_key = "";
  state = ConnectionState.pending_inbound;
  nickname = "";
  autonomy_level = none;
  permissions_manifest = none;
  short_message = none;
  expires_at = some 100;
}

Reachable-IsKeyed_example :
    IsKeyed (expire_pending_requests 200 (save (add_connection 50 request_of_bob empty_store).0)).0
Reachable-IsKeyed_example = Reachable-IsKeyed (
    Reachable.next
      (Reachable.next (Reachable.next Reachable.fresh (Step.added 50 request_of_bob empty_store))
        (Step.written (add_connection 50 request_of_bob empty_store).0))
      (Step.expired 200 (save (add_connection 50 request_of_bob empty_store).0)))

abbrev manual : Connection
manual = connection_of alice ConnectionState.active AutonomyLevel.full_manual

full_auto_needs_flag_example :
    (is_among "--confirmed" ("--confirmed" ∷ "--address" ∷ alice ∷ "--level" ∷ "full_auto" ∷ [])
      ≡ true)
    ⊎ ((c : Connection) × (get_connection alice (store_of manual) ≡ some c)
        × (c.autonomy_level ≡ AutonomyLevel.full_auto))
unfolding get_connection set_autonomy upgrade_refused lookup insert regraded run_autonomy
    run_autonomy_args set_flag check_flags settings set_all save
full_auto_needs_flag_example =
    full_auto_needs_flag 50 (store_of manual) alice (regraded 50 AutonomyLevel.full_auto manual)
      refl ("--confirmed" ∷ "--address" ∷ alice ∷ "--level" ∷ "full_auto" ∷ []) refl
