-- ===== src/Tests/Systems.antt =====
-- Runs in which messages wait.
use pinch.Messages.{find_message, save_message}
use pinch.Prelude.Objects.{lookup, insert}
use pinch.Connections.{get_connection}
use pinch.Crypto.{decrypt}
use pinch.Manager.Receiving.{open_encrypted, read_contents}
use pinch.Lifecycle.{handle_envelope}
use pinch.Pipeline.{intercept, resume, route_stage}
use pinch.Router.{route, routed_state, note_autonomous}
use pinch.Breaker.{
  record_message, record_trigger, add_event, check_and_trip, is_tripped, first_exceeded,
  count_events, checks,
}
use pinch.Enforcer.{check_manifest, check_categories, check}
use pinch.Prelude.{refl, []}
use pinch.System.{Task, checking, System, delivered, Reaches, here, next, receive, admit, after}
use pinch.System.Widening.{Narrows}
use pinch.System.Autonomy.{network_widens_nothing}
use pinch.System.Consent.{MayRead, read_needs_consent}
use pinch.System.Distinct.{Distinct}
use pinch.System.Unique.{AllStored, task_ids, waiting_messages_differ}
use pinch.Tests.{alice, agreeable}
use pinch.Tests.Agents.{agent_with, active_alice, arriving, arrived}

abbrev waits : Task
waits = checking arrived alice (check agreeable "see you" alice active_alice.store)

abbrev idle : System
idle = record { world = active_alice; tasks = [] }

abbrev first : System
first = after (receive (agent_with 2) 60 arriving active_alice) [] []

arrives : Reaches (agent_with 2) idle first
arrives = next here (delivered 60 arriving active_alice [])

read_needs_consent_example : MayRead (agent_with 2) 61 waits first
unfolding receive admit open_encrypted decrypt save_message find_message handle_envelope intercept
    get_connection lookup read_contents check resume route_stage route routed_state note_autonomous
    record_message record_trigger add_event check_and_trip is_tripped first_exceeded count_events
    checks check_manifest check_categories insert
read_needs_consent_example = read_needs_consent (agent_with 2) 61 [] waits [] refl arrives refl refl

network_widens_nothing_example : Narrows active_alice.store first.world.store
network_widens_nothing_example = network_widens_nothing arrives

waiting_messages_differ_example :
    AllStored first.world first.tasks × Distinct (task_ids first.tasks)
waiting_messages_differ_example = waiting_messages_differ (agent_with 2) refl arrives
