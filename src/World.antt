-- ===== src/World.antt =====
-- The state that the components of the skill share (skill/src/tools/cli.ts, `bootstrap`): the two
-- stores, the activity log, the circuit breaker's event windows and the relay connection.
use pinch.Prelude.Act.{Act, Result, ok, throw, not_connected}
use pinch.Prelude.Objects.{Object}
use pinch.Prelude.{ℕ, String, Bool, Option, List, [], ◌∷◌, ◌++◌, if◌then◌else◌}
use pinch.Connections.{ConnectionStore, save}
use pinch.Messages.{MessageStore, update_state}
use pinch.Feed.{Runtime, TriggerType, NewEvent, ActivityFeed, record_event}
use pinch.Wire.{Envelope}

-- `EventRecord` of skill/src/autonomy/circuit-breaker.ts.
pub record EventRecord : Type 0 where
  pub timestamp : ℕ
  pub type : TriggerType

-- What the components read of the `RelayClient`: its address, whether a send succeeds, and what
-- has been sent, in order.
pub record Relay : Type 0 where
  pub assigned_address : Option String
  pub is_open : Bool
  pub sent : List Envelope

pub record World : Type 0 where
  pub store : ConnectionStore
  pub messages : MessageStore
  pub feed : ActivityFeed
  pub events : Object (List EventRecord)
  pub relay : Relay

abbrev on_store {ℓ} : {A : Type ℓ} → World → ConnectionStore × Result A → World × Result A
on_store w (s, r) = (record w { store = s }, r)

-- An operation of the connection store.
abbrev pub stored : {A : Type 0} → Act ConnectionStore A → Act World A
stored m w = on_store w (m w.store)

-- `connectionStore.save()`
abbrev pub save_store : Act World (Unit {0})
save_store w = (record w { store = save w.store }, ok tt)

-- `activityFeed.record(e)`
abbrev pub recorded : Runtime → ℕ → NewEvent → World → World
recorded rt now e w = record w { feed = record_event rt now e w.feed }

-- `messageStore.updateState(id, state, reason)`
abbrev pub restated : ℕ → String → String → Option String → World → World
restated now id state reason w = record w { messages = update_state now id state reason w.messages }

-- `relayClient.sendEnvelope`, which throws unless the socket is open and authenticated.
unfoldable pub send_envelope : Envelope → Act World (Unit {0})
send_envelope e w =
    if w.relay.is_open
    then (record w { relay = record w.relay { sent = w.relay.sent ++ e ∷ [] } }, ok tt)
    else (w, throw not_connected)
