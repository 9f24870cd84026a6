-- ===== src/Connections.antt =====
-- skill/src/connection-store.ts: the connections of an agent, held in memory and saved to a file.
-- The JSON text of the file is not modelled: `saved` is the data that it holds.
mod Types
pub mod Gate
pub mod Writes
pub mod Keyed
pub mod Expiry
pub mod Listing
pub mod Permissions
pub use Types.*
use pinch.Prelude.Act.{
  Act, Result, ok, throw, connection_not_found, short_message_too_long, confirmation_required,
  invalid_manifest,
}
use pinch.Prelude.Objects.{Object, lookup, insert, values, map_values}
use pinch.Prelude.Sort.{sort_by}
use pinch.Prelude.{
  ℕ, String, Bool, true, false, ◌&&◌, ◌||◌, not, Option, none, some, List, [], ◌∷◌, if◌then◌else◌,
  ltb, leb, eqb, length, keep, ◌or◌, or_else,
}
use pinch.Instant.{iso_before}
use pinch.Manifest.{
  PermissionsManifest, default_permissions_manifest, ManifestError, validate_manifest,
}

pub record ConnectionStore : Type 0 where
  pub connections : Object Connection
  pub saved : Object Connection

abbrev pub empty_store : ConnectionStore
empty_store = record { connections = []; saved = [] }

-- `load()`; a file that is missing or no JSON gives an empty store.
abbrev pub load : Option (Object Connection) → ConnectionStore
load (some file) = record { connections = file; saved = file }
load none = record { connections = []; saved = [] }

-- `save()`
unfoldable pub save : ConnectionStore → ConnectionStore
save s = record s { saved = s.connections }

unfoldable pub get_connection : String → ConnectionStore → Option Connection
get_connection addr s = lookup addr s.connections

-- The write of a changed connection object back to its place.
unfoldable pub put : String → Connection → ConnectionStore → ConnectionStore
put addr c s = record s { connections = insert addr c s.connections }

abbrev pub state_priority : ConnectionState → ℕ
state_priority active = 0
state_priority pending_inbound = 1
state_priority pending_outbound = 2
state_priority revoked = 3
state_priority blocked = 4

-- The comparison of `listConnections` puts `a` before `b`, or leaves them level. ISO texts of years
-- before 10000 compare as their instants.
unfoldable pub shown_before : Connection → Connection → Bool
shown_before a b =
    if eqb (state_priority a.state) (state_priority b.state)
    then leb b.last_activity a.last_activity
    else ltb (state_priority a.state) (state_priority b.state)

abbrev pub matches_filter : Option ConnectionState → Connection → Bool
matches_filter none c = true
matches_filter (some state) c = eq_state c.state state

unfoldable pub list_connections : Option ConnectionState → ConnectionStore → List Connection
list_connections filter s =
    sort_by shown_before (keep (matches_filter filter) (values s.connections))

abbrev pub max_short_message_length : ℕ
max_short_message_length = 280

abbrev pub too_long : Option (List ℕ) → Bool
too_long none = false
too_long (some message) = ltb max_short_message_length (length message)

-- `addConnection`; a connection of the same address is replaced.
unfoldable pub add_connection : ℕ → NewConnection → Act ConnectionStore Connection
unfolding put
add_connection now conn s =
    if too_long conn.short_message
    then (s, throw short_message_too_long)
    else let c = new_connection now conn in (put c.peer_address c s, ok c)

-- `updateConnection`
unfoldable pub update_connection : ℕ → String → Updates → Act ConnectionStore Connection
unfolding put
update_connection now addr updates s = elim (lookup addr s.connections) [
  | none ↦ (s, throw (connection_not_found addr))
  | some conn ↦ let c = assign now updates conn in (put addr c s, ok c)
]

unfoldable pub set_nickname : ℕ → String → String → Act ConnectionStore Connection
unfolding update_connection
set_nickname now addr nickname =
    update_connection now addr (record no_updates { nickname = some nickname })

-- An upgrade to full autonomy that nobody confirmed.
unfoldable pub upgrade_refused : AutonomyLevel → AutonomyLevel → Bool → Bool
upgrade_refused level current confirmed =
    is_full_auto level && (not (is_full_auto current) && not confirmed)

abbrev pub clear_tripped : Connection → Connection
clear_tripped c =
    if c.circuit_breaker_tripped or false
    then record c { circuit_breaker_tripped = some false }
    else c

unfoldable pub set_autonomy : ℕ → String → AutonomyLevel → Bool → Act ConnectionStore Connection
unfolding update_connection put upgrade_refused
set_autonomy now addr level confirmed s = elim (lookup addr s.connections) [
  | none ↦ (s, throw (connection_not_found addr))
  | some conn ↦
      if upgrade_refused level conn.autonomy_level confirmed
      then (s, throw confirmation_required)
      else update_connection now addr (record no_updates { autonomy_level = some level })
          (put addr (clear_tripped conn) s)
]

unfoldable pub set_permissions : ℕ → String → PermissionsManifest → Act ConnectionStore Connection
unfolding update_connection
set_permissions now addr manifest s = elim (validate_manifest manifest) [
  | [] ↦ update_connection now addr (record no_updates { permissions_manifest = some manifest }) s
  | e ∷ es ↦ (s, throw invalid_manifest)
]

-- The test of `expirePendingRequests`.
unfoldable pub is_expired : ℕ → Connection → Bool
is_expired now c = elim c.expires_at [
  | none ↦ false
  | some t ↦ is_pending c.state && iso_before t now
]

unfoldable pub expire : ℕ → Connection → Connection
unfolding is_expired
expire now c = if is_expired now c then record c { state = revoked; last_activity = now } else c

unfoldable pub expired_addresses : ℕ → Object Connection → List String
unfolding is_expired
expired_addresses now [] = []
expired_addresses now ((addr, c) ∷ o) =
    let rest = expired_addresses now o in if is_expired now c then addr ∷ rest else rest

unfoldable pub expire_pending_requests : ℕ → ConnectionStore → ConnectionStore × List String
unfolding expire expired_addresses
expire_pending_requests now s = (
  record s { connections = map_values (expire now) s.connections },
  expired_addresses now s.connections,
)

abbrev pub clear_passthrough : Connection → Connection
clear_passthrough c = if c.passthrough or false then record c { passthrough = some false } else c

unfoldable pub clear_passthrough_flags : ConnectionStore → ConnectionStore
unfolding save
clear_passthrough_flags s =
    save (record s { connections = map_values clear_passthrough s.connections })
