-- ===== src/Tools/Queries.antt =====
-- The tools that only look: pinch-contacts, pinch-status, pinch-history and pinch-activity
-- of skill/src/tools. What they print is the value that `run` gives.
pub mod Hidden
use pinch.Prelude.Act.{Result, ok, throw, usage}
use pinch.Prelude.{
  ℕ, zero, suc, String, Bool, true, false, ◌&&◌, ◌||◌, Option, none, some, List, [], ◌∷◌, ◌==◌, map,
  keep, length, ◌or◌, if◌then◌else◌,
}
use pinch.Connections.{
  ConnectionState, active, pending_inbound, pending_outbound, blocked, revoked, AutonomyLevel,
  Connection, ConnectionStore, list_connections,
}
use pinch.Messages.{MessageRecord, MessageStore, all_history, get_message, get_history}
use pinch.Feed.{
  Runtime, ActivityEvent, ActivityFeed, EventOptions, at_least, at_most, by_time, get_events,
}
use pinch.Tools.Arguments.{Setting, settings, set_all}
use pinch.Tools.Numbers.{parse_int}

abbrev state_flag : String → Bool
state_flag f = f == "--state"

abbrev read_state : String → Option ConnectionState → Option ConnectionState
read_state v old =
    if v == "active"
    then some active
    else if v == "pending_inbound"
    then some pending_inbound
    else if v == "pending_outbound"
    then some pending_outbound
    else if v == "blocked"
    then some blocked
    else if v == "revoked"
    then some revoked
    else old

abbrev set_state_filter : Option ConnectionState → Setting → Option ConnectionState
set_state_filter s (flag, v) = if flag == "--state" then read_state (v or "") s else s

pub record Contact : Type 0 where
  pub address : String
  pub state : ConnectionState
  pub autonomy_level : AutonomyLevel
  pub nickname : String
  pub last_activity : ℕ

abbrev contact_of : Connection → Contact
contact_of c = record {
  address = c.peer_address;
  state = c.state;
  autonomy_level = c.autonomy_level;
  nickname = c.nickname;
  last_activity = c.last_activity;
}

-- `run` of pinch-contacts
unfoldable pub run_contacts : List String → ConnectionStore → List Contact
run_contacts args s =
    map contact_of
      (list_connections (set_all set_state_filter none (settings state_flag none args)) s)

abbrev id_flag : String → Bool
id_flag f = f == "--id"

abbrev set_id : String → Setting → String
set_id id (flag, v) = if flag == "--id" then v or "" else id

-- `run` of pinch-status: `none` is the report that there is no such message.
unfoldable pub run_status : List String → MessageStore → Result (Option MessageRecord)
run_status args s =
    let id = set_all set_id "" (settings id_flag none args) in
    if id == "" then throw (usage "--id is required") else ok (get_message id s)

pub record HistoryArgs : Type 0 where
  pub connection : Option String
  pub thread : Option String
  pub limit : ℕ
  pub offset : ℕ

abbrev history_flag : String → Bool
history_flag f = f == "--connection" || (f == "--thread" || (f == "--limit" || f == "--offset"))

-- Only a number above zero is taken for a limit, and one of at least zero for an offset.
abbrev read_limit : Option ℕ → ℕ → ℕ
read_limit none old = old
read_limit (some zero) old = old
read_limit (some (suc n)) old = suc n

abbrev set_history : HistoryArgs → Setting → HistoryArgs
set_history a (flag, v) =
    if flag == "--connection"
    then record a { connection = v }
    else if flag == "--thread"
    then record a { thread = v }
    else if flag == "--limit"
    then record a { limit = read_limit (parse_int v) a.limit }
    else if flag == "--offset"
    then record a { offset = parse_int v or a.offset }
    else a

abbrev history_args : List String → HistoryArgs
history_args args =
    set_all set_history (record { connection = none; thread = none; limit = 20; offset = 0 })
      (settings history_flag none args)

-- `run` of pinch-history, in the state after its wait for the relay's queue.
unfoldable pub run_history : List String → MessageStore → List MessageRecord
run_history args s =
    let a = history_args args in
    get_history
      (record all_history {
        connection_address = a.connection;
        thread_id = a.thread;
        limit = some a.limit;
        offset = some a.offset;
      })
      s

pub record ActivityArgs : Type 0 where
  pub connection : Option String
  pub type : Option String
  pub since : Option String
  pub until : Option String
  pub limit : ℕ
  pub include_muted : Bool

abbrev activity_flag : String → Bool
activity_flag f =
    f == "--connection" || (f == "--type" || (f == "--since" || (f == "--until" || f == "--limit")))

unfoldable pub set_activity : ActivityArgs → Setting → ActivityArgs
set_activity a (flag, v) =
    if flag == "--connection"
    then record a { connection = v }
    else if flag == "--type"
    then record a { type = v }
    else if flag == "--since"
    then record a { since = v }
    else if flag == "--until"
    then record a { until = v }
    else if flag == "--limit"
    then record a { limit = read_limit (parse_int v) a.limit }
    else if flag == "--include-muted"
    then record a { include_muted = true }
    else a

abbrev pub activity_args : List String → ActivityArgs
activity_args args =
    set_all set_activity
      (record {
        connection = none;
        type = none;
        since = none;
        until = none;
        limit = 50;
        include_muted = false;
      })
      (settings activity_flag none args)

abbrev pub activity_options : ActivityArgs → EventOptions
activity_options a = record {
  connection_address = a.connection;
  event_type = a.type;
  since = a.since;
  until = a.until;
  exclude_event_types =
      if a.include_muted then [] else "message_received_muted" ∷ "message_receive_muted" ∷ [];
  limit = some a.limit;
}

-- `run` of pinch-activity
unfoldable pub run_activity : Runtime → List String → ActivityFeed → List ActivityEvent
run_activity rt args f = get_events rt (activity_options (activity_args args)) f
