-- ===== src/Messages.antt =====
-- skill/src/message-store.ts: the tables `messages` and `sequences`. The SQL engine is not modelled:
-- a table is the list of its rows in the order of insertion, and each statement is what it selects
-- or changes. Rows with one `created_at` are listed in the order of insertion, a choice that SQL
-- leaves open.
pub mod Sequence
pub mod Rows
pub mod History
use pinch.Prelude.Act.{Act, return, throw, ok, constraint_failed}
use pinch.Prelude.Objects.{Object, lookup, insert}
use pinch.Prelude.Sort.{sort_by}
use pinch.Prelude.{
  ℕ, ◌+◌, ◌-◌, String, Bool, true, false, ◌&&◌, ◌||◌, Option, none, some, List, [], ◌∷◌, ◌++◌, map,
  ◌==◌, if◌then◌else◌, leb, keep, take, drop, ◌or◌, given,
}

pub data Direction : Type 0 where
  inbound outbound : Direction

pub data Priority : Type 0 where
  low normal urgent : Priority

pub data Attribution : Type 0 where
  agent human : Attribution

pub record MessageRecord : Type 0 where
  pub id : String
  pub connection_address : String
  pub direction : Direction
  pub body : String
  pub thread_id : Option String
  pub reply_to : Option String
  pub priority : Priority
  pub sequence : ℕ
  pub state : String
  pub failure_reason : Option String
  pub attribution : Option Attribution
  pub created_at : ℕ
  pub updated_at : ℕ

pub record MessageStore : Type 0 where
  pub messages : List MessageRecord
  pub sequences : Object ℕ

abbrev pub empty_messages : MessageStore
empty_messages = record { messages = []; sequences = [] }

unfoldable pub find_message : String → List MessageRecord → Option MessageRecord
find_message id [] = none
find_message id (m ∷ ms) = if m.id == id then some m else find_message id ms

-- `getMessage`
unfoldable pub get_message : String → MessageStore → Option MessageRecord
get_message id s = find_message id s.messages

-- `saveMessage`; the primary key refuses a second row with one id.
unfoldable pub save_message : MessageRecord → Act MessageStore (Unit {0})
save_message msg s = elim (find_message msg.id s.messages) [
  | some m ↦ (s, throw constraint_failed)
  | none ↦ (record s { messages = s.messages ++ msg ∷ [] }, ok tt)
]

abbrev pub set_state : ℕ → String → String → Option String → MessageRecord → MessageRecord
set_state now id state failure_reason m =
    if m.id == id
    then record m { state = state; failure_reason = failure_reason; updated_at = now }
    else m

-- `updateState`; an id that is not there changes no row.
unfoldable pub update_state : ℕ → String → String → Option String → MessageStore → MessageStore
update_state now id state failure_reason s = record s {
  messages = map (set_state now id state failure_reason) s.messages;
}

pub record HistoryOptions : Type 0 where
  pub connection_address : Option String
  pub thread_id : Option String
  pub direction : Option Direction
  pub state : Option String
  pub limit : Option ℕ
  pub offset : Option ℕ

abbrev pub all_history : HistoryOptions
all_history = record {
  connection_address = none;
  thread_id = none;
  direction = none;
  state = none;
  limit = none;
  offset = none;
}

-- `column = @param`, for an option that is there and not empty; `NULL` equals nothing.
abbrev pub matches_text : Option String → Option String → Bool
matches_text none column = true
matches_text (some p) none = p == ""
matches_text (some p) (some c) = if p == "" then true else c == p

abbrev pub eq_direction : Direction → Direction → Bool
eq_direction inbound inbound = true
eq_direction outbound outbound = true
eq_direction _ _ = false

abbrev pub matches_direction : Option Direction → Direction → Bool
matches_direction none d = true
matches_direction (some p) d = eq_direction p d

unfoldable pub matches_options : HistoryOptions → MessageRecord → Bool
matches_options opts m =
    matches_text opts.connection_address (some m.connection_address)
    && (matches_text opts.thread_id m.thread_id
        && (matches_direction opts.direction m.direction && matches_text opts.state (some m.state)))

abbrev pub newest_first : MessageRecord → MessageRecord → Bool
newest_first a b = leb b.created_at a.created_at

abbrev pub oldest_first : MessageRecord → MessageRecord → Bool
oldest_first a b = leb a.created_at b.created_at

-- `getHistory`
unfoldable pub get_history : HistoryOptions → MessageStore → List MessageRecord
get_history opts s =
    take (opts.limit or 50)
      (drop (opts.offset or 0) (sort_by newest_first (keep (matches_options opts) s.messages)))

unfoldable pub is_pending_row : Direction → MessageRecord → Bool
is_pending_row direction m =
    eq_direction direction m.direction && (m.state == "sent" || m.state == "escalated_to_human")

-- `getPending`
unfoldable pub get_pending : Direction → MessageStore → List MessageRecord
unfolding is_pending_row
get_pending direction s = sort_by oldest_first (keep (is_pending_row direction) s.messages)

-- `nextSequence`: the row is made with 1 if it is missing, then raised by one.
unfoldable pub next_sequence : String → MessageStore → MessageStore × ℕ
next_sequence addr s =
    let next = (lookup addr s.sequences or 1) + 1 in
    (record s { sequences = insert addr next s.sequences }, next - 1)
