-- ===== src/Feed.antt =====
-- skill/src/autonomy/activity-feed.ts: the activity log and its hash chain. SHA-256, the UUIDs, the
-- ISO texts and Base64 come from outside the repository and are the parameter `Runtime`. The table is the
-- list of its rows in the order of insertion.
pub mod Audit
pub mod Chain
pub mod Evidence
pub mod Tails
use Prim.Native.Nat.{compare, Ordering}
use Prim.Native.String.{◌++◌ as text_append, compare as compare_text}
use pinch.Prelude.Sort.{sort_by}
use pinch.Prelude.{
  ℕ, suc, String, Bool, true, false, ◌&&◌, not, Option, none, some, List, [], ◌∷◌, ◌++◌, ◌==◌,
  if◌then◌else◌, ltb, leb, eqb, keep, take, last, reverse, ◌or◌, given,
}

pub record Runtime : Type 0 where
  -- The hex digest of a text.
  pub sha256 : String → String
  -- The UUIDs of version 7, in the order in which they are made.
  pub uuid : ℕ → String
  -- `new Date(ms).toISOString()`
  pub iso : ℕ → String
  -- `Buffer.from(bytes).toString("base64")`
  pub base64 : List ℕ → String

pub data TriggerType : Type 0 where
  message_flood permission_violation spending_exceeded boundary_probe : TriggerType
  -- The enforcement pipeline casts the enforcer's `violationType` to a trigger. The only such value
  -- is this one, which the declared union does not have.
  information_boundary : TriggerType

pub data Action : Type 0 where
  allow deny escalate : Action

pub data Confidence : Type 0 where
  high medium low : Confidence

-- What `JSON.stringify` is given for the column `details`.
pub data Details : Type 0 where
  trip : TriggerType → ℕ → ℕ → ℕ → Details
  decision : Action → Confidence → String → Details

-- `Omit<ActivityEvent, "id" | "createdAt" | "prevHash" | "entryHash">`
pub record NewEvent : Type 0 where
  pub connection_address : String
  pub event_type : String
  pub message_id : Option String
  pub badge : Option String
  pub details : Option Details
  pub actor_pubkey : Option String
  pub action_type : Option String
  pub message_hash : Option String

abbrev pub event : String → String → NewEvent
event addr event_type = record {
  connection_address = addr;
  event_type = event_type;
  message_id = none;
  badge = none;
  details = none;
  actor_pubkey = none;
  action_type = none;
  message_hash = none;
}

-- A row of `activity_events`.
pub record ActivityEvent : Type 0 where
  pub id : String
  pub connection_address : String
  pub event_type : String
  pub message_id : Option String
  pub badge : Option String
  pub details : Option Details
  pub created_at : ℕ
  pub actor_pubkey : Option String
  pub action_type : Option String
  pub message_hash : Option String
  pub prev_hash : String
  pub entry_hash : String

pub record ActivityFeed : Type 0 where
  pub rows : List ActivityEvent
  -- How many UUIDs have been made.
  pub issued : ℕ

abbrev pub empty_feed : ActivityFeed
empty_feed = record { rows = []; issued = 0 }

-- `[...].join("|")`
unfoldable pub join : List String → String
join [] = ""
join (x ∷ []) = x
join (x ∷ y ∷ ys) = text_append x (text_append "|" (join (y ∷ ys)))

-- The text that is hashed for an entry.
unfoldable pub entry_text : Runtime → ActivityEvent → String
unfolding join
entry_text rt e = join (
    e.id
    ∷ rt.iso e.created_at
    ∷ (e.actor_pubkey or "")
    ∷ (e.action_type or "")
    ∷ e.connection_address
    ∷ (e.message_hash or "")
    ∷ e.prev_hash
    ∷ [])

-- `computeEntryHash`, on the fields that `record` and the audit hand it.
unfoldable pub compute_entry_hash : Runtime → ActivityEvent → String
compute_entry_hash rt e = rt.sha256 (entry_text rt e)

abbrev pub text_leb : String → String → Bool
text_leb s t = elim (compare_text s t) [ Ordering.gt ↦ false | _ ↦ true ]

-- `ORDER BY created_at ASC, id ASC`; the column holds ISO texts, which are in the order of the times
-- that they name up to the year 9999.
unfoldable pub row_before : ActivityEvent → ActivityEvent → Bool
row_before a b =
    if eqb a.created_at b.created_at then text_leb a.id b.id else ltb a.created_at b.created_at

unfoldable pub by_time : List ActivityEvent → List ActivityEvent
by_time rows = sort_by row_before rows

-- `ORDER BY created_at DESC, id DESC LIMIT 1`: ids are unique, so this order is the reverse.
-- `lastRow?.entry_hash || ""` is `final_hash ""` of the rows in order.
abbrev pub final_hash : String → List ActivityEvent → String
final_hash h [] = h
final_hash h (e ∷ es) = final_hash e.entry_hash es

unfoldable pub last_hash : ActivityFeed → String
last_hash f = final_hash "" (by_time f.rows)

-- The new row before its own hash is filled in.
unfoldable pub draft : Runtime → ℕ → NewEvent → ActivityFeed → ActivityEvent
unfolding last_hash
draft rt now e f = record {
  id = rt.uuid f.issued;
  connection_address = e.connection_address;
  event_type = e.event_type;
  message_id = e.message_id;
  badge = e.badge;
  details = e.details;
  created_at = now;
  actor_pubkey = e.actor_pubkey;
  action_type = some (e.action_type or e.event_type);
  message_hash = e.message_hash;
  prev_hash = last_hash f;
  entry_hash = "";
}

unfoldable pub sealed : Runtime → ActivityEvent → ActivityEvent
sealed rt e = record e { entry_hash = compute_entry_hash rt e }

-- `record`
unfoldable pub record_event : Runtime → ℕ → NewEvent → ActivityFeed → ActivityFeed
record_event rt now e f = record {
  rows = f.rows ++ sealed rt (draft rt now e f) ∷ [];
  issued = suc f.issued;
}

pub record EventOptions : Type 0 where
  pub connection_address : Option String
  pub event_type : Option String
  pub since : Option String
  pub until : Option String
  pub exclude_event_types : List String
  pub limit : Option ℕ

abbrev pub matches_param : Option String → String → Bool
matches_param none column = true
matches_param (some p) column = if p == "" then true else column == p

abbrev pub at_least : Option String → String → Bool
at_least none t = true
at_least (some bound) t = if bound == "" then true else text_leb bound t

abbrev pub at_most : Option String → String → Bool
at_most none t = true
at_most (some bound) t = if bound == "" then true else text_leb t bound

abbrev pub contains : List String → String → Bool
contains [] s = false
contains (x ∷ xs) s = let rest = contains xs s in if x == s then true else rest

unfoldable pub selects : Runtime → EventOptions → ActivityEvent → Bool
selects rt opts e =
    matches_param opts.connection_address e.connection_address
    && (matches_param opts.event_type e.event_type
        && (at_least opts.since (rt.iso e.created_at)
            && (at_most opts.until (rt.iso e.created_at)
                && not (contains opts.exclude_event_types e.event_type))))

abbrev pub latest_first : ActivityEvent → ActivityEvent → Bool
latest_first a b = leb b.created_at a.created_at

-- `getEvents`. Rows come in the order of their times, which is that of the ISO texts of years before
-- 10000.
unfoldable pub get_events : Runtime → EventOptions → ActivityFeed → List ActivityEvent
get_events rt opts f =
    take (opts.limit or 100) (sort_by latest_first (keep (selects rt opts) f.rows))
