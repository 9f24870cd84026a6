-- ===== src/Feed/Audit.antt =====
-- skill/src/tools/pinch-audit-verify.ts: the walk along the hash chain.
use pinch.Prelude.{
  ℕ, suc, String, Bool, true, false, not, Option, none, some, List, [], ◌∷◌, ◌==◌, if◌then◌else◌,
  keep, take, last, length, reverse,
}
use pinch.Feed.{Runtime, ActivityEvent, ActivityFeed, compute_entry_hash, by_time}

-- What the tool prints.
pub data Report : Type 0 where
  valid : (total verified : ℕ) → (genesis latest : Option String) → Report
  broken :
      (total : ℕ) → (first_broken_at : String) → (index : ℕ) → (expected actual : String) → Report

-- A place where the chain breaks: the entry, its index, and the two hashes.
pub record Break : Type 0 where
  pub at : String
  pub index : ℕ
  pub expected : String
  pub actual : String

-- The test of `prev_hash` for the entry after `prev`; at the first entry only a full walk tests it.
unfoldable pub expected_prev : Bool → Option String → Option String
expected_prev full none = if full then some "" else none
expected_prev full (some hash) = some hash

abbrev pub link_break : ℕ → ActivityEvent → Option String → Option Break
link_break i e none = none
link_break i e (some hash) =
    if e.prev_hash == hash
    then none
    else some (record { at = e.id; index = i; expected = hash; actual = e.prev_hash })

unfoldable pub entry_break : Runtime → Bool → Option String → ℕ → ActivityEvent → Option Break
unfolding expected_prev
entry_break rt full prev i e =
    if compute_entry_hash rt e == e.entry_hash
    then link_break i e (expected_prev full prev)
    else some
        (record { at = e.id; index = i; expected = compute_entry_hash rt e; actual = e.entry_hash })

-- The loop over the entries; `prev` is the hash of the entry before.
unfoldable pub walk : Runtime → Bool → Option String → ℕ → List ActivityEvent → Option Break
walk rt full prev i [] = none
walk rt full prev i (e ∷ es) = elim (entry_break rt full prev i e) [
  | some b ↦ some b
  | none ↦ walk rt full (some e.entry_hash) (suc i) es
]

-- `WHERE entry_hash != ''`
abbrev pub is_hashed : ActivityEvent → Bool
is_hashed e = not (e.entry_hash == "")

-- The entries that the tool reads: all, or the last ones under `--tail`.
unfoldable pub entries_to_verify : Option ℕ → ActivityFeed → List ActivityEvent
entries_to_verify none f = by_time (keep is_hashed f.rows)
entries_to_verify (some n) f = reverse (take n (reverse (by_time (keep is_hashed f.rows))))

abbrev pub head_id : List ActivityEvent → Option String
head_id [] = none
head_id (e ∷ es) = some e.id

abbrev pub last_id : List ActivityEvent → Option String
last_id es = elim (last es) [ none ↦ none | some e ↦ some e.id ]

abbrev pub is_full : Option ℕ → Bool
is_full none = true
is_full (some n) = false

abbrev report : ℕ → List ActivityEvent → Option Break → Report
report total es none = valid total (length es) (head_id es) (last_id es)
report total es (some b) = broken total b.at b.index b.expected b.actual

unfoldable pub verify : Runtime → Option ℕ → ActivityFeed → Report
unfolding walk entries_to_verify
verify rt tail f =
    let es = entries_to_verify tail f in
    report (length (keep is_hashed f.rows)) es (walk rt (is_full tail) none 0 es)
