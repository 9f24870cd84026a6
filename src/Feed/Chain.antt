-- ===== src/Feed/Chain.antt =====
-- A log that `record` wrote verifies (skill/src/autonomy/activity-feed.ts and
-- skill/src/tools/pinch-audit-verify.ts).
use pinch.Prelude.Sort.{sort_by, sort_by-append, length-sort_by}
use pinch.Prelude.{
  ℕ, suc, ◌+◌, ◌≤◌, ◌<◌, String, ◌≡◌, ◌≢◌, refl, Bool, true, Option, none, some, List, [], ◌∷◌,
  ◌++◌, eq_iff, keep, length, length-append, All, All-append, All-imp, keep-append, arith,
}
use pinch.Feed.{
  Runtime, NewEvent, ActivityEvent, ActivityFeed, empty_feed, compute_entry_hash, entry_text,
  row_before, by_time, draft, sealed, record_event, text_leb, final_hash,
}
use pinch.Feed.Audit.{valid, expected_prev, entry_break, walk, is_hashed, head_id, last_id, verify}

-- The log after calls of `record`, each at a time.
unfoldable pub record_all : Runtime → List (ℕ × NewEvent) → ActivityFeed → ActivityFeed
record_all rt [] f = f
record_all rt ((now, e) ∷ calls) f = record_all rt calls (record_event rt now e f)

abbrev pub IsAscending : ℕ → List (ℕ × NewEvent) → Type 0
IsAscending t [] = Unit {0}
IsAscending t ((now, e) ∷ calls) = (t ≤ now) × IsAscending now calls

length-record_all :
    (rt : Runtime) (calls : List (ℕ × NewEvent)) (f : ActivityFeed)
    → length (record_all rt calls f).rows ≡ length f.rows + length calls
unfolding record_all record_event
length-record_all rt [] f = omega arith
length-record_all rt ((now, e) ∷ calls) f = omega (
  arith,
  length-record_all rt calls (record_event rt now e f),
  length-append f.rows (sealed rt (draft rt now e f) ∷ []),
)

-- The hash that the entry after a list has to link to.
abbrev prev_of : Option String → List ActivityEvent → Option String
prev_of p [] = p
prev_of p (e ∷ es) = prev_of (some e.entry_hash) es

prev_of-some : (h : String) (es : List ActivityEvent) → prev_of (some h) es ≡ some (final_hash h es)
prev_of-some h [] = refl
prev_of-some h (e ∷ es) = prev_of-some e.entry_hash es

-- A full walk expects after a list the hash of its last entry, and `""` at the start.
expected_prev-full :
    (es : List ActivityEvent) → expected_prev true (prev_of none es) ≡ some (final_hash "" es)
unfolding expected_prev
expected_prev-full [] = refl
expected_prev-full (e ∷ es) = rw (prev_of-some e.entry_hash es)

module _ (rt : Runtime) where
  walk-append :
      (full : Bool) (prev : Option String) (i : ℕ) (es : List ActivityEvent) (e : ActivityEvent)
      → walk rt full prev i es ≡ none
      → ((k : ℕ) → entry_break rt full (prev_of prev es) k e ≡ none)
      → walk rt full prev i (es ++ e ∷ []) ≡ none
  unfolding walk
  walk-append full prev i [] e h b = ground (arith, b i)
  walk-append full prev i (d ∷ es) e h b =
      ground (arith, walk-append full (some d.entry_hash) (suc i) es e, b)

  unbroken :
      (full : Bool) (prev : Option String) (k : ℕ) (e : ActivityEvent)
      → compute_entry_hash rt e ≡ e.entry_hash
      → expected_prev full prev ≡ some e.prev_hash
      → entry_break rt full prev k e ≡ none
  unfolding entry_break
  unbroken full prev k e h l =
      ground (arith, eq_iff (compute_entry_hash rt e) e.entry_hash, eq_iff e.prev_hash e.prev_hash)

  hash-sealed : (e : ActivityEvent) → compute_entry_hash rt (sealed rt e) ≡ (sealed rt e).entry_hash
  unfolding sealed compute_entry_hash entry_text
  hash-sealed e = refl

  -- A sealed entry that links to the last hash breaks nothing.
  sealed-unbroken :
      (now : ℕ) (e : NewEvent) (f : ActivityFeed) (k : ℕ)
      → entry_break rt true (prev_of none (by_time f.rows)) k (sealed rt (draft rt now e f)) ≡ none
  unfolding draft sealed
  sealed-unbroken now e f k =
      unbroken true (prev_of none (by_time f.rows)) k (sealed rt (draft rt now e f))
        (hash-sealed (draft rt now e f)) (expected_prev-full (by_time f.rows))

  -- A row stands before all that is recorded from the time `now` on, with UUIDs from `issued` on.
  abbrev IsPast : ℕ → ℕ → ActivityEvent → Type 0
  IsPast now issued e =
      (e.created_at ≤ now) × ((j : ℕ) → issued ≤ j → text_leb e.id (rt.uuid j) ≡ true)

  -- What `record` keeps: every row is hashed and past, and the walk over the rows finds no break.
  record IsChained (now : ℕ) (f : ActivityFeed) : Type 0 where
    hashed : keep is_hashed f.rows ≡ f.rows
    unbroken_walk : walk rt true none 0 (by_time f.rows) ≡ none
    past : All (IsPast now f.issued) f.rows

  IsChained-empty : IsChained 0 empty_feed
  unfolding walk by_time sort_by
  IsChained-empty = record { hashed = refl; unbroken_walk = refl; past = tt }

  length-by_time : (rows : List ActivityEvent) → length (by_time rows) ≡ length rows
  unfolding by_time
  length-by_time rows = length-sort_by row_before rows

  IsChained-verifies :
      (now : ℕ) (f : ActivityFeed) (n : ℕ)
      → IsChained now f
      → length f.rows ≡ n
      → verify rt none f ≡ valid n n (head_id (by_time f.rows)) (last_id (by_time f.rows))
  unfolding verify
  IsChained-verifies now f n h k = rw (h.hashed, h.unbroken_walk, length-by_time f.rows, k) refl

  IsPast-row_before :
      (now : ℕ) (e : NewEvent) (f : ActivityFeed) (r : ActivityEvent)
      → IsPast now f.issued r
      → row_before r (sealed rt (draft rt now e f)) ≡ true
  unfolding row_before sealed draft
  IsPast-row_before now e f r h = ground (arith, h.1 f.issued)

  IsPast-mono :
      (now later issued : ℕ)
      → now ≤ later
      → (r : ActivityEvent) → IsPast now issued r
      → IsPast later (suc issued) r
  IsPast-mono now later issued l r h = (omega arith, λ j k. h.1 j (omega arith))

  IsPast-now :
      (before now : ℕ) (f : ActivityFeed)
      → before ≤ now
      → All (IsPast before f.issued) f.rows
      → All (IsPast now f.issued) f.rows
  IsPast-now before now f l h =
      All-imp (IsPast before f.issued) (IsPast now f.issued) (λ r k. (omega arith, k.1)) f.rows h

  by_time-record_event :
      (now : ℕ) (e : NewEvent) (f : ActivityFeed)
      → All (IsPast now f.issued) f.rows
      → by_time (record_event rt now e f).rows ≡ by_time f.rows ++ sealed rt (draft rt now e f) ∷ []
  unfolding by_time record_event
  by_time-record_event now e f h = sort_by-append row_before f.rows (sealed rt (draft rt now e f)) (
      All-imp (IsPast now f.issued) (λ r. row_before r (sealed rt (draft rt now e f)) ≡ true)
        (IsPast-row_before now e f) f.rows h)

  module _ (digest_nonempty : (t : String) → rt.sha256 t ≢ "")
      (uuid_order : (i j : ℕ) → i < j → text_leb (rt.uuid i) (rt.uuid j) ≡ true) where
    hashed-record_event :
        (now : ℕ) (e : NewEvent) (f : ActivityFeed)
        → keep is_hashed f.rows ≡ f.rows
        → keep is_hashed (record_event rt now e f).rows ≡ (record_event rt now e f).rows
    unfolding record_event sealed compute_entry_hash
    hashed-record_event now e f h = ground (
      arith,
      keep-append is_hashed f.rows (sealed rt (draft rt now e f) ∷ []),
      eq_iff (rt.sha256 (entry_text rt (draft rt now e f))) "",
      digest_nonempty (entry_text rt (draft rt now e f)),
    )

    new-IsPast :
        (now : ℕ) (e : NewEvent) (f : ActivityFeed)
        → IsPast now (suc f.issued) (sealed rt (draft rt now e f))
    unfolding sealed draft
    new-IsPast now e f = (omega arith, λ j l. uuid_order f.issued j l)

    record_event-IsChained :
        (before now : ℕ) (e : NewEvent) (f : ActivityFeed)
        → before ≤ now
        → IsChained before f
        → IsChained now (record_event rt now e f)
    unfolding record_event
    record_event-IsChained before now e f l h = record {
      hashed = hashed-record_event now e f h.hashed;
      unbroken_walk = rw (by_time-record_event now e f (IsPast-now before now f l h.past)) (
          walk-append true none 0 (by_time f.rows) (sealed rt (draft rt now e f)) h.unbroken_walk
            (sealed-unbroken now e f));
      past =
          All-append (IsPast now (suc f.issued)) f.rows (sealed rt (draft rt now e f) ∷ [])
            (All-imp (IsPast before f.issued) (IsPast now (suc f.issued))
              (IsPast-mono before now f.issued l) f.rows h.past)
            (new-IsPast now e f, tt);
    }

    -- The log after a list of calls of `record`, each with its time.
    record_all-IsChained :
        (before : ℕ) (calls : List (ℕ × NewEvent)) (f : ActivityFeed)
        → IsAscending before calls
        → IsChained before f
        → (now : ℕ) × IsChained now (record_all rt calls f)
    unfolding record_all
    record_all-IsChained before [] f a h = (before, h)
    record_all-IsChained before ((now, e) ∷ calls) f a h =
        record_all-IsChained now calls (record_event rt now e f) a.1
          (record_event-IsChained before now e f a.0 h)

    -- Whatever events are recorded, at times that do not go back, the audit then finds the whole
    -- chain valid, with every entry counted and verified. Assumed are a digest that is not empty
    -- and UUIDs that are ordered as they are made.
    pub record_all-verifies :
        (calls : List (ℕ × NewEvent))
        → IsAscending 0 calls
        → verify rt none (record_all rt calls empty_feed)
          ≡ valid
              (length calls)
              (length calls)
              (head_id (by_time (record_all rt calls empty_feed).rows))
              (last_id (by_time (record_all rt calls empty_feed).rows))
    record_all-verifies calls a =
        let (now, h) = record_all-IsChained 0 calls empty_feed a IsChained-empty in
        IsChained-verifies now (record_all rt calls empty_feed) (length calls) h
          (omega (arith, length-record_all rt calls empty_feed))

    -- The walk over the whole of such a log does not break.
    pub record_all-walks :
        (calls : List (ℕ × NewEvent))
        → IsAscending 0 calls
        → walk rt true none 0 (by_time (record_all rt calls empty_feed).rows) ≡ none
    record_all-walks calls a =
        (record_all-IsChained 0 calls empty_feed a IsChained-empty).1.unbroken_walk

    pub length-by_time-record_all :
        (calls : List (ℕ × NewEvent))
        → length (by_time (record_all rt calls empty_feed).rows) ≡ length calls
    length-by_time-record_all calls = omega (
      arith,
      length-by_time (record_all rt calls empty_feed).rows,
      length-record_all rt calls empty_feed,
    )
