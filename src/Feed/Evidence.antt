-- ===== src/Feed/Evidence.antt =====
-- What an edit of the log shows in the audit (skill/src/tools/pinch-audit-verify.ts).
use pinch.Prelude.{
  ℕ, suc, String, ◌≡◌, refl, sym, ◌∙◌, Bool, Option, none, some, List, [], ◌∷◌, ◌++◌, map, eq_iff,
  arith,
}
use pinch.Feed.{Runtime, ActivityEvent, Details, entry_text, compute_entry_hash}
use pinch.Feed.Audit.{expected_prev, link_break, entry_break, walk}

-- New values for the columns that no hash covers.
pub record Unhashed : Type 0 where
  pub event_type : String
  pub message_id : Option String
  pub badge : Option String
  pub details : Option Details

abbrev pub overwrite : (ActivityEvent → Unhashed) → ActivityEvent → ActivityEvent
overwrite f e = record e {
  event_type = (f e).event_type;
  message_id = (f e).message_id;
  badge = (f e).badge;
  details = (f e).details;
}

module _ (rt : Runtime) (full : Bool) where
  entry_unbroken :
      (prev : Option String) (i : ℕ) (e : ActivityEvent)
      → entry_break rt full prev i e ≡ none
      → (rt.sha256 (entry_text rt e) ≡ e.entry_hash)
        × (link_break i e (expected_prev full prev) ≡ none)
  unfolding entry_break compute_entry_hash
  entry_unbroken prev i e h = (
    ground (arith, eq_iff (rt.sha256 (entry_text rt e)) e.entry_hash),
    ground (arith, eq_iff (rt.sha256 (entry_text rt e)) e.entry_hash),
  )

  walk-cons :
      (prev : Option String) (i : ℕ) (e : ActivityEvent) (es : List ActivityEvent)
      → walk rt full prev i (e ∷ es) ≡ none
      → (entry_break rt full prev i e ≡ none) × (walk rt full (some e.entry_hash) (suc i) es ≡ none)
  unfolding walk
  walk-cons prev i e es h = (ground arith, ground arith)

  linked :
      (i : ℕ) (h : String) (e : ActivityEvent)
      → link_break i e (expected_prev full (some h)) ≡ none
      → e.prev_hash ≡ h
  unfolding expected_prev
  linked i h e p = ground (arith, eq_iff e.prev_hash h)

  -- In an unbroken log an entry's text has the digest that the entry after it links to.
  successor_fixes :
      (prev : Option String) (i : ℕ) (xs : List ActivityEvent) (e next : ActivityEvent)
      (ys : List ActivityEvent)
      → walk rt full prev i (xs ++ e ∷ next ∷ ys) ≡ none
      → rt.sha256 (entry_text rt e) ≡ next.prev_hash
  successor_fixes prev i [] e next ys h =
      let (b, rest) = walk-cons prev i e (next ∷ ys) h in
      let (b', rest') = walk-cons (some e.entry_hash) (suc i) next ys rest in
      (entry_unbroken prev i e b).0
      ∙ sym
          (linked (suc i) e.entry_hash next (entry_unbroken (some e.entry_hash) (suc i) next b').1)
  successor_fixes prev i (x ∷ xs) e next ys h =
      successor_fixes (some x.entry_hash) (suc i) xs e next ys
        (walk-cons prev i x (xs ++ e ∷ next ∷ ys) h).1

  -- An edit before the last entry is found. Where the digest has no collision between the old text
  -- and the new, an entry whose successor stays can be replaced in a valid log only by one of the
  -- same hashed text: any other replacement breaks the chain, also with a digest made anew.
  pub edit_is_found :
      (prev : Option String) (i : ℕ) (xs : List ActivityEvent) (e e' next : ActivityEvent)
      (ys ys' : List ActivityEvent)
      → walk rt full prev i (xs ++ e ∷ next ∷ ys) ≡ none
      → (rt.sha256 (entry_text rt e) ≡ rt.sha256 (entry_text rt e')
          → entry_text rt e ≡ entry_text rt e')
      → (walk rt full prev i (xs ++ e' ∷ next ∷ ys') ≡ none)
      → entry_text rt e' ≡ entry_text rt e
  edit_is_found prev i xs e e' next ys ys' h collision_free h' = sym (
      collision_free
        (successor_fixes prev i xs e next ys h ∙ sym (successor_fixes prev i xs e' next ys' h')))

  -- The event type, the message id, the badge and the details of every entry can be overwritten,
  -- and the audit's walk says the same as before.
  pub unhashed_edits_pass :
      (f : ActivityEvent → Unhashed) (prev : Option String) (i : ℕ) (es : List ActivityEvent)
      → walk rt full prev i (map (overwrite f) es) ≡ walk rt full prev i es
  unfolding walk entry_break compute_entry_hash entry_text
  unhashed_edits_pass f prev i [] = refl
  unhashed_edits_pass f prev i (e ∷ es) =
      ground (arith, unhashed_edits_pass f (some e.entry_hash) (suc i) es)
