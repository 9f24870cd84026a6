-- ===== src/Feed/Tails.antt =====
-- What the audit tool says of a part of a log (skill/src/tools/pinch-audit-verify.ts).
use mathlib.Core.List.{reverse-append, reverse-reverse}
use pinch.Prelude.{
  ℕ, zero, suc, String, drop, ◌≡◌, refl, sym, ap, ◌∙◌, Bool, true, false, Option, none, some, List,
  [], ◌∷◌, ◌++◌, keep, take, reverse, length, arith, Option-cases, inl, inr,
}
use pinch.Feed.{Runtime, ActivityEvent, ActivityFeed}
use pinch.Feed.Audit.{
  valid, entry_break, expected_prev, walk, is_hashed, is_full, entries_to_verify, head_id, last_id,
  verify,
}

take-drop {ℓ} : {A : Type ℓ} (n : ℕ) (xs : List A) → take n xs ++ drop n xs ≡ xs
take-drop zero xs = refl
take-drop (suc n) [] = refl
take-drop (suc n) (x ∷ xs) = ap (◌∷◌ x) (take-drop n xs)

-- The last entries come after the others.
split_last {ℓ} :
    {A : Type ℓ} (n : ℕ) (xs : List A)
    → reverse (drop n (reverse xs)) ++ reverse (take n (reverse xs)) ≡ xs
split_last n xs =
    sym (reverse-append (take n (reverse xs)) (drop n (reverse xs)))
    ∙ ap reverse (take-drop n (reverse xs))
    ∙ reverse-reverse xs

module _ (rt : Runtime) where
  walk-front :
      (full : Bool) (prev : Option String) (i : ℕ) (xs ys : List ActivityEvent)
      → walk rt full prev i (xs ++ ys) ≡ none
      → walk rt full prev i xs ≡ none
  unfolding walk
  walk-front full prev i [] ys h = refl
  walk-front full prev i (x ∷ xs) ys h =
      ground (arith, h, walk-front full (some x.entry_hash) (suc i) xs ys)

  -- Where a full walk does not break after an entry, no walk does, from any index.
  walk-continued :
      (full : Bool) (hash : String) (i j : ℕ) (xs : List ActivityEvent)
      → walk rt true (some hash) i xs ≡ none
      → walk rt full (some hash) j xs ≡ none
  unfolding walk entry_break
  walk-continued full hash i j [] h = refl
  walk-continued full hash i j (x ∷ xs) h =
      ground (arith, h, walk-continued full x.entry_hash (suc i) (suc j) xs)

  walk-started :
      (prev : Option String) (i : ℕ) (xs : List ActivityEvent)
      → walk rt true prev i xs ≡ none
      → walk rt false none 0 xs ≡ none
  unfolding walk entry_break expected_prev
  walk-started prev i [] h = refl
  walk-started none i (x ∷ xs) h = ground (arith, h, walk-continued false x.entry_hash (suc i) 1 xs)
  walk-started (some hash) i (x ∷ xs) h =
      ground (arith, h, walk-continued false x.entry_hash (suc i) 1 xs)

  walk-back :
      (prev : Option String) (i : ℕ) (xs ys : List ActivityEvent)
      → walk rt true prev i (xs ++ ys) ≡ none
      → walk rt false none 0 ys ≡ none
  unfolding walk
  walk-back prev i [] ys h = walk-started prev i ys h
  walk-back prev i (x ∷ xs) ys h = walk-back (some x.entry_hash) (suc i) xs ys (ground (arith, h))

  verify-unbroken :
      (tail : Option ℕ) (f : ActivityFeed) (n m : ℕ) (genesis latest : Option String)
      → verify rt tail f ≡ valid n m genesis latest
      → walk rt (is_full tail) none 0 (entries_to_verify tail f) ≡ none
  unfolding verify
  verify-unbroken tail f n m genesis latest h =
      elim (Option-cases (walk rt (is_full tail) none 0 (entries_to_verify tail f))) [
        | inl e ↦ e
        | inr (b, e) ↦ absurd (ground (arith, e, h))
      ]

  verify-valid :
      (tail : Option ℕ) (f : ActivityFeed)
      → walk rt (is_full tail) none 0 (entries_to_verify tail f) ≡ none
      → verify rt tail f
        ≡ valid
            (length (keep is_hashed f.rows))
            (length (entries_to_verify tail f))
            (head_id (entries_to_verify tail f))
            (last_id (entries_to_verify tail f))
  unfolding verify
  verify-valid tail f h = ground (arith, h)

  -- A log that the audit finds valid as a whole is valid under every `--tail`, which counts the entries
  -- that it reads.
  pub whole_covers_tail :
      (f : ActivityFeed) (n m k : ℕ) (genesis latest : Option String)
      → verify rt none f ≡ valid n m genesis latest
      → verify rt (some k) f
        ≡ valid
            (length (keep is_hashed f.rows))
            (length (entries_to_verify (some k) f))
            (head_id (entries_to_verify (some k) f))
            (last_id (entries_to_verify (some k) f))
  unfolding entries_to_verify
  whole_covers_tail f n m k genesis latest h =
      let es = entries_to_verify none f in
      verify-valid (some k) f (
        walk-back none 0 (reverse (drop k (reverse es))) (reverse (take k (reverse es)))
          (rw (split_last k es) (verify-unbroken none f n m genesis latest h)))

  -- The audit does not notice that the last entries of a log are gone: if it found the log valid, it
  -- finds what is left valid too.
  pub lost_end_passes :
      (f g : ActivityFeed) (lost : List ActivityEvent) (n m : ℕ) (genesis latest : Option String)
      → entries_to_verify none f ≡ entries_to_verify none g ++ lost
      → verify rt none f ≡ valid n m genesis latest
      → verify rt none g
        ≡ valid
            (length (keep is_hashed g.rows))
            (length (entries_to_verify none g))
            (head_id (entries_to_verify none g))
            (last_id (entries_to_verify none g))
  lost_end_passes f g lost n m genesis latest e h = verify-valid none g (
      walk-front true none 0 (entries_to_verify none g) lost
        (rw (sym e) (verify-unbroken none f n m genesis latest h)))
