-- ===== src/Breaker/Window.antt =====
-- What the windows count (skill/src/autonomy/circuit-breaker.ts).
use pinch.Prelude.Objects.{lookup-insert}
use pinch.Prelude.{
  ℕ, ◌≤◌, ◌<◌, String, ◌≡◌, refl, false, none, some, List, [], ◌∷◌, ◌++◌, keep, leb, All, arith,
  eq_refl, ◌⊎◌, inl, inr, Bool-cases,
}
use pinch.Feed.{TriggerType, information_boundary}
use pinch.World.{EventRecord, World}
use pinch.Breaker.{
  CircuitBreakerConfig, Check, checks, counts_for, count_events, first_exceeded, in_window,
  longest_window, events_of, add_event,
}

-- Below every threshold.
abbrev pub IsQuiet : CircuitBreakerConfig → ℕ → List EventRecord → Type 0
IsQuiet cfg now es = All (λ c. count_events now c es < c.threshold) (checks cfg)

first_exceeded-none :
    (now : ℕ) (es : List EventRecord) (cs : List Check)
    → All (λ c. count_events now c es < c.threshold) cs
    → first_exceeded now es cs ≡ none
unfolding first_exceeded
first_exceeded-none now es [] h = refl
first_exceeded-none now es (c ∷ cs) h = ground (arith, first_exceeded-none now es cs h.1)

pub first_exceeded-IsQuiet :
    (cfg : CircuitBreakerConfig) (now : ℕ) (es : List EventRecord)
    → IsQuiet cfg now es
    → first_exceeded now es (checks cfg) ≡ none
first_exceeded-IsQuiet cfg now es h = first_exceeded-none now es (checks cfg) h

count_keep :
    (now later longest : ℕ) (c : Check) (es : List EventRecord)
    → now ≤ later
    → c.window_ms ≤ longest
    → count_events later c (keep (in_window now longest) es) ≡ count_events later c es
unfolding count_events
count_keep now later longest c [] l w = refl
count_keep now later longest c (e ∷ es) l w = ground (arith, count_keep now later longest c es l w)

-- Dropping the events that have left the longest window changes no count, at that time or later,
-- for any of the four checks.
pub pruning_is_invisible :
    (cfg : CircuitBreakerConfig) (now later : ℕ) (es : List EventRecord)
    → now ≤ later
    → All
        (λ c.
          count_events later c (keep (in_window now (longest_window cfg)) es)
          ≡ count_events later c es)
        (checks cfg)
unfolding checks
pruning_is_invisible cfg now later es l =
    let each = λ (c : Check) (w : c.window_ms ≤ longest_window cfg).
      count_keep now later (longest_window cfg) c es l w in
    (
      each _ (omega arith),
      (each _ (omega arith), (each _ (omega arith), (each _ (omega arith), tt))),
    )

-- Some check of the list has met its threshold.
abbrev pub Reached : ℕ → List EventRecord → List Check → Type 0
Reached now es [] = ⊥
Reached now es (c ∷ cs) = (c.threshold ≤ count_events now c es) ⊎ Reached now es cs

pub first_exceeded-Reached :
    (now : ℕ) (es : List EventRecord) (cs : List Check)
    → Reached now es cs
    → (k : Check) × (first_exceeded now es cs ≡ some k)
unfolding first_exceeded
first_exceeded-Reached now es [] h = absurd h
first_exceeded-Reached now es (c ∷ cs) h =
    elim (Bool-cases (leb c.threshold (count_events now c es))) [
      | inl hit ↦ (c, rw hit)
      | inr miss ↦ rw miss (first_exceeded-Reached now es cs (ground arith))
    ]

count-append :
    (now : ℕ) (c : Check) (es : List EventRecord) (e : EventRecord)
    → counts_for now c e ≡ false
    → count_events now c (es ++ e ∷ []) ≡ count_events now c es
unfolding count_events
count-append now c [] e h = ground arith
count-append now c (d ∷ es) e h = ground (arith, count-append now c es e h)

events_of-add_event :
    (cfg : CircuitBreakerConfig) (now : ℕ) (addr : String) (type : TriggerType) (w : World)
    → events_of addr (add_event cfg now addr type w)
      ≡ keep
          (in_window now (longest_window cfg))
          (events_of addr w ++ record { timestamp = now; type = type } ∷ [])
unfolding add_event
events_of-add_event cfg now addr type w = rw (lookup-insert, eq_refl) refl

same_counts-IsQuiet :
    (now : ℕ) (es fs : List EventRecord) (cs : List Check)
    → All (λ c. count_events now c es ≡ count_events now c fs) cs
    → All (λ c. count_events now c fs < c.threshold) cs
    → All (λ c. count_events now c es < c.threshold) cs
same_counts-IsQuiet now es fs [] e h = tt
same_counts-IsQuiet now es fs (c ∷ cs) e h =
    (omega (arith, e.0), same_counts-IsQuiet now es fs cs e.1 h.1)

module _ (cfg : CircuitBreakerConfig) (now : ℕ) (es : List EventRecord) where
  boundary_event : EventRecord
  boundary_event = record { timestamp = now; type = information_boundary }

  boundary_uncounted :
      All (λ c. count_events now c (es ++ boundary_event ∷ []) ≡ count_events now c es) (checks cfg)
  unfolding checks boundary_event
  boundary_uncounted =
      let e : EventRecord = boundary_event in
      (
        count-append now _ es e refl,
        (
          count-append now _ es e refl,
          (count-append now _ es e refl, (count-append now _ es e refl, tt)),
        ),
      )

  IsQuiet-boundary :
      IsQuiet cfg now es
      → IsQuiet cfg now (keep (in_window now (longest_window cfg)) (es ++ boundary_event ∷ []))
  IsQuiet-boundary h =
      same_counts-IsQuiet now _ (es ++ boundary_event ∷ []) (checks cfg)
        (pruning_is_invisible cfg now now (es ++ boundary_event ∷ []) (omega arith))
        (same_counts-IsQuiet now _ es (checks cfg) boundary_uncounted h)

-- A violation that the enforcement pipeline reports leaves a quiet window quiet: no check counts
-- the type that it is given.
pub add_event-IsQuiet :
    (cfg : CircuitBreakerConfig) (now : ℕ) (addr : String) (w : World)
    → IsQuiet cfg now (events_of addr w)
    → IsQuiet cfg now (events_of addr (add_event cfg now addr information_boundary w))
unfolding boundary_event
add_event-IsQuiet cfg now addr w h =
    rw (events_of-add_event cfg now addr information_boundary w)
      (IsQuiet-boundary cfg now (events_of addr w) h)
