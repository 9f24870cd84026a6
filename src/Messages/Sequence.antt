-- ===== src/Messages/Sequence.antt =====
-- The sequence numbers of a connection (skill/src/message-store.ts, `nextSequence`).
use pinch.Prelude.Objects.{lookup, lookup-insert}
use pinch.Prelude.{
  ℕ, suc, ◌+◌, String, ◌≡◌, List, [], ◌∷◌, ◌==◌, eq_iff, arith, if◌then◌else◌, ◌or◌,
}
use pinch.Messages.{MessageStore, empty_messages, next_sequence}

-- The store after a number was taken for each address of a list.
unfoldable pub issue_all : List String → MessageStore → MessageStore
issue_all [] s = s
issue_all (a ∷ calls) s = issue_all calls (next_sequence a s).0

abbrev pub count : String → List String → ℕ
count a [] = 0
count a (b ∷ bs) = if b == a then suc (count a bs) else count a bs

next_or_one :
    (calls : List String) (a : String) (s : MessageStore)
    → (lookup a (issue_all calls s).sequences or 1) ≡ (lookup a s.sequences or 1) + count a calls
unfolding issue_all next_sequence
next_or_one [] a s = omega arith
next_or_one (b ∷ calls) a s = ground (
  arith,
  next_or_one calls a (next_sequence b s).0,
  lookup-insert b a ((lookup b s.sequences or 1) + 1) s.sequences,
  eq_iff b a,
)

-- After any calls of `nextSequence`, for any connections in any order, the next number of a
-- connection is one more than the number of its own calls: 1, 2, 3, … for each by itself.
pub next_sequence_counts :
    (calls : List String) (a : String)
    → (next_sequence a (issue_all calls empty_messages)).1 ≡ count a calls + 1
unfolding next_sequence lookup
next_sequence_counts calls a = omega (arith, next_or_one calls a empty_messages)
