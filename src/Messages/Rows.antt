-- ===== src/Messages/Rows.antt =====
-- Rows by id (skill/src/message-store.ts, `saveMessage`, `getMessage`, `updateState`).
use pinch.Prelude.Act.{ok, throw, constraint_failed}
use pinch.Prelude.Objects.{map_some}
use pinch.Prelude.{
  ℕ, String, ◌≡◌, refl, Option, none, some, List, [], ◌∷◌, ◌++◌, map, ◌==◌, eq_iff, arith,
  if◌then◌else◌,
}
use pinch.Messages.{
  MessageRecord, MessageStore, find_message, get_message, save_message, set_state, update_state,
}

module _ (now : ℕ) (id state : String) (reason : Option String) where
  find_message-map :
      (j : String) (ms : List MessageRecord)
      → find_message j (map (set_state now id state reason) ms)
        ≡ map_some (set_state now id state reason) (find_message j ms)
  unfolding find_message
  find_message-map j [] = refl
  find_message-map j (m ∷ ms) = ground (arith, find_message-map j ms)

  -- A new state is written, with its reason and time, to the message of the id and to no other.
  pub get_message-update_state :
      (j : String) (s : MessageStore)
      → get_message j (update_state now id state reason s)
        ≡ map_some (set_state now id state reason) (get_message j s)
  unfolding get_message update_state
  get_message-update_state j s = find_message-map j s.messages

find_message-append :
    (j : String) (msg : MessageRecord) (ms : List MessageRecord)
    → find_message msg.id ms ≡ none
    → find_message j (ms ++ msg ∷ []) ≡ (if msg.id == j then some msg else find_message j ms)
unfolding find_message
find_message-append j msg [] h = refl
find_message-append j msg (m ∷ ms) h =
    ground (arith, find_message-append j msg ms, eq_iff m.id msg.id, eq_iff m.id j, eq_iff msg.id j)

-- A message with a new id is stored and then found, and hides no other; one with an id that is
-- taken is refused, and the store stays as it was.
pub save_message_effect :
    (msg : MessageRecord) (s : MessageStore)
    → (get_message msg.id s ≡ none
        → ((save_message msg s).1 ≡ ok tt)
          × ((j : String)
              → get_message j (save_message msg s).0
                ≡ (if msg.id == j then some msg else get_message j s)))
      × ((old : MessageRecord)
          → get_message msg.id s ≡ some old
          → save_message msg s ≡ (s, throw constraint_failed))
unfolding get_message save_message
save_message_effect msg s = (
  λ h. (ground arith, λ j. rw (h, save_message) (find_message-append j msg s.messages h)),
  λ old h. ground arith,
)
