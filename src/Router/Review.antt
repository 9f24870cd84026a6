-- ===== src/Router/Review.antt =====
-- The human's review (skill/src/inbound-router.ts, `approveMessage`).
use pinch.Prelude.{
  Bool, Bool-cases, List, Option, Option-cases, String, [], arith, eq_iff, false, inl, inr, none,
  refl, some, true, ℕ, ◌==◌, ◌∷◌, ◌≡◌, ◌⊎◌,
}
use pinch.Prelude.Objects.{map_some}
use pinch.Messages.{MessageRecord, MessageStore, find_message, get_message, set_state}
use pinch.Messages.Rows.{get_message-update_state}
use pinch.Router.{Approval, agent_handle, human_respond, approved_state, approve_message}

pub found_id :
    (j : String) (ms : List MessageRecord) (m : MessageRecord)
    → find_message j ms ≡ some m
    → (m.id == j) ≡ true
unfolding find_message
found_id j [] m h = ground arith
found_id j (k ∷ ms) m h = elim (Bool-cases (k.id == j)) [
  | inl y ↦ ground arith
  | inr n ↦ ground (arith, found_id j ms m)
]

approved_not_escalated : (a : Approval) → (approved_state a == "escalated_to_human") ≡ false
approved_not_escalated agent_handle = refl
approved_not_escalated human_respond = refl

abbrev pub is_escalated : Option MessageRecord → Bool
is_escalated none = false
is_escalated (some m) = m.state == "escalated_to_human"

module _ (now : ℕ) (id : String) (a : Approval) (s : MessageStore) where
  -- A decision acts on a message that waits for the human, and on no other. It then returns that
  -- message with its new state, and changes no message of another id; otherwise it returns nothing
  -- and changes nothing.
  pub review_effect :
      ((m : MessageRecord) × (get_message id s ≡ some m)
        × (m.state ≡ "escalated_to_human")
        × ((approve_message now id a s).1 ≡ some (set_state now id (approved_state a) none m))
        × ((j : String)
            → get_message j (approve_message now id a s).0
              ≡ map_some (set_state now id (approved_state a) none) (get_message j s)))
      ⊎ (is_escalated (get_message id s) ≡ false) × (approve_message now id a s ≡ (s, none))
  unfolding approve_message
  review_effect = elim (Option-cases (get_message id s)) [
    | inl e ↦ inr (ground arith, ground arith)
    | inr (m, e) ↦ elim (Bool-cases (m.state == "escalated_to_human")) [
      | inr n ↦ inr (ground arith, ground arith)
      | inl y ↦ inl (
        m,
        e,
        ground (arith, eq_iff m.state "escalated_to_human"),
        ground (arith, get_message-update_state now id (approved_state a) none id s),
        λ j. ground (arith, get_message-update_state now id (approved_state a) none j s),
      )
    ]
  ]

  -- A message is reviewed once: after one decision a second on the same message, whatever it is,
  -- returns nothing and changes nothing.
  pub reviewed_once :
      (later : ℕ) (b : Approval)
      → approve_message later id b (approve_message now id a s).0
        ≡ ((approve_message now id a s).0, none)
  unfolding approve_message get_message
  reviewed_once later b = elim (Option-cases (get_message id s)) [
    | inl e ↦ ground arith
    | inr (m, e) ↦ elim (Bool-cases (m.state == "escalated_to_human")) [
      | inr n ↦ ground arith
      | inl y ↦ ground (
        arith,
        found_id id s.messages m,
        approved_not_escalated a,
        get_message-update_state now id (approved_state a) none id s,
      )
    ]
  ]
