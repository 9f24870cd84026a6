-- ===== src/System/Distinct.antt =====
-- Lists of message ids, each at most once (skill/src/message-store.ts, the primary key).
use pinch.Prelude.{
  String, ◌≡◌, refl, inl, inr, true, false, none, List, [], ◌∷◌, ◌++◌, ◌==◌, map, eq_iff, eq_refl,
  arith, Bool-cases,
}
use pinch.Messages.{MessageRecord, find_message}
use pinch.Feed.{contains}

abbrev pub Distinct : List String → Type 0
Distinct [] = Unit
Distinct (x ∷ xs) = (contains xs x ≡ false) × Distinct xs

contains-append :
    (xs ys : List String) (s : String)
    → contains xs s ≡ false
    → contains ys s ≡ false
    → contains (xs ++ ys) s ≡ false
contains-append [] ys s h k = k
contains-append (x ∷ xs) ys s h k = ground (arith, h, k, contains-append xs ys s)

pub contains-front :
    (xs ys : List String) (s : String) → contains xs s ≡ true → contains (xs ++ ys) s ≡ true
contains-front [] ys s h = absurd (ground (arith, h))
contains-front (x ∷ xs) ys s h = ground (arith, h, contains-front xs ys s)

pub contains-last : (xs : List String) (s : String) → contains (xs ++ s ∷ []) s ≡ true
contains-last [] s = ground (arith, eq_refl s)
contains-last (x ∷ xs) s = ground (arith, contains-last xs s)

pub find_message-contains :
    (id : String) (ms : List MessageRecord)
    → find_message id ms ≡ none
    → contains (map (λ m. m.id) ms) id ≡ false
unfolding find_message
find_message-contains id [] h = refl
find_message-contains id (m ∷ ms) h = ground (arith, h, find_message-contains id ms)

without :
    (xs ys : List String) (y s : String)
    → contains (xs ++ y ∷ ys) s ≡ false
    → contains (xs ++ ys) s ≡ false
without [] ys y s h = ground (arith, h)
without (x ∷ xs) ys y s h = ground (arith, h, without xs ys y s)

pub Distinct-less :
    (xs ys : List String) (y : String) → Distinct (xs ++ y ∷ ys) → Distinct (xs ++ ys)
Distinct-less [] ys y h = h.1
Distinct-less (x ∷ xs) ys y h = (without xs ys y x h.0, Distinct-less xs ys y h.1)

eq_flip : (a b : String) → (a == b) ≡ false → (b == a) ≡ false
eq_flip a b h = elim (Bool-cases (b == a)) [
  | inr n ↦ n
  | inl y ↦ absurd (ground (arith, h, y, eq_iff a b, eq_iff b a))
]

not_first :
    (x : String) (xs : List String) (s : String) → contains (x ∷ xs) s ≡ false → (x == s) ≡ false
not_first x xs s h = elim (Bool-cases (x == s)) [
  | inr n ↦ n
  | inl y ↦ absurd (ground (arith, h, y))
]

pub Distinct-last :
    (xs : List String) (s : String) → Distinct xs → contains xs s ≡ false → Distinct (xs ++ s ∷ [])
Distinct-last [] s h k = (refl, tt)
Distinct-last (x ∷ xs) s h k = (
  contains-append xs (s ∷ []) x h.0 (ground (arith, eq_flip x s (not_first x xs s k))),
  Distinct-last xs s h.1 (ground (arith, k)),
)
