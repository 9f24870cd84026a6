-- ===== src/Prelude/Bytes.antt =====
-- Bytes as numbers, and texts as lists of characters.
use Prim.Native.Char.{Char, code}
use Prim.Native.Nat.{ℕ, zero, suc}
use Prim.Native.String.{String, ◌++◌ as text_append}
use mathlib.Core.Path.{◌≡◌, refl, sym, ap, ◌∙◌}
use mathlib.Core.Logic.{◌↔◌}
use mathlib.Core.Bool.{Bool, true, false, ◌&&◌}
use mathlib.Core.List.{List, [], ◌∷◌, ◌++◌}
use native.Mathlib.Omega.{arith}
pub use text.Mathlib.TextBridge.{of_list, of_list-++}
use text.Mathlib.TextEquality.{Char-path}
use pinch.Prelude.Tests.{eqb}

-- The characters of a text.
abbrev pub to_list : String → List Char
to_list String.[] = []
to_list (String.◌∷◌ c s) = c ∷ to_list s

pub to_list-of_list : (l : List Char) → to_list (of_list l) ≡ l
to_list-of_list [] = refl
to_list-of_list (c ∷ l) = ap (λ m. c ∷ m) (to_list-of_list l)

pub of_list-to_list : (s : String) → of_list (to_list s) ≡ s
of_list-to_list String.[] = refl
of_list-to_list (String.◌∷◌ c s) = ap (λ t. String.◌∷◌ c t) (of_list-to_list s)

-- Lists of bytes compared byte by byte.
abbrev pub eq_bytes : List ℕ → List ℕ → Bool
eq_bytes [] [] = true
eq_bytes (x ∷ xs) (y ∷ ys) = eqb x y && eq_bytes xs ys
eq_bytes _ _ = false

eq_bytes-true : (xs ys : List ℕ) → eq_bytes xs ys ≡ true → xs ≡ ys
eq_bytes-true [] [] h = refl
eq_bytes-true [] (y ∷ ys) h = absurd (ground arith)
eq_bytes-true (x ∷ xs) [] h = absurd (ground arith)
eq_bytes-true (x ∷ xs) (y ∷ ys) h = ground (arith, eq_bytes-true xs ys)

pub eq_bytes_refl : (xs : List ℕ) → eq_bytes xs xs ≡ true
eq_bytes_refl [] = refl
eq_bytes_refl (x ∷ xs) = ground (arith, eq_bytes_refl xs)

pub eq_bytes_iff : (xs ys : List ℕ) → (eq_bytes xs ys ≡ true) ↔ (xs ≡ ys)
eq_bytes_iff xs ys = (eq_bytes-true xs ys, λ e. rw e (eq_bytes_refl ys))

abbrev pub replicate {ℓ} : {A : Type ℓ} → ℕ → A → List A
replicate zero x = []
replicate (suc n) x = x ∷ replicate n x

pub to_list-append : (s t : String) → to_list (text_append s t) ≡ to_list s ++ to_list t
to_list-append s t =
    let joined : of_list (to_list s ++ to_list t) ≡ text_append s t =
      of_list-++ (to_list s) (to_list t) ∙ rw (of_list-to_list s, of_list-to_list t) refl in
    ap to_list (sym joined) ∙ to_list-of_list (to_list s ++ to_list t)

pub code_injective : (c d : Char) → eqb (code c) (code d) ≡ true → c ≡ d
code_injective c d h = Char-path c d (ground arith)
