-- ===== src/Tests/Texts.antt =====
-- Small codecs for the runs: bytes written in unary as an address, characters as their numbers, a
-- plaintext and a wrapper field by field.
use Prim.Native.Char.{Char, code}
use pinch.Prelude.Bytes.{
  to_list, of_list, to_list-of_list, of_list-to_list, code_injective, replicate,
}
use pinch.Prelude.{
  ℕ, zero, suc, String, ◌≡◌, refl, sym, ap, subst, ◌∙◌, true, false, Option, none, some, List, [],
  ◌∷◌, All, eqb, length, if◌then◌else◌, arith, Bool-cases, inl, inr,
}
use pinch.Wire.{Bytes}
use pinch.Identity.{Encodings, is_base58, is_empty}

abbrev one : Char
one = "1"

abbrev two : Char
two = "2"

abbrev write_byte : ℕ → List Char → List Char
write_byte zero s = two ∷ s
write_byte (suc n) s = one ∷ write_byte n s

abbrev write_bytes : Bytes → List Char
write_bytes [] = []
write_bytes (n ∷ b) = write_byte n (write_bytes b)

abbrev more : Option Bytes → Option Bytes
more (some (n ∷ b)) = some (suc n ∷ b)
more _ = none

abbrev next_byte : Option Bytes → Option Bytes
next_byte none = none
next_byte (some b) = some (0 ∷ b)

abbrev read_bytes : List Char → Option Bytes
read_bytes [] = some []
read_bytes (c ∷ s) =
    let rest = read_bytes s in
    if eqb (code c) b'2' then next_byte rest else if eqb (code c) b'1' then more rest else none

read-write_byte :
    (n : ℕ) (s : List Char) (b : Bytes)
    → read_bytes s ≡ some b
    → read_bytes (write_byte n s) ≡ some (n ∷ b)
read-write_byte zero s b h = ap next_byte h
read-write_byte (suc n) s b h = ap more (read-write_byte n s b h)

read-write_bytes : (b : Bytes) → read_bytes (write_bytes b) ≡ some b
read-write_bytes [] = refl
read-write_bytes (n ∷ b) = read-write_byte n (write_bytes b) b (read-write_bytes b)

write-next :
    (rest : Option Bytes) (b : Bytes) (s : List Char)
    → ((x : Bytes) → rest ≡ some x → write_bytes x ≡ s)
    → next_byte rest ≡ some b
    → write_bytes b ≡ two ∷ s
write-next none b s ih h = absurd (ground arith)
write-next (some x) b s ih h = ground (arith, ih x refl)

write-more :
    (rest : Option Bytes) (b : Bytes) (s : List Char)
    → ((x : Bytes) → rest ≡ some x → write_bytes x ≡ s)
    → more rest ≡ some b
    → write_bytes b ≡ one ∷ s
write-more none b s ih h = absurd (ground arith)
write-more (some []) b s ih h = absurd (ground arith)
write-more (some (n ∷ x)) b s ih h = ground (arith, ih (n ∷ x) refl)

write-read_bytes : (s : List Char) (b : Bytes) → read_bytes s ≡ some b → write_bytes b ≡ s
write-read_bytes [] b h = ground arith
write-read_bytes (c ∷ s) b h = elim (Bool-cases (eqb (code c) b'2')) [
  | inl y ↦
      write-next (read_bytes s) b s (write-read_bytes s) (ground arith)
      ∙ ap (λ d. d ∷ s) (code_injective two c (ground arith))
  | inr n ↦ elim (Bool-cases (eqb (code c) b'1')) [
    | inl y ↦
        write-more (read_bytes s) b s (write-read_bytes s) (ground arith)
        ∙ ap (λ d. d ∷ s) (code_injective one c (ground arith))
    | inr m ↦ absurd (ground arith)
  ]
]

digits_byte :
    (n : ℕ) (s : List Char)
    → All (λ c. is_base58 c ≡ true) s
    → All (λ c. is_base58 c ≡ true) (write_byte n s)
unfolding is_base58
digits_byte zero s h = (refl, h)
digits_byte (suc n) s h = (refl, digits_byte n s h)

digits_bytes : (b : Bytes) → All (λ c. is_base58 c ≡ true) (write_bytes b)
digits_bytes [] = tt
digits_bytes (n ∷ b) = digits_byte n (write_bytes b) (digits_bytes b)

filled_byte : (n : ℕ) (s : List Char) → is_empty (write_byte n s) ≡ false
filled_byte zero s = refl
filled_byte (suc n) s = refl

abbrev pub map_code : List Char → Bytes
map_code [] = []
map_code (c ∷ s) = code c ∷ map_code s

-- The digest is the same for all texts.
abbrev pub unary : Encodings
unary = record {
  base58_encode = λ b. of_list (write_bytes b);
  base58_decode = λ s. read_bytes (to_list s);
  digest = λ b. replicate 32 1;
  from_base64 = λ s. map_code (to_list s);
}

pub unary_decodes : (b : Bytes) → unary.base58_decode (unary.base58_encode b) ≡ some b
unary_decodes b = ap read_bytes (to_list-of_list (write_bytes b)) ∙ read-write_bytes b

pub unary_encodes :
    (s : String) (b : Bytes) → unary.base58_decode s ≡ some b → unary.base58_encode b ≡ s
unary_encodes s b h = ap of_list (write-read_bytes (to_list s) b h) ∙ of_list-to_list s

pub unary_digits : (b : Bytes) → All (λ c. is_base58 c ≡ true) (to_list (unary.base58_encode b))
unary_digits b =
    subst (All (λ c. is_base58 c ≡ true)) (sym (to_list-of_list (write_bytes b))) (digits_bytes b)

pub unary_filled : (b : Bytes) → length b ≡ 36 → is_empty (to_list (unary.base58_encode b)) ≡ false
unary_filled [] h = absurd (omega arith)
unary_filled (n ∷ b) h =
    ap is_empty (to_list-of_list (write_bytes (n ∷ b))) ∙ filled_byte n (write_bytes b)
