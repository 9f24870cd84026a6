-- ===== src/Identity/Matching.antt =====
-- What the pattern of an address matches (skill/src/identity.ts, `ADDRESS_REGEX`).
use Prim.Native.Char.{Char, code}
use pinch.Prelude.Bytes.{to_list, code_injective}
use pinch.Prelude.{
  ◌≡◌, refl, ap, ◌∙◌, true, false, ◌&&◌, not, some, List, [], ◌∷◌, ◌++◌, eqb, All, arith,
  Bool-cases, Option-cases, inl, inr,
}
use pinch.Identity.{
  is_base58, is_at, is_empty, is_host, strip_prefix, base58_digits, match_host, match_address,
}

pub strip_prefix-append : (p s : List Char) → strip_prefix p (p ++ s) ≡ some s
unfolding strip_prefix
strip_prefix-append [] s = refl
strip_prefix-append (c ∷ p) s = ground (arith, strip_prefix-append p s)

strip_prefix-some : (p s rest : List Char) → strip_prefix p s ≡ some rest → s ≡ p ++ rest
unfolding strip_prefix
strip_prefix-some [] s rest h = ground arith
strip_prefix-some (c ∷ p) [] rest h = absurd (ground arith)
strip_prefix-some (c ∷ p) (d ∷ s) rest h = elim (Bool-cases (eqb (code c) (code d))) [
  | inl y ↦ rw (code_injective c d y) (ap (◌∷◌ d) (strip_prefix-some p s rest (ground arith)))
  | inr n ↦ absurd (ground arith)
]

base58_digits-append :
    (digits : List Char) (c : Char) (rest : List Char)
    → All (λ d. is_base58 d ≡ true) digits
    → is_base58 c ≡ false
    → base58_digits (digits ++ c ∷ rest) ≡ (digits, c ∷ rest)
unfolding base58_digits
base58_digits-append [] c rest h n = ground arith
base58_digits-append (d ∷ digits) c rest h n =
    ground (arith, base58_digits-append digits c rest h.1 n)

base58_digits-join : (s : List Char) → s ≡ (base58_digits s).0 ++ (base58_digits s).1
unfolding base58_digits
base58_digits-join [] = refl
base58_digits-join (c ∷ s) = ground (arith, base58_digits-join s)

base58_digits-All : (s : List Char) → All (λ d. is_base58 d ≡ true) (base58_digits s).0
unfolding base58_digits
base58_digits-All [] = tt
base58_digits-All (c ∷ s) = ground (arith, base58_digits-All s)

at_is_no_digit : (c : Char) → is_at c ≡ true → is_base58 c ≡ false
unfolding is_base58
at_is_no_digit c h = ground arith

abbrev pub at_sign : Char
at_sign = "@"

pub match_address-form :
    (digits host : List Char)
    → All (λ d. is_base58 d ≡ true) digits
    → is_empty digits ≡ false
    → is_host host ≡ true
    → match_address (to_list "pinch:" ++ (digits ++ at_sign ∷ host)) ≡ some (digits, host)
unfolding match_address match_host
match_address-form digits host d e h = ground (
  arith,
  strip_prefix-append (to_list "pinch:") (digits ++ at_sign ∷ host),
  base58_digits-append digits at_sign host d (at_is_no_digit at_sign refl),
)

match_host-some :
    (digits s found host : List Char)
    → match_host digits s ≡ some (found, host)
    → (found ≡ digits) × (s ≡ at_sign ∷ host) × (is_empty digits ≡ false) × (is_host host ≡ true)
unfolding match_host
match_host-some digits [] found host h = absurd (ground arith)
match_host-some digits (c ∷ s) found host h =
    elim (Bool-cases (not (is_empty digits) && (is_at c && is_host s))) [
      | inl y ↦ (
        ground arith,
        rw (code_injective c at_sign (ground arith)) (ap (◌∷◌ at_sign) (ground arith)),
        ground arith,
        ground arith,
      )
      | inr n ↦ absurd (ground arith)
    ]

pub match_address-some :
    (s digits host : List Char)
    → match_address s ≡ some (digits, host)
    → All (λ d. is_base58 d ≡ true) digits
      × (is_empty digits ≡ false)
      × (is_host host ≡ true)
      × (s ≡ to_list "pinch:" ++ (digits ++ at_sign ∷ host))
unfolding match_address
match_address-some s digits host h = elim (Option-cases (strip_prefix (to_list "pinch:") s)) [
  | inl n ↦ absurd (ground arith)
  | inr (rest, e) ↦
      let (same, tail, full, good) =
        match_host-some (base58_digits rest).0 (base58_digits rest).1 digits host (ground arith) in
      (
        rw same (base58_digits-All rest),
        rw same full,
        good,
        strip_prefix-some (to_list "pinch:") s rest e
            ∙ ap (λ r. to_list "pinch:" ++ r) (base58_digits-join rest ∙ rw (same, tail) refl),
      )
]
