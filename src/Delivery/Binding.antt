-- ===== src/Delivery/Binding.antt =====
-- What a delivery confirmation is bound to (skill/src/delivery.ts).
use mathlib.Core.List.{append_assoc, append-nil}
use pinch.Prelude.{
  ℕ, zero, suc, ◌/◌, ◌%◌, ◌^◌, ◌<◌, ◌≡◌, ◌↔◌, refl, sym, ◌∙◌, true, [], ◌∷◌, ◌++◌, arith,
}
use pinch.Wire.{Bytes}
use pinch.Delivery.{
  Signatures, big_endian, build_payload, sign_delivery_confirmation, verify_delivery_confirmation,
}

snoc_injective : (xs ys : Bytes) (x y : ℕ) → xs ++ x ∷ [] ≡ ys ++ y ∷ [] → (xs ≡ ys) × (x ≡ y)
snoc_injective [] [] x y h = (refl, ground arith)
snoc_injective [] (b ∷ []) x y h = absurd (ground arith)
snoc_injective [] (b ∷ c ∷ ys) x y h = absurd (ground arith)
snoc_injective (a ∷ []) [] x y h = absurd (ground arith)
snoc_injective (a ∷ c ∷ xs) [] x y h = absurd (ground arith)
snoc_injective (a ∷ xs) (b ∷ ys) x y h =
    let (p, q) = snoc_injective xs ys x y (ground arith) in (ground arith, q)

-- A number of so many bytes and what stands before it are both read back.
big_endian_injective :
    (n : ℕ) (xs ys : Bytes) (t u : ℕ)
    → t < 256 ^ n
    → u < 256 ^ n
    → xs ++ big_endian n t ≡ ys ++ big_endian n u
    → (xs ≡ ys) × (t ≡ u)
unfolding big_endian
big_endian_injective zero xs ys t u lt lu h = (sym (append-nil xs) ∙ h ∙ append-nil ys, omega arith)
big_endian_injective (suc n) xs ys t u lt lu h =
    let (p, q) =
      snoc_injective (xs ++ big_endian n (t / 256)) (ys ++ big_endian n (u / 256)) (t % 256)
        (u % 256)
        (append_assoc xs (big_endian n (t / 256)) _
          ∙ h
          ∙ sym (append_assoc ys (big_endian n (u / 256)) _)) in
    let (r, e) = big_endian_injective n xs ys (t / 256) (u / 256) (omega arith) (omega arith) p in
    (r, omega arith)

-- The signed payload determines the message and the time: no two confirmations of times below
-- 2 ^ 63 have the same payload, whatever the lengths of their message ids.
pub build_payload_binds :
    (a b : Bytes) (t u : ℕ)
    → t < 2 ^ 63
    → u < 2 ^ 63
    → build_payload a t ≡ build_payload b u
    → (a ≡ b) × (t ≡ u)
unfolding build_payload
build_payload_binds a b t u lt lu h =
    let (p, q) =
      big_endian_injective 8 a b (t % 2 ^ 64) (u % 2 ^ 64) (omega arith) (omega arith) h in
    (p, omega arith)

-- A confirmation that was signed verifies, under the signer's public key, for its own message and
-- time and for no other. Assumed is that the scheme accepts a signature of that key pair for the
-- text that was signed, and for no other text.
pub confirmation_verifies_iff :
    (s : Signatures) (private_key public_key : Bytes)
    → ((m n : Bytes) → (s.verify (s.sign m private_key) n public_key ≡ true) ↔ (m ≡ n))
    → (a b : Bytes) (t u : ℕ) → t < 2 ^ 63
    → u < 2 ^ 63
    → (verify_delivery_confirmation s (sign_delivery_confirmation s a t private_key) b u public_key
        ≡ true)
      ↔ ((a ≡ b) × (t ≡ u))
unfolding sign_delivery_confirmation verify_delivery_confirmation
confirmation_verifies_iff s private_key public_key scheme a b t u lt lu = (
  λ v. build_payload_binds a b t u lt lu ((scheme _ _).0 v),
  λ (p, q). (scheme _ _).1 (rw (p, q) refl),
)
