-- ===== src/Identity/RoundTrip.antt =====
-- Addresses written and read back (skill/src/identity.ts).
use Prim.Native.String.{◌++◌ as text_append}
use pinch.Prelude.Act.{ok}
use pinch.Prelude.Bytes.{
  to_list, of_list, to_list-append, to_list-of_list, of_list-to_list, eq_bytes, eq_bytes_iff,
  eq_bytes_refl, replicate,
}
use pinch.Prelude.{
  ℕ, zero, suc, ◌+◌, ◌≤◌, String, ◌≡◌, ◌↔◌, refl, sym, ap, ◌∙◌, true, false, some, [], ◌∷◌, ◌++◌,
  All, take-append, drop-append, length, length-append, take, drop, eqb, arith, Bool-cases,
  Option-cases, inl, inr,
}
use pinch.Wire.{Bytes}
use pinch.Identity.{
  Encodings, is_base58, is_empty, is_host, match_address, checksum, address_payload,
  generate_address, check_payload, validate_address,
}
use pinch.Identity.Matching.{at_sign, match_address-form, match_address-some}

length-take_exact : (n : ℕ) (xs : Bytes) → n ≤ length xs → length (take n xs) ≡ n
length-take_exact zero xs h = refl
length-take_exact (suc n) [] h = absurd (omega arith)
length-take_exact (suc n) (x ∷ xs) h = omega (arith, length-take_exact n xs (omega arith))

take_all : (n : ℕ) (xs : Bytes) → length xs ≤ n → take n xs ≡ xs
take_all zero [] h = refl
take_all zero (x ∷ xs) h = absurd (omega arith)
take_all (suc n) [] h = refl
take_all (suc n) (x ∷ xs) h = ap (◌∷◌ x) (take_all n xs (omega arith))

take-drop : (n : ℕ) (xs : Bytes) → take n xs ++ drop n xs ≡ xs
take-drop zero xs = refl
take-drop (suc n) [] = refl
take-drop (suc n) (x ∷ xs) = ap (◌∷◌ x) (take-drop n xs)

length-drop_exact : (n m : ℕ) (xs : Bytes) → length xs ≡ n + m → length (drop n xs) ≡ m
length-drop_exact zero m xs h = omega arith
length-drop_exact (suc n) m [] h = absurd (omega arith)
length-drop_exact (suc n) m (x ∷ xs) h = length-drop_exact n m xs (omega arith)

abbrev pub address_text : Encodings → Bytes → String → String
address_text enc key host =
    text_append "pinch:"
      (text_append (enc.base58_encode (address_payload enc key)) (text_append "@" host))

to_list-address_text :
    (enc : Encodings) (key : Bytes) (host : String)
    → to_list (address_text enc key host)
      ≡ to_list "pinch:"
        ++ (to_list (enc.base58_encode (address_payload enc key)) ++ at_sign ∷ to_list host)
to_list-address_text enc key host =
    let e = enc.base58_encode (address_payload enc key) in
    to_list-append "pinch:" (text_append e (text_append "@" host))
    ∙ ap (λ r. to_list "pinch:" ++ r)
        (to_list-append e (text_append "@" host)
          ∙ ap (λ r. to_list e ++ r) (to_list-append "@" host))

module _ (enc : Encodings) (digest_length : (b : Bytes) → length (enc.digest b) ≡ 32)
    (decode_encode : (b : Bytes) → enc.base58_decode (enc.base58_encode b) ≡ some b)
    (encode_decode : (s : String) (b : Bytes)
      → enc.base58_decode s ≡ some b
      → enc.base58_encode b ≡ s)
    (encode_digits : (b : Bytes) → All (λ c. is_base58 c ≡ true) (to_list (enc.base58_encode b)))
    (encode_nonempty : (b : Bytes)
      → length b ≡ 36
      → is_empty (to_list (enc.base58_encode b)) ≡ false) where
  length-checksum : (key : Bytes) → length (checksum enc key) ≡ 4
  length-checksum key = length-take_exact 4 (enc.digest key) (omega (arith, digest_length key))

  address_payload-key :
      (key : Bytes) → length key ≡ 32 → address_payload enc key ≡ key ++ checksum enc key
  unfolding address_payload
  address_payload-key key h =
      ap (λ k. k ++ checksum enc key) (rw (← h) (take-append key (replicate 32 0)))

  check_payload-key :
      (key : Bytes) (host : String)
      → length key ≡ 32
      → check_payload enc host (key ++ checksum enc key) ≡ ok (key, host)
  unfolding check_payload
  check_payload-key key host h =
      let t : take 32 (key ++ checksum enc key) ≡ key =
        rw (← h) (take-append key (checksum enc key)) in
      let d : drop 32 (key ++ checksum enc key) ≡ checksum enc key =
        rw (← h) (drop-append key (checksum enc key)) in
      let c : take 4 (checksum enc key) ≡ checksum enc key =
        take_all 4 (checksum enc key) (omega (arith, length-checksum key)) in
      let l : eqb (length (key ++ checksum enc key)) 36 ≡ true =
        ground (arith, length-append key (checksum enc key), length-checksum key) in
      rw (l, t, d, c, eq_bytes_refl (checksum enc key)) refl

  validate-generate :
      (key : Bytes) (host : String)
      → length key ≡ 32
      → is_host (to_list host) ≡ true
      → validate_address enc (address_text enc key host) ≡ ok (key, host)
  unfolding validate_address
  validate-generate key host l h =
      let e = enc.base58_encode (address_payload enc key) in
      let full : length (address_payload enc key) ≡ 36 =
        ap length (address_payload-key key l)
        ∙ omega (arith, length-append key (checksum enc key), length-checksum key) in
      let found : match_address (to_list (address_text enc key host))
          ≡ some (to_list e, to_list host) =
        ap match_address (to_list-address_text enc key host)
        ∙ match_address-form (to_list e) (to_list host) (encode_digits _) (encode_nonempty _ full)
            h in
      rw
        (
          found,
          validate_address,
          of_list-to_list host,
          of_list-to_list e,
          decode_encode (address_payload enc key),
          address_payload-key key l,
        )
        (check_payload-key key host l)

  check_payload-ok :
      (found host : String) (decoded key : Bytes)
      → check_payload enc found decoded ≡ ok (key, host)
      → (length decoded ≡ 36)
        × (key ≡ take 32 decoded)
        × (host ≡ found)
        × (decoded ≡ key ++ checksum enc key)
  unfolding check_payload
  check_payload-ok found host decoded key h = elim (Bool-cases (eqb (length decoded) 36)) [
    | inr n ↦ absurd (ground arith)
    | inl l ↦
        elim (Bool-cases (eq_bytes (take 4 (drop 32 decoded)) (checksum enc (take 32 decoded)))) [
          | inr n ↦ absurd (ground arith)
          | inl y ↦
              let full : length decoded ≡ 36 = ground arith in
              let k : key ≡ take 32 decoded = ground arith in
              let rest : take 4 (drop 32 decoded) ≡ drop 32 decoded =
                take_all 4 (drop 32 decoded) (omega (arith, length-drop_exact 32 4 decoded full)) in
              let sum : drop 32 decoded ≡ checksum enc key =
                sym rest ∙ (eq_bytes_iff _ _).0 y ∙ ap (checksum enc) (sym k) in
              (full, k, ground arith, sym (take-drop 32 decoded) ∙ rw (sum, k) refl)
        ]
  ]

  validate_address-ok :
      (addr host : String) (key : Bytes)
      → validate_address enc addr ≡ ok (key, host)
      → (length key ≡ 32) × (is_host (to_list host) ≡ true) × (address_text enc key host ≡ addr)
  unfolding validate_address
  validate_address-ok addr host key h = elim (Option-cases (match_address (to_list addr))) [
    | inl n ↦ absurd (ground arith)
    | inr ((digits, rest), e) ↦ elim (Option-cases (enc.base58_decode (of_list digits))) [
      | inl n ↦ absurd (ground arith)
      | inr (decoded, d) ↦
          let (full, k, same, joined) =
            check_payload-ok (of_list rest) host decoded key (ground arith) in
          let (ds, filled, good, form) = match_address-some (to_list addr) digits rest e in
          let l : length key ≡ 32 =
            ap length k ∙ length-take_exact 32 decoded (omega (arith, full)) in
          let text : enc.base58_encode (address_payload enc key) ≡ of_list digits =
            encode_decode (of_list digits) (address_payload enc key)
              (d ∙ ap some (joined ∙ sym (address_payload-key key l))) in
          let written : to_list (address_text enc key host) ≡ to_list addr =
            to_list-address_text enc key host
            ∙ rw (text, same, to_list-of_list digits, to_list-of_list rest) (sym form) in
          (
            l,
            rw (same, to_list-of_list rest) good,
            sym (of_list-to_list (address_text enc key host))
                ∙ ap of_list written
                ∙ of_list-to_list addr,
          )
    ]
  ]

  -- An address is read as a key of 32 bytes and a host exactly when it is the address that is written
  -- for them and the host is one line, not empty: what is written is read back, and nothing else is
  -- accepted. Assumed of the libraries are a digest of 32 bytes, Base58 encoding and decoding that
  -- undo each other, and Base58 texts made of its digits, not empty for 36 bytes.
  pub validate_address_iff :
      (addr host : String) (key : Bytes)
      → (validate_address enc addr ≡ ok (key, host)) ↔ (
          (length key ≡ 32)
          × (is_host (to_list host) ≡ true)
          × (generate_address enc key host ≡ ok addr))
  unfolding generate_address
  validate_address_iff addr host key = (
    λ h.
        let (l, good, same) = validate_address-ok addr host key h in
        (l, good, ground (arith, same, l)),
    λ (l, good, written).
        let same : address_text enc key host ≡ addr = ground (arith, l) in
        rw (← same) (validate-generate key host l good),
  )
