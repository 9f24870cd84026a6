-- ===== src/Identity.antt =====
-- skill/src/identity.ts: the address of a key at a relay, and its parsing; KeyFile has the key
-- file. Base58, SHA-256 and the decoding of Base64 are libraries: they are the
-- parameter `Encodings`.
pub mod KeyFile
pub mod Matching
pub mod RoundTrip
use Prim.Native.Char.{Char, code}
use Prim.Native.String.{◌++◌ as text_append}
use pinch.Prelude.Act.{
  Result, ok, throw, range_error, non_base58, invalid_address_format, invalid_payload_length,
  checksum_mismatch,
}
use pinch.Prelude.Bytes.{to_list, of_list, eq_bytes, replicate}
use pinch.Prelude.{
  ℕ, String, Bool, true, false, ◌&&◌, ◌||◌, not, Option, none, some, List, [], ◌∷◌, ◌++◌, eqb, leb,
  length, take, drop, if◌then◌else◌,
}
use pinch.Wire.{Bytes}

pub record Encodings : Type 0 where
  -- `bs58.encode`, and `bs58.decode`, which throws on a character of no digit
  pub base58_encode : Bytes → String
  pub base58_decode : String → Option Bytes
  -- `createHash("sha256").update(bytes).digest()`
  pub digest : Bytes → Bytes
  -- `Buffer.from(text, "base64")`
  pub from_base64 : String → Bytes

abbrev between : ℕ → ℕ → ℕ → Bool
between a b n = leb a n && leb n b

-- `[1-9A-HJ-NP-Za-km-z]`
unfoldable pub is_base58 : Char → Bool
is_base58 c =
    between b'1' b'9' (code c)
    || (between b'A' b'H' (code c)
        || (between b'J' b'N' (code c)
            || (between b'P' b'Z' (code c)
                || (between b'a' b'k' (code c) || between b'm' b'z' (code c)))))

-- `.` matches all but these.
abbrev pub ends_line : Char → Bool
ends_line c = eqb (code c) b'\n' || (eqb (code c) b'\r' || (eqb (code c) 8232 || eqb (code c) 8233))

abbrev pub is_at : Char → Bool
is_at c = eqb (code c) b'@'

unfoldable pub strip_prefix : List Char → List Char → Option (List Char)
strip_prefix [] s = some s
strip_prefix (p ∷ ps) [] = none
strip_prefix (p ∷ ps) (c ∷ s) =
    let rest = strip_prefix ps s in if eqb (code p) (code c) then rest else none

-- The digits at the front, and what follows.
unfoldable pub base58_digits : List Char → List Char × List Char
base58_digits [] = ([], [])
base58_digits (c ∷ s) =
    let (digits, rest) = base58_digits s in if is_base58 c then (c ∷ digits, rest) else ([], c ∷ s)

unfoldable pub one_line : List Char → Bool
one_line [] = true
one_line (c ∷ s) = let rest = one_line s in not (ends_line c) && rest

abbrev pub is_empty : List Char → Bool
is_empty [] = true
is_empty (c ∷ s) = false

abbrev pub is_host : List Char → Bool
is_host s = not (is_empty s) && one_line s

-- After the digits: `@` and the host. No digit is an `@`, so the digits are the longest run.
unfoldable pub match_host : List Char → List Char → Option (List Char × List Char)
match_host digits [] = none
match_host digits (c ∷ host) =
    if not (is_empty digits) && (is_at c && is_host host) then some (digits, host) else none

-- `ADDRESS_REGEX.exec`: its two groups.
unfoldable pub match_address : List Char → Option (List Char × List Char)
match_address s = elim (strip_prefix (to_list "pinch:") s) [
  | none ↦ none
  | some rest ↦ match_host (base58_digits rest).0 (base58_digits rest).1
]

abbrev pub checksum : Encodings → Bytes → Bytes
checksum enc key = take 4 (enc.digest key)

-- `new Uint8Array(36)` with the key and the checksum set into it.
unfoldable pub address_payload : Encodings → Bytes → Bytes
address_payload enc key = take 32 (key ++ replicate 32 0) ++ checksum enc key

-- `generateAddress`; a key of more than 36 bytes does not fit into the array.
unfoldable pub generate_address : Encodings → Bytes → String → Result String
generate_address enc key host =
    if leb (length key) 36
    then ok (
        text_append "pinch:"
          (text_append (enc.base58_encode (address_payload enc key)) (text_append "@" host)))
    else throw range_error

unfoldable pub check_payload : Encodings → String → Bytes → Result (Bytes × String)
check_payload enc host decoded =
    if eqb (length decoded) 36
    then (if eq_bytes (take 4 (drop 32 decoded)) (checksum enc (take 32 decoded))
        then ok (take 32 decoded, host)
        else throw checksum_mismatch)
    else throw invalid_payload_length

abbrev pub decode_payload : Encodings → String → Option Bytes → Result (Bytes × String)
decode_payload enc host none = throw non_base58
decode_payload enc host (some decoded) = check_payload enc host decoded

-- `validateAddress`: the key and the host
unfoldable pub validate_address : Encodings → String → Result (Bytes × String)
validate_address enc addr = elim (match_address (to_list addr)) [
  | none ↦ throw invalid_address_format
  | some (digits, host) ↦ decode_payload enc (of_list host) (enc.base58_decode (of_list digits))
]
