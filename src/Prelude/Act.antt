-- ===== src/Prelude/Act.antt =====
-- Methods that change an object and may throw. What was written before a throw stays written, so
-- the state comes back beside the error.
use Prim.Native.String.{String}
use mathlib.Core.Path.{◌≡◌, refl}
use mathlib.Core.Logic.{◌⊎◌, inl, inr}

-- The errors that the code throws, each named for its message.
pub data Error : Type 0 where
  connection_not_found : String → Error
  short_message_too_long message_exceeds_limit confirmation_required invalid_manifest : Error
  not_connected_to_relay not_connected invalid_date : Error
  cannot_approve cannot_reject : Error
  constraint_failed : Error
  connection_not_active peer_key_unavailable message_too_large : Error
  range_error non_base58 invalid_key : Error
  expected_encrypted expected_delivery_confirm decryption_failed malformed_payload : Error
  invalid_address_format invalid_payload_length checksum_mismatch : Error
  expected_binary_challenge expected_binary_result expected_auth_challenge expected_auth_result :
      Error
  invalid_nonce_length missing_relay_host relay_host_mismatch malformed_envelope : Error
  auth_failed auth_timed_out closed_during_auth socket_error : Error
  unreadable_file malformed_file unsupported_version malformed_key relay_url_required : Error
  usage : String → Error

pub data Result {ℓ} (A : Type ℓ) : Type ℓ where
  ok : A → Result A
  throw : Error → Result A

abbrev pub Act {ℓ} : Type ℓ → Type ℓ → Type ℓ
Act S A = S → S × Result A

module _ {ℓ} {S A B : Type ℓ} where
  abbrev pub and_then : S × Result A → (A → Act S B) → S × Result B
  and_then (s, ok a) f = f a s
  and_then (s, throw e) f = (s, throw e)

  infixl 5 ◌>>=◌ ◌>>◌
  abbrev pub ◌>>=◌ : Act S A → (A → Act S B) → Act S B
  ◌>>=◌ m f s = and_then (m s) f

  abbrev pub ◌>>◌ : Act S A → Act S B → Act S B
  ◌>>◌ m n s = and_then (m s) (λ _. n)

module _ {ℓ} {S A : Type ℓ} where
  abbrev pub return : A → Act S A
  return a s = (s, ok a)

  abbrev pub fail : Error → Act S A
  fail e s = (s, throw e)

  -- A computation that only reads.
  abbrev pub reads : (S → A) → Act S A
  reads f s = (s, ok (f s))

pub Result-cases {ℓ} :
    {A : Type ℓ} (r : Result A) → ((a : A) × (r ≡ ok a)) ⊎ ((e : Error) × (r ≡ throw e))
Result-cases (ok a) = inl (a, refl)
Result-cases (throw e) = inr (e, refl)
