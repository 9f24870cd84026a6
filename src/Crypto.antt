-- ===== src/Crypto.antt =====
-- skill/src/crypto.ts: encryption with the nonce in front. The NaCl box and the conversion of keys
-- are libsodium's, and are the parameter `Sodium`; `none` is a call that throws.
use pinch.Prelude.{ℕ, ◌≡◌, Option, some, ◌++◌, length, take, drop, take-append, drop-append}
use pinch.Wire.{Bytes}

pub record Sodium : Type 0 where
  -- `crypto_sign_ed25519_pk_to_curve25519` and `crypto_sign_ed25519_sk_to_curve25519`
  pub pub_to_curve : Bytes → Option Bytes
  pub priv_to_curve : Bytes → Option Bytes
  -- `crypto_box_easy(plaintext, nonce, publicKey, privateKey)`
  pub box : Bytes → Bytes → Bytes → Bytes → Bytes
  -- `crypto_box_open_easy(ciphertext, nonce, publicKey, privateKey)`
  pub open_box : Bytes → Bytes → Bytes → Bytes → Option Bytes

-- `ed25519PubToX25519` and `ed25519PrivToX25519`
abbrev pub ed25519_pub_to_x25519 : Sodium → Bytes → Option Bytes
ed25519_pub_to_x25519 na key = na.pub_to_curve key

abbrev pub ed25519_priv_to_x25519 : Sodium → Bytes → Option Bytes
ed25519_priv_to_x25519 na key = na.priv_to_curve key

-- `sodium.crypto_box_NONCEBYTES`
abbrev pub nonce_bytes : ℕ
nonce_bytes = 24

-- `encryptWithNonce`, and `encrypt` with the random nonce that it draws.
unfoldable pub encrypt : Sodium → Bytes → Bytes → Bytes → Bytes → Bytes
encrypt na nonce plaintext recipient_pub sender_priv =
    nonce ++ na.box plaintext nonce recipient_pub sender_priv

-- `decrypt`
unfoldable pub decrypt : Sodium → Bytes → Bytes → Bytes → Option Bytes
decrypt na sealed sender_pub recipient_priv =
    na.open_box (drop nonce_bytes sealed) (take nonce_bytes sealed) sender_pub recipient_priv

-- What was encrypted is decrypted, between key pairs for which the box opens.
pub decrypt-encrypt :
    (na nb : Sodium) (nonce m pa sa pb sb : Bytes)
    → length nonce ≡ nonce_bytes
    → nb.open_box (na.box m nonce pb sa) nonce pa sb ≡ some m
    → decrypt nb (encrypt na nonce m pb sa) pa sb ≡ some m
unfolding decrypt encrypt
decrypt-encrypt na nb nonce m pa sa pb sb l opens =
    let c = na.box m nonce pb sa in
    let t : take nonce_bytes (nonce ++ c) ≡ nonce = rw (← l) (take-append nonce c) in
    let d : drop nonce_bytes (nonce ++ c) ≡ c = rw (← l) (drop-append nonce c) in
    rw (t, d, decrypt, encrypt) opens
