-- ===== src/RelayClient/Challenge.antt =====
-- What an answer to the relay's challenge is bound to (skill/src/relay-client.ts, `buildSignPayload`).
use pinch.Prelude.{String, ◌≡◌, ◌↔◌, refl, ap, true, [], ◌∷◌, ◌++◌, length, length-append, arith}
use pinch.Wire.{Bytes}
use pinch.RelayClient.{Protocol, ClientConfig, build_sign_payload, auth_response}

cancel_front : (p a b : Bytes) → p ++ a ≡ p ++ b → a ≡ b
cancel_front [] a b h = h
cancel_front (x ∷ p) a b h = cancel_front p a b (ground arith)

-- Ends of one length are the same ends.
cancel_back : (a b m n : Bytes) → length m ≡ length n → a ++ m ≡ b ++ n → (a ≡ b) × (m ≡ n)
cancel_back [] [] m n l h = (refl, h)
cancel_back [] (y ∷ b) m n l h = absurd (omega (arith, l, ap length h, length-append b n))
cancel_back (x ∷ a) [] m n l h = absurd (omega (arith, l, ap length h, length-append a m))
cancel_back (x ∷ a) (y ∷ b) m n l h =
    let (p, q) = cancel_back a b m n l (ground arith) in (ground arith, q)

sign_payload_binds :
    (pr : Protocol) (g h : String) (m n : Bytes)
    → length m ≡ length n
    → build_sign_payload pr g m ≡ build_sign_payload pr h n
    → (pr.encode_text g ≡ pr.encode_text h) × (m ≡ n)
unfolding build_sign_payload
sign_payload_binds pr g h m n l e =
    let tail : 0 ∷ (pr.encode_text g ++ 0 ∷ m) ≡ 0 ∷ (pr.encode_text h ++ 0 ∷ n) =
      cancel_front (pr.encode_text "pinch-auth-v1") _ _ e in
    let (p, q) =
      cancel_back (pr.encode_text g) (pr.encode_text h) (0 ∷ m) (0 ∷ n) (ground arith)
        (ground arith) in
    (p, ground arith)

-- The answer to a challenge verifies, under the client's public key, for the host and the nonce of
-- that challenge and for no other pair with a nonce of 32 bytes. Assumed are that the encoding of
-- texts loses nothing, and that the scheme accepts a signature of the client's key pair for the bytes
-- that were signed and for no others.
pub answer_verifies_iff :
    (cfg : ClientConfig)
    → ((s t : String) → cfg.protocol.encode_text s ≡ cfg.protocol.encode_text t → s ≡ t)
    → ((m n : Bytes)
        → (cfg.protocol.signatures.verify
              (cfg.protocol.signatures.sign m cfg.private_key)
              n
              cfg.public_key
            ≡ true)
          ↔ (m ≡ n))
    → (g h : String) (m n : Bytes) → length m ≡ 32
    → length n ≡ 32
    → (cfg.protocol.signatures.verify
          (auth_response cfg m g).signature
          (build_sign_payload cfg.protocol h n)
          cfg.public_key
        ≡ true)
      ↔ ((g ≡ h) × (m ≡ n))
answer_verifies_iff cfg injective scheme g h m n k l = (
  λ v.
      let (p, q) = sign_payload_binds cfg.protocol g h m n (omega arith) ((scheme _ _).0 v) in
      (injective g h p, q),
  λ (e, f). (scheme _ _).1 (rw (e, f) refl),
)
