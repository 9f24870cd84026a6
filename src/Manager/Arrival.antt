-- ===== src/Manager/Arrival.antt =====
-- A message from one agent's manager to another's (skill/src/message-manager.ts).
use pinch.Prelude.Act.{ok}
use pinch.Prelude.{
  ℕ, String, ◌≡◌, refl, ap, some, ◌++◌, length, take, drop, take-append, drop-append, ◌or◌, arith,
}
use pinch.Messages.{Attribution, agent, human}
use pinch.Wire.{Bytes}
use pinch.Crypto.{nonce_bytes, encrypt, decrypt, decrypt-encrypt}
use pinch.Manager.{
  Plaintext, Wrapper, Setup, SendMessageParams, attribution_text, wrapped, plaintext,
  message_envelope, seal,
}
use pinch.Manager.Receiving.{
  Contents, read_attribution, read_contents, inbound_record, open_encrypted, open_message,
}

abbrev pub sent_contents : SendMessageParams → String → Contents
sent_contents p thread = record {
  body = p.body;
  attribution = p.attribution or agent;
  thread_id = some thread;
  reply_to = p.reply_to;
}

split_nonce :
    (n c : Bytes)
    → length n ≡ nonce_bytes
    → take nonce_bytes (n ++ c) ++ drop nonce_bytes (n ++ c) ≡ n ++ c
split_nonce n c l =
    let t : take nonce_bytes (n ++ c) ≡ n = rw (← l) (take-append n c) in
    let d : drop nonce_bytes (n ++ c) ≡ c = rw (← l) (drop-append n c) in rw (t, d) refl

attribution_read : (x : Attribution) → read_attribution (some (attribution_text x)) ≡ x
attribution_read agent = refl
attribution_read human = refl

module _ (a b : Setup)
    (wrapper_read : (w : Wrapper) → b.codecs.parse_json (a.codecs.stringify w) ≡ some w)
    (text_read : (s : String) → b.codecs.decode_text (a.codecs.encode_text s) ≡ s)
    (plaintext_read : (q : Plaintext)
      → b.codecs.decode_plaintext (a.codecs.encode_plaintext q) ≡ some q) where
  read_contents-wrapped :
      (now : ℕ) (p : SendMessageParams) (thread : String) (n : ℕ)
      → read_contents b.codecs (plaintext a.codecs now p thread n) ≡ sent_contents p thread
  unfolding read_contents
  read_contents-wrapped now p thread n =
      rw
        (
          text_read (a.codecs.stringify (wrapped p thread)),
          read_contents,
          wrapper_read (wrapped p thread),
        )
        (ap (λ x. record (sent_contents p thread) { attribution = x })
          (attribution_read (p.attribution or agent)))

  -- What one agent seals for another's key, the other opens: the record that it stores has the id,
  -- the body, the attribution, the thread, the message replied to and the sequence number of the
  -- message sent. Assumed are that the codecs read what they write, a nonce of 24 bytes, and a box
  -- between the two key pairs that opens.
  pub message_arrives :
      (now t : ℕ) (own to id thread : String) (p : SendMessageParams) (n : ℕ)
      (nonce pa sa pb sb : Bytes)
      → length nonce ≡ nonce_bytes
      → a.sodium.priv_to_curve a.private_key ≡ some sa
      → a.sodium.pub_to_curve b.public_key ≡ some pb
      → b.sodium.priv_to_curve b.private_key ≡ some sb
      → b.sodium.pub_to_curve a.public_key ≡ some pa
      → ((m : Bytes) → b.sodium.open_box (a.sodium.box m nonce pb sa) nonce pa sb ≡ some m)
      → (sealed : Bytes)
      → seal a nonce b.public_key (a.codecs.encode_plaintext (plaintext a.codecs now p thread n))
        ≡ ok sealed
      → open_message b t (message_envelope a now own to id sealed)
        ≡ ok (inbound_record t id own n (sent_contents p thread))
  unfolding open_encrypted
  message_arrives now t own to id thread p n nonce pa sa pb sb l ka kb kc kd opens sealed s =
      let m = a.codecs.encode_plaintext (plaintext a.codecs now p thread n) in
      let whole : sealed ≡ encrypt a.sodium nonce m pb sa = ground arith in
      let joined : take nonce_bytes sealed ++ drop nonce_bytes sealed ≡ sealed =
        rw whole (unfold encrypt in split_nonce nonce (a.sodium.box m nonce pb sa) l) in
      let clear : decrypt b.sodium sealed pa sb ≡ some m =
        rw whole (decrypt-encrypt a.sodium b.sodium nonce m pa sa pb sb l (opens m)) in
      ground (
        arith,
        joined,
        clear,
        plaintext_read (plaintext a.codecs now p thread n),
        text_read id,
        read_contents-wrapped now p thread n,
      )
