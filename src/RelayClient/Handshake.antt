-- ===== src/RelayClient/Handshake.antt =====
-- Who is let in by the handshake with the relay (skill/src/relay-client.ts).
use pinch.Prelude.Act.{Error, closed_during_auth, socket_error, auth_timed_out, Result, ok, throw}
use pinch.Prelude.{
  ℕ, String, ◌≡◌, refl, sym, subst, ap, ◌∙◌, Bool, true, false, not, ◌&&◌, Option, none, some, List,
  [], ◌∷◌, ◌++◌, ◌==◌, eqb, length, arith, Bool-cases, Option-cases, inl, inr,
}
use pinch.Wire.{Bytes, MessageType}
use pinch.RelayClient.{
  is_resolved, AuthPayload, AuthEnvelope, AuthResponse, ClientConfig, AuthState, Promise, Client,
  Event, settle_once, give_up, connect, auth_response, is_other_host, answer_challenge,
  answer_payload, respond_to_auth_challenge, answered, read_result, read_envelope, message_in,
  close_in, heartbeat_tick, time_out, step, run,
}

module _ (cfg : ClientConfig) where
  -- One answer went out, to a challenge of 32 bytes that names a host, the expected one if any is.
  abbrev pub Answered : List AuthResponse → Type 0
  Answered rs =
      (nonce : Bytes) × (host : String) × (length nonce ≡ 32)
      × ((host == "") ≡ false)
      × (is_other_host cfg host ≡ false)
      × (rs ≡ auth_response cfg nonce host ∷ [])

  -- Nobody was let in.
  abbrev is_shut : Client → Bool
  is_shut c = not c.authenticated && not (is_resolved c.promise)

  abbrev SoundIn : AuthState → Client → Type 0
  SoundIn AuthState.awaiting_challenge c = (is_shut c ≡ true) × (c.received ≡ []) × (c.sent ≡ [])
  SoundIn AuthState.awaiting_result c = (is_shut c ≡ true) × (c.received ≡ []) × Answered c.sent
  SoundIn AuthState.done c = Answered c.sent

  abbrev Sound : Client → Type 0
  Sound c = SoundIn c.auth_state c

  answer_challenge-ok :
      (nonce : Bytes) (host : String) (r : AuthResponse)
      → answer_challenge cfg nonce host ≡ ok r
      → Answered (r ∷ [])
  unfolding answer_challenge
  answer_challenge-ok nonce host r h = elim (Bool-cases (eqb (length nonce) 32)) [
    | inr n ↦ absurd (ground arith)
    | inl l ↦ elim (Bool-cases (host == "")) [
      | inl n ↦ absurd (ground arith)
      | inr e ↦ elim (Bool-cases (is_other_host cfg host)) [
        | inl n ↦ absurd (ground arith)
        | inr o ↦ (nonce, host, ground arith, e, o, ground arith)
      ]
    ]
  ]

  answer_payload-ok :
      (t : MessageType) (p : AuthPayload) (r : AuthResponse)
      → answer_payload cfg t p ≡ ok r
      → Answered (r ∷ [])
  answer_payload-ok MessageType.auth_challenge (AuthPayload.challenge nonce host) r h =
      answer_challenge-ok nonce host r h
  answer_payload-ok MessageType.auth_challenge (AuthPayload.result s a) r h = absurd (ground arith)
  answer_payload-ok MessageType.auth_challenge AuthPayload.another r h = absurd (ground arith)
  answer_payload-ok _ p r h = absurd (ground arith)

  respond-ok :
      (data' : Bytes) (r : AuthResponse)
      → respond_to_auth_challenge cfg data' ≡ ok r
      → Answered (r ∷ [])
  respond-ok data' r h = elim (Option-cases (cfg.protocol.from_binary data')) [
    | inl n ↦ absurd (ground arith)
    | inr (e, f) ↦ answer_payload-ok e.type e.payload r (ground arith)
  ]

  still_unresolved :
      (e : Error) (p : Promise) → is_resolved (settle_once (Promise.rejected e) p) ≡ is_resolved p
  still_unresolved e Promise.pending = refl
  still_unresolved e Promise.resolved = refl
  still_unresolved e (Promise.rejected x) = refl

  -- What a change must keep for the client to stay sound in its state of the handshake.
  keeps-Sound :
      (c d : Client)
      → Sound c
      → d.auth_state ≡ c.auth_state
      → d.sent ≡ c.sent
      → d.received ≡ c.received
      → (is_shut c ≡ true → is_shut d ≡ true)
      → Sound d
  keeps-Sound c d s a t r k = subst (λ x. SoundIn x d) (sym a) (kept c.auth_state s)
    where
      kept : (x : AuthState) → SoundIn x c → SoundIn x d
      kept AuthState.awaiting_challenge (h, q, w) = (k h, r ∙ q, t ∙ w)
      kept AuthState.awaiting_result (h, q, w) = (k h, r ∙ q, rw t w)
      kept AuthState.done w = rw t w

  give_up-Sound : (e : Error) (c : Client) → Sound c → Sound (give_up e c)
  give_up-Sound e c s =
      keeps-Sound c (give_up e c) s refl refl refl
        (λ h. ground (arith, h, still_unresolved e c.promise))

  answered-Sound :
      (r : Result AuthResponse) (c : Client)
      → ((x : AuthResponse) → r ≡ ok x → Answered (x ∷ []))
      → c.auth_state ≡ AuthState.awaiting_challenge
      → Sound c
      → Sound (answered r c)
  answered-Sound (throw e) c w a s = give_up-Sound e c s
  answered-Sound (ok r) c w a s =
      let (h, q, t) = subst (λ x. SoundIn x c) a s in
      (h, q, subst Answered (ap (λ x. x ++ r ∷ []) (sym t)) (w r refl))

  read_result-Sound :
      (now : ℕ) (p : AuthPayload) (c : Client)
      → c.auth_state ≡ AuthState.awaiting_result
      → Sound c
      → Sound (read_result now p c)
  read_result-Sound now (AuthPayload.result true address) c a s =
      let (h, q, w) = subst (λ x. SoundIn x c) a s in w
  read_result-Sound now (AuthPayload.result false address) c a s = give_up-Sound _ c s
  read_result-Sound now (AuthPayload.challenge n h) c a s = give_up-Sound _ c s
  read_result-Sound now AuthPayload.another c a s = give_up-Sound _ c s

  read_envelope-Sound :
      (now : ℕ) (e : Option AuthEnvelope) (c : Client)
      → c.auth_state ≡ AuthState.awaiting_result
      → Sound c
      → Sound (read_envelope now e c)
  read_envelope-Sound now none c a s = give_up-Sound _ c s
  read_envelope-Sound now (some e) c a s = read_result-Sound now e.payload c a s

  message-Sound :
      (now : ℕ) (b : Bool) (data' : Bytes) (x : AuthState) (c : Client)
      → c.auth_state ≡ x
      → Sound c
      → Sound (message_in cfg now b data' x c)
  unfolding message_in
  message-Sound now true data' AuthState.awaiting_challenge c a s =
      answered-Sound _ c (respond-ok data') a s
  message-Sound now false data' AuthState.awaiting_challenge c a s = give_up-Sound _ c s
  message-Sound now true data' AuthState.awaiting_result c a s = read_envelope-Sound now _ c a s
  message-Sound now false data' AuthState.awaiting_result c a s = give_up-Sound _ c s
  message-Sound now b data' AuthState.done c a s =
      subst (λ x. SoundIn x (record c { received = c.received ++ data' ∷ [] })) (sym a)
        (subst (λ x. SoundIn x c) a s)

  close-Sound : (x : AuthState) (c : Client) → c.auth_state ≡ x → Sound c → Sound (close_in x c)
  unfolding close_in
  close-Sound AuthState.awaiting_challenge c a s =
      keeps-Sound c (close_in AuthState.awaiting_challenge c) s refl refl refl
        (λ h. ground (arith, h, still_unresolved closed_during_auth c.promise))
  close-Sound AuthState.awaiting_result c a s =
      keeps-Sound c (close_in AuthState.awaiting_result c) s refl refl refl
        (λ h. ground (arith, h, still_unresolved closed_during_auth c.promise))
  close-Sound AuthState.done c a s =
      keeps-Sound c (close_in AuthState.done c) s (ground arith) (ground arith) (ground arith)
        (λ h. ground (arith, h))

  step-Sound : (e : Event) (c : Client) → Sound c → Sound (step cfg e c)
  unfolding step time_out heartbeat_tick
  step-Sound Event.socket_open c s =
      keeps-Sound c (step cfg Event.socket_open c) s refl refl refl (λ h. h)
  step-Sound Event.socket_close c s = close-Sound c.auth_state c refl s
  step-Sound Event.failure c s =
      keeps-Sound c (step cfg Event.failure c) s refl refl refl
        (λ h. ground (arith, h, still_unresolved socket_error c.promise))
  step-Sound Event.auth_timer_ends c s =
      keeps-Sound c (time_out c) s (ground arith) (ground arith) (ground arith)
        (λ h. ground (arith, h, still_unresolved auth_timed_out c.promise))
  step-Sound Event.disconnects c s =
      keeps-Sound c (step cfg Event.disconnects c) s refl refl refl (λ h. ground (arith, h))
  step-Sound Event.wait_ends c s =
      keeps-Sound c (step cfg Event.wait_ends c) s refl refl refl (λ h. ground (arith, h))
  step-Sound Event.disconnects_async c s =
      keeps-Sound c (step cfg Event.disconnects_async c) s refl refl refl (λ h. h)
  step-Sound (Event.message now b data') c s = message-Sound now b data' c.auth_state c refl s
  step-Sound (Event.pong now) c s =
      keeps-Sound c (step cfg (Event.pong now) c) s refl refl refl (λ h. h)
  step-Sound (Event.tick now) c s =
      keeps-Sound c (step cfg (Event.tick now) c) s (ground arith) (ground arith) (ground arith)
        (λ h. ground (arith, h))

  run-Sound : (es : List Event) (c : Client) → Sound c → Sound (run cfg es c)
  unfolding run
  run-Sound [] c s = s
  run-Sound (e ∷ es) c s = run-Sound es (step cfg e c) (step-Sound e c s)

  let_in : (c : Client) → Sound c → c.authenticated ≡ true → Answered c.sent
  let_in c s h = answered_in c.auth_state s
    where
      answered_in : (x : AuthState) → SoundIn x c → Answered c.sent
      answered_in AuthState.awaiting_challenge (n, _, _) = absurd (ground arith)
      answered_in AuthState.awaiting_result (n, _, w) = w
      answered_in AuthState.done w = w

  pub authenticated-Answered :
      (es : List Event) (address : Option String) (t : ℕ) (auto : Bool) (attempts : ℕ)
      → (run cfg es (connect address t auto attempts)).authenticated ≡ true
      → Answered (run cfg es (connect address t auto attempts)).sent
  authenticated-Answered es address t auto attempts h =
      let_in (run cfg es (connect address t auto attempts))
        (run-Sound es (connect address t auto attempts) (refl, refl, refl)) h
