-- ===== src/RelayClient/Admission.antt =====
-- What lets the client in (skill/src/relay-client.ts).
use pinch.Prelude.Act.{Result-cases}
use pinch.Prelude.{
  ℕ, String, ◌≡◌, ◌⊎◌, refl, Bool, true, false, Option, none, some, List, [], ◌∷◌, arith,
  Bool-cases, inl, inr,
}
use pinch.Wire.{Bytes}
use pinch.RelayClient.{
  AuthPayload, AuthEnvelope, ClientConfig, AuthState, Client, Event, connect,
  respond_to_auth_challenge, read_result, read_envelope, message_in, close_in, heartbeat_tick,
  time_out, step, run,
}
use pinch.RelayClient.Handshake.{Answered, authenticated-Answered}

module _ (cfg : ClientConfig) where
  -- A binary message that decodes to a successful result.
  abbrev pub IsSuccess : Event → Type 0
  IsSuccess (Event.message now is_binary data') =
      (is_binary ≡ true)
      × (e : AuthEnvelope) × (address : String) × (cfg.protocol.from_binary data' ≡ some e)
      × (e.payload ≡ AuthPayload.result true address)
  IsSuccess _ = ⊥

  abbrev pub HasSuccess : List Event → Type 0
  HasSuccess [] = ⊥
  HasSuccess (e ∷ es) = IsSuccess e ⊎ HasSuccess es

  read_envelope-in :
      (now : ℕ) (e : Option AuthEnvelope) (c : Client)
      → c.authenticated ≡ false
      → (read_envelope now e c).authenticated ≡ true
      → (x : AuthEnvelope) × (address : String) × (e ≡ some x)
        × (x.payload ≡ AuthPayload.result true address)
  read_envelope-in now none c n h = absurd (ground arith)
  read_envelope-in now (some e) c n h = read_result-in e.payload refl h
    where
      read_result-in :
          (p : AuthPayload)
          → e.payload ≡ p
          → (read_result now p c).authenticated ≡ true
          → (x : AuthEnvelope) × (address : String) × (some e ≡ some x)
            × (x.payload ≡ AuthPayload.result true address)
      read_result-in (AuthPayload.result true address) q y = (e, address, refl, q)
      read_result-in (AuthPayload.result false address) q y = absurd (ground arith)
      read_result-in (AuthPayload.challenge a b) q y = absurd (ground arith)
      read_result-in AuthPayload.another q y = absurd (ground arith)

  message_lets_in :
      (now : ℕ) (b : Bool) (data' : Bytes) (x : AuthState) (c : Client)
      → c.authenticated ≡ false
      → (message_in cfg now b data' x c).authenticated ≡ true
      → IsSuccess (Event.message now b data')
  unfolding message_in
  message_lets_in now b data' AuthState.awaiting_challenge c n h =
      elim (Result-cases (respond_to_auth_challenge cfg data')) [
        | inl (r, e) ↦ absurd (ground arith)
        | inr (x, e) ↦ absurd (ground arith)
      ]
  message_lets_in now true data' AuthState.awaiting_result c n h =
      let (e, address, f, q) = read_envelope-in now (cfg.protocol.from_binary data') c n h in
      (refl, e, address, f, q)
  message_lets_in now false data' AuthState.awaiting_result c n h = absurd (ground arith)
  message_lets_in now b data' AuthState.done c n h = absurd (ground arith)

  close_shuts : (x : AuthState) (c : Client) → (close_in x c).authenticated ≡ false
  unfolding close_in
  close_shuts AuthState.awaiting_challenge c = refl
  close_shuts AuthState.awaiting_result c = refl
  close_shuts AuthState.done c = ground arith

  step_lets_in :
      (e : Event) (c : Client)
      → c.authenticated ≡ false
      → (step cfg e c).authenticated ≡ true
      → IsSuccess e
  unfolding step time_out heartbeat_tick
  step_lets_in (Event.message now b data') c n h = message_lets_in now b data' c.auth_state c n h
  step_lets_in Event.socket_close c n h = absurd (ground (arith, close_shuts c.auth_state c))
  step_lets_in (Event.tick now) c n h = absurd (ground arith)
  step_lets_in Event.auth_timer_ends c n h = absurd (ground arith)
  step_lets_in _ c n h = absurd (ground arith)

  run_lets_in :
      (es : List Event) (c : Client)
      → c.authenticated ≡ false
      → (run cfg es c).authenticated ≡ true
      → HasSuccess es
  unfolding run
  run_lets_in [] c n h = absurd (ground arith)
  run_lets_in (e ∷ es) c n h = elim (Bool-cases (step cfg e c).authenticated) [
    | inl y ↦ inl (step_lets_in e c n y)
    | inr m ↦ inr (run_lets_in es (step cfg e c) m h)
  ]

  -- However the events come, a client that is authenticated has sent one answer, signed for a nonce of
  -- 32 bytes and a host that the relay named and that is the expected one if one is expected, and has
  -- received a successful result. The client starts as `connect` starts it.
  pub authentication_needs_challenge :
      (es : List Event) (address : Option String) (t : ℕ) (auto : Bool) (attempts : ℕ)
      → (run cfg es (connect address t auto attempts)).authenticated ≡ true
      → Answered cfg (run cfg es (connect address t auto attempts)).sent × HasSuccess es
  authentication_needs_challenge es address t auto attempts h = (
    authenticated-Answered cfg es address t auto attempts h,
    run_lets_in es (connect address t auto attempts) refl h,
  )
