-- ===== src/RelayClient/Kept.antt =====
-- What keeps the promise of `connect` (skill/src/relay-client.ts).
use pinch.Prelude.Act.{
  Error, Result-cases, auth_failed, expected_auth_result, malformed_envelope,
  expected_binary_challenge, expected_binary_result, closed_during_auth, auth_timed_out,
  socket_error,
}
use pinch.Prelude.{
  ℕ, String, ◌&&◌, ◌≡◌, refl, ap, ◌++◌, Bool, true, false, Option, none, some, List, [], ◌∷◌, arith,
  Bool-cases, inl, inr,
}
use pinch.Wire.{Bytes}
use pinch.RelayClient.{
  is_resolved, AuthPayload, AuthEnvelope, ClientConfig, AuthState, Client, Promise, Event, connect,
  respond_to_auth_challenge, read_result, read_envelope, message_in, close_in, heartbeat_tick,
  time_out, step, run, settle_once,
}
use pinch.RelayClient.Admission.{HasSuccess, authentication_needs_challenge}
use pinch.RelayClient.Handshake.{Answered}

module _ (cfg : ClientConfig) where
  rejection_keeps_none :
      (x : Error) (p : Promise)
      → is_resolved p ≡ false
      → is_resolved (settle_once (Promise.rejected x) p) ≡ true
      → ⊥
  rejection_keeps_none x Promise.pending h k = absurd (ground arith)
  rejection_keeps_none x Promise.resolved h k = absurd (ground arith)
  rejection_keeps_none x (Promise.rejected y) h k = absurd (ground arith)

  read_result-keeps :
      (now : ℕ) (p : AuthPayload) (c : Client)
      → is_resolved c.promise ≡ false
      → is_resolved (read_result now p c).promise ≡ true
      → (read_result now p c).authenticated ≡ true
  read_result-keeps now (AuthPayload.result true address) c n h = refl
  read_result-keeps now (AuthPayload.result false address) c n h =
      absurd (rejection_keeps_none auth_failed c.promise n h)
  read_result-keeps now (AuthPayload.challenge a b) c n h =
      absurd (rejection_keeps_none expected_auth_result c.promise n h)
  read_result-keeps now AuthPayload.another c n h =
      absurd (rejection_keeps_none expected_auth_result c.promise n h)

  read_envelope-keeps :
      (now : ℕ) (e : Option AuthEnvelope) (c : Client)
      → is_resolved c.promise ≡ false
      → is_resolved (read_envelope now e c).promise ≡ true
      → (read_envelope now e c).authenticated ≡ true
  read_envelope-keeps now none c n h =
      absurd (rejection_keeps_none malformed_envelope c.promise n h)
  read_envelope-keeps now (some e) c n h = read_result-keeps now e.payload c n h

  message_keeps :
      (now : ℕ) (b : Bool) (data' : Bytes) (x : AuthState) (c : Client)
      → is_resolved c.promise ≡ false
      → is_resolved (message_in cfg now b data' x c).promise ≡ true
      → (message_in cfg now b data' x c).authenticated ≡ true
  unfolding message_in
  message_keeps now true data' AuthState.awaiting_challenge c n h =
      elim (Result-cases (respond_to_auth_challenge cfg data')) [
        | inl (r, e) ↦ absurd (ground (arith, e, n, h))
        | inr (x, e) ↦ absurd (rejection_keeps_none x c.promise n (ground (arith, e, h)))
      ]
  message_keeps now false data' AuthState.awaiting_challenge c n h =
      absurd (rejection_keeps_none expected_binary_challenge c.promise n h)
  message_keeps now true data' AuthState.awaiting_result c n h =
      read_envelope-keeps now (cfg.protocol.from_binary data') c n h
  message_keeps now false data' AuthState.awaiting_result c n h =
      absurd (rejection_keeps_none expected_binary_result c.promise n h)
  message_keeps now b data' AuthState.done c n h = absurd (ground (arith, n, h))

  close_keeps_none :
      (x : AuthState) (c : Client)
      → is_resolved c.promise ≡ false
      → is_resolved (close_in x c).promise ≡ true
      → ⊥
  unfolding close_in
  close_keeps_none AuthState.awaiting_challenge c n h =
      rejection_keeps_none closed_during_auth c.promise n h
  close_keeps_none AuthState.awaiting_result c n h =
      rejection_keeps_none closed_during_auth c.promise n h
  close_keeps_none AuthState.done c n h = elim (Bool-cases (c.authenticated && c.auto_reconnect)) [
    | inl y ↦ absurd (ground (arith, y, n, h))
    | inr y ↦ absurd (ground (arith, y, n, h))
  ]

  timer_keeps_none :
      (c : Client) → is_resolved c.promise ≡ false → is_resolved (time_out c).promise ≡ true → ⊥
  unfolding time_out
  timer_keeps_none c n h = elim (Bool-cases c.auth_timer) [
    | inl y ↦ absurd (rejection_keeps_none auth_timed_out c.promise n (ground (arith, y, h)))
    | inr y ↦ absurd (ground (arith, y, n, h))
  ]

  tick_keeps_none : (now : ℕ) (c : Client) → (heartbeat_tick cfg now c).promise ≡ c.promise
  unfolding heartbeat_tick
  tick_keeps_none now c = ground arith

  step_keeps :
      (e : Event) (c : Client)
      → is_resolved c.promise ≡ false
      → is_resolved (step cfg e c).promise ≡ true
      → (step cfg e c).authenticated ≡ true
  unfolding step
  step_keeps (Event.message now b data') c n h = message_keeps now b data' c.auth_state c n h
  step_keeps Event.socket_close c n h = absurd (close_keeps_none c.auth_state c n h)
  step_keeps Event.failure c n h = absurd (rejection_keeps_none socket_error c.promise n h)
  step_keeps Event.auth_timer_ends c n h = absurd (timer_keeps_none c n h)
  step_keeps (Event.tick now) c n h = elim (Bool-cases c.heartbeat) [
    | inl y ↦ absurd (ground (arith, y, n, h, tick_keeps_none now c))
    | inr y ↦ absurd (ground (arith, y, n, h))
  ]
  step_keeps _ c n h = absurd (ground (arith, n, h))

  -- The events up to the one that keeps the promise.
  abbrev pub KeptAfter : List Event → List Event → Client → Type 0
  KeptAfter es front c =
      (rest : List Event) × (es ≡ front ++ rest) × ((run cfg front c).authenticated ≡ true)

  run_keeps :
      (es : List Event) (c : Client)
      → is_resolved c.promise ≡ false
      → is_resolved (run cfg es c).promise ≡ true
      → (front : List Event) × KeptAfter es front c
  unfolding run
  run_keeps [] c n h = absurd (ground (arith, n, h))
  run_keeps (e ∷ es) c n h = elim (Bool-cases (is_resolved (step cfg e c).promise)) [
    | inl y ↦ (e ∷ [], (es, refl, step_keeps e c n y))
    | inr m ↦
        let (front, (rest, split, a)) = run_keeps es (step cfg e c) m h in
        (e ∷ front, (rest, ap (◌∷◌ e) split, a))
  ]

  -- The promise of `connect` is kept only if at some event the client was authenticated, having sent
  -- one answer to a challenge and received a successful result by then.
  pub kept_promise_needs_admission :
      (es : List Event) (address : Option String) (t : ℕ) (auto : Bool) (attempts : ℕ)
      → is_resolved (run cfg es (connect address t auto attempts)).promise ≡ true
      → (front : List Event) × KeptAfter es front (connect address t auto attempts)
        × Answered cfg (run cfg front (connect address t auto attempts)).sent
        × HasSuccess cfg front
  kept_promise_needs_admission es address t auto attempts h =
      let (front, k) = run_keeps es (connect address t auto attempts) refl h in
      let (a, s) = authentication_needs_challenge cfg front address t auto attempts k.2 in
      (front, k, a, s)
