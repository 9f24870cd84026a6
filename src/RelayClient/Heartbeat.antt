-- ===== src/RelayClient/Heartbeat.antt =====
-- The end of a connection (skill/src/relay-client.ts): missed pongs, `disconnect` and the event `close`.
use pinch.Prelude.{
  ℕ, ◌+◌, ◌-◌, ◌<◌, ◌≡◌, refl, ◌∙◌, Bool, true, false, not, ◌||◌, Option, none, some, List, [], ◌∷◌,
  arith,
}
use pinch.Prelude.Act.{Result, ok, throw}
use pinch.Wire.{Bytes}
use pinch.RelayClient.{
  AuthPayload, AuthEnvelope, AuthResponse, ClientConfig, AuthState, Client, Event, is_opened,
  answered, read_result, read_envelope, message_in, close_in, heartbeat_tick, time_out, step, run,
}

abbrev is_over : AuthState → Bool → Bool
is_over AuthState.done authenticated = not authenticated
is_over _ authenticated = false

-- The event `close` calls no `attemptReconnect` any more.
abbrev is_final : Client → Bool
is_final c = not c.auto_reconnect || is_over c.auth_state c.authenticated

-- What keeps a final client final.
abbrev Continues : Client → Client → Type 0
Continues c d = (is_final c ≡ true → is_final d ≡ true) × (d.reconnects ≡ c.reconnects)

answered-Continues :
    (r : Result AuthResponse) (c : Client)
    → c.auth_state ≡ AuthState.awaiting_challenge
    → Continues c (answered r c)
answered-Continues (throw e) c a = (λ h. h, refl)
answered-Continues (ok r) c a = (λ h. ground (arith, a), refl)

read_result-Continues :
    (now : ℕ) (p : AuthPayload) (c : Client)
    → c.auth_state ≡ AuthState.awaiting_result
    → Continues c (read_result now p c)
read_result-Continues now (AuthPayload.result true address) c a = (λ h. ground (arith, a), refl)
read_result-Continues now (AuthPayload.result false address) c a = (λ h. h, refl)
read_result-Continues now (AuthPayload.challenge n h) c a = (λ h. h, refl)
read_result-Continues now AuthPayload.another c a = (λ h. h, refl)

read_envelope-Continues :
    (now : ℕ) (e : Option AuthEnvelope) (c : Client)
    → c.auth_state ≡ AuthState.awaiting_result
    → Continues c (read_envelope now e c)
read_envelope-Continues now none c a = (λ h. h, refl)
read_envelope-Continues now (some e) c a = read_result-Continues now e.payload c a

module _ (cfg : ClientConfig) where
  message-Continues :
      (now : ℕ) (b : Bool) (data' : Bytes) (x : AuthState) (c : Client)
      → c.auth_state ≡ x
      → Continues c (message_in cfg now b data' x c)
  unfolding message_in
  message-Continues now true data' AuthState.awaiting_challenge c a = answered-Continues _ c a
  message-Continues now false data' AuthState.awaiting_challenge c a = (λ h. h, refl)
  message-Continues now true data' AuthState.awaiting_result c a = read_envelope-Continues now _ c a
  message-Continues now false data' AuthState.awaiting_result c a = (λ h. h, refl)
  message-Continues now b data' AuthState.done c a = (λ h. h, refl)

  close-Continues :
      (x : AuthState) (c : Client)
      → c.auth_state ≡ x
      → is_final c ≡ true
      → (is_final (close_in x c) ≡ true) × ((close_in x c).reconnects ≡ c.reconnects)
  unfolding close_in
  close-Continues AuthState.awaiting_challenge c a h = (ground (arith, a, h), refl)
  close-Continues AuthState.awaiting_result c a h = (ground (arith, a, h), refl)
  close-Continues AuthState.done c a h = (ground (arith, a, h), ground (arith, a, h))

  step_final :
      (e : Event) (c : Client)
      → is_final c ≡ true
      → (is_final (step cfg e c) ≡ true) × ((step cfg e c).reconnects ≡ c.reconnects)
  unfolding step time_out heartbeat_tick
  step_final (Event.message now b data') c h =
      let (k, r) = message-Continues now b data' c.auth_state c refl in (k h, r)
  step_final Event.socket_close c h = close-Continues c.auth_state c refl h
  step_final Event.auth_timer_ends c h = (ground (arith, h), ground arith)
  step_final Event.disconnects c h = (refl, refl)
  step_final Event.wait_ends c h = (ended c.auth_state refl, refl)
    where
      ended : (x : AuthState) → c.auth_state ≡ x → is_final (step cfg Event.wait_ends c) ≡ true
      ended AuthState.awaiting_challenge a = ground (arith, h)
      ended AuthState.awaiting_result a = ground (arith, h)
      ended AuthState.done a = ground (arith, a, h)
  step_final Event.disconnects_async c h = (refl, refl)
  step_final (Event.tick now) c h = (tick_final c.auth_state refl, ground arith)
    where
      tick_final :
          (x : AuthState) → c.auth_state ≡ x → is_final (step cfg (Event.tick now) c) ≡ true
      tick_final AuthState.awaiting_challenge a = ground (arith, h)
      tick_final AuthState.awaiting_result a = ground (arith, h)
      tick_final AuthState.done a = ground (arith, h)
  step_final _ c h = (h, refl)

  run_final :
      (es : List Event) (c : Client) → is_final c ≡ true → (run cfg es c).reconnects ≡ c.reconnects
  unfolding run
  run_final [] c h = refl
  run_final (e ∷ es) c h = let (k, r) = step_final e c h in run_final es (step cfg e c) k ∙ r

  -- A client whose relay has answered no ping for longer than the heartbeat's interval and the pong's
  -- timeout together ends the connection at its next tick and never connects again by itself, although
  -- it was built to: whatever events come later, `attemptReconnect` is not called.
  pub missed_pongs_never_reconnect :
      (es : List Event) (c : Client) (now : ℕ)
      → c.auth_state ≡ AuthState.done
      → c.heartbeat ≡ true
      → is_opened c.socket ≡ true
      → cfg.heartbeat_interval + cfg.pong_timeout < now - c.last_pong_time
      → ((step cfg (Event.tick now) c).authenticated ≡ false)
        × ((run cfg (Event.tick now ∷ es) c).reconnects ≡ c.reconnects)
  unfolding run step heartbeat_tick
  missed_pongs_never_reconnect es c now a b o late =
      let d = step cfg (Event.tick now) c in
      (ground arith, run_final es d (ground (arith, a)) ∙ ground arith)
