-- ===== src/RelayClient/Reconnect.antt =====
-- skill/src/relay-client.ts, `attemptReconnect`: the loop with its growing delays.
use pinch.Prelude.Act.{Result-cases}
use pinch.Wire.{Bytes}
use pinch.RelayClient.{
  AuthPayload, AuthEnvelope, ClientConfig, AuthState, Client, Event, connect_again,
  respond_to_auth_challenge, read_result, read_envelope, message_in, close_in, heartbeat_tick,
  time_out, step, run,
}
use pinch.Prelude.{
  ◌∙◌, ℕ, zero, suc, ◌+◌, ◌*◌, ◌^◌, ◌≤◌, ◌<◌, min, ◌≡◌, ◌↔◌, refl, Bool, true, false, not, Option,
  none, some, List, [], ◌∷◌, length, eqb, ltb, All, if◌then◌else◌, arith, Bool-cases, inl, inr,
}

abbrev pub base_delay : ℕ
base_delay = 500

abbrev pub max_delay : ℕ
max_delay = 30_000

abbrev pub max_attempts : ℕ
max_attempts = 20

-- In milliseconds, after `jitter` of them drawn below 1000; a timer counts whole ones.
unfoldable pub reconnect_delay : ℕ → ℕ → ℕ
reconnect_delay attempt jitter = min (base_delay * 2 ^ attempt + jitter) max_delay

-- `attempt` is what `reconnectAttempt` is left as, `delays` the waits in order, and `gave_up` says that
-- the handler of `onDisconnect` was called.
pub record Reconnection : Type 0 where
  pub attempt : ℕ
  pub delays : List ℕ
  pub connected : Bool
  pub gave_up : Bool

abbrev pub waited : ℕ → Option Reconnection → Option Reconnection
waited d none = none
waited d (some r) = some (record r { delays = d ∷ r.delays })

module _ (jitter : ℕ → ℕ) (succeeds : ℕ → Bool) where
  -- `attemptReconnect` from an attempt on, on fuel; `succeeds` says which calls of `connect` resolve.
  unfoldable pub attempt_reconnect : ℕ → ℕ → Option Reconnection
  attempt_reconnect zero attempt = none
  attempt_reconnect (suc fuel) attempt =
      let rest = attempt_reconnect fuel (suc attempt) in
      let delay = reconnect_delay attempt (jitter attempt) in
      if ltb attempt max_attempts
      then (if succeeds attempt
          then some (record { attempt = 0; delays = delay ∷ []; connected = true; gave_up = false })
          else waited delay rest)
      else some (record { attempt = attempt; delays = []; connected = false; gave_up = true })

pow_positive : (n : ℕ) → 1 ≤ 2 ^ n
pow_positive zero = omega arith
pow_positive (suc n) = omega (arith, pow_positive n)

abbrev pub IsPatient : ℕ → Type 0
IsPatient d = (base_delay ≤ d) × (d ≤ max_delay)

reconnect_delay-IsPatient : (attempt jitter : ℕ) → IsPatient (reconnect_delay attempt jitter)
unfolding reconnect_delay
reconnect_delay-IsPatient attempt jitter = (omega (arith, pow_positive attempt), omega arith)

module _ (jitter : ℕ → ℕ) (succeeds : ℕ → Bool) where
  -- An attempt from this one on, within the limit, that succeeds.
  abbrev pub Succeeds : ℕ → Type 0
  Succeeds n = (k : ℕ) × (n ≤ k) × (k < max_attempts) × (succeeds k ≡ true)

  abbrev pub EndsWell : ℕ → Reconnection → Type 0
  EndsWell n r =
      All IsPatient r.delays
      × (n + length r.delays ≤ max_attempts)
      × (r.gave_up ≡ not r.connected)
      × (r.attempt ≡ (if r.connected then 0 else max_attempts))
      × ((r.connected ≡ true) ↔ Succeeds n)

  later-Succeeds : (n : ℕ) → succeeds n ≡ false → Succeeds n → Succeeds (suc n)
  later-Succeeds n f (k, l, u, s) = elim (Bool-cases (eqb n k)) [
    | inl y ↦ absurd (ground (arith, f, s))
    | inr y ↦ (k, ground arith, u, s)
  ]

  ends_from :
      (fuel n : ℕ)
      → n ≤ max_attempts
      → max_attempts < fuel + n
      → (r : Reconnection) × (attempt_reconnect jitter succeeds fuel n ≡ some r) × EndsWell n r
  unfolding attempt_reconnect
  ends_from zero n l h = absurd (omega arith)
  ends_from (suc fuel) n l h = elim (Bool-cases (ltb n max_attempts)) [
    | inr y ↦
        let m : n ≡ max_attempts = ground arith in
        (
          record { attempt = n; delays = []; connected = false; gave_up = true },
          ground arith,
          (
            tt,
            ground arith,
            refl,
            m,
            (λ e. absurd (ground arith), λ (k, a, b, s). absurd (ground arith)),
          ),
        )
    | inl y ↦ elim (Bool-cases (succeeds n)) [
      | inl s ↦ (
        record {
          attempt = 0;
          delays = reconnect_delay n (jitter n) ∷ [];
          connected = true;
          gave_up = false;
        },
        ground arith,
        (
          (reconnect_delay-IsPatient n (jitter n), tt),
          ground arith,
          refl,
          refl,
          (λ e. (n, ground arith, ground arith, s), λ e. refl),
        ),
      )
      | inr f ↦
          let (r, done, (patient, few, gave, left, works)) =
            ends_from fuel (suc n) (ground arith) (ground arith) in
          (
            record r { delays = reconnect_delay n (jitter n) ∷ r.delays },
            ground (arith, done),
            (
              (reconnect_delay-IsPatient n (jitter n), patient),
              ground (arith, few),
              gave,
              left,
              (
                λ e. let (k, a, b, s) = works.0 e in (k, ground arith, b, s),
                λ e. works.1 (later-Succeeds n f e),
              ),
            ),
          )
    ]
  ]

  -- `attemptReconnect` ends, however `connect` fares: 21 rounds of its loop are enough. It waits at most
  -- once for each attempt that is left of 20, between half a second and half a minute each time; it
  -- connects and starts counting anew if and only if one of these attempts succeeds, and otherwise
  -- calls the handler and leaves the count at 20.
  pub reconnect_ends :
      (n : ℕ)
      → n ≤ max_attempts
      → (r : Reconnection) × (attempt_reconnect jitter succeeds 21 n ≡ some r) × EndsWell n r
  reconnect_ends n l = ends_from 21 n l (omega arith)

-- What `attemptReconnect` leaves of the client's count.
abbrev pub with_attempt : Reconnection → Client → Client
with_attempt r c = record c { reconnect_attempt = r.attempt }

module _ (cfg : ClientConfig) where
  read_envelope-attempt :
      (now : ℕ) (e : Option AuthEnvelope) (c : Client)
      → (read_envelope now e c).reconnect_attempt ≡ c.reconnect_attempt
  read_envelope-attempt now none c = refl
  read_envelope-attempt now (some e) c = read_result-attempt e.payload
    where
      read_result-attempt :
          (p : AuthPayload) → (read_result now p c).reconnect_attempt ≡ c.reconnect_attempt
      read_result-attempt (AuthPayload.result true address) = refl
      read_result-attempt (AuthPayload.result false address) = refl
      read_result-attempt (AuthPayload.challenge nonce host) = refl
      read_result-attempt AuthPayload.another = refl

  message_in-attempt :
      (now : ℕ) (b : Bool) (data' : Bytes) (x : AuthState) (c : Client)
      → (message_in cfg now b data' x c).reconnect_attempt ≡ c.reconnect_attempt
  unfolding message_in
  message_in-attempt now true data' AuthState.awaiting_challenge c =
      elim (Result-cases (respond_to_auth_challenge cfg data')) [
        | inl (r, e) ↦ ground (arith, e)
        | inr (x, e) ↦ ground (arith, e)
      ]
  message_in-attempt now false data' AuthState.awaiting_challenge c = refl
  message_in-attempt now true data' AuthState.awaiting_result c =
      read_envelope-attempt now (cfg.protocol.from_binary data') c
  message_in-attempt now false data' AuthState.awaiting_result c = refl
  message_in-attempt now b data' AuthState.done c = refl

  close_in-attempt :
      (x : AuthState) (c : Client) → (close_in x c).reconnect_attempt ≡ c.reconnect_attempt
  unfolding close_in
  close_in-attempt AuthState.awaiting_challenge c = refl
  close_in-attempt AuthState.awaiting_result c = refl
  close_in-attempt AuthState.done c = ground arith

  step-attempt : (e : Event) (c : Client) → (step cfg e c).reconnect_attempt ≡ c.reconnect_attempt
  unfolding step time_out heartbeat_tick
  step-attempt (Event.message now b data') c = message_in-attempt now b data' c.auth_state c
  step-attempt Event.socket_close c = close_in-attempt c.auth_state c
  step-attempt (Event.tick now) c = ground arith
  step-attempt Event.auth_timer_ends c = ground arith
  step-attempt _ c = refl

  -- No event of a connection, a successful handshake among them, changes the count.
  run-attempt :
      (es : List Event) (c : Client) → (run cfg es c).reconnect_attempt ≡ c.reconnect_attempt
  unfolding run
  run-attempt [] c = refl
  run-attempt (e ∷ es) c = run-attempt es (step cfg e c) ∙ step-attempt e c

  -- Once a client has given up, it never attempts to reconnect again. Whatever happens on a connection
  -- that is then opened by hand, a successful handshake included, the next call of
  -- `attemptReconnect` gives up at once with no attempt made, whatever attempts would bring.
  pub gives_up_for_good :
      (jitter later : ℕ → ℕ) (succeeds again : ℕ → Bool) (c : Client) (r : Reconnection)
      (es : List Event)
      → c.reconnect_attempt ≤ max_attempts
      → attempt_reconnect jitter succeeds 21 c.reconnect_attempt ≡ some r
      → r.gave_up ≡ true
      → attempt_reconnect later again 21
          (run cfg es (connect_again (with_attempt r c))).reconnect_attempt
        ≡ some (record { attempt = max_attempts; delays = []; connected = false; gave_up = true })
  unfolding attempt_reconnect
  gives_up_for_good jitter later succeeds again c r es l e g =
      let (q, done, (patient, few, gave, left, works)) =
        reconnect_ends jitter succeeds c.reconnect_attempt l in
      let same : q ≡ r = ground (arith, done, e) in
      let full : r.attempt ≡ max_attempts = rw (← same) (ground (arith, left, gave, same, g)) in
      rw (run-attempt es (connect_again (with_attempt r c)) ∙ full) refl
