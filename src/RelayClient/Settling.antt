-- ===== src/RelayClient/Settling.antt =====
-- The promise of `connect` (skill/src/relay-client.ts).
use pinch.Prelude.Act.{Error, closed_during_auth, socket_error, auth_timed_out, Result, ok, throw}
use pinch.Prelude.{
  ℕ, String, ◌≡◌, refl, sym, ap, ◌∙◌, Bool, true, false, not, ◌||◌, Option, none, some, List, [],
  ◌∷◌, ◌++◌, arith,
}
use pinch.Wire.{Bytes}
use pinch.RelayClient.{
  AuthPayload, AuthEnvelope, AuthResponse, ClientConfig, AuthState, Promise, Client, Event, connect,
  is_unsettled, settle_once, give_up, answered, read_result, read_envelope, message_in, close_in,
  heartbeat_tick, time_out, step, run,
}

-- The timer of the handshake runs as long as the promise is pending.
abbrev is_watched : Client → Bool
is_watched c = c.auth_timer || not (is_unsettled c.promise)

settled_once : (new p : Promise) → is_unsettled p ≡ false → settle_once new p ≡ p
settled_once new Promise.pending h = absurd (ground arith)
settled_once new Promise.resolved h = refl
settled_once new (Promise.rejected e) h = refl

rejected_settles :
    (e : Error) (p : Promise) → is_unsettled (settle_once (Promise.rejected e) p) ≡ false
rejected_settles e Promise.pending = refl
rejected_settles e Promise.resolved = refl
rejected_settles e (Promise.rejected x) = refl

resolved_settles : (p : Promise) → is_unsettled (settle_once Promise.resolved p) ≡ false
resolved_settles Promise.pending = refl
resolved_settles Promise.resolved = refl
resolved_settles (Promise.rejected x) = refl

-- A change of the promise that settles it at most once.
abbrev Settles : Client → Client → Type 0
Settles c d =
    (is_watched c ≡ true → is_watched d ≡ true)
    × (is_unsettled c.promise ≡ false → d.promise ≡ c.promise)

give_up-Settles : (e : Error) (c : Client) → Settles c (give_up e c)
give_up-Settles e c =
    (λ h. ground (arith, rejected_settles e c.promise), settled_once (Promise.rejected e) c.promise)

answered-Settles : (r : Result AuthResponse) (c : Client) → Settles c (answered r c)
answered-Settles (throw e) c = give_up-Settles e c
answered-Settles (ok r) c = (λ h. h, λ h. refl)

read_result-Settles : (now : ℕ) (p : AuthPayload) (c : Client) → Settles c (read_result now p c)
read_result-Settles now (AuthPayload.result true address) c =
    (λ h. ground (arith, resolved_settles c.promise), settled_once Promise.resolved c.promise)
read_result-Settles now (AuthPayload.result false address) c = give_up-Settles _ c
read_result-Settles now (AuthPayload.challenge n h) c = give_up-Settles _ c
read_result-Settles now AuthPayload.another c = give_up-Settles _ c

read_envelope-Settles :
    (now : ℕ) (e : Option AuthEnvelope) (c : Client) → Settles c (read_envelope now e c)
read_envelope-Settles now none c = give_up-Settles _ c
read_envelope-Settles now (some e) c = read_result-Settles now e.payload c

abbrev is_done : AuthState → Bool
is_done AuthState.done = true
is_done _ = false

module _ (cfg : ClientConfig) where
  pub run-append :
      (xs ys : List Event) (c : Client) → run cfg (xs ++ ys) c ≡ run cfg ys (run cfg xs c)
  unfolding run
  run-append [] ys c = refl
  run-append (e ∷ xs) ys c = run-append xs ys (step cfg e c)

  message-Settles :
      (now : ℕ) (b : Bool) (data' : Bytes) (x : AuthState) (c : Client)
      → Settles c (message_in cfg now b data' x c)
  unfolding message_in
  message-Settles now true data' AuthState.awaiting_challenge c = answered-Settles _ c
  message-Settles now false data' AuthState.awaiting_challenge c = give_up-Settles _ c
  message-Settles now true data' AuthState.awaiting_result c = read_envelope-Settles now _ c
  message-Settles now false data' AuthState.awaiting_result c = give_up-Settles _ c
  message-Settles now b data' AuthState.done c = (λ h. h, λ h. refl)

  -- After `done` the promise was resolved, so that `close` has nothing to reject.
  abbrev IsKept : Client → Type 0
  IsKept c = c.auth_state ≡ AuthState.done → is_unsettled c.promise ≡ false

  close-Settles :
      (x : AuthState) (c : Client)
      → (x ≡ AuthState.done → is_unsettled c.promise ≡ false)
      → Settles c (close_in x c)
  unfolding close_in
  close-Settles AuthState.awaiting_challenge c k =
      (λ h. ground (arith, rejected_settles closed_during_auth c.promise), settled_once _ c.promise)
  close-Settles AuthState.awaiting_result c k =
      (λ h. ground (arith, rejected_settles closed_during_auth c.promise), settled_once _ c.promise)
  close-Settles AuthState.done c k = (λ h. ground (arith, k refl), λ h. ground (arith, h))

  -- Where the state of the handshake and its being settled do not change.
  stays-IsKept : (c d : Client) → d.auth_state ≡ c.auth_state → Settles c d → IsKept c → IsKept d
  stays-IsKept c d a s k h = let n = k (sym a ∙ h) in ap is_unsettled (s.1 n) ∙ n

  not_done : (c : Client) → is_done c.auth_state ≡ false → IsKept c
  not_done c n h = absurd (ground (arith, n, h))

  answered-IsKept : (r : Result AuthResponse) (c : Client) → IsKept c → IsKept (answered r c)
  answered-IsKept (throw e) c k = stays-IsKept c (give_up e c) refl (give_up-Settles e c) k
  answered-IsKept (ok r) c k = not_done (answered (ok r) c) refl

  read_result-IsKept :
      (now : ℕ) (p : AuthPayload) (c : Client) → IsKept c → IsKept (read_result now p c)
  read_result-IsKept now (AuthPayload.result true address) c k = λ h. resolved_settles c.promise
  read_result-IsKept now (AuthPayload.result false address) c k =
      stays-IsKept c (give_up _ c) refl (give_up-Settles _ c) k
  read_result-IsKept now (AuthPayload.challenge n h) c k =
      stays-IsKept c (give_up _ c) refl (give_up-Settles _ c) k
  read_result-IsKept now AuthPayload.another c k =
      stays-IsKept c (give_up _ c) refl (give_up-Settles _ c) k

  read_envelope-IsKept :
      (now : ℕ) (e : Option AuthEnvelope) (c : Client) → IsKept c → IsKept (read_envelope now e c)
  read_envelope-IsKept now none c k = stays-IsKept c (give_up _ c) refl (give_up-Settles _ c) k
  read_envelope-IsKept now (some e) c k = read_result-IsKept now e.payload c k

  message-IsKept :
      (now : ℕ) (b : Bool) (data' : Bytes) (x : AuthState) (c : Client)
      → IsKept c
      → IsKept (message_in cfg now b data' x c)
  unfolding message_in
  message-IsKept now true data' AuthState.awaiting_challenge c k = answered-IsKept _ c k
  message-IsKept now false data' AuthState.awaiting_challenge c k =
      stays-IsKept c (give_up _ c) refl (give_up-Settles _ c) k
  message-IsKept now true data' AuthState.awaiting_result c k = read_envelope-IsKept now _ c k
  message-IsKept now false data' AuthState.awaiting_result c k =
      stays-IsKept c (give_up _ c) refl (give_up-Settles _ c) k
  message-IsKept now b data' AuthState.done c k = k

  step-Settles : (e : Event) (c : Client) → IsKept c → Settles c (step cfg e c)
  unfolding step time_out heartbeat_tick
  step-Settles Event.socket_close c k = close-Settles c.auth_state c k
  step-Settles Event.failure c k =
      (λ h. ground (arith, rejected_settles socket_error c.promise), settled_once _ c.promise)
  step-Settles Event.auth_timer_ends c k = (
    λ h. ground (arith, rejected_settles auth_timed_out c.promise),
    λ h. ground (arith, settled_once (Promise.rejected auth_timed_out) c.promise h),
  )
  step-Settles (Event.message now b data') c k = message-Settles now b data' c.auth_state c
  step-Settles (Event.tick now) c k = (λ h. ground (arith, h), λ h. ground arith)
  step-Settles _ c k = (λ h. h, λ h. refl)

  same_state : (x : AuthState) (c : Client) → (close_in x c).auth_state ≡ c.auth_state
  unfolding close_in
  same_state AuthState.awaiting_challenge c = refl
  same_state AuthState.awaiting_result c = refl
  same_state AuthState.done c = ground arith

  step-IsKept : (e : Event) (c : Client) → IsKept c → IsKept (step cfg e c)
  unfolding step time_out heartbeat_tick
  step-IsKept (Event.message now b data') c k = message-IsKept now b data' c.auth_state c k
  step-IsKept Event.socket_close c k =
      stays-IsKept c (close_in c.auth_state c) (same_state c.auth_state c)
        (close-Settles c.auth_state c k) k
  step-IsKept Event.failure c k =
      stays-IsKept c (step cfg Event.failure c) refl (step-Settles Event.failure c k) k
  step-IsKept Event.auth_timer_ends c k =
      stays-IsKept c (time_out c) (ground arith) (step-Settles Event.auth_timer_ends c k) k
  step-IsKept (Event.tick now) c k =
      stays-IsKept c (step cfg (Event.tick now) c) (ground arith)
        (step-Settles (Event.tick now) c k) k
  step-IsKept _ c k = k

  run_watched :
      (es : List Event) (c : Client)
      → IsKept c
      → is_watched c ≡ true
      → IsKept (run cfg es c) × (is_watched (run cfg es c) ≡ true)
  unfolding run
  run_watched [] c k w = (k, w)
  run_watched (e ∷ es) c k w =
      run_watched es (step cfg e c) (step-IsKept e c k) ((step-Settles e c k).0 w)

  run_settled :
      (es : List Event) (c : Client)
      → IsKept c
      → is_unsettled c.promise ≡ false
      → (run cfg es c).promise ≡ c.promise
  unfolding run
  run_settled [] c k n = refl
  run_settled (e ∷ es) c k n =
      let same = (step-Settles e c k).1 n in
      run_settled es (step cfg e c) (step-IsKept e c k) (ap is_unsettled same ∙ n) ∙ same

  timer_settles :
      (c : Client)
      → is_watched c ≡ true
      → is_unsettled (step cfg Event.auth_timer_ends c).promise ≡ false
  unfolding step time_out
  timer_settles c w = ground (arith, rejected_settles auth_timed_out c.promise)

  -- Whatever events come, the promise of `connect` is settled once the timer of the handshake has run
  -- out, if not before, and no later event changes how.
  pub connect_settles_once :
      (es later : List Event) (address : Option String) (t : ℕ) (auto : Bool) (attempts : ℕ)
      → (is_unsettled
            (run cfg (es ++ Event.auth_timer_ends ∷ []) (connect address t auto attempts)).promise
          ≡ false)
        × ((run cfg (es ++ Event.auth_timer_ends ∷ later) (connect address t auto attempts)).promise
            ≡ (run cfg
                (es ++ Event.auth_timer_ends ∷ [])
                (connect address t auto attempts)).promise)
  unfolding run
  connect_settles_once es later address t auto attempts =
      let c = run cfg es (connect address t auto attempts) in
      let d = step cfg Event.auth_timer_ends c in
      let (k, w) =
        run_watched es (connect address t auto attempts)
          (not_done (connect address t auto attempts) refl) refl in
      rw
        (
          run-append es (Event.auth_timer_ends ∷ later) (connect address t auto attempts),
          run-append es (Event.auth_timer_ends ∷ []) (connect address t auto attempts),
        )
        (
          timer_settles c w,
          run_settled later d (step-IsKept Event.auth_timer_ends c k) (timer_settles c w),
        )
