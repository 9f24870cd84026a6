-- ===== src/Breaker/Trip.antt =====
-- When the circuit breaker trips, and what a trip does (skill/src/autonomy/circuit-breaker.ts).
use pinch.Prelude.Act.{Result, ok}
use pinch.Prelude.{
  ℕ, String, ◌≡◌, refl, Bool, true, false, some, ◌==◌, if◌then◌else◌, ◌or◌, arith, ◌⊎◌, inl, inr,
  Bool-cases, Option-cases, eq_refl,
}
use pinch.Connections.{
  Connection, full_manual, get_connection, update_connection, no_updates, assign, save,
}
use pinch.Connections.Writes.{update_found, get_connection-update, get_connection-save}
use pinch.Feed.{Runtime, TriggerType, information_boundary}
use pinch.World.{World}
use pinch.Breaker.{
  CircuitBreakerConfig, Check, checks, first_exceeded, events_of, add_event, is_tripped, trip,
  check_and_trip, record_trigger, record_violation, count_events,
}
use pinch.Breaker.Window.{
  IsQuiet, Reached, first_exceeded-IsQuiet, first_exceeded-Reached, add_event-IsQuiet,
}

-- What a trip leaves of a connection.
abbrev pub downgraded : ℕ → Connection → Connection
downgraded now c = record c {
  autonomy_level = full_manual;
  circuit_breaker_tripped = some true;
  last_activity = now;
}

module _ (rt : Runtime) (cfg : CircuitBreakerConfig) (now : ℕ) (addr : String) (w : World) where
  get_connection-trip :
      (k : Check) (n : ℕ) (c : Connection) (j : String)
      → get_connection addr w.store ≡ some c
      → get_connection j (trip rt now addr k n w).0.store
        ≡ (if addr == j then some (downgraded now c) else get_connection j w.store)
  unfolding trip
  get_connection-trip k n c j h =
      let u1 = record no_updates { autonomy_level = some full_manual } in
      let u2 = record no_updates { circuit_breaker_tripped = some true } in
      let s1 = (update_connection now addr u1 w.store).0 in
      ground (
        arith,
        update_found now addr u1 w.store c h,
        get_connection-update now addr u1 w.store c addr h,
        get_connection-update now addr u1 w.store c j h,
        update_found now addr u2 s1 (assign now u1 c),
        get_connection-update now addr u2 s1 (assign now u1 c) j,
        get_connection-save j (update_connection now addr u2 s1).0,
        eq_refl addr,
      )

  trip_done :
      (k : Check) (n : ℕ) (c : Connection)
      → get_connection addr w.store ≡ some c
      → (trip rt now addr k n w).1 ≡ ok tt
  unfolding trip
  trip_done k n c h =
      let u1 = record no_updates { autonomy_level = some full_manual } in
      let u2 = record no_updates { circuit_breaker_tripped = some true } in
      let s1 = (update_connection now addr u1 w.store).0 in
      ground (
        arith,
        update_found now addr u1 w.store c h,
        get_connection-update now addr u1 w.store c addr h,
        update_found now addr u2 s1 (assign now u1 c),
        eq_refl addr,
      )

  trip_saved :
      (k : Check) (n : ℕ) (c : Connection)
      → get_connection addr w.store ≡ some c
      → (trip rt now addr k n w).0.store.saved ≡ (trip rt now addr k n w).0.store.connections
  unfolding trip save
  trip_saved k n c h =
      let u1 = record no_updates { autonomy_level = some full_manual } in
      let u2 = record no_updates { circuit_breaker_tripped = some true } in
      let s1 = (update_connection now addr u1 w.store).0 in
      ground (
        arith,
        update_found now addr u1 w.store c h,
        get_connection-update now addr u1 w.store c addr h,
        update_found now addr u2 s1 (assign now u1 c),
        eq_refl addr,
      )

  is_tripped_found :
      (c : Connection)
      → get_connection addr w.store ≡ some c
      → is_tripped addr w ≡ (c.circuit_breaker_tripped or false)
  unfolding is_tripped
  is_tripped_found c h = ground arith

  -- A known connection that is not tripped, and some count at its threshold: the check reports the
  -- trip, the connection is at full manual with the flag raised, no other connection changes, and
  -- the store is saved.
  pub threshold_trips :
      (c : Connection)
      → get_connection addr w.store ≡ some c
      → (c.circuit_breaker_tripped or false) ≡ false
      → Reached now (events_of addr w) (checks cfg)
      → ((check_and_trip rt cfg now addr w).1 ≡ ok true)
        × ((j : String)
            → get_connection j (check_and_trip rt cfg now addr w).0.store
              ≡ (if addr == j then some (downgraded now c) else get_connection j w.store))
        × ((check_and_trip rt cfg now addr w).0.store.saved
            ≡ (check_and_trip rt cfg now addr w).0.store.connections)
  unfolding check_and_trip
  threshold_trips c h t r =
      let (k, e) = first_exceeded-Reached now (events_of addr w) (checks cfg) r in
      let n = count_events now k (events_of addr w) in
      rw (is_tripped_found c h, t, e)
        (
          ground (arith, trip_done k n c h),
          λ j. ground (arith, trip_done k n c h, get_connection-trip k n c j h),
          ground (arith, trip_done k n c h, trip_saved k n c h),
        )

  -- Where no count reaches its threshold, nothing trips and nothing is written, for a known
  -- connection or not.
  pub quiet_check :
      IsQuiet cfg now (events_of addr w)
      → check_and_trip rt cfg now addr w ≡ (w, ok (is_tripped addr w))
  unfolding check_and_trip
  quiet_check q = ground (arith, first_exceeded-IsQuiet cfg now (events_of addr w) q)

  -- What a check leaves of a known connection.
  pub record KnownOutcome (c : Connection) (o : World × Result Bool) : Type 0 where
    pub answer : Bool
    pub returns : o.1 ≡ ok answer
    pub after : Connection
    pub found : get_connection addr o.0.store ≡ some after
    pub kept_or_downgraded : (after ≡ c) ⊎ (after ≡ downgraded now c)
    pub same_messages : o.0.messages ≡ w.messages

  pub trip_messages : (k : Check) (n : ℕ) → (trip rt now addr k n w).0.messages ≡ w.messages
  unfolding trip update_connection save
  trip_messages k n = ground arith

  -- A check of a known connection returns.
  check_known :
      (c : Connection)
      → get_connection addr w.store ≡ some c
      → KnownOutcome c (check_and_trip rt cfg now addr w)
  unfolding check_and_trip
  check_known c h = elim (Bool-cases (is_tripped addr w)) [
    | inl t ↦ rw t (record {
      answer = true;
      returns = refl;
      after = c;
      found = h;
      kept_or_downgraded = inl refl;
      same_messages = refl;
    })
    | inr t ↦ elim (Option-cases (first_exceeded now (events_of addr w) (checks cfg))) [
      | inl e ↦
          rw (t, e)
            (record {
              answer = false;
              returns = refl;
              after = c;
              found = h;
              kept_or_downgraded = inl refl;
              same_messages = refl;
            })
      | inr (k, e) ↦
          let n = count_events now k (events_of addr w) in
          rw (t, e)
            (record {
              answer = true;
              returns = ground (arith, trip_done k n c h);
              after = downgraded now c;
              found =
                  ground (arith, trip_done k n c h, get_connection-trip k n c addr h, eq_refl addr);
              kept_or_downgraded = inr refl;
              same_messages = ground (arith, trip_done k n c h, trip_messages k n);
            })
    ]
  ]

-- A violation of an information boundary, which is the only violation that the pipeline reports,
-- never trips the circuit breaker by itself: with no other count at its threshold, a report of one
-- more leaves every connection and the activity log as they were, however many there have been.
pub boundary_violations_never_trip :
    (rt : Runtime) (cfg : CircuitBreakerConfig) (now : ℕ) (addr : String) (w : World)
    → IsQuiet cfg now (events_of addr w)
    → IsQuiet cfg now (events_of addr (record_violation rt cfg now addr information_boundary w).0)
      × ((record_violation rt cfg now addr information_boundary w).0.store ≡ w.store)
      × ((record_violation rt cfg now addr information_boundary w).0.feed ≡ w.feed)
unfolding record_violation record_trigger
boundary_violations_never_trip rt cfg now addr w q =
    let w' = add_event cfg now addr information_boundary w in
    let quiet = add_event-IsQuiet cfg now addr w q in
    rw (quiet_check rt cfg now addr w' quiet)
      (quiet, unfold add_event in refl, unfold add_event in refl)

-- The same for an event and the check after it.
pub trigger_known :
    (rt : Runtime) (cfg : CircuitBreakerConfig) (now : ℕ) (addr : String) (type : TriggerType)
    (w : World) (c : Connection)
    → get_connection addr w.store ≡ some c
    → KnownOutcome rt cfg now addr w c (record_trigger rt cfg now addr type w)
unfolding record_trigger add_event
trigger_known rt cfg now addr type w c h =
    let o = check_known rt cfg now addr (add_event cfg now addr type w) c h in
    record {
      answer = o.answer;
      returns = o.returns;
      after = o.after;
      found = o.found;
      kept_or_downgraded = o.kept_or_downgraded;
      same_messages = o.same_messages;
    }
