-- ===== src/Tools/Control.antt =====
-- skill/src/tools/pinch-autonomy.ts, pinch-intervene.ts (`--start` and `--stop`) and pinch-mute.ts:
-- the part of `run` that changes the state, on parsed arguments; and what `bootstrap` of
-- skill/src/tools/cli.ts does to the connection store before each of them.
use pinch.Prelude.Act.{Act, Result, ok, throw, connection_not_found, ◌>>=◌}
use pinch.Prelude.Objects.{Object, lookup, lookup-map_values}
use pinch.Prelude.{
  ℕ, String, ◌≡◌, ◌≢◌, ◌⊎◌, ◌∙◌, refl, inl, inr, Bool, true, false, ◌&&◌, not, Option, none, some,
  eq_refl, if◌then◌else◌, ◌or◌, given, arith, Option-cases, Bool-cases,
}
use pinch.Connections.{
  AutonomyLevel, auto_respond, Connection, ConnectionStore, Updates, no_updates, assign, load, save,
  get_connection, update_connection, upgrade_refused, set_autonomy, clear_passthrough,
  clear_passthrough_flags,
}
use pinch.Connections.Writes.{
  update_missing, update_found, get_connection-update, get_connection-save,
}
use pinch.Connections.Gate.{regraded, set_autonomy_effect}
use pinch.Feed.{Runtime, NewEvent, event, record_event}
use pinch.World.{World, recorded}
use pinch.Lifecycle.{set_and_save}
use pinch.Lifecycle.Decisions.{Changed, set_and_save-Changed}

-- The store that a tool starts with: the file, with all passthrough flags cleared.
unfoldable pub bootstrap_store : Option (Object Connection) → ConnectionStore
bootstrap_store file = clear_passthrough_flags (load file)

abbrev control_event : String → String → String → NewEvent
control_event addr event_type badge = record (event addr event_type) {
  action_type = some event_type;
  badge = some badge;
}

abbrev set_and_note : Runtime → ℕ → String → Updates → NewEvent → Act World (Unit {0})
set_and_note rt now addr u e = set_and_save now addr u >>= λ done w. (recorded rt now e w, ok tt)

abbrev pub muting : Bool → Updates
muting unmute = record no_updates { muted = some (not unmute) }

abbrev pub mute_note : String → Bool → NewEvent
mute_note addr unmute =
    control_event addr (if unmute then "connection_unmuted" else "connection_muted") "muted"

-- `run` of pinch-mute
unfoldable pub run_mute : Runtime → ℕ → String → Bool → Act World (Unit {0})
run_mute rt now addr unmute = set_and_note rt now addr (muting unmute) (mute_note addr unmute)

-- `run` of pinch-intervene with `--start`, and else with `--stop`
unfoldable pub run_intervene : Runtime → ℕ → String → Bool → Act World (Unit {0})
run_intervene rt now addr start =
    set_and_note rt now addr (record no_updates { passthrough = some start })
      (control_event addr (if start then "intervention_started" else "intervention_ended")
        "intervention")

abbrev pub is_auto_respond : AutonomyLevel → Bool
is_auto_respond auto_respond = true
is_auto_respond _ = false

abbrev pub store_policy :
    ℕ → String → AutonomyLevel → Option String → ConnectionStore → ConnectionStore
store_policy now addr level policy s =
    if given policy && is_auto_respond level
    then (update_connection now addr (record no_updates { auto_respond_policy = policy }) s).0
    else s

abbrev pub saved_after :
    ConnectionStore × Result Connection
    → (ConnectionStore → ConnectionStore)
    → ConnectionStore × Bool
saved_after (s, ok c) f = (save (f s), true)
saved_after (s, throw e) f = (s, false)

-- `run` of pinch-autonomy: the store, and whether it reports a new level.
unfoldable pub run_autonomy :
    ℕ → String → AutonomyLevel → Bool → Option String → ConnectionStore → ConnectionStore × Bool
run_autonomy now addr level confirmed policy s = elim (get_connection addr s) [
  | none ↦ (s, false)
  | some c ↦
      if upgrade_refused level c.autonomy_level confirmed
      then (s, false)
      else saved_after (set_autonomy now addr level confirmed s)
          (store_policy now addr level policy)
]

clear_passthrough-off : (c : Connection) → ((clear_passthrough c).passthrough or false) ≡ false
clear_passthrough-off c = ground arith

-- No intervention outlives the process that started it: in the store that any tool starts with,
-- whatever the file holds, no connection is in passthrough mode.
pub bootstrap_ends_interventions :
    (file : Option (Object Connection)) (addr : String) (c : Connection)
    → get_connection addr (bootstrap_store file) ≡ some c
    → (c.passthrough or false) ≡ false
unfolding bootstrap_store clear_passthrough_flags get_connection save
bootstrap_ends_interventions file addr c h =
    elim (Option-cases (lookup addr (load file).connections)) [
      | inl n ↦
          absurd (ground (arith, lookup-map_values clear_passthrough addr (load file).connections))
      | inr (d, e) ↦ ground (
        arith,
        lookup-map_values clear_passthrough addr (load file).connections,
        clear_passthrough-off d,
      )
    ]

module _ (rt : Runtime) (now : ℕ) (addr : String) (w : World) where
  -- A mute sets the flag of a known connection, saves it and logs it, and sends nothing; for an
  -- address that is not known it throws and changes nothing.
  pub run_mute_effect :
      (unmute : Bool)
      → ((c : Connection) × (get_connection addr w.store ≡ some c)
          × ((run_mute rt now addr unmute w).1 ≡ ok tt)
          × Changed now addr (muting unmute) w c (run_mute rt now addr unmute w).0.store
          × ((run_mute rt now addr unmute w).0.feed
              ≡ record_event rt now (mute_note addr unmute) w.feed)
          × ((run_mute rt now addr unmute w).0.relay ≡ w.relay))
        ⊎ ((get_connection addr w.store ≡ none)
            × ((run_mute rt now addr unmute w).0 ≡ w)
            × ((run_mute rt now addr unmute w).1 ≡ throw (connection_not_found addr)))
  unfolding run_mute set_and_save
  run_mute_effect unmute = elim (Option-cases (get_connection addr w.store)) [
    | inl n ↦ inr (
      n,
      ground (arith, update_missing now addr (muting unmute) w.store n),
      ground (arith, update_missing now addr (muting unmute) w.store n),
    )
    | inr (c, e) ↦
        let found = update_found now addr (muting unmute) w.store c e in
        let (done, changed, quiet) = set_and_save-Changed now addr (muting unmute) w c e in
        inl (
          c,
          e,
          ground (arith, found),
          (
            λ j. ground (
              arith,
              found,
              get_connection-update now addr (muting unmute) w.store c j e,
              get_connection-save j (update_connection now addr (muting unmute) w.store).0,
            ),
            unfold save in ground (arith, found),
          ),
          ground (arith, found),
          ground (arith, found),
        )
  ]

module _ (now : ℕ) (addr : String) (level : AutonomyLevel) (confirmed : Bool)
    (policy : Option String) (s : ConnectionStore) where
  -- The autonomy tool reports a new level exactly when the connection is known and the gate lets the
  -- change through. The connection then has the level, no raised circuit breaker flag, and the
  -- policy given if the level is the one that answers by a policy, and the store is saved;
  -- otherwise nothing has changed.
  pub run_autonomy_effect :
      ((c c' : Connection) × (get_connection addr s ≡ some c)
        × (upgrade_refused level c.autonomy_level confirmed ≡ false)
        × ((run_autonomy now addr level confirmed policy s).1 ≡ true)
        × (get_connection addr (run_autonomy now addr level confirmed policy s).0 ≡ some c')
        × (c'.autonomy_level ≡ level)
        × (c'.circuit_breaker_tripped ≢ some true)
        × (c'.auto_respond_policy
            ≡ (if given policy && is_auto_respond level then policy else c.auto_respond_policy))
        × ((run_autonomy now addr level confirmed policy s).0.saved
            ≡ (run_autonomy now addr level confirmed policy s).0.connections))
      ⊎ ((get_connection addr s ≡ none)
          ⊎ ((c : Connection) × (get_connection addr s ≡ some c)
              × (upgrade_refused level c.autonomy_level confirmed ≡ true)))
        × (run_autonomy now addr level confirmed policy s ≡ (s, false))
  unfolding run_autonomy
  run_autonomy_effect = elim (Option-cases (get_connection addr s)) [
    | inl n ↦ inr (inl n, ground arith)
    | inr (c, e) ↦ elim (Bool-cases (upgrade_refused level c.autonomy_level confirmed)) [
      | inl r ↦ inr (inr (c, e, r), ground arith)
      | inr r ↦
          let (done, calm, found) = set_autonomy_effect now addr level confirmed s c e r in
          let s1 = (set_autonomy now addr level confirmed s).0 in
          let u = record no_updates { auto_respond_policy = policy } in
          let there : get_connection addr s1 ≡ some (regraded now level c) =
            found addr ∙ rw (eq_refl addr) refl in
          elim (Bool-cases (given policy && is_auto_respond level)) [
            | inl y ↦ inl (
              c,
              assign now u (regraded now level c),
              e,
              r,
              ground (arith, done),
              ground (
                arith,
                done,
                get_connection-save addr (update_connection now addr u s1).0,
                get_connection-update now addr u s1 (regraded now level c) addr there,
                eq_refl addr,
              ),
              unfold regraded in ground arith,
              calm,
              ground arith,
              unfold save in ground (arith, done),
            )
            | inr y ↦ inl (
              c,
              regraded now level c,
              e,
              r,
              ground (arith, done),
              ground (arith, done, get_connection-save addr s1, there),
              unfold regraded in ground arith,
              calm,
              unfold regraded in ground arith,
              unfold save in ground (arith, done),
            )
          ]
    ]
  ]
