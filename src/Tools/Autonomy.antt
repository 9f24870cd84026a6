-- ===== src/Tools/Autonomy.antt =====
-- skill/src/tools/pinch-autonomy.ts from its arguments on, and what the flag `--confirmed` is needed for.
use pinch.Prelude.Act.{Result, ok, throw, usage, Result-cases}
use pinch.Prelude.{
  ℕ, String, ◌≡◌, ◌⊎◌, inl, inr, refl, Bool, true, false, ◌&&◌, ◌||◌, Option, none, some, List, [],
  ◌∷◌, ◌==◌, eq_iff, ◌∙◌, given, ◌or◌, if◌then◌else◌, arith, Bool-cases, Option-cases,
}
use pinch.Connections.{
  AutonomyLevel, full_manual, notify, auto_respond, full_auto, Connection, ConnectionStore,
  no_updates, get_connection, upgrade_refused, set_autonomy,
}
use pinch.Connections.Writes.{update_missing, get_connection-update, get_connection-save}
use pinch.Connections.Gate.{full_auto_is_confirmed}
use pinch.Tools.Arguments.{Setting, settings, set_all}
use pinch.Tools.Control.{is_auto_respond, store_policy, run_autonomy}

pub record AutonomyFlags : Type 0 where
  pub address : String
  pub level : String
  pub confirmed : Bool
  pub policy : Option String

pub record AutonomyArgs : Type 0 where
  pub address : String
  pub level : AutonomyLevel
  pub confirmed : Bool
  pub policy : Option String

abbrev no_flags : AutonomyFlags
no_flags = record { address = ""; level = ""; confirmed = false; policy = none }

abbrev autonomy_flag : String → Bool
autonomy_flag f = f == "--address" || (f == "--level" || f == "--policy")

unfoldable pub set_flag : AutonomyFlags → Setting → AutonomyFlags
set_flag a (flag, value) =
    if flag == "--address"
    then record a { address = value or "" }
    else if flag == "--level"
    then record a { level = value or "" }
    else if flag == "--confirmed"
    then record a { confirmed = true }
    else if flag == "--policy"
    then record a { policy = value }
    else a

-- `VALID_LEVELS`
abbrev read_level : String → Option AutonomyLevel
read_level l =
    if l == "full_manual"
    then some full_manual
    else if l == "notify"
    then some notify
    else if l == "auto_respond"
    then some auto_respond
    else if l == "full_auto"
    then some full_auto
    else none

abbrev with_level : AutonomyFlags → Option AutonomyLevel → Result AutonomyArgs
with_level a none = throw (usage "Invalid --level")
with_level a (some l) =
    ok (record { address = a.address; level = l; confirmed = a.confirmed; policy = a.policy })

unfoldable pub check_flags : AutonomyFlags → Result AutonomyArgs
check_flags a =
    if a.address == ""
    then throw (usage "--address is required")
    else if a.level == ""
    then throw (usage "--level is required")
    else with_level a (read_level a.level)

abbrev read_flags : List String → AutonomyFlags
read_flags args = set_all set_flag no_flags (settings autonomy_flag none args)

abbrev run_parsed : ℕ → Result AutonomyArgs → ConnectionStore → ConnectionStore × Result Bool
run_parsed now (throw e) s = (s, throw e)
run_parsed now (ok a) s =
    let (s', reported) = run_autonomy now a.address a.level a.confirmed a.policy s in
    (s', ok reported)

-- `run` of pinch-autonomy: the store, and whether it reports a new level.
unfoldable pub run_autonomy_args : ℕ → List String → ConnectionStore → ConnectionStore × Result Bool
run_autonomy_args now args s = run_parsed now (check_flags (read_flags args)) s

abbrev pub is_among : String → List String → Bool
is_among x [] = false
is_among x (y ∷ ys) = y == x || is_among x ys

abbrev has_flag : String → List Setting → Bool
has_flag x [] = false
has_flag x ((flag, value) ∷ ss) = flag == x || has_flag x ss

abbrev is_named : String → Option String → Bool
is_named x none = false
is_named x (some flag) = flag == x

-- Every flag is one of the arguments, or the one whose value was to come.
flag_is_argument :
    (takes : String → Bool) (x : String) (pending : Option String) (args : List String)
    → has_flag x (settings takes pending args) ≡ true
    → (is_named x pending || is_among x args) ≡ true
unfolding settings
flag_is_argument takes x none [] h = absurd (ground arith)
flag_is_argument takes x (some flag) [] h = ground arith
flag_is_argument takes x none (flag ∷ args) h = elim (Bool-cases (takes flag)) [
  | inl y ↦ ground (arith, flag_is_argument takes x (some flag) args)
  | inr n ↦ ground (arith, flag_is_argument takes x none args)
]
flag_is_argument takes x (some flag) (value ∷ args) h =
    ground (arith, flag_is_argument takes x none args)

set_flag-confirmed :
    (a : AutonomyFlags) (flag : String) (value : Option String)
    → (set_flag a (flag, value)).confirmed ≡ true
    → (a.confirmed || flag == "--confirmed") ≡ true
unfolding set_flag
set_flag-confirmed a flag value h = ground arith

confirmed_by_flag :
    (ss : List Setting) (a : AutonomyFlags)
    → (set_all set_flag a ss).confirmed ≡ true
    → (a.confirmed || has_flag "--confirmed" ss) ≡ true
unfolding set_all
confirmed_by_flag [] a h = ground arith
confirmed_by_flag ((flag, value) ∷ ss) a h =
    ground
      (arith, confirmed_by_flag ss (set_flag a (flag, value)) h, set_flag-confirmed a flag value)

module _ (now : ℕ) (addr : String) (level : AutonomyLevel) (policy : Option String)
    (s : ConnectionStore) where
  -- The policy that is stored changes no level.
  level_of_policy :
      (j : String) (c' : Connection)
      → get_connection j (store_policy now addr level policy s) ≡ some c'
      → (c : Connection) × (get_connection j s ≡ some c) × (c.autonomy_level ≡ c'.autonomy_level)
  level_of_policy j c' h = elim (Bool-cases (given policy && is_auto_respond level)) [
    | inr n ↦ (c', ground arith, refl)
    | inl y ↦
        let u = record no_updates { auto_respond_policy = policy } in
        elim (Option-cases (get_connection addr s)) [
          | inl m ↦ (c', ground (arith, update_missing now addr u s m), refl)
          | inr (c, e) ↦ elim (Bool-cases (addr == j)) [
            | inl k ↦ (
              c,
              ground (arith, eq_iff addr j),
              ground (arith, get_connection-update now addr u s c j e),
            )
            | inr k ↦ (c', ground (arith, get_connection-update now addr u s c j e), refl)
          ]
        ]
  ]

module _ (now : ℕ) (s : ConnectionStore) (j : String) (c' : Connection)
    (full : c'.autonomy_level ≡ full_auto) where
  abbrev pub WasFull : Type 0
  WasFull = (c : Connection) × (get_connection j s ≡ some c) × (c.autonomy_level ≡ full_auto)

  run_parsed-full :
      (a : AutonomyArgs)
      → get_connection j (run_autonomy now a.address a.level a.confirmed a.policy s).0 ≡ some c'
      → (a.confirmed ≡ true) ⊎ WasFull
  unfolding run_autonomy
  run_parsed-full a h = elim (Option-cases (get_connection a.address s)) [
    | inl n ↦ inr (c', ground arith, full)
    | inr (c, e) ↦ elim (Bool-cases (upgrade_refused a.level c.autonomy_level a.confirmed)) [
      | inl r ↦ inr (c', ground arith, full)
      | inr r ↦
          let s1 = (set_autonomy now a.address a.level a.confirmed s).0 in
          elim (Result-cases (set_autonomy now a.address a.level a.confirmed s).1) [
            | inr (x, f) ↦
                full_auto_is_confirmed now a.address a.level a.confirmed s j c' (ground arith) full
            | inl (d, f) ↦
                let (c1, g, l) = level_of_policy now a.address a.level a.policy s1 j c' (
                  ground (
                    arith,
                    get_connection-save j (store_policy now a.address a.level a.policy s1),
                  )) in
                full_auto_is_confirmed now a.address a.level a.confirmed s j c1 g (l ∙ full)
          ]
    ]
  ]

  -- Whatever the arguments of pinch-autonomy, a connection that it leaves at full autonomy was there
  -- before, or the flag `--confirmed` is among the arguments.
  pub full_auto_needs_flag :
      (args : List String)
      → get_connection j (run_autonomy_args now args s).0 ≡ some c'
      → (is_among "--confirmed" args ≡ true) ⊎ WasFull
  unfolding run_autonomy_args check_flags
  full_auto_needs_flag args h =
      let a = read_flags args in
      elim (Bool-cases (a.address == "")) [
        | inl y ↦ inr (c', ground arith, full)
        | inr n ↦ elim (Bool-cases (a.level == "")) [
          | inl y ↦ inr (c', ground arith, full)
          | inr m ↦ elim (Option-cases (read_level a.level)) [
            | inl y ↦ inr (c', ground arith, full)
            | inr (l, e) ↦
                elim (run_parsed-full
                  (record {
                    address = a.address;
                    level = l;
                    confirmed = a.confirmed;
                    policy = a.policy;
                  })
                  (ground arith)) [
                    | inr was ↦ inr was
                    | inl k ↦ inl (
                        flag_is_argument autonomy_flag "--confirmed" none args
                          (confirmed_by_flag (settings autonomy_flag none args) no_flags k))
                  ]
          ]
        ]
      ]
