-- ===== src/Tools/Manifests.antt =====
-- skill/src/tools/pinch-permissions.ts, from its arguments on.
use pinch.Prelude.Act.{Error, Result, ok, throw, usage}
use pinch.Prelude.{
  ℕ, String, ◌≡◌, ◌≢◌, false, ◌∙◌, ◌⊎◌, refl, ap, inl, inr, Bool, true, false, ◌||◌, Option, none,
  some, List, ◌==◌, ◌or◌, if◌then◌else◌,
}
use pinch.Manifest.{CalendarPermission, FilePermission, ActionPermission, PermissionsManifest}
use pinch.Manifest.Edit.{ManifestEdits, no_edits, apply_edits}
use pinch.Manifest.Validity.{IsValid}
use pinch.Prelude.Objects.{lookup}
use pinch.Connections.{ConnectionStore, Connection, load, get_connection}
use pinch.Identity.KeyFile.{Keypair, KeyCodec}
use pinch.Tools.Control.{bootstrap_store}
use pinch.Tools.Bootstrap.{Disk, prepared}
use pinch.Enforcer.{manifest_of}
use pinch.Tools.Permissions.{Outcome, updated, run_permissions, Written-run_permissions}
use pinch.Tools.Arguments.{Setting, settings, set_until}
use pinch.Tools.Numbers.{comma_list, read_number, as_amount, as_index}

pub record PermissionArgs : Type 0 where
  pub address : String
  pub show : Bool
  pub edits : ManifestEdits

abbrev no_args : PermissionArgs
no_args = record { address = ""; show = false; edits = no_edits }

abbrev permission_flag : String → Bool
permission_flag f =
    f == "--address"
    || (f == "--calendar"
        || (f == "--files"
            || (f == "--folders"
                || (f == "--actions"
                    || (f == "--scopes"
                        || (f == "--spending-per-tx"
                            || (f == "--spending-per-day"
                                || (f == "--spending-per-connection"
                                    || (f == "--add-boundary"
                                        || (f == "--remove-boundary"
                                            || (f == "--add-category"
                                                || (f == "--category-description"
                                                    || (f == "--category-allowed"
                                                        || f == "--remove-category")))))))))))))

-- `VALID_CALENDAR`, `VALID_FILES` and `VALID_ACTIONS`
abbrev read_calendar : String → Option CalendarPermission
read_calendar v =
    if v == "none"
    then some CalendarPermission.none
    else if v == "free_busy_only"
    then some CalendarPermission.free_busy_only
    else if v == "full_details"
    then some CalendarPermission.full_details
    else if v == "propose_and_book"
    then some CalendarPermission.propose_and_book
    else none

abbrev read_files : String → Option FilePermission
read_files v =
    if v == "none"
    then some FilePermission.none
    else if v == "specific_folders"
    then some FilePermission.specific_folders
    else if v == "everything"
    then some FilePermission.everything
    else none

abbrev read_actions : String → Option ActionPermission
read_actions v =
    if v == "none"
    then some ActionPermission.none
    else if v == "scoped"
    then some ActionPermission.scoped
    else if v == "full"
    then some ActionPermission.full
    else none

abbrev valid_or : {A : Type 0} → String → Option A → (A → PermissionArgs) → Result PermissionArgs
valid_or message none f = throw (usage message)
valid_or message (some a) f = ok (f a)

abbrev with_edits : PermissionArgs → ManifestEdits → PermissionArgs
with_edits a e = record a { edits = e }

abbrev set_limit : PermissionArgs → String → Option String → PermissionArgs
set_limit a flag v =
    if flag == "--spending-per-tx"
    then with_edits a (record a.edits { spending_per_tx = some (as_amount (read_number v)) })
    else if flag == "--spending-per-day"
    then with_edits a (record a.edits { spending_per_day = some (as_amount (read_number v)) })
    else if flag == "--spending-per-connection"
    then with_edits a
        (record a.edits { spending_per_connection = some (as_amount (read_number v)) })
    else if flag == "--add-boundary"
    then with_edits a (record a.edits { add_boundary = v })
    else if flag == "--remove-boundary"
    then with_edits a (record a.edits { remove_boundary = some (as_index (read_number v)) })
    else if flag == "--add-category"
    then with_edits a (record a.edits { add_category = v })
    else if flag == "--category-description"
    then with_edits a (record a.edits { category_description = v })
    else if flag == "--category-allowed"
    then with_edits a (record a.edits { category_allowed = some ((v or "") == "true") })
    else if flag == "--remove-category"
    then with_edits a (record a.edits { remove_category = v })
    else a

-- The switch of the loop.
unfoldable pub set_permission : PermissionArgs → Setting → Result PermissionArgs
set_permission a (flag, v) =
    if flag == "--address"
    then ok (record a { address = v or "" })
    else if flag == "--show"
    then ok (record a { show = true })
    else if flag == "--calendar"
    then valid_or "Invalid --calendar" (read_calendar (v or ""))
        (λ x. with_edits a (record a.edits { calendar = some x }))
    else if flag == "--files"
    then valid_or "Invalid --files" (read_files (v or ""))
        (λ x. with_edits a (record a.edits { files = some x }))
    else if flag == "--folders"
    then ok (with_edits a (record a.edits { folders = some (comma_list (v or "")) }))
    else if flag == "--actions"
    then valid_or "Invalid --actions" (read_actions (v or ""))
        (λ x. with_edits a (record a.edits { actions = some x }))
    else if flag == "--scopes"
    then ok (with_edits a (record a.edits { scopes = some (comma_list (v or "")) }))
    else ok (set_limit a flag v)

abbrev check_address : Result PermissionArgs → Result PermissionArgs
check_address (throw e) = throw e
check_address (ok a) = if a.address == "" then throw (usage "--address is required") else ok a

-- `parseArgs` of pinch-permissions
unfoldable pub parse_permission_args : List String → Result PermissionArgs
parse_permission_args args =
    check_address (set_until set_permission no_args (settings permission_flag none args))

from_ok : {o p : Outcome} → ok o ≡ ok p → o ≡ p
from_ok {o} e = ap (λ r. content o r) e
  where
    content : Outcome → Result Outcome → Outcome
    content x (ok y) = y
    content x (throw z) = x

abbrev with_connections : Disk → ConnectionStore × Outcome → Disk × Result Outcome
with_connections d (s, o) = (record d { connections = some s.saved }, ok o)

module _ (kc : KeyCodec) (now : ℕ) (fresh : Keypair) where
  -- After `bootstrapLocal`, which loads or writes the keys and saves the connections without their
  -- passthrough flags.
  abbrev run_read : Result PermissionArgs → Disk → Disk × Result Outcome
  run_read (throw e) d = (d, throw e)
  run_read (ok a) d =
      with_connections (prepared kc now fresh d)
        (run_permissions now a.address a.show a.edits (bootstrap_store d.connections))

  -- `run` of pinch-permissions, on the files
  unfoldable pub run_permission_args : List String → Disk → Disk × Result Outcome
  run_permission_args args d = run_read (parse_permission_args args) d

  module _ (d : Disk) where
    -- The keys are kept or made, and the file holds the connections with their passthrough flags cleared
    -- and, for the address of the arguments, with its manifest as edited, which is valid and reported.
    abbrev pub Changed : PermissionArgs → Disk × Result Outcome → Type 0
    Changed a (d', o) =
        (d'.key_file ≡ (prepared kc now fresh d).key_file)
        × ((c : Connection) × (get_connection a.address (bootstrap_store d.connections) ≡ some c)
            × IsValid (apply_edits a.edits (manifest_of c))
            × (o ≡ ok (updated (apply_edits a.edits (manifest_of c))))
            × ((c' : Connection) × (get_connection a.address (load d'.connections) ≡ some c')
                × (c'.permissions_manifest ≡ some (apply_edits a.edits (manifest_of c)))))
        × ((j : String)
            → (a.address == j) ≡ false
            → get_connection j (load d'.connections)
              ≡ get_connection j (bootstrap_store d.connections))

    -- The files are as every tool leaves them that only starts, and no change is reported.
    abbrev pub OnlyStarted : Disk × Result Outcome → Type 0
    OnlyStarted (d', o) =
        (d' ≡ prepared kc now fresh d) × ((m : PermissionsManifest) → o ≢ ok (updated m))

    abbrev Reported : Result PermissionArgs → Type 0
    Reported r =
        ((e : Error) × (r ≡ throw e) × (run_read r d ≡ (d, throw e)))
        ⊎ (((a : PermissionArgs) × (r ≡ ok a) × Changed a (run_read r d))
            ⊎ OnlyStarted (run_read r d))

    in_file :
        (j : String) (s : ConnectionStore)
        → s.saved ≡ s.connections
        → get_connection j (load (some s.saved)) ≡ get_connection j s
    unfolding get_connection
    in_file j s e = ap (lookup j) e

    run_read-Reported : (r : Result PermissionArgs) → Reported r
    run_read-Reported (throw e) = inl (e, refl, refl)
    run_read-Reported (ok a) =
        let s = bootstrap_store d.connections in
        let t = (run_permissions now a.address a.show a.edits s).0 in
        elim (Written-run_permissions now a.address a.show a.edits s) [
          | inr (same, none_reported) ↦ inr (
              inr (
                ap (λ file. record (prepared kc now fresh d) { connections = some file }) same,
                λ m e. none_reported m (from_ok e),
              ))
          | inl (c, e, v, reported, (c', found, held), others, saved) ↦ inr (
              inl (
                a,
                refl,
                (
                  refl,
                  (c, e, v, ap ok reported, (c', in_file a.address t saved ∙ found, held)),
                  λ j n. in_file j t saved ∙ others j n,
                ),
              ))
        ]

    -- Whatever its arguments and the files, pinch-permissions does one of three things. It refuses the
    -- arguments and touches no file. It saves and reports the manifest of the address as edited, which is
    -- then valid, changing no other connection but for the cleared passthrough flags. Or it reports no
    -- change and leaves the files as its start leaves them: with keys, and with the passthrough flags
    -- cleared.
    pub arguments_write_valid :
        (args : List String)
        → ((e : Error) × (parse_permission_args args ≡ throw e)
            × (run_permission_args args d ≡ (d, throw e)))
          ⊎ (((a : PermissionArgs) × (parse_permission_args args ≡ ok a)
                × Changed a (run_permission_args args d))
              ⊎ OnlyStarted (run_permission_args args d))
    unfolding run_permission_args
    arguments_write_valid args = run_read-Reported (parse_permission_args args)
