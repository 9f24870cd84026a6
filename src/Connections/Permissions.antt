-- ===== src/Connections/Permissions.antt =====
-- `setPermissions` of skill/src/connection-store.ts.
use pinch.Prelude.Act.{ok}
use pinch.Prelude.{
  List-cases, Option-cases, String, [], arith, if◌then◌else◌, inl, inr, none, some, ℕ, ◌==◌, ◌≡◌,
  ◌≢◌, ◌⊎◌,
}
use pinch.Manifest.{PermissionsManifest, validate_manifest}
use pinch.Manifest.Validity.{IsValid, validate_manifest_iff}
use pinch.Connections.{Connection, ConnectionStore, no_updates, get_connection, set_permissions}
use pinch.Connections.Writes.{update_found, get_connection-update, update_missing}

module _ (now : ℕ) (addr : String) (m : PermissionsManifest) (s : ConnectionStore) where
  -- A manifest is set exactly when the connection is known and the manifest is valid; that
  -- connection then has it, and the others are as they were. Otherwise the call throws and nothing
  -- has changed.
  pub set_permissions_effect :
      (IsValid m
        × ((c : Connection) × (get_connection addr s ≡ some c)
            × ((set_permissions now addr m s).1
                ≡ ok (record c { permissions_manifest = some m; last_activity = now }))
            × ((j : String)
                → get_connection j (set_permissions now addr m s).0 ≡ (
                    if addr == j
                    then some (record c { permissions_manifest = some m; last_activity = now })
                    else get_connection j s))))
      ⊎ (((validate_manifest m ≢ []) ⊎ (get_connection addr s ≡ none))
          × ((set_permissions now addr m s).0 ≡ s)
          × ((c : Connection) → (set_permissions now addr m s).1 ≢ ok c))
  unfolding set_permissions
  set_permissions_effect =
      let u = record no_updates { permissions_manifest = some m } in
      elim (List-cases (validate_manifest m)) [
        | inr (e, fs, p) ↦ inr (inl (λ q. ground arith), ground arith, λ c. ground arith)
        | inl v ↦ elim (Option-cases (get_connection addr s)) [
          | inl n ↦ inr (
            inr n,
            ground (arith, update_missing now addr u s n),
            λ c. ground (arith, update_missing now addr u s n),
          )
          | inr (c, h) ↦ inl (
            (validate_manifest_iff m).0 v,
            (
              c,
              h,
              ground (arith, update_found now addr u s c h),
              λ j. ground (arith, get_connection-update now addr u s c j h),
            ),
          )
        ]
      ]
