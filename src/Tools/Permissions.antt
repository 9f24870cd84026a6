-- ===== src/Tools/Permissions.antt =====
-- skill/src/tools/pinch-permissions.ts: `run` on its parsed arguments. The manifest that it edits is
-- the object in the store, or a new default one if the connection has none.
use pinch.Prelude.Act.{Result, ok, throw, Result-cases}
use pinch.Prelude.{
  false, ℕ, String, ◌≡◌, ◌≢◌, ◌==◌, ◌⊎◌, refl, inl, inr, Bool, none, some, eq_refl, if◌then◌else◌,
  arith, Option-cases, Bool-cases,
}
use pinch.Prelude.Objects.{lookup-insert}
use pinch.Manifest.{PermissionsManifest}
use pinch.Manifest.Edit.{ManifestEdits, apply_edits}
use pinch.Manifest.Validity.{IsValid}
use pinch.Connections.{Connection, ConnectionStore, get_connection, put, save, set_permissions}
use pinch.Connections.Writes.{get_connection-save}
use pinch.Connections.Permissions.{set_permissions_effect}
use pinch.Enforcer.{manifest_of}

pub data Outcome : Type 0 where
  not_found refused : Outcome
  shown updated : PermissionsManifest → Outcome

-- The edits reach the store's own object before they are validated.
unfoldable pub edit_in_place :
    String → PermissionsManifest → Connection → ConnectionStore → ConnectionStore
edit_in_place addr m c s = elim c.permissions_manifest [
  | none ↦ s
  | some shared ↦ put addr (record c { permissions_manifest = some m }) s
]

abbrev after_set :
    PermissionsManifest → ConnectionStore × Result Connection → ConnectionStore × Outcome
after_set m (s, ok c) = (save s, updated m)
after_set m (s, throw e) = (s, refused)

-- `run`, for `--show` or a change
unfoldable pub run_permissions :
    ℕ → String → Bool → ManifestEdits → ConnectionStore → ConnectionStore × Outcome
run_permissions now addr show edits s = elim (get_connection addr s) [
  | none ↦ (s, not_found)
  | some c ↦
      if show
      then (s, shown (manifest_of c))
      else (let m = apply_edits edits (manifest_of c) in
          after_set m (set_permissions now addr m (edit_in_place addr m c s)))
]

edit-saved :
    (addr : String) (m : PermissionsManifest) (c : Connection) (s : ConnectionStore)
    → (edit_in_place addr m c s).saved ≡ s.saved
unfolding edit_in_place put
edit-saved addr m c s = ground arith

edit_elsewhere :
    (addr : String) (m : PermissionsManifest) (c : Connection) (s : ConnectionStore) (j : String)
    → (addr == j) ≡ false
    → get_connection j (edit_in_place addr m c s) ≡ get_connection j s
unfolding edit_in_place put get_connection
edit_elsewhere addr m c s j n = elim (Option-cases c.permissions_manifest) [
  | inl e ↦ ground (arith, e)
  | inr (shared, e) ↦
      ground (
        arith,
        e,
        n,
        lookup-insert addr j (record c { permissions_manifest = some m }) s.connections,
      )
]

module _ (now : ℕ) (addr : String) (show : Bool) (edits : ManifestEdits) (s : ConnectionStore) where
  -- The edited manifest is valid, reported and in the file, for this connection and no other.
  abbrev pub Written : ConnectionStore × Outcome → Type 0
  Written (s', o) =
      (c : Connection) × (get_connection addr s ≡ some c)
      × IsValid (apply_edits edits (manifest_of c))
      × (o ≡ updated (apply_edits edits (manifest_of c)))
      × ((c' : Connection) × (get_connection addr s' ≡ some c')
          × (c'.permissions_manifest ≡ some (apply_edits edits (manifest_of c))))
      × ((j : String) → (addr == j) ≡ false → get_connection j s' ≡ get_connection j s)
      × (s'.saved ≡ s'.connections)

  -- The file is as it was, and no change is reported.
  abbrev pub Kept : ConnectionStore × Outcome → Type 0
  Kept (s', o) = (s'.saved ≡ s.saved) × ((m : PermissionsManifest) → o ≢ updated m)

  -- What the tool writes to the file is a valid manifest: it writes only when it reports a change,
  -- the manifest reported is then the edited one, valid, and in the store; in every other case the
  -- file is as it was.
  pub Written-run_permissions :
      Written (run_permissions now addr show edits s) ⊎ Kept (run_permissions now addr show edits s)
  unfolding run_permissions
  Written-run_permissions = elim (Option-cases (get_connection addr s)) [
    | inl n ↦ inr (ground arith, λ m e. absurd (ground (arith, n, e)))
    | inr (c, e) ↦ elim (Bool-cases show) [
      | inl only ↦ inr (ground arith, λ m k. absurd (ground (arith, e, only, k)))
      | inr edit ↦
          let m = apply_edits edits (manifest_of c) in
          let s1 = edit_in_place addr m c s in
          elim (set_permissions_effect now addr m s1) [
            | inl (v, (c1, h, done, stored)) ↦
                let s2 = (set_permissions now addr m s1).0 in
                let same : run_permissions now addr show edits s ≡ (save s2, updated m) =
                  ground (arith, e, edit, done) in
                rw same (
                  inl (
                    c,
                    e,
                    v,
                    refl,
                    (
                      record c1 { permissions_manifest = some m; last_activity = now },
                      ground (arith, stored addr, eq_refl addr, get_connection-save addr s2),
                      refl,
                    ),
                    λ j n. ground (
                      arith,
                      n,
                      stored j,
                      get_connection-save j s2,
                      edit_elsewhere addr m c s j n,
                    ),
                    unfold save in refl,
                  ))
            | inr (why, same, throws) ↦ elim (Result-cases (set_permissions now addr m s1).1) [
              | inl (c2, k) ↦ absurd (throws c2 k)
              | inr (x, k) ↦ inr (
                ground (arith, edit-saved addr m c s),
                λ n q. absurd (ground (arith, e, edit, k, q)),
              )
            ]
          ]
    ]
  ]
