-- ===== src/Manifest/Validity.antt =====
-- What the validation of a manifest accepts (skill/src/autonomy/permissions-manifest.ts).
use pinch.Prelude.{ℕ, String, ◌≡◌, ◌≢◌, ◌↔◌, refl, false, Option, none, some, List, [], ◌∷◌, arith}
use pinch.Manifest.{
  Amount, dollars, minus_dollars, not_a_number, FilePermission, ActionPermission,
  PermissionsManifest, is_negative, lacks_items, folder_errors, scope_errors, validate_manifest,
}

-- A list that is there and has an item.
abbrev pub HasItem : Option (List String) → Type 0
HasItem xs = (x : String) × (rest : List String) × (xs ≡ some (x ∷ rest))

-- No amount below zero; `NaN` is none.
abbrev pub IsNotBelowZero : Amount → Type 0
IsNotBelowZero a = (n : ℕ) → a ≢ minus_dollars n

-- What a manifest has to satisfy, said without the validation and its tests.
pub record IsValid (m : PermissionsManifest) : Type 0 where
  pub folders : m.files ≡ FilePermission.specific_folders → HasItem m.allowed_folders
  pub scopes : m.actions ≡ ActionPermission.scoped → HasItem m.action_scopes
  pub per_transaction : IsNotBelowZero m.spending.per_transaction
  pub per_day : IsNotBelowZero m.spending.per_day
  pub per_connection : IsNotBelowZero m.spending.per_connection

is_negative-IsNotBelowZero : (a : Amount) → is_negative a ≡ false → IsNotBelowZero a
is_negative-IsNotBelowZero (dollars k) h n e = absurd (ground (arith, e))
is_negative-IsNotBelowZero (minus_dollars k) h n e = absurd (ground (arith, h))
is_negative-IsNotBelowZero not_a_number h n e = absurd (ground (arith, e))

IsNotBelowZero-is_negative : (a : Amount) → IsNotBelowZero a → is_negative a ≡ false
IsNotBelowZero-is_negative (dollars k) h = refl
IsNotBelowZero-is_negative (minus_dollars k) h = absurd (h k refl)
IsNotBelowZero-is_negative not_a_number h = refl

lacks_items-HasItem : (xs : Option (List String)) → lacks_items xs ≡ false → HasItem xs
lacks_items-HasItem none h = absurd (ground (arith, h))
lacks_items-HasItem (some []) h = absurd (ground (arith, h))
lacks_items-HasItem (some (x ∷ xs)) h = (x, xs, refl)

HasItem-lacks_items : (xs : Option (List String)) → HasItem xs → lacks_items xs ≡ false
HasItem-lacks_items xs (x, rest, e) = rw e refl

validate_manifest-IsValid : (m : PermissionsManifest) → validate_manifest m ≡ [] → IsValid m
unfolding validate_manifest
validate_manifest-IsValid m h = record {
  folders = λ e. lacks_items-HasItem m.allowed_folders (ground (arith, e, h));
  scopes = λ e. lacks_items-HasItem m.action_scopes (ground (arith, e, h));
  per_transaction = is_negative-IsNotBelowZero m.spending.per_transaction (ground (arith, h));
  per_day = is_negative-IsNotBelowZero m.spending.per_day (ground (arith, h));
  per_connection = is_negative-IsNotBelowZero m.spending.per_connection (ground (arith, h));
}

no_folder_errors :
    (f : FilePermission) (xs : Option (List String))
    → (f ≡ FilePermission.specific_folders → HasItem xs)
    → folder_errors f xs ≡ []
unfolding folder_errors
no_folder_errors FilePermission.specific_folders xs h = rw (HasItem-lacks_items xs (h refl)) refl
no_folder_errors _ xs h = refl

no_scope_errors :
    (a : ActionPermission) (xs : Option (List String))
    → (a ≡ ActionPermission.scoped → HasItem xs)
    → scope_errors a xs ≡ []
unfolding scope_errors
no_scope_errors ActionPermission.scoped xs h = rw (HasItem-lacks_items xs (h refl)) refl
no_scope_errors _ xs h = refl

IsValid-validate_manifest : (m : PermissionsManifest) → IsValid m → validate_manifest m ≡ []
unfolding validate_manifest
IsValid-validate_manifest m v =
    rw
      (
        no_folder_errors m.files m.allowed_folders v.folders,
        no_scope_errors m.actions m.action_scopes v.scopes,
        IsNotBelowZero-is_negative m.spending.per_transaction v.per_transaction,
        IsNotBelowZero-is_negative m.spending.per_day v.per_day,
        IsNotBelowZero-is_negative m.spending.per_connection v.per_connection,
      )
      refl

-- The validation reports no error exactly when specific folders come with a list of at least one
-- folder, scoped actions come with a list of at least one scope, and no spending cap is an amount below
-- zero; a cap that is `NaN` passes.
pub validate_manifest_iff : (m : PermissionsManifest) → (validate_manifest m ≡ []) ↔ IsValid m
validate_manifest_iff m = (validate_manifest-IsValid m, IsValid-validate_manifest m)
