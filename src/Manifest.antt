-- ===== src/Manifest.antt =====
-- skill/src/autonomy/permissions-manifest.ts: the permissions manifest of a connection, its
-- deny-all default and its validation.
mod Tiers
pub mod Validity
pub mod Edit
pub use Tiers.*
use pinch.Prelude.{
  ℕ, String, Bool, true, false, Option, none, some, List, [], ◌∷◌, ◌++◌, if◌then◌else◌,
}

-- A JavaScript number that stands for an amount of money: at least zero, below zero, or `NaN`.
-- The code reads nothing of it but its sign.
pub data Amount : Type 0 where
  dollars minus_dollars : ℕ → Amount
  not_a_number : Amount

-- `x < 0`, which is false of `NaN`.
abbrev pub is_negative : Amount → Bool
is_negative (minus_dollars n) = true
is_negative _ = false

pub record SpendingCaps : Type 0 where
  pub per_transaction : Amount
  pub per_day : Amount
  pub per_connection : Amount

pub record CustomCategory : Type 0 where
  pub name : String
  pub description : String
  pub allowed : Bool

pub record PermissionsManifest : Type 0 where
  pub calendar : CalendarPermission
  pub files : FilePermission
  pub allowed_folders : Option (List String)
  pub actions : ActionPermission
  pub action_scopes : Option (List String)
  pub spending : SpendingCaps
  pub information_boundaries : List String
  pub custom_categories : List CustomCategory

abbrev pub default_permissions_manifest : PermissionsManifest
default_permissions_manifest = record {
  calendar = CalendarPermission.none;
  files = FilePermission.none;
  allowed_folders = none;
  actions = ActionPermission.none;
  action_scopes = none;
  spending = record {
    per_transaction = dollars 0;
    per_day = dollars 0;
    per_connection = dollars 0;
  };
  information_boundaries = [];
  custom_categories = [];
}

pub data ManifestError : Type 0 where
  folders_missing scopes_missing : ManifestError
  negative_per_transaction negative_per_day negative_per_connection : ManifestError

-- `!list || list.length === 0`
abbrev pub lacks_items : Option (List String) → Bool
lacks_items none = true
lacks_items (some []) = true
lacks_items (some (x ∷ xs)) = false

abbrev report : Bool → ManifestError → List ManifestError
report b e = if b then e ∷ [] else []

folder_errors : FilePermission → Option (List String) → List ManifestError
folder_errors FilePermission.specific_folders folders = report (lacks_items folders) folders_missing
folder_errors _ folders = []

scope_errors : ActionPermission → Option (List String) → List ManifestError
scope_errors ActionPermission.scoped scopes = report (lacks_items scopes) scopes_missing
scope_errors _ scopes = []

unfoldable pub validate_manifest : PermissionsManifest → List ManifestError
unfolding folder_errors scope_errors
validate_manifest m =
    folder_errors m.files m.allowed_folders
    ++ (scope_errors m.actions m.action_scopes
        ++ (report (is_negative m.spending.per_transaction) negative_per_transaction
            ++ (report (is_negative m.spending.per_day) negative_per_day
                ++ report (is_negative m.spending.per_connection) negative_per_connection)))
