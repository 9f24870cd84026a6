-- ===== src/Manifest/Edit.antt =====
-- skill/src/tools/pinch-permissions.ts: how the parsed arguments change a manifest.
use pinch.Prelude.{
  ℕ, zero, suc, String, Bool, false, not, Option, none, some, List, [], ◌∷◌, ◌++◌, ◌==◌, keep, ◌or◌,
  or_else,
}
use pinch.Manifest.{
  CalendarPermission, FilePermission, ActionPermission, Amount, CustomCategory, PermissionsManifest,
}

-- The optional fields of `ParsedArgs`. A `removeBoundary` is the whole part of the number, and
-- `some none` if that is `NaN` or below zero.
pub record ManifestEdits : Type 0 where
  pub calendar : Option CalendarPermission
  pub files : Option FilePermission
  pub folders : Option (List String)
  pub actions : Option ActionPermission
  pub scopes : Option (List String)
  pub spending_per_tx : Option Amount
  pub spending_per_day : Option Amount
  pub spending_per_connection : Option Amount
  pub add_boundary : Option String
  pub remove_boundary : Option (Option ℕ)
  pub add_category : Option String
  pub category_description : Option String
  pub category_allowed : Option Bool
  pub remove_category : Option String

abbrev pub no_edits : ManifestEdits
no_edits = record {
  calendar = none;
  files = none;
  folders = none;
  actions = none;
  scopes = none;
  spending_per_tx = none;
  spending_per_day = none;
  spending_per_connection = none;
  add_boundary = none;
  remove_boundary = none;
  add_category = none;
  category_description = none;
  category_allowed = none;
  remove_category = none;
}

-- `xs.splice(i, 1)` for an index in range; any other index changes nothing.
abbrev pub remove_at {ℓ} : {A : Type ℓ} → ℕ → List A → List A
remove_at i [] = []
remove_at zero (x ∷ xs) = xs
remove_at (suc i) (x ∷ xs) = x ∷ remove_at i xs

abbrev pub push {ℓ} : {A : Type ℓ} → Option A → List A → List A
push none xs = xs
push (some x) xs = xs ++ x ∷ []

abbrev drop_boundary : Option ℕ → List String → List String
drop_boundary none xs = xs
drop_boundary (some i) xs = remove_at i xs

abbrev edit_boundaries : ManifestEdits → List String → List String
edit_boundaries e xs = drop_boundary (e.remove_boundary or none) (push e.add_boundary xs)

-- A category is added only if its description is there too.
abbrev new_category : ManifestEdits → Option CustomCategory
new_category e = elim e.add_category [
  | none ↦ none
  | some name ↦ elim e.category_description [
    | none ↦ none
    | some text ↦
        some (record { name = name; description = text; allowed = e.category_allowed or false })
  ]
]

abbrev drop_category : Option String → List CustomCategory → List CustomCategory
drop_category none xs = xs
drop_category (some name) xs = keep (λ c. not (c.name == name)) xs

unfoldable pub apply_edits : ManifestEdits → PermissionsManifest → PermissionsManifest
apply_edits e m = record {
  calendar = e.calendar or m.calendar;
  files = e.files or m.files;
  allowed_folders = or_else e.folders m.allowed_folders;
  actions = e.actions or m.actions;
  action_scopes = or_else e.scopes m.action_scopes;
  spending = record {
    per_transaction = e.spending_per_tx or m.spending.per_transaction;
    per_day = e.spending_per_day or m.spending.per_day;
    per_connection = e.spending_per_connection or m.spending.per_connection;
  };
  information_boundaries = edit_boundaries e m.information_boundaries;
  custom_categories = drop_category e.remove_category (push (new_category e) m.custom_categories);
}
