-- ===== src/Tests/Stores.antt =====
-- Runs of the manifest, the connections and the messages.
use pinch.Prelude.{[], some, ◌↔◌, ◌∷◌, ◌≡◌}
use pinch.Manifest.{
  PermissionsManifest, FilePermission, default_permissions_manifest, validate_manifest,
}
use pinch.Manifest.Validity.{IsValid, validate_manifest_iff}

abbrev folder_manifest : PermissionsManifest
folder_manifest = record default_permissions_manifest {
  files = FilePermission.specific_folders;
  allowed_folders = some ("/work" ∷ []);
}

validate_manifest_iff_example : (validate_manifest folder_manifest ≡ []) ↔ IsValid folder_manifest
validate_manifest_iff_example = validate_manifest_iff folder_manifest
