-- ===== src/Manifest/Tiers.antt =====
-- The permission tiers of skill/src/autonomy/permissions-manifest.ts.
pub data CalendarPermission : Type 0 where
  none free_busy_only full_details propose_and_book : CalendarPermission

pub data FilePermission : Type 0 where
  none specific_folders everything : FilePermission

pub data ActionPermission : Type 0 where
  none scoped full : ActionPermission
