-- ===== src/Connections/Types.antt =====
-- The types of skill/src/connection-store.ts.
use pinch.Prelude.{ℕ, String, Bool, true, false, Option, none, some, List, ◌or◌, or_else}
use pinch.Manifest.{PermissionsManifest, default_permissions_manifest}

pub data ConnectionState : Type 0 where
  active pending_outbound pending_inbound blocked revoked : ConnectionState

pub data AutonomyLevel : Type 0 where
  full_manual notify auto_respond full_auto : AutonomyLevel

-- `a === b` on states.
abbrev pub eq_state : ConnectionState → ConnectionState → Bool
eq_state active active = true
eq_state pending_outbound pending_outbound = true
eq_state pending_inbound pending_inbound = true
eq_state blocked blocked = true
eq_state revoked revoked = true
eq_state _ _ = false

abbrev pub is_active : ConnectionState → Bool
is_active active = true
is_active _ = false

abbrev pub is_pending : ConnectionState → Bool
is_pending pending_outbound = true
is_pending pending_inbound = true
is_pending _ = false

abbrev pub is_full_auto : AutonomyLevel → Bool
is_full_auto full_auto = true
is_full_auto _ = false

-- Addresses and keys are texts; the short message is its UTF-16 code units, since its length is
-- read. Times are instants in place of ISO texts.
pub record Connection : Type 0 where
  pub peer_address : String
  pub peer_public_key : Option String
  pub state : ConnectionState
  pub nickname : String
  pub autonomy_level : AutonomyLevel
  pub auto_respond_policy : Option String
  pub circuit_breaker_tripped : Option Bool
  pub permissions_manifest : Option PermissionsManifest
  pub muted : Option Bool
  pub passthrough : Option Bool
  pub short_message : Option (List ℕ)
  pub created_at : ℕ
  pub last_activity : ℕ
  pub expires_at : Option ℕ

-- `Omit<Connection, "createdAt" | "lastActivity">`, of which the callers set these fields; the
-- others are missing.
pub record NewConnection : Type 0 where
  pub peer_address : String
  pub peer_public_key : String
  pub state : ConnectionState
  pub nickname : String
  pub autonomy_level : Option AutonomyLevel
  pub permissions_manifest : Option PermissionsManifest
  pub short_message : Option (List ℕ)
  pub expires_at : Option ℕ

abbrev pub new_connection : ℕ → NewConnection → Connection
new_connection now conn = record {
  peer_address = conn.peer_address;
  peer_public_key = some conn.peer_public_key;
  state = conn.state;
  nickname = conn.nickname;
  autonomy_level = conn.autonomy_level or full_manual;
  auto_respond_policy = none;
  circuit_breaker_tripped = none;
  permissions_manifest = some (conn.permissions_manifest or default_permissions_manifest);
  muted = none;
  passthrough = none;
  short_message = conn.short_message;
  created_at = now;
  last_activity = now;
  expires_at = conn.expires_at;
}

-- The partial object of `updateConnection`: `none` for a key that is not there. A key may be there
-- with the value `undefined`, as `peerPublicKey` in `handleIncomingResponse`.
pub record Updates : Type 0 where
  pub state : Option ConnectionState
  pub nickname : Option String
  pub autonomy_level : Option AutonomyLevel
  pub peer_public_key : Option (Option String)
  pub auto_respond_policy : Option String
  pub circuit_breaker_tripped : Option Bool
  pub permissions_manifest : Option PermissionsManifest
  pub muted : Option Bool
  pub passthrough : Option Bool

abbrev pub no_updates : Updates
no_updates = record {
  state = none;
  nickname = none;
  autonomy_level = none;
  peer_public_key = none;
  auto_respond_policy = none;
  circuit_breaker_tripped = none;
  permissions_manifest = none;
  muted = none;
  passthrough = none;
}

-- `Object.assign(conn, updates, { lastActivity: now })`
abbrev pub assign : ℕ → Updates → Connection → Connection
assign now u c = record c {
  peer_public_key = u.peer_public_key or c.peer_public_key;
  state = u.state or c.state;
  nickname = u.nickname or c.nickname;
  autonomy_level = u.autonomy_level or c.autonomy_level;
  auto_respond_policy = or_else u.auto_respond_policy c.auto_respond_policy;
  circuit_breaker_tripped = or_else u.circuit_breaker_tripped c.circuit_breaker_tripped;
  permissions_manifest = or_else u.permissions_manifest c.permissions_manifest;
  muted = or_else u.muted c.muted;
  passthrough = or_else u.passthrough c.passthrough;
  last_activity = now;
}
