-- ===== src/Enforcer.antt =====
-- skill/src/autonomy/permissions-enforcer.ts: the check of a message against the manifest of its
-- connection. The store is read before the first wait for the evaluator.
pub mod Verdicts
use pinch.Prelude.{
  String, Bool, true, false, not, Option, none, some, List, [], ◌∷◌, keep, ◌or◌, if◌then◌else◌,
}
use pinch.Manifest.{CustomCategory, PermissionsManifest, default_permissions_manifest}
use pinch.Connections.{Connection, ConnectionStore, is_active, get_connection}
use pinch.Feed.{Action, allow, deny, escalate, TriggerType, information_boundary}
use pinch.Evaluator.{PolicyDecision, PolicyEvaluator}

pub record EnforcementResult : Type 0 where
  pub allowed : Bool
  pub reason : Option String
  pub violation_type : Option TriggerType
  pub escalate_to_human : Bool

abbrev pub unknown_sender : EnforcementResult
unknown_sender = record {
  allowed = false;
  reason = some "unknown sender";
  violation_type = none;
  escalate_to_human = false;
}

abbrev pub passed : EnforcementResult
passed = record { allowed = true; reason = none; violation_type = none; escalate_to_human = false }

abbrev pub evaluator_failed : EnforcementResult
evaluator_failed = record {
  allowed = false;
  reason = some "Policy evaluation unavailable -- escalating to human";
  violation_type = none;
  escalate_to_human = true;
}

abbrev pub is_escalate : Action → Bool
is_escalate escalate = true
is_escalate _ = false

abbrev pub boundary_result : PolicyDecision → EnforcementResult
boundary_result d = record {
  allowed = false;
  reason = some d.reasoning;
  violation_type = some information_boundary;
  escalate_to_human = is_escalate d.action;
}

abbrev by_action : Action → PolicyDecision → Option EnforcementResult
by_action allow d = none
by_action deny d = some (boundary_result d)
by_action escalate d = some (boundary_result d)

-- How one answer ends the check; `none` goes on.
abbrev pub verdict : Option PolicyDecision → Option EnforcementResult
verdict none = some evaluator_failed
verdict (some d) = by_action d.action d

unfoldable pub check_categories : PolicyEvaluator → String → List CustomCategory → EnforcementResult
check_categories ev body [] = passed
check_categories ev body (c ∷ cs) =
    elim (verdict (ev.check_information_boundary (c.description ∷ []) body)) [
      | some r ↦ r
      | none ↦ check_categories ev body cs
    ]

abbrev pub denied_categories : PermissionsManifest → List CustomCategory
denied_categories m = keep (λ c. not c.allowed) m.custom_categories

abbrev pub check_boundaries : PolicyEvaluator → String → List String → Option EnforcementResult
check_boundaries ev body [] = none
check_boundaries ev body (b ∷ bs) = verdict (ev.check_information_boundary (b ∷ bs) body)

unfoldable pub check_manifest : PolicyEvaluator → String → PermissionsManifest → EnforcementResult
unfolding check_categories
check_manifest ev body m = elim (check_boundaries ev body m.information_boundaries) [
  | some r ↦ r
  | none ↦ check_categories ev body (denied_categories m)
]

abbrev pub manifest_of : Connection → PermissionsManifest
manifest_of c = c.permissions_manifest or default_permissions_manifest

-- `check`
unfoldable pub check : PolicyEvaluator → String → String → ConnectionStore → EnforcementResult
unfolding check_manifest
check ev body addr s = elim (get_connection addr s) [
  | none ↦ unknown_sender
  | some c ↦ if is_active c.state then check_manifest ev body (manifest_of c) else unknown_sender
]
