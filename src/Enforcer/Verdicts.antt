-- ===== src/Enforcer/Verdicts.antt =====
-- What the enforcer lets through (skill/src/autonomy/permissions-enforcer.ts).
use pinch.Prelude.{
  String, ◌≡◌, refl, ◌↔◌, true, false, Option, none, some, List, [], ◌∷◌, All, keep, not, arith,
  inl, inr, Option-cases, Bool-cases,
}
use pinch.Manifest.{CustomCategory, PermissionsManifest}
use pinch.Connections.{Connection, ConnectionStore, is_active, get_connection}
use pinch.Feed.{allow}
use pinch.Evaluator.{PolicyDecision, PolicyEvaluator}
use pinch.Enforcer.{
  EnforcementResult, verdict, check_categories, denied_categories, check_boundaries, check_manifest,
  manifest_of, check,
}

-- The evaluator answered, and with `allow`.
abbrev pub Allows : PolicyEvaluator → List String → String → Type 0
Allows ev boundaries body =
    (d : PolicyDecision) × (ev.check_information_boundary boundaries body ≡ some d)
    × (d.action ≡ allow)

abbrev pub AllowsBoundaries : PolicyEvaluator → List String → String → Type 0
AllowsBoundaries ev [] body = Unit {0}
AllowsBoundaries ev (b ∷ bs) body = Allows ev (b ∷ bs) body

kept_out :
    (c : CustomCategory) (cs : List CustomCategory)
    → c.allowed ≡ true
    → keep (λ c. not c.allowed) (c ∷ cs) ≡ keep (λ c. not c.allowed) cs
kept_out c cs y = ground (arith, y)

kept_in :
    (c : CustomCategory) (cs : List CustomCategory)
    → c.allowed ≡ false
    → keep (λ c. not c.allowed) (c ∷ cs) ≡ c ∷ keep (λ c. not c.allowed) cs
kept_in c cs n = ground (arith, n)

module _ (P : CustomCategory → Type 0) where
  denied_each :
      (cs : List CustomCategory)
      → All P (keep (λ c. not c.allowed) cs)
      → All (λ c. c.allowed ≡ false → P c) cs
  denied_each [] h = tt
  denied_each (c ∷ cs) h = elim (Bool-cases c.allowed) [
    | inl y ↦ (λ n. absurd (ground (arith, y, n)), denied_each cs (rw (kept_out c cs y) at h))
    | inr n ↦ let k = rw (kept_in c cs n) at h in (λ _. k.0, denied_each cs k.1)
  ]

  All-denied :
      (cs : List CustomCategory)
      → All (λ c. c.allowed ≡ false → P c) cs
      → All P (keep (λ c. not c.allowed) cs)
  All-denied [] h = tt
  All-denied (c ∷ cs) h = elim (Bool-cases c.allowed) [
    | inl y ↦ rw (kept_out c cs y) (All-denied cs h.1)
    | inr n ↦ rw (kept_in c cs n) ((h.0 n, All-denied cs h.1))
  ]

module _ (ev : PolicyEvaluator) (body : String) where
  verdict-none :
      (bs : List String)
      → verdict (ev.check_information_boundary bs body) ≡ none
      → Allows ev bs body
  verdict-none bs h = elim (Option-cases (ev.check_information_boundary bs body)) [
    | inl e ↦ ground arith
    | inr (d, e) ↦ (d, e, ground arith)
  ]

  Allows-verdict :
      (bs : List String)
      → Allows ev bs body
      → verdict (ev.check_information_boundary bs body) ≡ none
  Allows-verdict bs (d, e, a) = ground arith

  verdict_denies :
      (o : Option PolicyDecision) (r : EnforcementResult) → verdict o ≡ some r → r.allowed ≡ false
  verdict_denies o r h = ground arith

  categories_allow :
      (cs : List CustomCategory)
      → (check_categories ev body cs).allowed ≡ true
      → All (λ c. Allows ev (c.description ∷ []) body) cs
  unfolding check_categories
  categories_allow [] h = tt
  categories_allow (c ∷ cs) h =
      elim (Option-cases (verdict (ev.check_information_boundary (c.description ∷ []) body))) [
        | inl e ↦ (verdict-none (c.description ∷ []) e, categories_allow cs (ground arith))
        | inr (r, e) ↦
            ground
              (arith, verdict_denies (ev.check_information_boundary (c.description ∷ []) body) r e)
      ]

  allow_categories :
      (cs : List CustomCategory)
      → All (λ c. Allows ev (c.description ∷ []) body) cs
      → (check_categories ev body cs).allowed ≡ true
  unfolding check_categories
  allow_categories [] h = refl
  allow_categories (c ∷ cs) h =
      ground (arith, Allows-verdict (c.description ∷ []) h.0, allow_categories cs h.1)

  boundaries_allow :
      (bs : List String) → check_boundaries ev body bs ≡ none → AllowsBoundaries ev bs body
  boundaries_allow [] h = tt
  boundaries_allow (b ∷ bs) h = verdict-none (b ∷ bs) h

  allow_boundaries :
      (bs : List String) → AllowsBoundaries ev bs body → check_boundaries ev body bs ≡ none
  allow_boundaries [] h = refl
  allow_boundaries (b ∷ bs) h = Allows-verdict (b ∷ bs) h

  boundaries_deny :
      (bs : List String) (r : EnforcementResult)
      → check_boundaries ev body bs ≡ some r
      → r.allowed ≡ false
  boundaries_deny [] r h = ground arith
  boundaries_deny (b ∷ bs) r h = verdict_denies (ev.check_information_boundary (b ∷ bs) body) r h

  -- The evaluator allows the message under the boundaries of a manifest, and under the description
  -- of each custom category that the manifest does not allow.
  abbrev pub ManifestAllows : PermissionsManifest → Type 0
  ManifestAllows m =
      AllowsBoundaries ev m.information_boundaries body
      × All (λ c. c.allowed ≡ false → Allows ev (c.description ∷ []) body) m.custom_categories

  manifest_allows :
      (m : PermissionsManifest) → (check_manifest ev body m).allowed ≡ true → ManifestAllows m
  unfolding check_manifest
  manifest_allows m h = elim (Option-cases (check_boundaries ev body m.information_boundaries)) [
    | inl e ↦ (
      boundaries_allow _ e,
      denied_each (λ c. Allows ev (c.description ∷ []) body) m.custom_categories
          (categories_allow (denied_categories m) (ground arith)),
    )
    | inr (r, e) ↦ ground (arith, boundaries_deny m.information_boundaries r e)
  ]

  allow_manifest :
      (m : PermissionsManifest) → ManifestAllows m → (check_manifest ev body m).allowed ≡ true
  unfolding check_manifest
  allow_manifest m h = ground (
    arith,
    allow_boundaries m.information_boundaries h.0,
    allow_categories (denied_categories m)
        (All-denied (λ c. Allows ev (c.description ∷ []) body) m.custom_categories h.1),
  )

  module _ (addr : String) (s : ConnectionStore) where
    -- The connection is known and active, and its manifest, or the default one, lets the message
    -- through.
    abbrev pub Admitted : Type 0
    Admitted =
        (c : Connection) × (get_connection addr s ≡ some c)
        × (is_active c.state ≡ true)
        × ManifestAllows (manifest_of c)

    check-Admitted : (check ev body addr s).allowed ≡ true → Admitted
    unfolding check
    check-Admitted h = elim (Option-cases (get_connection addr s)) [
      | inl e ↦ ground arith
      | inr (c, e) ↦ elim (Bool-cases (is_active c.state)) [
        | inl a ↦ (c, e, a, manifest_allows (manifest_of c) (ground arith))
        | inr n ↦ ground arith
      ]
    ]

    Admitted-check : Admitted → (check ev body addr s).allowed ≡ true
    unfolding check
    Admitted-check (c, e, a, m) = ground (arith, allow_manifest (manifest_of c) m)

    -- The enforcer allows a message exactly when its sender is a known and active connection and
    -- the evaluator answers `allow` for the boundaries of the manifest, if it has any, and for each
    -- category that the manifest does not allow. A failing evaluator never lets a message through.
    pub check_allowed_iff : ((check ev body addr s).allowed ≡ true) ↔ Admitted
    check_allowed_iff = (check-Admitted, Admitted-check)
