-- ===== src/System/Consent.antt =====
-- When a message reaches the agent, with anything in its waits.
use pinch.Prelude.Act.{Result, ok, throw, Result-cases}
use pinch.Prelude.{
  ℕ, String, ◌≡◌, refl, sym, subst, ap, ◌∙◌, inl, inr, true, false, Option, none, some, List, [],
  ◌∷◌, ◌++◌, All, All-append, All-split, All-imp, arith, Option-cases, Bool-cases,
}
use pinch.Connections.{get_connection}
use pinch.Messages.{MessageRecord, save_message}
use pinch.Feed.{allow}
use pinch.Wire.{MessageType, Envelope}
use pinch.World.{World}
use pinch.Evaluator.{PolicyDecision}
use pinch.Enforcer.{EnforcementResult, check}
use pinch.Enforcer.Verdicts.{Admitted, check_allowed_iff}
use pinch.Pipeline.{
  Stage, finished, evaluating, is_muted, is_passthrough, intercept, resume, decide,
}
use pinch.Pipeline.Levels.{read, PassesOn, AsksPolicy, counted}
use pinch.Pipeline.Surfacing.{resume-read, resume-evaluating, decide-read}
use pinch.Lifecycle.{handle_envelope}
use pinch.Manager.{Setup, kept}
use pinch.Manager.Receiving.{open_message}
use pinch.System.{
  Task, checking, asking, confirming, System, admit, advance, manage, receive, after, Step,
  delivered, advanced, Reaches, here, next,
}

module _ (st : Setup) where
  -- The enforcer answered for the state at `u`, in which the sender was neither muted nor taken over.
  abbrev pub CheckedAt : System → MessageRecord → String → EnforcementResult → Type 0
  CheckedAt u m sender e =
      (e ≡ check st.evaluator m.body sender u.world.store)
      × (is_muted (get_connection sender u.world.store) ≡ false)
      × (is_passthrough (get_connection sender u.world.store) ≡ false)

  abbrev Justified : System → Task → Type 0
  Justified s (checking m sender e) = (u : System) × Reaches st u s × CheckedAt u m sender e
  Justified s (asking m sender r q) =
      (u v : System) × Reaches st u v
      × Reaches st v s
      × (e : EnforcementResult) × CheckedAt u m sender e
      × (e.allowed ≡ true)
      × (now : ℕ) × AsksPolicy st.runtime st.breaker m sender q
          (counted st.runtime st.breaker m sender now v.world)
  Justified s (confirming id sender) = Unit

  abbrev AllJustified : System → List Task → Type 0
  AllJustified s ts = All (Justified s) ts

  later-Justified : {s t : System} → Step st s t → (k : Task) → Justified s k → Justified t k
  later-Justified step (checking m sender e) (u, r, c) = (u, next r step, c)
  later-Justified step (asking m sender r q) (u, v, a, b, e, c, d, n, p) =
      (u, v, a, next b step, e, c, d, n, p)
  later-Justified step (confirming id sender) j = tt

  open_gate :
      (m : MessageRecord) (sender : String) (now : ℕ) (w : World)
      → (intercept st.runtime st.breaker m sender now w).1 ≡ none
      → (is_muted (get_connection sender w.store) ≡ false)
        × (is_passthrough (get_connection sender w.store) ≡ false)
  unfolding intercept
  open_gate m sender now w h = elim (Bool-cases (is_muted (get_connection sender w.store))) [
    | inl y ↦ absurd (ground arith)
    | inr n ↦ elim (Bool-cases (is_passthrough (get_connection sender w.store))) [
      | inl y ↦ absurd (ground arith)
      | inr k ↦ (n, k)
    ]
  ]

  admit-Justified :
      (now : ℕ) (e : Envelope) (w : World) (ts : List Task) (t : System)
      → Reaches st (record { world = w; tasks = ts }) t
      → AllJustified t (admit st now e w).1
  unfolding admit
  admit-Justified now e w ts t r = elim (Result-cases (open_message st now e)) [
    | inr (x, o) ↦ rw (o, admit) tt
    | inl (m, o) ↦
        let v = (kept w (save_message m w.messages)).0 in
        elim (Result-cases (save_message m w.messages).1) [
          | inr (x, s) ↦ rw (o, admit, s) tt
          | inl (u, s) ↦
              elim (Option-cases (intercept st.runtime st.breaker m e.from_address now v).1) [
                | inr (x, n) ↦ rw (o, admit, s, n) (tt, tt)
                | inl n ↦
                    let (a, b) = open_gate m e.from_address now v n in
                    rw (o, admit, s, n) ((record { world = w; tasks = ts }, r, (refl, a, b)), tt)
              ]
        ]
  ]

  manage-Justified :
      (now : ℕ) (x : MessageType) (e : Envelope) (w : World) (ts : List Task) (t : System)
      → e.type ≡ x
      → Reaches st (record { world = w; tasks = ts }) t
      → AllJustified t (manage st now x e (handle_envelope st.runtime now e w).0).1
  unfolding handle_envelope
  manage-Justified now MessageType.message e w ts t k r =
      let same : (handle_envelope st.runtime now e w).0 ≡ w = ground (arith, k) in
      rw same (admit-Justified now e w ts t r)
  manage-Justified now MessageType.delivery_confirm e w ts t k r = tt
  manage-Justified now _ e w ts t k r = tt

  resumed-Justified :
      (now : ℕ) (m : MessageRecord) (sender : String) (e : EnforcementResult) (w : World)
      (ts : List Task) (t : System)
      → Reaches st (record { world = w; tasks = ts }) t
      → Justified (record { world = w; tasks = ts }) (checking m sender e)
      → AllJustified t (advance st now (checking m sender e) w).1
  unfolding advance
  resumed-Justified now m sender e w ts t r (u, before, c) =
      elim (Result-cases (resume st.runtime st.breaker m sender now e w).1) [
        | inr (x, o) ↦ rw (o, advance) tt
        | inl (finished x, o) ↦ rw (o, advance) (tt, tt)
        | inl (evaluating x q, o) ↦
            let (a, p) = resume-evaluating st.runtime st.breaker m sender now e w x q o in
            rw (o, advance) ((u, record { world = w; tasks = ts }, before, r, e, c, a, now, p), tt)
      ]

  advance-Justified :
      (now : ℕ) (k : Task) (w : World) (ts : List Task) (t : System)
      → Reaches st (record { world = w; tasks = ts }) t
      → Justified (record { world = w; tasks = ts }) k
      → AllJustified t (advance st now k w).1
  unfolding advance
  advance-Justified now (checking m sender e) w ts t r j =
      resumed-Justified now m sender e w ts t r j
  advance-Justified now (asking m sender x q) w ts t r j = (tt, tt)
  advance-Justified now (confirming id sender) w ts t r j = tt

  Step-Justified : {s t : System} → Step st s t → AllJustified s s.tasks → AllJustified t t.tasks
  unfolding receive
  Step-Justified (delivered now e w ts) js =
      let s : System = record { world = w; tasks = ts } in
      let t : System = after (receive st now e w) ts [] in
      let step = delivered now e w ts in
      let new = (receive st now e w).1 in
      All-append (Justified t) ts (new ++ [])
        (All-imp (Justified s) (Justified t) (later-Justified step) ts js)
        (All-append (Justified t) new []
          (manage-Justified now e.type e w ts t refl (next here step)) tt)
  Step-Justified (advanced now before k rest w) js =
      let s : System = record { world = w; tasks = before ++ k ∷ rest } in
      let t : System = after (advance st now k w) before rest in
      let step = advanced now before k rest w in
      let (front, (this, back)) = All-split (Justified s) before (k ∷ rest) js in
      let new = (advance st now k w).1 in
      All-append (Justified t) before (new ++ rest)
        (All-imp (Justified s) (Justified t) (later-Justified step) before front)
        (All-append (Justified t) new rest
          (advance-Justified now k w (before ++ k ∷ rest) t (next here step) this)
          (All-imp (Justified s) (Justified t) (later-Justified step) rest back))

  Reaches-Justified : {s t : System} → s.tasks ≡ [] → Reaches st s t → AllJustified t t.tasks
  Reaches-Justified {s} e here = subst (AllJustified s) (sym e) tt
  Reaches-Justified e (next r step) = Step-Justified step (Reaches-Justified e r)

  -- The state that the next step of a waiting message gives the message, if it gives one.
  abbrev stage_state : Result Stage → Option String
  stage_state (throw e) = none
  stage_state (ok (finished r)) = some r.state
  stage_state (ok (evaluating r q)) = none

  abbrev pub outcome : ℕ → Task → World → Option String
  outcome now (checking m sender e) w =
      stage_state (resume st.runtime st.breaker m sender now e w).1
  outcome now (asking m sender r q) w =
      some (decide st.runtime st.breaker m sender now (st.evaluator.evaluate_policy q) r w).1.state
  outcome now (confirming id sender) w = none

  -- The enforcer admitted the message at one moment, when its sender was neither muted nor taken over.
  abbrev pub AdmittedBefore : System → MessageRecord → String → Type 0
  AdmittedBefore s m sender =
      (u : System) × Reaches st u s
      × Admitted st.evaluator m.body sender u.world.store
      × (is_muted (get_connection sender u.world.store) ≡ false)
      × (is_passthrough (get_connection sender u.world.store) ≡ false)

  abbrev pub MayRead : ℕ → Task → System → Type 0
  MayRead now (checking m sender e) s =
      AdmittedBefore s m sender
      × PassesOn st.runtime st.breaker m sender (counted st.runtime st.breaker m sender now s.world)
  MayRead now (asking m sender r q) s =
      (v : System) × Reaches st v s
      × AdmittedBefore v m sender
      × ((t : ℕ) × AsksPolicy st.runtime st.breaker m sender q
            (counted st.runtime st.breaker m sender t v.world))
      × ((d : PolicyDecision) × (st.evaluator.evaluate_policy q ≡ some d) × (d.action ≡ allow))
  MayRead now (confirming id sender) s = ⊥

  admitted_at :
      (u : System) (m : MessageRecord) (sender : String) (e : EnforcementResult)
      → CheckedAt u m sender e
      → e.allowed ≡ true
      → Admitted st.evaluator m.body sender u.world.store
  admitted_at u m sender e (same, a, b) h =
      (check_allowed_iff st.evaluator m.body sender u.world.store).0
        (ap (λ r. r.allowed) (sym same) ∙ h)

  task_needs_consent :
      (now : ℕ) (k : Task) (s : System)
      → Justified s k
      → outcome now k s.world ≡ some read
      → MayRead now k s
  task_needs_consent now (checking m sender e) s (u, r, c) h =
      elim (Result-cases (resume st.runtime st.breaker m sender now e s.world).1) [
        | inr (x, o) ↦ absurd (ground arith)
        | inl (evaluating x q, o) ↦ absurd (ground arith)
        | inl (finished x, o) ↦
            let (a, p) =
              resume-read st.runtime st.breaker m sender now e s.world x o (ground arith) in
            ((u, r, admitted_at u m sender e c a, c.1, c.2), p)
      ]
  task_needs_consent now (asking m sender x q) s (u, v, a, b, e, c, d, t, p) h = (
    v,
    b,
    (u, a, admitted_at u m sender e c d, c.1, c.2),
    (t, p),
    decide-read st.runtime st.breaker m sender now (st.evaluator.evaluate_policy q) x s.world
        (ground arith),
  )
  task_needs_consent now (confirming id sender) s j h = absurd (ground arith)

  -- In every interleaving: a waiting message is given to the agent by its next step only if the enforcer
  -- admitted it in an earlier state, with its sender neither muted nor taken over, and either its
  -- connection passes messages on now, after the flood check, or it answered by a policy in a state
  -- between, after the flood check, and the evaluator allows the message under that policy.
  pub read_needs_consent :
      {s t : System} (now : ℕ) (before : List Task) (k : Task) (rest : List Task)
      → s.tasks ≡ []
      → Reaches st s t
      → t.tasks ≡ before ++ k ∷ rest
      → outcome now k t.world ≡ some read
      → MayRead now k t
  read_needs_consent {s} {t} now before k rest e r q h =
      let all = subst (AllJustified t) q (Reaches-Justified e r) in
      let (front, (this, back)) = All-split (Justified t) before (k ∷ rest) all in
      task_needs_consent now k t this h
