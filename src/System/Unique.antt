-- ===== src/System/Unique.antt =====
-- The messages that wait in `handleIncomingMessage` (skill/src/message-manager.ts).
use pinch.System.Distinct.{
  Distinct, contains-front, contains-last, find_message-contains, Distinct-less, Distinct-last,
}
use pinch.Prelude.Act.{ok, throw, constraint_failed, Result-cases}
use mathlib.Core.List.{map-append, append-nil}
use pinch.Enforcer.{check}
use pinch.Prelude.{
  ℕ, String, ◌≡◌, ◌⊎◌, refl, sym, ap, subst, ◌∙◌, inl, inr, true, false, List, [], ◌∷◌, ◌++◌, ◌==◌,
  map, All, All-append, All-split, All-imp, eq_iff, arith, Bool-cases, Option-cases,
}
use pinch.Messages.{MessageStore, save_message, find_message}
use pinch.Feed.{contains}
use pinch.Wire.{MessageType, Envelope}
use pinch.World.{World}
use pinch.Pipeline.{finished, evaluating, intercept, resume}
use pinch.Lifecycle.{handle_envelope}
use pinch.Manager.{Setup}
use pinch.Manager.Receiving.{open_message}
use pinch.System.{
  Task, checking, asking, confirming, System, admit, advance, manage, receive, Step, delivered,
  advanced, Reaches, here, next,
}
use pinch.System.Still.{handle_envelope-messages}
use pinch.System.Rows.{
  ids, ids-intercept, ids-resume, ids-decide, ids-send_delivery_confirmation,
  ids-handle_delivery_confirmation, ids_same,
}

abbrev pub task_id : Task → String
task_id (checking m sender e) = m.id
task_id (asking m sender r q) = m.id
task_id (confirming id sender) = id

abbrev pub task_ids : List Task → List String
task_ids ts = map task_id ts

-- A waiting message has a row.
abbrev pub AllStored : World → List Task → Type 0
AllStored w ts = All (λ k. contains (ids w) (task_id k) ≡ true) ts

new-Distinct :
    (w : World) (ts : List Task) (s : String)
    → AllStored w ts
    → contains (ids w) s ≡ false
    → contains (task_ids ts) s ≡ false
new-Distinct w [] s h k = refl
new-Distinct w (t ∷ ts) s h k = elim (Bool-cases (task_id t == s)) [
  | inl y ↦ absurd (ground (arith, y, h.0, k, eq_iff (task_id t) s))
  | inr n ↦ ground (arith, n, new-Distinct w ts s h.1 k)
]

task_ids-append : (xs ys : List Task) → task_ids (xs ++ ys) ≡ task_ids xs ++ task_ids ys
task_ids-append [] ys = refl
task_ids-append (x ∷ xs) ys = ap (◌∷◌ (task_id x)) (task_ids-append xs ys)

AllStored-later :
    (w v : World) (ts : List Task)
    → ((s : String) → contains (ids w) s ≡ true → contains (ids v) s ≡ true)
    → AllStored w ts
    → AllStored v ts
AllStored-later w v ts f =
    All-imp (λ k. contains (ids w) (task_id k) ≡ true) (λ k. contains (ids v) (task_id k) ≡ true)
      (λ k. f (task_id k)) ts

module _ (st : Setup) where
  abbrev IsUnique : World → List Task → Type 0
  IsUnique w ts = AllStored w ts × Distinct (task_ids ts)

  -- A message that is new to the store waits, or the rows stay.
  abbrev Arrives : World → World × List Task → Type 0
  Arrives w (v, ts) =
      ((ts ≡ []) × (ids v ≡ ids w))
      ⊎ ((k : Task) × (ts ≡ k ∷ [])
          × (ids v ≡ ids w ++ task_id k ∷ [])
          × (contains (ids w) (task_id k) ≡ false))

  admit-Arrives : (now : ℕ) (e : Envelope) (w : World) → Arrives w (admit st now e w)
  unfolding admit save_message
  admit-Arrives now e w = elim (Result-cases (open_message st now e)) [
    | inr (x, o) ↦ rw (o, admit) (inl (refl, refl))
    | inl (m, o) ↦ elim (Option-cases (find_message m.id w.messages.messages)) [
      | inr (old, f) ↦
          let saved : save_message m w.messages ≡ (w.messages, throw constraint_failed) =
            ground (arith, f) in
          rw (o, admit, saved) (inl (refl, refl))
      | inl f ↦
          let s : MessageStore = record w.messages { messages = w.messages.messages ++ m ∷ [] } in
          let saved : save_message m w.messages ≡ (s, ok tt) = ground (arith, f) in
          let v : World = record w { messages = s } in
          let new = find_message-contains m.id w.messages.messages f in
          let grown : ids v ≡ ids w ++ m.id ∷ [] =
            map-append (λ m. m.id) w.messages.messages (m ∷ []) in
          let rows = ids-intercept st.runtime st.breaker m e.from_address now v ∙ grown in
          elim (Option-cases (intercept st.runtime st.breaker m e.from_address now v).1) [
            | inr (x, n) ↦
                rw (o, admit, saved, n) (inr (confirming m.id e.from_address, refl, rows, new))
            | inl n ↦
                rw (o, admit, saved, n)
                  (inr (
                    checking m e.from_address (check st.evaluator m.body e.from_address w.store),
                    refl,
                    rows,
                    new,
                  ))
          ]
    ]
  ]

  -- A waiting message goes on as itself, or its handling is over; the rows stay.
  abbrev GoesOn : Task → World → World × List Task → Type 0
  GoesOn k w (v, ts) =
      ((ts ≡ []) ⊎ ((k' : Task) × (ts ≡ k' ∷ []) × (task_id k' ≡ task_id k))) × (ids v ≡ ids w)

  advance-GoesOn : (now : ℕ) (k : Task) (w : World) → GoesOn k w (advance st now k w)
  unfolding advance
  advance-GoesOn now (checking m sender e) w =
      let same = ids-resume st.runtime st.breaker m sender now e w in
      elim (Result-cases (resume st.runtime st.breaker m sender now e w).1) [
        | inr (x, o) ↦ rw (o, advance) (inl refl, same)
        | inl (finished x, o) ↦ rw (o, advance) (inr (confirming m.id sender, refl, refl), same)
        | inl (evaluating x q, o) ↦ rw (o, advance) (inr (asking m sender x q, refl, refl), same)
      ]
  advance-GoesOn now (asking m sender r q) w = (
    inr (confirming m.id sender, refl, refl),
    ids-decide st.runtime st.breaker m sender now (st.evaluator.evaluate_policy q) r w,
  )
  advance-GoesOn now (confirming id sender) w =
      (inl refl, ids-send_delivery_confirmation st now id sender w)

  message_handled :
      (now : ℕ) (e : Envelope) (w : World)
      → e.type ≡ MessageType.message
      → (handle_envelope st.runtime now e w).0 ≡ w
  unfolding handle_envelope
  message_handled now e w k = ground (arith, k)

  manage-Arrives :
      (now : ℕ) (x : MessageType) (e : Envelope) (w v : World)
      → ids v ≡ ids w
      → (x ≡ MessageType.message → v ≡ w)
      → Arrives w (manage st now x e v)
  manage-Arrives now MessageType.message e w v same k =
      subst (λ u. Arrives w (admit st now e u)) (sym (k refl)) (admit-Arrives now e w)
  manage-Arrives now MessageType.delivery_confirm e w v same k =
      inl (refl, ids-handle_delivery_confirmation st now e v ∙ same)
  manage-Arrives now _ e w v same k = inl (refl, same)

  receive-Arrives : (now : ℕ) (e : Envelope) (w : World) → Arrives w (receive st now e w)
  unfolding receive
  receive-Arrives now e w =
      let v = (handle_envelope st.runtime now e w).0 in
      manage-Arrives now e.type e w v (ids_same v w (handle_envelope-messages st.runtime now e w))
        (message_handled now e w)

  stays_stored : (w v : World) (ts : List Task) → ids v ≡ ids w → AllStored w ts → AllStored v ts
  stays_stored w v ts same = AllStored-later w v ts (λ s h. rw same h)

  Arrives-IsUnique :
      (w v : World) (ts new : List Task)
      → Arrives w (v, new)
      → IsUnique w ts
      → IsUnique v (ts ++ (new ++ []))
  Arrives-IsUnique w v ts new (inl (none_new, same)) (stored, once) =
      subst (λ us. IsUnique v (ts ++ (us ++ []))) (sym none_new)
        (subst (IsUnique v) (sym (append-nil ts)) (stays_stored w v ts same stored, once))
  Arrives-IsUnique w v ts new (inr (k, one, grown, fresh)) (stored, once) =
      let still =
        AllStored-later w v ts (λ s h. rw grown (contains-front (ids w) (task_id k ∷ []) s h))
          stored in
      let there : contains (ids v) (task_id k) ≡ true =
        rw grown (contains-last (ids w) (task_id k)) in
      subst (λ us. IsUnique v (ts ++ (us ++ []))) (sym one)
        (
          All-append (λ j. contains (ids v) (task_id j) ≡ true) ts (k ∷ []) still (there, tt),
          rw (task_ids-append ts (k ∷ [])) (
              Distinct-last (task_ids ts) (task_id k) once
                (new-Distinct w ts (task_id k) stored fresh)),
        )

  GoesOn-IsUnique :
      (w v : World) (before : List Task) (k : Task) (rest new : List Task)
      → GoesOn k w (v, new)
      → IsUnique w (before ++ k ∷ rest)
      → IsUnique v (before ++ (new ++ rest))
  GoesOn-IsUnique w v before k rest new (inl over, same) (stored, once) =
      let P : Task → Type 0 = λ j. contains (ids v) (task_id j) ≡ true in
      let (front, (this, back)) =
        All-split P before (k ∷ rest) (stays_stored w v (before ++ k ∷ rest) same stored) in
      let once' : Distinct (task_ids before ++ task_id k ∷ task_ids rest) =
        subst Distinct (task_ids-append before (k ∷ rest)) once in
      subst (λ us. IsUnique v (before ++ (us ++ rest))) (sym over)
        (
          All-append P before rest front back,
          rw (task_ids-append before rest)
              (Distinct-less (task_ids before) (task_ids rest) (task_id k) once'),
        )
  GoesOn-IsUnique w v before k rest new (inr (k', one, named), same) (stored, once) =
      let P : Task → Type 0 = λ j. contains (ids v) (task_id j) ≡ true in
      let (front, (this, back)) =
        All-split P before (k ∷ rest) (stays_stored w v (before ++ k ∷ rest) same stored) in
      let same_ids : task_ids (before ++ k ∷ rest) ≡ task_ids (before ++ k' ∷ rest) =
        task_ids-append before (k ∷ rest)
        ∙ ap (λ i. task_ids before ++ i ∷ task_ids rest) (sym named)
        ∙ sym (task_ids-append before (k' ∷ rest)) in
      subst (λ us. IsUnique v (before ++ (us ++ rest))) (sym one)
        (All-append P before (k' ∷ rest) front (rw named this, back), subst Distinct same_ids once)

  Step-IsUnique : {s t : System} → Step st s t → IsUnique s.world s.tasks → IsUnique t.world t.tasks
  Step-IsUnique (delivered now e w ts) h =
      Arrives-IsUnique w (receive st now e w).0 ts (receive st now e w).1 (receive-Arrives now e w)
        h
  Step-IsUnique (advanced now before k rest w) h =
      GoesOn-IsUnique w (advance st now k w).0 before k rest (advance st now k w).1
        (advance-GoesOn now k w) h

  -- At no time do two handlings of one message wait: in every state that is reached from one in which
  -- nothing waits, each waiting message has a row in the store, and no two of them have the same id.
  pub waiting_messages_differ :
      {s t : System}
      → s.tasks ≡ []
      → Reaches st s t
      → AllStored t.world t.tasks × Distinct (task_ids t.tasks)
  waiting_messages_differ {s} e here = subst (IsUnique s.world) (sym e) (tt, tt)
  waiting_messages_differ e (next r step) = Step-IsUnique step (waiting_messages_differ e r)
