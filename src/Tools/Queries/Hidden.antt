-- ===== src/Tools/Queries/Hidden.antt =====
-- What the activity of a muted connection shows (skill/src/tools/pinch-activity.ts,
-- skill/src/autonomy/enforcement-pipeline.ts).
use pinch.Prelude.{
  ℕ, String, ◌≡◌, refl, ap, ◌∙◌, Bool, true, false, some, List, [], ◌∷◌, ◌++◌, keep, arith,
  Bool-cases, inl, inr,
}
use pinch.Connections.{get_connection}
use pinch.Messages.{MessageRecord}
use pinch.Prelude.Sort.{sort_by}
use pinch.Prelude.{take, ◌or◌, sym, subst, ℕ}
use pinch.Tools.Queries.{ActivityArgs}
use pinch.Feed.{
  ActivityFeed, NewEvent, event, latest_first, contains, matches_param, at_least, at_most, Runtime,
  ActivityEvent, EventOptions, selects, get_events, record_event, sealed, draft,
}
use pinch.World.{World}
use pinch.Breaker.{CircuitBreakerConfig}
use pinch.Evaluator.{PolicyEvaluator}
use pinch.Pipeline.{is_muted, intercept, process}
use pinch.Tools.Queries.{activity_args, activity_options, run_activity}

keep-skip :
    (p : ActivityEvent → Bool) (xs : List ActivityEvent) (x : ActivityEvent)
    → p x ≡ false
    → keep p (xs ++ x ∷ []) ≡ keep p xs
keep-skip p [] x h = ground arith
keep-skip p (y ∷ xs) x h = ground (arith, keep-skip p xs x h)

excluded-selects :
    (rt : Runtime) (opts : EventOptions) (x : ActivityEvent)
    → contains opts.exclude_event_types x.event_type ≡ true
    → selects rt opts x ≡ false
unfolding selects
excluded-selects rt opts x h =
    elim (Bool-cases (matches_param opts.connection_address x.connection_address)) [
      | inr a ↦ ground (arith, a)
      | inl a ↦ elim (Bool-cases (matches_param opts.event_type x.event_type)) [
        | inr b ↦ ground (arith, a, b)
        | inl b ↦ elim (Bool-cases (at_least opts.since (rt.iso x.created_at))) [
          | inr c ↦ ground (arith, a, b, c)
          | inl c ↦ elim (Bool-cases (at_most opts.until (rt.iso x.created_at))) [
            | inr d ↦ ground (arith, a, b, c, d)
            | inl d ↦ ground (arith, a, b, c, d, h)
          ]
        ]
      ]
    ]

module _ (rt : Runtime) where
  sealed-event_type :
      (now : ℕ) (e : NewEvent) (f : ActivityFeed)
      → (sealed rt (draft rt now e f)).event_type ≡ e.event_type
  unfolding sealed draft
  sealed-event_type now e f = refl

  record_event-hidden :
      (now : ℕ) (e : NewEvent) (f : ActivityFeed) (a : ActivityArgs)
      → e.event_type ≡ "message_received_muted"
      → a.include_muted ≡ false
      → get_events rt (activity_options a) (record_event rt now e f)
        ≡ get_events rt (activity_options a) f
  unfolding get_events record_event
  record_event-hidden now e f a h k =
      let opts = activity_options a in
      let x = sealed rt (draft rt now e f) in
      let typed : x.event_type ≡ "message_received_muted" = sealed-event_type now e f ∙ h in
      let skip : selects rt opts x ≡ false = excluded-selects rt opts x (rw (k, typed) refl) in
      ap (λ es. take (opts.limit or 100) (sort_by latest_first es))
        (keep-skip (selects rt opts) f.rows x skip)

  abbrev muted_event : MessageRecord → String → NewEvent
  muted_event m addr = record (event addr "message_received_muted") {
    message_id = some m.id;
    action_type = some "message_receive_muted";
    badge = some "muted";
  }

  same_feed :
      (cfg : CircuitBreakerConfig) (m : MessageRecord) (addr : String) (ev : PolicyEvaluator)
      (t0 t1 t2 : ℕ) (w : World)
      → is_muted (get_connection addr w.store) ≡ true
      → (process rt cfg m addr ev t0 t1 t2 w).0.feed
        ≡ record_event rt t0 (muted_event m addr) w.feed
  unfolding process intercept
  same_feed cfg m addr ev t0 t1 t2 w h = ground (arith, h)

  -- The messages of a muted connection change nothing of what pinch-activity shows, unless it is asked
  -- for what is muted.
  pub muted_stays_hidden :
      (cfg : CircuitBreakerConfig) (m : MessageRecord) (addr : String) (ev : PolicyEvaluator)
      (t0 t1 t2 : ℕ) (w : World) (args : List String)
      → is_muted (get_connection addr w.store) ≡ true
      → (activity_args args).include_muted ≡ false
      → run_activity rt args (process rt cfg m addr ev t0 t1 t2 w).0.feed
        ≡ run_activity rt args w.feed
  unfolding run_activity
  muted_stays_hidden cfg m addr ev t0 t1 t2 w args muted h =
      let same : (process rt cfg m addr ev t0 t1 t2 w).0.feed
          ≡ record_event rt t0 (muted_event m addr) w.feed =
        same_feed cfg m addr ev t0 t1 t2 w muted in
      subst (λ f. run_activity rt args f ≡ run_activity rt args w.feed) (sym same)
        (record_event-hidden t0 (muted_event m addr) w.feed (activity_args args) refl h)
