-- ===== src/Pipeline/Muted.antt =====
-- Muted connections and floods (skill/src/autonomy/enforcement-pipeline.ts).
use pinch.Prelude.Act.{ok}
use pinch.Prelude.{
  ℕ, String, ◌≡◌, refl, ap, ◌∙◌, Bool, true, false, none, some, ◌==◌, eq_refl, arith, ◌or◌,
}
use pinch.Connections.{Connection, is_active, full_manual, get_connection}
use pinch.Messages.{MessageRecord, update_state}
use pinch.Feed.{Runtime, message_flood, event, record_event}
use pinch.World.{World}
use pinch.Breaker.{
  CircuitBreakerConfig, checks, events_of, add_event, record_trigger, record_message,
}
use pinch.Breaker.Window.{Reached}
use pinch.Breaker.Trip.{downgraded, threshold_trips}
use pinch.Pipeline.Levels.{route-store}
use pinch.Evaluator.{PolicyEvaluator}
use pinch.Enforcer.{EnforcementResult}
use pinch.Router.{routed, routed_state, route}
use pinch.Pipeline.{finished, intercept, route_stage, start_evaluation, resume, process}

module _ (rt : Runtime) (cfg : CircuitBreakerConfig) (m : MessageRecord) (addr : String) where
  -- A message of a muted connection is marked delivered and logged, and nothing else: no permission
  -- is checked, no event is counted for the circuit breaker, and nothing is sent or changed in the
  -- connection store.
  pub muted_is_silent :
      (ev : PolicyEvaluator) (t0 t1 t2 : ℕ) (w : World) (c : Connection)
      → get_connection addr w.store ≡ some c
      → c.muted ≡ some true
      → process rt cfg m addr ev t0 t1 t2 w ≡ (
        record w {
          messages = update_state t0 m.id "delivered" none w.messages;
          feed =
              record_event rt t0
                (record (event addr "message_received_muted") {
                  message_id = some m.id;
                  action_type = some "message_receive_muted";
                  badge = some "muted";
                })
                w.feed;
        },
        ok (routed m addr "delivered" none),
      )
  unfolding process intercept
  muted_is_silent ev t0 t1 t2 w c h u = ground arith

  module _ (now : ℕ) (w : World) where
    route-full_manual :
        (c : Connection)
        → get_connection addr w.store ≡ some c
        → is_active c.state ≡ true
        → c.autonomy_level ≡ full_manual
        → (route rt now m addr w).1 ≡ routed m addr "escalated_to_human" none
    unfolding route routed_state
    route-full_manual c h a f = ground arith

    unasked_stage :
        ((route rt now m addr w).1.state == "pending_policy_eval") ≡ false
        → (route_stage rt cfg m addr now w).1 ≡ finished (route rt now m addr w).1
    unfolding route_stage
    unasked_stage p = ground arith

    route_stage-full_manual :
        (c : Connection)
        → get_connection addr w.store ≡ some c
        → is_active c.state ≡ true
        → c.autonomy_level ≡ full_manual
        → (route_stage rt cfg m addr now w).1 ≡ finished (routed m addr "escalated_to_human" none)
    route_stage-full_manual c h a f =
        let r = route-full_manual c h a f in
        unasked_stage (ap (λ r. r.state == "pending_policy_eval") r) ∙ ap finished r

  module _ (now : ℕ) (w : World) where
    route_stage-store : (route_stage rt cfg m addr now w).0.store ≡ w.store
    unfolding route_stage start_evaluation
    route_stage-store = ground (arith, route-store rt now m addr w)

    resume_allowed :
        (e : EnforcementResult) (b : Bool)
        → e.allowed ≡ true
        → (record_message rt cfg now addr w).1 ≡ ok b
        → resume rt cfg m addr now e w ≡ (
          (route_stage rt cfg m addr now (record_message rt cfg now addr w).0).0,
          ok (route_stage rt cfg m addr now (record_message rt cfg now addr w).0).1,
        )
    unfolding resume
    resume_allowed e b a k = ground arith

  -- The message that fills a window is itself held back: if the enforcer allows it and a count then
  -- stands at its threshold, the connection is downgraded in the same step and the message goes to
  -- the human.
  pub flood_escalates :
      (now : ℕ) (e : EnforcementResult) (w : World) (c : Connection)
      → get_connection addr w.store ≡ some c
      → is_active c.state ≡ true
      → (c.circuit_breaker_tripped or false) ≡ false
      → e.allowed ≡ true
      → Reached now (events_of addr (add_event cfg now addr message_flood w)) (checks cfg)
      → ((resume rt cfg m addr now e w).1 ≡ ok (finished (routed m addr "escalated_to_human" none)))
        × (get_connection addr (resume rt cfg m addr now e w).0.store ≡ some (downgraded now c))
  unfolding record_message record_trigger add_event
  flood_escalates now e w c h a t allowed r =
      let (trips, found, saves) =
        threshold_trips rt cfg now addr (add_event cfg now addr message_flood w) c h t r in
      let w1 = (record_message rt cfg now addr w).0 in
      let f : get_connection addr w1.store ≡ some (downgraded now c) =
        found addr ∙ rw (eq_refl addr) refl in
      rw (resume_allowed now w e true allowed trips) (
        ap ok (route_stage-full_manual now w1 (downgraded now c) f a refl),
        ap (get_connection addr) (route_stage-store now w1) ∙ f,
      )
