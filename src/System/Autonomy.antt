-- ===== src/System/Autonomy.antt =====
-- Autonomy, permissions and policies over all that the network can do, in any order of waits.
use pinch.Prelude.Act.{Result, ok, throw, Result-cases}
use pinch.Prelude.{
  ℕ, String, ◌≡◌, refl, sym, subst, inl, inr, Option, none, some, arith, Option-cases,
}
use pinch.Messages.{MessageRecord, save_message}
use pinch.Wire.{MessageType, Envelope}
use pinch.World.{World}
use pinch.Pipeline.{Stage, finished, evaluating, intercept, resume}
use pinch.Lifecycle.{handle_envelope}
use pinch.Manager.{Setup, kept}
use pinch.Manager.Receiving.{open_message}
use pinch.System.{
  Task, checking, asking, confirming, System, started, admit, staged, advance, manage, receive,
  Step, delivered, advanced, Reaches, here, next,
}
use pinch.System.Widening.{Narrows, Narrows-same, Narrows-trans}
use pinch.System.Envelopes.{handle_envelope-Tightens}
use pinch.System.Messages.{
  intercept-store, decide-store, resume-Tightens, send_delivery_confirmation-store,
  handle_delivery_confirmation-store,
}

module _ (st : Setup) (now : ℕ) where
  started-store :
      (m : MessageRecord) (sender : String) (w : World) (r : Option _)
      → (started st now m sender w (w, r)).0.store ≡ w.store
  started-store m sender w none = refl
  started-store m sender w (some r) = refl

  admit-store : (e : Envelope) (w : World) → (admit st now e w).0.store ≡ w.store
  unfolding admit
  admit-store e w = elim (Result-cases (open_message st now e)) [
    | inr (x, o) ↦ ground arith
    | inl (m, o) ↦
        let v = (kept w (save_message m w.messages)).0 in
        elim (Result-cases (save_message m w.messages).1) [
          | inr (x, s) ↦ ground arith
          | inl (u, s) ↦
              elim (Option-cases (intercept st.runtime st.breaker m e.from_address now v).1) [
                | inl n ↦
                    ground (arith, intercept-store st.runtime st.breaker m e.from_address now v)
                | inr (r, n) ↦
                    ground (arith, intercept-store st.runtime st.breaker m e.from_address now v)
              ]
        ]
  ]

  manage-store :
      (t : MessageType) (e : Envelope) (w : World) → (manage st now t e w).0.store ≡ w.store
  manage-store MessageType.message e w = admit-store e w
  manage-store MessageType.delivery_confirm e w = handle_delivery_confirmation-store st now e w
  manage-store _ e w = refl

  receive-Narrows : (e : Envelope) (w : World) → Narrows w.store (receive st now e w).0.store
  unfolding receive
  receive-Narrows e w =
      subst (Narrows w.store) (sym (manage-store e.type e (handle_envelope st.runtime now e w).0))
        (handle_envelope-Tightens st.runtime now e w)

  staged-store :
      (m : MessageRecord) (sender : String) (w : World) (r : Result Stage)
      → (staged st now m sender (w, r)).0.store ≡ w.store
  staged-store m sender w (throw x) = refl
  staged-store m sender w (ok (finished r)) = refl
  staged-store m sender w (ok (evaluating r q)) = refl

  advance-Narrows : (t : Task) (w : World) → Narrows w.store (advance st now t w).0.store
  unfolding advance
  advance-Narrows (checking m sender e) w =
      let (v, r) = resume st.runtime st.breaker m sender now e w in
      subst (Narrows w.store) (sym (staged-store m sender v r))
        (resume-Tightens st.runtime st.breaker m sender now e w)
  advance-Narrows (asking m sender r q) w =
      Narrows-same w.store _
        (decide-store st.runtime st.breaker m sender now (st.evaluator.evaluate_policy q) r w)
  advance-Narrows (confirming id sender) w =
      Narrows-same w.store _ (send_delivery_confirmation-store st now id sender w)

Step-Narrows : {st : Setup} {s t : System} → Step st s t → Narrows s.world.store t.world.store
Step-Narrows {st} (delivered now e w ts) = receive-Narrows st now e w
Step-Narrows {st} (advanced now before t rest w) = advance-Narrows st now t w

-- Whatever envelopes come, and however the waiting messages interleave with them, the network widens
-- nothing: every connection then is one that was there before, with the same permissions and policy
-- and with its level of autonomy or full manual, or is as a new request leaves it, with full manual,
-- the default permissions and no policy.
pub network_widens_nothing :
    {st : Setup} {s t : System} → Reaches st s t → Narrows s.world.store t.world.store
network_widens_nothing {s} here = Narrows-same s.world.store s.world.store refl
network_widens_nothing {s} (next {t} {u} r step) =
    Narrows-trans s.world.store t.world.store u.world.store (network_widens_nothing r)
      (Step-Narrows step)
