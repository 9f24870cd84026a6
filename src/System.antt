-- ===== src/System.antt =====
-- The skill between its calls: one state, and the messages that wait somewhere inside
-- `handleIncomingMessage` (skill/src/message-manager.ts) and `process`
-- (skill/src/autonomy/enforcement-pipeline.ts). In a wait other envelopes arrive and other messages
-- go on; the calls of the tools are no steps. The enforcer waits once for the boundaries and once for
-- each denied category, but it reads the connection before the first of these waits and writes
-- nothing: they are one wait here, with its answer settled at their start. The wait in which
-- `handleDeliveryConfirmation` verifies a signature is no step either: the message and the key are
-- read before it, and the state is written after it in one go.
pub mod Widening
pub mod Envelopes
pub mod Messages
pub mod Autonomy
pub mod Consent
pub mod Rows
pub mod Still
pub mod Distinct
pub mod Unique
use pinch.Prelude.Act.{Result, ok, throw}
use pinch.Prelude.{ℕ, String, Option, none, some, List, [], ◌∷◌, ◌++◌}
use pinch.Messages.{MessageRecord, save_message}
use pinch.Wire.{Envelope, MessageType}
use pinch.World.{World}
use pinch.Evaluator.{PolicyQuestion}
use pinch.Enforcer.{EnforcementResult, check}
use pinch.Router.{RoutedMessage}
use pinch.Pipeline.{Stage, finished, evaluating, intercept, resume, decide}
use pinch.Lifecycle.{handle_envelope}
use pinch.Manager.{Setup, kept}
use pinch.Manager.Receiving.{open_message, send_delivery_confirmation, handle_delivery_confirmation}

-- A message of a sender that waits for the enforcer's answer, for the evaluator's, or for the
-- signature of its confirmation.
pub data Task : Type 0 where
  checking : MessageRecord → (sender : String) → EnforcementResult → Task
  asking : MessageRecord → (sender : String) → RoutedMessage → PolicyQuestion → Task
  confirming : (id : String) → (sender : String) → Task

pub record System : Type 0 where
  pub world : World
  pub tasks : List Task

module _ (st : Setup) (now : ℕ) where
  abbrev pub started :
      MessageRecord → String → World → World × Option RoutedMessage → World × List Task
  started m sender w (w', some r) = (w', confirming m.id sender ∷ [])
  started m sender w (w', none) =
      (w', checking m sender (check st.evaluator m.body sender w.store) ∷ [])

  abbrev pub begun : MessageRecord → String → World × Result (Unit {0}) → World × List Task
  begun m sender (w, throw e) = (w, [])
  begun m sender (w, ok done) = started m sender w (intercept st.runtime st.breaker m sender now w)

  -- `handleIncomingMessage` up to its first wait.
  unfoldable pub admit : Envelope → World → World × List Task
  admit e w = elim (open_message st now e) [
    | throw x ↦ (w, [])
    | ok m ↦ begun m e.from_address (kept w (save_message m w.messages))
  ]

  abbrev pub staged : MessageRecord → String → World × Result Stage → World × List Task
  staged m sender (w, throw e) = (w, [])
  staged m sender (w, ok (finished r)) = (w, confirming m.id sender ∷ [])
  staged m sender (w, ok (evaluating r q)) = (w, asking m sender r q ∷ [])

  -- A waiting message goes on, up to its next wait.
  unfoldable pub advance : Task → World → World × List Task
  advance (checking m sender e) w = staged m sender (resume st.runtime st.breaker m sender now e w)
  advance (asking m sender r q) w = (
    (decide st.runtime st.breaker m sender now (st.evaluator.evaluate_policy q) r w).0,
    confirming m.id sender ∷ [],
  )
  advance (confirming id sender) w = ((send_delivery_confirmation st now id sender w).0, [])

  abbrev pub manage : MessageType → Envelope → World → World × List Task
  manage MessageType.message e w = admit e w
  manage MessageType.delivery_confirm e w = ((handle_delivery_confirmation st now e w).0, [])
  manage _ e w = (w, [])

  -- One envelope, through the handler of the connection manager and that of the message manager.
  unfoldable pub receive : Envelope → World → World × List Task
  receive e w = manage e.type e (handle_envelope st.runtime now e w).0

abbrev pub after : World × List Task → List Task → List Task → System
after (w, new) before rest = record { world = w; tasks = before ++ (new ++ rest) }

-- The relay delivers an envelope, or one of the waiting messages goes on.
pub data Step (st : Setup) : System → System → Type 0 where
  delivered :
      (now : ℕ) (e : Envelope) (w : World) (ts : List Task)
      → Step st (record { world = w; tasks = ts }) (after (receive st now e w) ts [])
  advanced :
      (now : ℕ) (before : List Task) (t : Task) (rest : List Task) (w : World)
      → Step st
          (record { world = w; tasks = before ++ t ∷ rest })
          (after (advance st now t w) before rest)

pub data Reaches (st : Setup) (s : System) : System → Type 0 where
  here : Reaches st s s
  next : {t u : System} → Reaches st s t → Step st t u → Reaches st s u
