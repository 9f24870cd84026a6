-- ===== src/Manager/Flush.antt =====
-- The flush of the relay's queue (skill/src/message-manager.ts, `waitForFlush`, `handleQueueStatus` and
-- the counting in `setupHandlers`).
use pinch.Prelude.{
  ap, ◌∙◌, ◌-◌, ℕ, zero, suc, ◌≤◌, ◌≡◌, refl, Bool, true, false, ◌&&◌, Option, none, some, List, [],
  ◌∷◌, eqb, length, All, if◌then◌else◌, arith,
}
use pinch.Wire.{Envelope, Payload, MessageType}

-- `remaining` is `none` for the -1 of a client that has no report yet. `waiting` says that a promise
-- is pending; `resolved` counts the promises that were kept.
pub record Flush : Type 0 where
  pub remaining : Option ℕ
  pub received : Bool
  pub waiting : Bool
  pub resolved : ℕ

abbrev pub initial_flush : Flush
initial_flush = record { remaining = none; received = false; waiting = false; resolved = 0 }

-- One envelope of any type.
unfoldable pub count_down : Flush → Flush
count_down f = elim f.remaining [
  | none ↦ f
  | some zero ↦ f
  | some (suc n) ↦
      if eqb n 0 && f.waiting
      then record f { remaining = some 0; waiting = false; resolved = suc f.resolved }
      else record f { remaining = some n }
]

abbrev report_payload : Payload → Flush → Flush
report_payload (Payload.queue n) f = record f { remaining = some n; received = true }
report_payload _ f = f

-- `handleQueueStatus`
abbrev report_type : MessageType → Payload → Flush → Flush
report_type MessageType.queue_status p f = report_payload p f
report_type _ p f = f

-- What the handler of `setupHandlers` does to these fields.
unfoldable pub flush_envelope : Envelope → Flush → Flush
unfolding count_down
flush_envelope e f = report_type e.type e.payload (count_down f)

-- `waitForFlush` after its grace period: whether it returns at once, or waits for the promise.
unfoldable pub wait_for_flush : Flush → Flush × Bool
wait_for_flush f = elim f.remaining [
  | none ↦ (f, true)
  | some zero ↦ (f, true)
  | some (suc n) ↦ (record f { waiting = true }, false)
]

-- The timer of a promise runs out.
abbrev pub time_out : Flush → Flush
time_out f = record f { remaining = some 0; waiting = false }

unfoldable pub flush_all : List Envelope → Flush → Flush
flush_all [] f = f
flush_all (e ∷ es) f = flush_all es (flush_envelope e f)

abbrev pub is_queue_status : MessageType → Bool
is_queue_status MessageType.queue_status = true
is_queue_status _ = false

counts_one :
    (e : Envelope) (n : ℕ) (f : Flush)
    → is_queue_status e.type ≡ false
    → f.remaining ≡ some (suc (suc n))
    → flush_envelope e f ≡ record f { remaining = some (suc n) }
unfolding flush_envelope
counts_one e n f q r = ground arith

counts_last :
    (e : Envelope) (f : Flush)
    → is_queue_status e.type ≡ false
    → f.remaining ≡ some 1
    → f.waiting ≡ true
    → flush_envelope e f
      ≡ record f { remaining = some 0; waiting = false; resolved = suc f.resolved }
unfolding flush_envelope
counts_last e f q r h = ground arith

-- With a wait pending for `suc n` envelopes, after `k` of them: the promise is kept by the last.
abbrev pub flushed : ℕ → ℕ → Flush → Flush
flushed n k f =
    if eqb k (suc n)
    then record f { remaining = some 0; waiting = false; resolved = suc f.resolved }
    else record f { remaining = some (suc n - k) }

flushed_next :
    (n k : ℕ) (f : Flush)
    → flushed n k (record f { remaining = some (suc n) }) ≡ flushed (suc n) (suc k) f
flushed_next n k f = ground arith

flushed_start : (n : ℕ) (f : Flush) → record f { remaining = some (suc n) } ≡ flushed n 0 f
flushed_start n f = ground arith

-- A wait ends with the last envelope of the queue: of the envelopes that are left, of any types but
-- another report, each counts down by one, the last one keeps the promise, and none before it does.
pub flush_completes :
    (es : List Envelope) (n : ℕ) (f : Flush)
    → All (λ e. is_queue_status e.type ≡ false) es
    → f.remaining ≡ some (suc n)
    → f.waiting ≡ true
    → length es ≤ suc n
    → flush_all es f ≡ flushed n (length es) f
unfolding flush_all
flush_completes [] n f q r h l = ap (λ x. record f { remaining = x }) r ∙ flushed_start n f
flush_completes (e ∷ []) zero f q r h l = counts_last e f q.0 r h
flush_completes (e ∷ d ∷ es) zero f q r h l = absurd (omega arith)
flush_completes (e ∷ es) (suc n) f q r h l =
    let step : flush_envelope e f ≡ record f { remaining = some (suc n) } =
      counts_one e n f q.0 r in
    ap (flush_all es) step
    ∙ flush_completes es n (record f { remaining = some (suc n) }) q.1 refl h (omega arith)
    ∙ flushed_next n (length es) f
