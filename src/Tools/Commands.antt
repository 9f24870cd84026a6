-- ===== src/Tools/Commands.antt =====
-- `run` of pinch-accept, pinch-reject, pinch-connect, pinch-send, pinch-mute and pinch-intervene, from the arguments on,
-- in the state that `bootstrap` gives.
use pinch.Prelude.Act.{Act, throw, usage, ◌>>=◌, return}
use pinch.Prelude.{
  ℕ, ◌+◌, ◌-◌, ◌/◌, ◌%◌, ltb, String, ◌≡◌, refl, ap, ◌∙◌, true, false, Option, none, some, List, [],
  ◌∷◌, ◌++◌, ◌==◌, if◌then◌else◌, arith, Bool-cases, inl, inr,
}
use Prim.Native.Char.{Char, code}
use pinch.Prelude.Bytes.{to_list}
use pinch.Wire.{Bytes}
use pinch.World.{World}
use pinch.Messages.{Priority, human}
use pinch.Lifecycle.{send_request, approve_request, reject_request}
use pinch.Manager.{Setup, SendMessageParams, send_message, checked}
use pinch.Tools.Arguments.{
  settings, set_all, set_send, send_flag, no_send_args, SendArgs, Mode, start, stop, send,
  check_send, parse_connection_arg, parse_connect_args, parse_send_args, parse_mute_args,
  parse_intervene_args,
}
use pinch.Tools.Control.{run_mute, run_intervene}

-- `run` of pinch-accept
unfoldable pub run_accept : ℕ → Bytes → List String → Act World (Unit {0})
run_accept now key args =
    checked (parse_connection_arg args) >>= λ addr. approve_request now key addr

-- `run` of pinch-reject
unfoldable pub run_reject : ℕ → List String → Act World (Unit {0})
run_reject now args = checked (parse_connection_arg args) >>= λ addr. reject_request now addr

-- The code units that `length` counts in a text.
abbrev code_units : ℕ → List ℕ
code_units n =
    if ltb n 65_536
    then n ∷ []
    else (55_296 + (n - 65_536) / 1_024) ∷ (56_320 + (n - 65_536) % 1_024) ∷ []

abbrev utf16 : List Char → List ℕ
utf16 [] = []
utf16 (c ∷ s) = code_units (code c) ++ utf16 s

-- `run` of pinch-connect
unfoldable pub run_connect : ℕ → Bytes → List String → Act World (Unit {0})
run_connect now key args =
    checked (parse_connect_args args) >>= λ a. send_request now key a.to (utf16 (to_list a.message))

abbrev pub send_params : SendArgs → SendMessageParams
send_params a = record {
  recipient = a.to;
  body = a.body;
  thread_id = a.thread;
  reply_to = a.reply_to;
  priority = a.priority;
  attribution = none;
}

-- `run` of pinch-send, which prints the id
unfoldable pub run_send : Setup → ℕ → Bytes → String → List String → Act World String
run_send st now nonce id args =
    checked (parse_send_args args) >>= λ a. send_message st now nonce id (send_params a)

-- `run` of pinch-mute
unfoldable pub run_mute_args : Setup → ℕ → List String → Act World (Unit {0})
run_mute_args st now args =
    checked (parse_mute_args args) >>= λ a. run_mute st.runtime now a.connection a.unmute

abbrev by_human : String → String → SendMessageParams
by_human addr body = record {
  recipient = addr;
  body = body;
  thread_id = none;
  reply_to = none;
  priority = none;
  attribution = some human;
}

abbrev intervene_in : Setup → ℕ → Bytes → String → String → Mode → Act World (Unit {0})
intervene_in st now nonce id addr start = run_intervene st.runtime now addr true
intervene_in st now nonce id addr stop = run_intervene st.runtime now addr false
intervene_in st now nonce id addr (send body) =
    send_message st now nonce id (by_human addr body) >>= λ sent. return tt

-- `run` of pinch-intervene
unfoldable pub run_intervene_args : Setup → ℕ → Bytes → String → List String → Act World (Unit {0})
run_intervene_args st now nonce id args =
    checked (parse_intervene_args args) >>= λ (addr, mode). intervene_in st now nonce id addr mode

abbrev optional : String → Option String → List String
optional flag none = []
optional flag (some value) = flag ∷ value ∷ []

abbrev priority_text : Option Priority → Option String
priority_text none = none
priority_text (some Priority.low) = some "low"
priority_text (some Priority.normal) = some "normal"
priority_text (some Priority.urgent) = some "urgent"

-- A command line of pinch-send.
abbrev pub written_send : SendArgs → List String
written_send a =
    "--to"
    ∷ a.to
    ∷ "--body"
    ∷ a.body
    ∷ (optional "--thread" a.thread
        ++ (optional "--reply-to" a.reply_to ++ optional "--priority" (priority_text a.priority)))

-- What the loop makes of the arguments that are left.
abbrev read_on : SendArgs → List String → SendArgs
read_on a args = set_all set_send a (settings send_flag none args)

read_priority-written :
    (a : SendArgs) (p : Option Priority)
    → a.priority ≡ none
    → read_on a (optional "--priority" (priority_text p)) ≡ record a { priority = p }
unfolding settings set_all
read_priority-written a none h = ap (λ p. record a { priority = p }) h
read_priority-written a (some Priority.low) h = refl
read_priority-written a (some Priority.normal) h = refl
read_priority-written a (some Priority.urgent) h = refl

read_reply-written :
    (a : SendArgs) (r : Option String) (rest : List String)
    → a.reply_to ≡ none
    → read_on a (optional "--reply-to" r ++ rest) ≡ read_on (record a { reply_to = r }) rest
unfolding settings set_all
read_reply-written a none rest h = ap (λ r. read_on (record a { reply_to = r }) rest) h
read_reply-written a (some r) rest h = refl

read_thread-written :
    (a : SendArgs) (t : Option String) (rest : List String)
    → a.thread ≡ none
    → read_on a (optional "--thread" t ++ rest) ≡ read_on (record a { thread = t }) rest
unfolding settings set_all
read_thread-written a none rest h = ap (λ t. read_on (record a { thread = t }) rest) h
read_thread-written a (some t) rest h = refl

parse_send-written : (a : SendArgs) → parse_send_args (written_send a) ≡ check_send a
unfolding parse_send_args settings set_all
parse_send-written a =
    let a1 = record no_send_args { to = a.to; body = a.body } in
    ap check_send (
      read_thread-written a1 a.thread _ refl
      ∙ read_reply-written (record a1 { thread = a.thread }) a.reply_to _ refl
      ∙ read_priority-written (record a1 { thread = a.thread; reply_to = a.reply_to }) a.priority
          refl)

-- A command line of pinch-send sends exactly the message that it describes, to the address and with
-- the text, thread, reply and priority that it names; without an address or without a text it throws
-- and changes nothing.
pub run_send_written :
    (st : Setup) (now : ℕ) (nonce : Bytes) (id : String) (a : SendArgs) (w : World)
    → run_send st now nonce id (written_send a) w ≡ (
        if a.to == ""
        then (w, throw (usage "--to is required"))
        else if a.body == ""
        then (w, throw (usage "--body is required"))
        else send_message st now nonce id (send_params a) w)
unfolding run_send
run_send_written st now nonce id a w = elim (Bool-cases (a.to == "")) [
  | inl y ↦ ground (arith, parse_send-written a)
  | inr n ↦ elim (Bool-cases (a.body == "")) [
    | inl y ↦ ground (arith, parse_send-written a)
    | inr m ↦ ground (arith, parse_send-written a)
  ]
]
