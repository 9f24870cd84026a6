-- ===== src/Tools/Arguments.antt =====
-- How the tools of skill/src/tools read their arguments: the loop with `args[++i]`, and the parsers of
-- pinch-accept, pinch-reject, pinch-connect, pinch-send, pinch-mute and pinch-intervene.
use pinch.Prelude.Act.{Result, ok, throw, usage}
use pinch.Prelude.{
  String, Bool, true, false, ◌||◌, Option, none, some, List, [], ◌∷◌, ◌==◌, ◌or◌, if◌then◌else◌,
}
use pinch.Messages.{Priority}

-- The flags in order, each with the argument after it if it takes one and there is one.
abbrev pub Setting : Type 0
Setting = String × Option String

-- The loop over the arguments, with the flag whose value comes next.
unfoldable pub settings : (String → Bool) → Option String → List String → List Setting
settings takes none [] = []
settings takes (some flag) [] = (flag, none) ∷ []
settings takes none (flag ∷ args) = elim (takes flag) [
  | true ↦ settings takes (some flag) args
  | false ↦ (flag, none) ∷ settings takes none args
]
settings takes (some flag) (value ∷ args) = (flag, some value) ∷ settings takes none args

-- The switch of a tool, on every flag in turn.
unfoldable pub set_all : {A : Type 0} → (A → Setting → A) → A → List Setting → A
set_all set a [] = a
set_all set a (s ∷ ss) = set_all set (set a s) ss

-- The same where a flag may throw.
abbrev pub and_set : {A B : Type 0} → (A → Result B) → Result A → Result B
and_set f (throw e) = throw e
and_set f (ok a) = f a

unfoldable pub set_until : {A : Type 0} → (A → Setting → Result A) → A → List Setting → Result A
set_until set a [] = ok a
set_until set a (s ∷ ss) = and_set (λ b. set_until set b ss) (set a s)

abbrev is_connection_flag : String → Bool
is_connection_flag f = f == "--connection"

-- Up to the `break`: the first `--connection` counts.
unfoldable pub first_connection : List Setting → String
first_connection [] = ""
first_connection ((flag, value) ∷ ss) =
    let rest = first_connection ss in if is_connection_flag flag then value or "" else rest

-- `parseConnectionArg`
unfoldable pub parse_connection_arg : List String → Result String
parse_connection_arg args =
    let connection = first_connection (settings is_connection_flag none args) in
    if connection == "" then throw (usage "--connection is required") else ok connection

pub record SendArgs : Type 0 where
  pub to : String
  pub body : String
  pub thread : Option String
  pub reply_to : Option String
  pub priority : Option Priority

abbrev pub no_send_args : SendArgs
no_send_args = record { to = ""; body = ""; thread = none; reply_to = none; priority = none }

abbrev pub send_flag : String → Bool
send_flag f =
    f == "--to" || (f == "--body" || (f == "--thread" || (f == "--reply-to" || f == "--priority")))

-- Any other value leaves the priority as it was.
abbrev read_priority : String → Option Priority → Option Priority
read_priority v p =
    if v == "low"
    then some Priority.low
    else if v == "normal"
    then some Priority.normal
    else if v == "urgent"
    then some Priority.urgent
    else p

abbrev pub set_send : SendArgs → Setting → SendArgs
set_send a (flag, value) =
    if flag == "--to"
    then record a { to = value or "" }
    else if flag == "--body"
    then record a { body = value or "" }
    else if flag == "--thread"
    then record a { thread = value }
    else if flag == "--reply-to"
    then record a { reply_to = value }
    else if flag == "--priority"
    then record a { priority = read_priority (value or "") a.priority }
    else a

abbrev pub check_send : SendArgs → Result SendArgs
check_send a =
    if a.to == ""
    then throw (usage "--to is required")
    else if a.body == ""
    then throw (usage "--body is required")
    else ok a

-- `parseArgs` of pinch-send
unfoldable pub parse_send_args : List String → Result SendArgs
parse_send_args args = check_send (set_all set_send no_send_args (settings send_flag none args))

pub record ConnectArgs : Type 0 where
  pub to : String
  pub message : String

abbrev connect_flag : String → Bool
connect_flag f = f == "--to" || f == "--message"

abbrev set_connect : ConnectArgs → Setting → ConnectArgs
set_connect a (flag, value) =
    if flag == "--to"
    then record a { to = value or "" }
    else if flag == "--message"
    then record a { message = value or "" }
    else a

abbrev check_connect : ConnectArgs → Result ConnectArgs
check_connect a =
    if a.to == ""
    then throw (usage "--to is required")
    else if a.message == ""
    then throw (usage "--message is required")
    else ok a

-- `parseArgs` of pinch-connect
unfoldable pub parse_connect_args : List String → Result ConnectArgs
parse_connect_args args =
    check_connect
      (set_all set_connect (record { to = ""; message = "" }) (settings connect_flag none args))

pub record MuteArgs : Type 0 where
  pub connection : String
  pub unmute : Bool

abbrev set_mute : MuteArgs → Setting → MuteArgs
set_mute a (flag, value) =
    if flag == "--connection"
    then record a { connection = value or "" }
    else if flag == "--unmute"
    then record a { unmute = true }
    else a

abbrev check_mute : MuteArgs → Result MuteArgs
check_mute a = if a.connection == "" then throw (usage "--connection is required") else ok a

-- `parseArgs` of pinch-mute
unfoldable pub parse_mute_args : List String → Result MuteArgs
parse_mute_args args = check_mute (
    set_all set_mute (record { connection = ""; unmute = false })
      (settings is_connection_flag none args))

pub data Mode : Type 0 where
  start stop : Mode
  send : (body : String) → Mode

pub record InterveneFlags : Type 0 where
  pub starts : Bool
  pub stops : Bool
  pub sends : Bool
  pub connection : String
  pub body : Option String

abbrev set_intervene : InterveneFlags → Setting → InterveneFlags
set_intervene a (flag, value) =
    if flag == "--start"
    then record a { starts = true }
    else if flag == "--stop"
    then record a { stops = true }
    else if flag == "--send"
    then record a { sends = true }
    else if flag == "--connection"
    then record a { connection = value or "" }
    else if flag == "--body"
    then record a { body = some (value or "") }
    else a

abbrev intervene_flag : String → Bool
intervene_flag f = f == "--connection" || f == "--body"

abbrev read_mode : Option String → Bool → Bool → Bool → Result Mode
read_mode body true false false = ok start
read_mode body false true false = ok stop
read_mode body false false true =
    if (body or "") == ""
    then throw (usage "--body is required with --send")
    else ok (send (body or ""))
read_mode body _ _ _ = throw (usage "Exactly one of --start, --stop, or --send is required")

abbrev with_connection : String → Result Mode → Result (String × Mode)
with_connection c (throw e) = throw e
with_connection c (ok m) = ok (c, m)

abbrev check_intervene : InterveneFlags → Result (String × Mode)
check_intervene a =
    if a.connection == ""
    then throw (usage "--connection is required")
    else with_connection a.connection (read_mode a.body a.starts a.stops a.sends)

-- `parseArgs` of pinch-intervene
unfoldable pub parse_intervene_args : List String → Result (String × Mode)
parse_intervene_args args = check_intervene (
    set_all set_intervene
      (record { starts = false; stops = false; sends = false; connection = ""; body = none })
      (settings intervene_flag none args))
