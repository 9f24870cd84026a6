-- ===== src/Tests/Relays.antt =====
-- Runs of the relay's client, against a relay with one challenge.
use pinch.Prelude.Bytes.{eq_bytes, replicate}
use pinch.Prelude.{
  ℕ, String, ◌≡◌, refl, sym, ap, ◌∙◌, Bool, true, false, Option, none, some, List, [], ◌∷◌, ◌++◌,
  eqb, if◌then◌else◌, arith,
}
use pinch.Wire.{Bytes, MessageType}
use pinch.RelayClient.{
  AuthPayload, AuthEnvelope, ClientConfig, Client, Event, connect, connect_again, is_unsettled,
  answer_challenge, message_in, step, run,
}
use pinch.RelayClient.Settling.{connect_settles_once}
use pinch.RelayClient.Heartbeat.{missed_pongs_never_reconnect}
use pinch.RelayClient.Reconnect.{
  reconnect_delay, Reconnection, EndsWell, attempt_reconnect, reconnect_ends, with_attempt,
  gives_up_for_good,
}
use pinch.Tests.Codes.{coded, coded_text}

abbrev challenge_of : Bytes → String → AuthEnvelope
challenge_of nonce host = record {
  type = MessageType.auth_challenge;
  payload = AuthPayload.challenge nonce host;
}

abbrev welcome : AuthEnvelope
welcome = record {
  type = MessageType.auth_result;
  payload = AuthPayload.result true "pinch:me@relay";
}

abbrev zeros : Bytes
zeros = replicate 32 0

abbrev ones : Bytes
ones = replicate 32 1

abbrev read_frame : Bytes → Option AuthEnvelope
read_frame [] = none
read_frame (n ∷ b) =
    if eqb n 1 then some (challenge_of zeros "relay") else if eqb n 2 then some welcome else none

abbrev pub small_client : ClientConfig
small_client = record {
  protocol = record {
    from_binary = read_frame;
    encode_text = coded.encode_text;
    to_lower_case = λ s. s;
    signatures = record { sign = λ m k. m; verify = λ s m k. eq_bytes s m };
  };
  relay_host = "relay";
  public_key = ones;
  private_key = ones;
  heartbeat_interval = 25_000;
  pong_timeout = 7_000;
}

abbrev pub admission : List Event
admission = Event.socket_open ∷ Event.message 10 true (1 ∷ []) ∷ Event.message 20 true (2 ∷ []) ∷ []

connect_settles_once_example :
    (is_unsettled
        (run small_client ([] ++ Event.auth_timer_ends ∷ []) (connect none 0 true 0)).promise
      ≡ false)
    × ((run small_client ([] ++ Event.auth_timer_ends ∷ admission) (connect none 0 true 0)).promise
        ≡ (run small_client ([] ++ Event.auth_timer_ends ∷ []) (connect none 0 true 0)).promise)
connect_settles_once_example = connect_settles_once small_client [] admission none 0 true 0

abbrev admitted_client : Client
admitted_client = run small_client admission (connect none 0 true 0)

missed_pongs_never_reconnect_example :
    ((step small_client (Event.tick 40_000) admitted_client).authenticated ≡ false)
    × ((run small_client (Event.tick 40_000 ∷ Event.socket_close ∷ []) admitted_client).reconnects
        ≡ admitted_client.reconnects)
unfolding run step message_in answer_challenge
missed_pongs_never_reconnect_example =
    missed_pongs_never_reconnect small_client (Event.socket_close ∷ []) admitted_client 40_000 refl
      refl refl (omega arith)

abbrev third_succeeds : ℕ → Bool
third_succeeds k = eqb k 2

reconnect_ends_example :
    (r : Reconnection) × (attempt_reconnect (λ k. 300) third_succeeds 21 0 ≡ some r)
    × EndsWell (λ k. 300) third_succeeds 0 r
reconnect_ends_example = reconnect_ends (λ k. 300) third_succeeds 0 (omega arith)

-- A client that has made 19 attempts, and the loop that gives up after one more.
abbrev tired_client : Client
tired_client = connect none 0 true 19

abbrev last_attempt : Reconnection
last_attempt = record { attempt = 20; delays = 30_000 ∷ []; connected = false; gave_up = true }

gives_up_for_good_example :
    attempt_reconnect
      (λ k. 0)
      (λ k. true)
      21
      (run small_client admission
        (connect_again (with_attempt last_attempt tired_client))).reconnect_attempt
    ≡ some (record { attempt = 20; delays = []; connected = false; gave_up = true })
unfolding attempt_reconnect reconnect_delay
gives_up_for_good_example =
    gives_up_for_good small_client (λ k. 0) (λ k. 0) (λ k. false) (λ k. true) tired_client
      last_attempt admission (omega arith) refl refl

text_injective : (s t : String) → coded.encode_text s ≡ coded.encode_text t → s ≡ t
text_injective s t h = sym (coded_text s) ∙ ap coded.decode_text h ∙ coded_text t
