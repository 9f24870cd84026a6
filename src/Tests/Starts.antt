-- ===== src/Tests/Starts.antt =====
-- Runs of the tools' start, of the key file and of the tools that only look.
use pinch.RelayClient.{answer_challenge, message_in, step, run}
use pinch.Feed.Audit.{entry_break, valid, verify, entries_to_verify}
use pinch.Feed.{
  row_before, compute_entry_hash, by_time, ActivityFeed, empty_feed, record_event, event, sealed,
  draft,
}
use pinch.Prelude.Sort.{sort_by}
use pinch.Tools.Queries.{set_activity, run_activity}
use pinch.Tools.Arguments.{settings, set_all}
use pinch.Prelude.Objects.{lookup}
use pinch.Connections.{get_connection, Connection, ConnectionState, AutonomyLevel}
use pinch.Prelude.{
  ℕ, String, ◌≡◌, ◌≢◌, ◌⊎◌, ◌++◌, ◌or◌, true, refl, Option, none, some, List, [], ◌∷◌, length, take,
  drop, take-append, drop-append,
}
use pinch.Prelude.Bytes.{replicate}
use pinch.Prelude.Act.{ok, malformed_file}
use pinch.Wire.{Bytes}
use pinch.Feed.Tails.{lost_end_passes}
use pinch.Breaker.{default_circuit_breaker_config}
use pinch.World.{World}
use pinch.Pipeline.{process}
use pinch.Identity.KeyFile.{
  Keypair, KeypairFile, KeyCodec, load_keypair, save_keypair, starts, AllSame, keypair_file,
  load_or_generate, identity_stays, unloaded_key_is_lost,
}
use pinch.Tools.Manifests.{
  PermissionArgs, parse_permission_args, run_permission_args, Changed, OnlyStarted,
  arguments_write_valid,
}
use pinch.Tools.Queries.Hidden.{muted_stays_hidden}
use pinch.Prelude.Act.{Error, throw}
use pinch.Tools.Bootstrap.{Disk, Environment, Process, BootstrapResult, bootstrap, components}
use pinch.Tools.Bootstrap.Start.{IsStarted, bootstrap_needs_admission}
use pinch.Tests.{test_runtime, alice, greeting, agreeable, connection_of, world_of}
use pinch.Tests.Texts.{unary, unary_decodes}
use pinch.Tests.Relays.{small_client, admission}

abbrev acting : Connection
acting = connection_of alice ConnectionState.active AutonomyLevel.notify

abbrev arguments : List String
arguments = "--address" ∷ alice ∷ "--files" ∷ "none" ∷ []

abbrev quiet : World
quiet = world_of (record acting { muted = some true })

muted_stays_hidden_example :
    run_activity test_runtime
      ("--connection" ∷ alice ∷ [])
      (process test_runtime default_circuit_breaker_config greeting alice agreeable 40 41 42
        quiet).0.feed
    ≡ run_activity test_runtime ("--connection" ∷ alice ∷ []) quiet.feed
unfolding get_connection lookup set_all settings set_activity
muted_stays_hidden_example =
    muted_stays_hidden test_runtime default_circuit_breaker_config greeting alice agreeable 40 41 42
      quiet ("--connection" ∷ alice ∷ []) refl refl

abbrev short_log : ActivityFeed
short_log = record_event test_runtime 10 (event alice "connection_muted") empty_feed

abbrev longer_log : ActivityFeed
longer_log = record_event test_runtime 20 (event alice "connection_unmuted") short_log

lost_end_passes_example :
    verify test_runtime none short_log ≡ valid 1 1 (some "0190-0000") (some "0190-0000")
unfolding entries_to_verify by_time sort_by record_event sealed compute_entry_hash row_before draft
    verify entry_break
lost_end_passes_example =
    lost_end_passes test_runtime longer_log short_log
      (sealed test_runtime (draft test_runtime 20 (event alice "connection_unmuted") short_log)
        ∷ [])
      2 2 (some "0190-0000") (some "0190-0000") refl refl

-- The file is one list of bytes: the length of the public key, and both keys.
abbrev key_bytes : Option String → Bytes
key_bytes none = []
key_bytes (some text) = unary.base58_decode text or []

abbrev file_bytes : Bytes → Bytes → Bytes
file_bytes pk sk = length pk ∷ (pk ++ sk)

abbrev split_file : Option Bytes → Option KeypairFile
split_file none = none
split_file (some []) = none
split_file (some (n ∷ b)) = some (record {
  version = some 1;
  public_key = some (unary.base58_encode (take n b));
  private_key = some (unary.base58_encode (drop n b));
  created_at = some "now";
})

abbrev small_codec : KeyCodec
small_codec = record {
  parse = λ t. split_file (unary.base58_decode t);
  stringify =
      λ f. unary.base58_encode (file_bytes (key_bytes f.public_key) (key_bytes f.private_key));
  to_base64 = unary.base58_encode;
  from_base64 = unary.base58_decode;
  iso = λ n. "now";
}

small_codec-parsed :
    (now : ℕ) (k : Keypair)
    → small_codec.parse (small_codec.stringify (keypair_file small_codec now k))
      ≡ some (keypair_file small_codec now k)
small_codec-parsed now k =
    let pk = k.public_key in
    let sk = k.private_key in
    rw
      (
        unary_decodes pk,
        unary_decodes sk,
        unary_decodes (file_bytes pk sk),
        take-append pk sk,
        drop-append pk sk,
      )
      refl

abbrev keys_of : ℕ → Keypair
keys_of n = record { public_key = replicate 32 n; private_key = replicate 64 n }

identity_stays_example :
    ((starts small_codec ((10, keys_of 1) ∷ (20, keys_of 2) ∷ []) none).0
      ≡ (load_or_generate small_codec 10 (keys_of 1) none).0)
    × AllSame small_codec
        (load_or_generate small_codec 10 (keys_of 1) none).1
        (starts small_codec ((10, keys_of 1) ∷ (20, keys_of 2) ∷ []) none).1
identity_stays_example =
    identity_stays small_codec small_codec-parsed unary_decodes 10 (keys_of 1)
      ((20, keys_of 2) ∷ []) none

unloaded_key_is_lost_example :
    ((starts small_codec ((10, keys_of 1) ∷ (20, keys_of 2) ∷ []) (some "damaged")).0
      ≡ some (save_keypair small_codec 10 (keys_of 1)))
    × AllSame small_codec
        (keys_of 1)
        (starts small_codec ((10, keys_of 1) ∷ (20, keys_of 2) ∷ []) (some "damaged")).1
unfolding load_keypair
unloaded_key_is_lost_example =
    unloaded_key_is_lost small_codec small_codec-parsed unary_decodes 10 (keys_of 1)
      ((20, keys_of 2) ∷ []) "damaged" malformed_file refl

abbrev fresh_process : Process
fresh_process = record {
  disk = record { key_file = none; connections = none };
  bootstrapped = none;
  local_bootstrapped = none;
}

abbrev named_relay : Environment
named_relay = record { relay_url = some "wss://relay/ws"; relay_host = some "relay" }

abbrev result : BootstrapResult
result =
    components small_codec 10 (keys_of 1) small_client.protocol named_relay admission
      fresh_process.disk

bootstrap_needs_admission_example :
    ((named_relay.relay_url or "") ≢ "")
    × IsStarted small_codec 10
        (keys_of 1)
        small_client.protocol
        named_relay
        admission
        fresh_process.disk
        result
unfolding bootstrap run step message_in answer_challenge
bootstrap_needs_admission_example =
    bootstrap_needs_admission small_codec 10 (keys_of 1) small_client.protocol named_relay admission
      fresh_process result refl refl

abbrev first_disk : Disk
first_disk = record { key_file = none; connections = some ((alice, acting) ∷ []) }

arguments_write_valid_example :
    ((e : Error) × (parse_permission_args arguments ≡ throw e)
      × (run_permission_args small_codec 50 (keys_of 1) arguments first_disk
          ≡ (first_disk, throw e)))
    ⊎ (((a : PermissionArgs) × (parse_permission_args arguments ≡ ok a)
          × Changed small_codec 50
              (keys_of 1)
              first_disk
              a
              (run_permission_args small_codec 50 (keys_of 1) arguments first_disk))
        ⊎ OnlyStarted small_codec 50
            (keys_of 1)
            first_disk
            (run_permission_args small_codec 50 (keys_of 1) arguments first_disk))
arguments_write_valid_example =
    arguments_write_valid small_codec 50 (keys_of 1) first_disk arguments
