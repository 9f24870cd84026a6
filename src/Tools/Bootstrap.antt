-- ===== src/Tools/Bootstrap.antt =====
-- skill/src/tools/cli.ts: how a tool starts and ends. The constructors of the components only keep
-- their arguments, so the state that they share is their stores and the client. The handlers are
-- registered before `connect`; what they do with the messages received is System.
pub mod Start
use pinch.Prelude.Act.{Error, relay_url_required}
use pinch.Prelude.Objects.{Object}
use pinch.Prelude.{
  ℕ, String, Bool, true, false, ◌||◌, Option, none, some, List, ◌==◌, ◌or◌, if◌then◌else◌,
}
use Prim.Native.String.{◌++◌ as text_append}
use pinch.Connections.{Connection, ConnectionStore}
use pinch.Identity.KeyFile.{Keypair, KeyCodec, load_or_generate}
use pinch.RelayClient.{
  Protocol, ClientConfig, Client, Promise, Event, connect, disconnect_async, run,
}
use pinch.Tools.Control.{bootstrap_store}

-- The environment variables; the paths are not modelled.
pub record Environment : Type 0 where
  pub relay_url : Option String
  pub relay_host : Option String

-- What a process finds and leaves of the keys and the connections.
pub record Disk : Type 0 where
  pub key_file : Option String
  pub connections : Option (Object Connection)

pub record LocalBootstrapResult : Type 0 where
  pub keypair : Keypair
  pub connection_store : ConnectionStore

pub record BootstrapResult : Type 0 where
  pub keypair : Keypair
  pub connection_store : ConnectionStore
  pub relay_client : Client

pub record Process : Type 0 where
  pub disk : Disk
  pub bootstrapped : Option BootstrapResult
  pub local_bootstrapped : Option LocalBootstrapResult

-- `waiting` where the promise of `connect` is not settled yet.
pub data Awaited (A : Type 0) : Type 0 where
  returned : A → Awaited A
  raised : Error → Awaited A
  waiting : Awaited A

abbrev pub relay_host_of : Environment → String
relay_host_of env = env.relay_host or "localhost"

-- The client's options are the defaults.
abbrev pub client_config : Protocol → Environment → Keypair → ClientConfig
client_config pr env k = record {
  protocol = pr;
  relay_host = relay_host_of env;
  public_key = k.public_key;
  private_key = k.private_key;
  heartbeat_interval = 25_000;
  pong_timeout = 7_000;
}

module _ (kc : KeyCodec) (now : ℕ) (fresh : Keypair) where
  abbrev pub keypair_of : Disk → Keypair
  keypair_of d = (load_or_generate kc now fresh d.key_file).1

  -- The keys loaded or generated, the connections loaded and their passthrough flags cleared.
  abbrev pub prepared : Disk → Disk
  prepared d = record {
    key_file = (load_or_generate kc now fresh d.key_file).0;
    connections = some (bootstrap_store d.connections).saved;
  }

  -- `bootstrapLocal`
  unfoldable pub bootstrap_local : Process → Process × LocalBootstrapResult
  bootstrap_local p = elim p.local_bootstrapped [
    | some r ↦ (p, r)
    | none ↦
        let r : LocalBootstrapResult = record {
          keypair = keypair_of p.disk;
          connection_store = bootstrap_store p.disk.connections;
        } in
        (record p { disk = prepared p.disk; local_bootstrapped = some r }, r)
  ]

  module _ (pr : Protocol) (env : Environment) (es : List Event) where
    -- The client after the socket's events `es`.
    abbrev pub connected_client : Disk → Client
    connected_client d = run (client_config pr env (keypair_of d)) es (connect none 0 false 0)

    abbrev awaited : Process → BootstrapResult → Promise → Process × Awaited BootstrapResult
    awaited p r Promise.resolved = (record p { bootstrapped = some r }, returned r)
    awaited p r (Promise.rejected e) = (p, raised e)
    awaited p r Promise.pending = (p, waiting)

    abbrev pub components : Disk → BootstrapResult
    components d = record {
      keypair = keypair_of d;
      connection_store = bootstrap_store d.connections;
      relay_client = connected_client d;
    }

    abbrev connected : Process → Process × Awaited BootstrapResult
    connected p =
        awaited (record p { disk = prepared p.disk }) (components p.disk)
          (connected_client p.disk).promise

    -- `bootstrap`
    unfoldable pub bootstrap : Process → Process × Awaited BootstrapResult
    bootstrap p = elim p.bootstrapped [
      | some r ↦ (p, returned r)
      | none ↦ if (env.relay_url or "") == "" then (p, raised relay_url_required) else connected p
    ]

-- `shutdown` up to its wait; the message store is closed after it. The client is given back.
unfoldable pub shutdown : Process → Process × Option Client
shutdown p = elim p.bootstrapped [
  | none ↦ (p, none)
  | some r ↦ (record p { bootstrapped = none }, some (disconnect_async r.relay_client))
]

-- `shutdownLocal`
unfoldable pub shutdown_local : Process → Process
shutdown_local p = record p { local_bootstrapped = none }

-- `isToolEntrypoint`, with `basename` of node:path.
unfoldable pub is_tool_entrypoint : (String → String) → Option String → String → Bool
is_tool_entrypoint basename none tool = false
is_tool_entrypoint basename (some path) tool =
    if path == ""
    then false
    else let name = basename path in
      (name == tool
        || (name == text_append tool ".ts"
            || (name == text_append tool ".js"
                || (name == text_append tool ".mjs" || name == text_append tool ".cjs"))))
