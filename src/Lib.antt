-- ===== src/Lib.antt =====
-- Pinch: encrypted messages between the agents of two humans, with the humans in control. This
-- library models the core of the skill, the TypeScript program that runs beside an agent.
--
-- The client of the relay (relay-client.ts) answers the relay's challenge and passes envelopes on.
-- An envelope either changes the life of a connection (connection.ts) or carries a message, which
-- the message manager (message-manager.ts) opens. The message is stored (message-store.ts) and
-- handed to the enforcement pipeline, which asks the permissions enforcer, counts the message at
-- the circuit breaker, routes it by the autonomy level of its connection and, if the level says
-- so, asks the policy evaluator. What happens is recorded in a log with a hash chain, which a tool
-- verifies.
--
-- Files, and the code that they model, all below skill/src/:
--   Manifest, Manifest/Tiers    autonomy/permissions-manifest.ts
--   Manifest/Edit               tools/pinch-permissions.ts (the changes of a manifest)
--   Connections                 connection-store.ts; Connections/Types has its types
--   Messages                    message-store.ts
--   Feed                        autonomy/activity-feed.ts
--   Feed/Audit                  tools/pinch-audit-verify.ts
--   Breaker                     autonomy/circuit-breaker.ts
--   Evaluator                   autonomy/policy-evaluator.ts
--   Enforcer                    autonomy/permissions-enforcer.ts
--   Router                      inbound-router.ts
--   Pipeline                    autonomy/enforcement-pipeline.ts
--   Lifecycle                   connection.ts
--   Delivery                    delivery.ts, auth.ts
--   Identity                    identity.ts (addresses); Identity/KeyFile has the key file
--   Crypto                      crypto.ts
--   Manager                     message-manager.ts: sending; Manager/Receiving has the receiving and
--                               confirming side, Manager/Flush the wait for the relay's queue
--   RelayClient                 relay-client.ts: one connection; RelayClient/Reconnect has the loop of
--                               attemptReconnect
--   System                      the waits of message-manager.ts and autonomy/enforcement-pipeline.ts as
--                               steps between which other envelopes are handled
--   Tools/Permissions           tools/pinch-permissions.ts (the run)
--   Tools/Manifests,            tools/pinch-permissions.ts, from the arguments on
--     Tools/Numbers
--   Tools/Arguments,            tools/pinch-accept.ts, pinch-reject.ts, pinch-connect.ts, pinch-send.ts,
--     Tools/Commands            pinch-mute.ts and pinch-intervene.ts, from the arguments on
--   Tools/Autonomy              tools/pinch-autonomy.ts, from the arguments on
--   Tools/Control               tools/pinch-autonomy.ts, pinch-intervene.ts, pinch-mute.ts, and what
--                               tools/cli.ts does to the connection store at the start
--   Tools/Queries               tools/pinch-contacts.ts, pinch-status.ts, pinch-history.ts and
--                               pinch-activity.ts
--   Tools/Audits                tools/pinch-audit-verify.ts and pinch-audit-export.ts, from the
--                               arguments on
--   Tools/Bootstrap             tools/cli.ts: the start and the end of a tool
--   Tools/Whoami                tools/pinch-whoami.ts, relay-url.ts
--   Wire                        the types of proto/pinch/v1 (not below skill/src/)
--   World                       the state that tools/cli.ts builds and the parts share
-- Prelude holds the shared types and lemmas, Instant the times, and Tests runs on small data. The
-- other files below a part hold the proofs about it. A definition has the name of the function it
-- models, in snake case: `set_autonomy` is `setAutonomy`.
--
-- An operation takes the state and gives the new state with a result or an error; what was written
-- before a throw stays written. An object's entries keep the order of insertion, a table is the list
-- of its rows, and a file is the data in it. A call reads the clock once, as an argument in
-- milliseconds. `process` is three stages, split where it waits for the language model; System makes
-- the waits steps of a relation, in which envelopes arrive and waiting messages go on in any order.
--
-- Parameters, since their code is elsewhere: the digest, the UUIDs, the ISO texts and Base64 (the
-- record `Runtime` of Feed), Base58 (`Encodings` of Identity), libsodium (`Sodium` of Crypto and
-- `Signatures` of Delivery), protobuf, JSON and UTF-8 (`Codecs` of Manager, `Protocol` of RelayClient,
-- `KeyCodec` of Identity/KeyFile), and the answers of the language model (`PolicyEvaluator`), where
-- `none` is a promise that rejects.
-- Only `attempt_reconnect` runs on fuel, one unit a round: its loop has at most 20 attempts and one
-- more look at its guard, so 21 units are enough. Every other loop is over a list or over a fixed
-- number of bytes.
--
-- `RelayClient` is a machine of its own over the events of its socket and its timers. The other parts
-- see a client as the `Relay` of World: `is_open` is what `isConnected` answers.
--
-- Not modelled: the relay server, which is a separate Go program; the serialised bytes of envelopes
-- and the generated code for them; SQL and the file system, whose writes succeed; the WebSocket
-- itself; calls of the tools in the waits of a message; the enforcer's several waits, which System
-- takes as one; keys that an object inherits; what the tools print, and what pinch-whoami does with
-- the relay's answer; the rounding of numbers to floating point; a JSON message whose `text` is no
-- string.
pub mod Prelude
pub mod Instant
pub mod Manifest
pub mod Connections
pub mod Messages
pub mod Feed
pub mod Wire
pub mod World
pub mod Breaker
pub mod Evaluator
pub mod Enforcer
pub mod Router
pub mod Pipeline
pub mod Lifecycle
pub mod Delivery
pub mod Identity
pub mod Crypto
pub mod Manager
pub mod RelayClient
pub mod System
pub mod Tools
pub mod Tests
