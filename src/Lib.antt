-- ===== src/Lib.antt =====
-- The off-chain TypeScript code of the Via Labs V4 message gateway for Solana: the decoders of
-- instruction and event data, the setup that initialises a deployed program,
-- and the health check that watches it.
--
-- Parts, and how they interact. decoders/index.ts takes the base64 text of instruction or event data,
-- looks at its first 8 bytes and hands it to decoders/instructions.ts or decoders/events.ts, which
-- read the fields with decoders/utils.ts. scripts/deployment/setup.ts builds the data that those
-- decoders read, and sends it to the cluster.
--
-- Decoders.Utils models decoders/utils.ts: base58Encode is base58_encode, readU128LE is
-- read_u128_le, readVecU8, readVecPubkey and readVecMessageSignature are the functions of the same
-- names in snake case. Decoders.Instructions models decoders/instructions.ts (its interfaces in
-- Types, the eleven decoders in Fields, decodeInstruction in Dispatch), Decoders.Events
-- decoders/events.ts, Decoders.Index decoders/index.ts. The tables from discriminators to names are
-- association lists (Decoders.Tables) that are filled in the source's order.
-- Setup models scripts/deployment/setup.ts: program addresses and instructions in Setup.Build, the
-- methods that talk to the cluster as actions on a session (Setup.Session, Setup.Run), the command
-- line in Setup.Config. Health models the health check of scripts/deployment/health.ts: the four
-- checks in Health.Checks and Health.Registry, performHealthCheck in Health.Perform; its overall
-- status "degraded" is partly_degraded, and errorRate is kept as the two counts it is computed from.
-- Network models scripts/deployment/network-manager.ts: the edit of Anchor.toml's lines in
-- Network.Toml, updateAnchorToml in Network.Anchor, generateKeypair in Network.Keypair, the rest in
-- Network.Config and Network.Manager. Deploy models scripts/deployment/deploy.ts, which drives the
-- network manager: the five phases in Deploy.Phases, deploy and main in Deploy.Run, the regular
-- expressions in Deploy.Output. Verify models scripts/deployment/verify.ts: what the checks do in
-- Verify.Checks, runCheck, verify and the summary in Verify.Run. Env models
-- scripts/deployment/env-manager.ts: the files' text in Env.Files, the methods in Env.Manager.
--
-- A method that changes a state and may throw is an action (Prelude.Actions): what was changed before
-- an exception stays changed, as there. The network manager's state is the Console, with a log of
-- what it asked of the operating system; a deployment's is that and the result that it fills.
--
-- A Buffer is a list of bytes (Buffer.antt), a string the list of its character codes, a bigint or a
-- number a natural number. What throws in TypeScript gives an error value; a `try` with its `catch`
-- is a function on that value (caught, event_caught, or_unknown, catching). An index outside a
-- Buffer gives none, as it gives undefined there. An interface's constant tag is the constructor of
-- the union; ProcessMessageDecoded has the fields of CreateTxPdaDecoded and shares its record.
--
-- Loops are structural recursion: on the rounds that are left (u128_loop, pubkey_loop,
-- signature_loop), on the list (setup), and base58Encode's division loop on the well-founded order
-- (print_base in Prelude.Digits), so that no fuel is needed.
--
-- Parameters. Node's base64 and UTF-8 decoding are the fields of Runtime, with the one law that a
-- decoded buffer holds bytes. The calls of @solana/web3.js, Anchor and bn.js are the fields of
-- Cluster over a type of cluster states, where each call over the network may return anything, may
-- fail and may change the state; the laws say that a PublicKey has 32 bytes and that
-- BN.toArrayLike writes little-endian bytes of a number that fits. Files and environment variables
-- that main reads are the fields of Host, and the clock and the cluster that the health check sees
-- those of Monitor, without any law. A session logs what is handed to sendAndConfirm. Files, paths
-- and commands are the fields of System and Shell, and the cluster that the verifier sees those of
-- Rpc, all without laws: a command may do anything to the files.
--
-- Not modelled: console output, the times of the health check's services and alerts, its continuous
-- mode and its command line, prettyPrint and decodeAndPrint of decoders/index.ts, the constructor and
-- the command line of the verifier, listNetworks and listProfiles, which only print, the Rust program
-- under programs, the tests. Numbers of the configuration are natural numbers: a negative or
-- fractional id or threshold is out of the model, and so is a network or a profile with the name of a
-- property that every JavaScript object has.
pub mod Prelude
pub mod Buffer
pub mod Decoders
pub mod Setup
pub mod Network
pub mod Deploy
pub mod Verify
pub mod Env
pub mod Health
pub mod Tests
