-- ===== src/Lib.antt =====
-- A verification of codex-autoapprover, the launcher that answers one kind of permission request of
-- Codex, and of the selection of releases for its updater.
--
-- How the parts interact: the launcher arms a child with a token (src/arming.rs) and serves a
-- local broker, once the admission has bound the installation, the host and the sandbox to a
-- certificate (src/admission.rs over src/environment.rs, src/artifact.rs and src/identity.rs). The
-- child's hook (src/hook.rs) sends a request in a frame, which a worker of the broker reads
-- (src/broker/linux.rs) and parses strictly (src/protocol.rs), whose sender it places below the
-- launched process (src/process/linux.rs), which it decides (src/decision.rs) by the certificates
-- (src/certification.rs) or, for a verification, by the probe command (src/compatibility.rs), and
-- which its ledger records (src/broker/mod.rs). Each step leaves a line in the session's audit
-- (src/audit.rs), and the audit becomes a bounded outcome (src/update/outcome.rs). The updater
-- validates release manifests (src/update/manifest.rs), selects one (src/update/selection.rs) and
-- keeps what it has observed (src/update/state.rs).
--
-- Files and sources:
--   Prelude and below        numbers, text, UTF-8, decimal numbers, sorting, results, state
--   Arming                   src/arming.rs: new_secret, arm_child, disarm_child, is_armed
--   Platform, Compatibility  src/compatibility.rs: OperatingSystem, the probe command, the schema
--   Codex                    src/codex.rs: parse_version
--   Certification            src/certification.rs: Target, Manifest, parse, validate, admits
--   Protocol                 src/protocol.rs: the strict visitors, parse_unique_object, parse
--   Decision                 src/decision.rs: decide, one guard for each early return
--   Process                  src/process/linux.rs: current_process_identity, validate_ancestry
--   Process/Stat             src/process/linux.rs: parse_stat, parse_effective_uid, ProcFs
--   Broker/Ledger            src/broker/mod.rs: RequestLedger.consume
--   Broker/Frames            src/broker/linux.rs: read_frame_until, write_frame_until and below
--   Broker/Messages          src/broker/linux.rs: parse_request, parse_response,
--                            constant_time_equal
--   Broker/Verify            src/broker/linux.rs: verify_request, with the ledger as its state
--   Broker/Connection        src/broker/linux.rs: handle_connection, as the list of its effects
--   Broker/Serve             src/broker/linux.rs: serve, its workers and stop_accepting, as steps
--                            of a shared counter and flag
--   Hook                     src/hook.rs: run; src/broker/linux.rs: request
--   Audit                    src/audit.rs: the lines and the counts over them
--   Identity                 src/identity.rs: trusted directories, stamps, rechecks; Opening: the
--                            reading of a file into its digest
--   Artifact                 src/artifact.rs: Bundle, Bundle.recheck
--   Environment              src/environment.rs: surface, observe, release_field
--   Admission                src/admission.rs: inspect, recheck, verify_process, the arguments
--   Update/Version           src/update/manifest.rs: StableVersion
--   Update/Manifest          src/update/manifest.rs: the schema (Targets, Surfaces, Schema), the
--                            validation (Checks), the search for repeated keys (Duplicates)
--   Update/Runtime           src/update/selection.rs: runtime requirements
--   Update/Catalog           src/update/selection.rs: validate_catalog_ambiguity
--   Update/Choice            src/update/selection.rs: select_asset, select_compatibility
--   Update/Selection         src/update/selection.rs: select_applicable
--   Update/Outcome           src/update/outcome.rs: counters, accumulator; Audit: read_audit
--   Update/State             src/update/state.rs: UpdateState, record_compatibility_observation,
--                            record_successful_check, is_backoff_active, is_skipped_for
--   Examples                 concrete inputs of the theorems
-- The modules below these hold the proofs.
--
-- Conventions: a text is the list of its UTF-8 bytes; a path or a variable of the environment is
-- any bytes, and `to_string_lossy` and `env::var` are modelled where the source converts one.
-- `Result` is the source's, with `?` as the bind of a do block; a `bail!` is a constructor of an
-- error type. A hash set is the list of its members. A machine integer is a natural number with
-- its bound written out where the source can reach it. serde_json, sha2, the random generator, the
-- file system and /proc are arguments: the events that a deserializer hands to a visitor, the
-- digest of an input, the answer of a file, and a reader of processes that depends on the time of
-- each read, so that processes may change between reads.
--
-- A socket is the list of answers that its calls will give, and the clock a function of the number
-- of times that it was asked; a shared flag that is loaded twice has two answers. What one operation
-- asks of the file system is one record of answers.
--
-- Bounds: the walk over the parents runs on the source's own bound of 32 records. Decimal printing
-- runs on fuel above the number, which is enough since each round divides it. The loops over a
-- socket run over the list of its answers. No other recursion needs fuel.
--
-- Not modelled: the store and the lease of src/update/state.rs; creating and removing the private
-- directories and the socket, and the vector of worker handles, in src/broker/linux.rs; Windows
-- (src/broker/windows.rs, src/process/windows.rs, the access lists); locating a package and listing
-- its files in src/artifact.rs; the launcher and its signals; the configuration writer; and the
-- scripts. They are input and output around the decisions above, or remain to be done.
pub mod Prelude
pub mod Arming
pub mod Platform
pub mod Compatibility
pub mod Codex
pub mod Certification
pub mod Protocol
pub mod Decision
pub mod Process
pub mod Audit
pub mod Identity
pub mod Artifact
pub mod Environment
pub mod Admission
pub mod Broker
pub mod Hook
pub mod Update
pub mod Examples
