-- ===== src/Broker/Verify.antt =====
-- `verify_request` of src/broker/linux.rs. What the code asks while it runs is an argument: the two
-- loads of the shutdown flag, the processes by the time of each read, and the facts of the
-- admission
-- at each of its two checks.
pub mod Authorized
pub mod Granted
use codex_autoapprover.Prelude.{
  ◌||◌, ◌&&◌, ◌==◌, Bool, Bytes, Option, Result, [], codes, if◌then◌else◌, err, false,
  if◌then◌else◌, is_ok, ltb, nat_eqb, none, not, ok, some, if◌then◌else◌, true, ℕ, nat_eq, bytes_eq,
  option_eq, to_string_lossy,
}
use codex_autoapprover.Admission.{Admission, AdmissionReads, verify_process}
use codex_autoapprover.Broker.Messages.{BrokerRequest, constant_time_equal}
use codex_autoapprover.Certification.{CertificationError, Manifest, Target}
use codex_autoapprover.Decision.{Decision, DecisionContext, allow, decide, decline, is_none}
use codex_autoapprover.Protocol.{HookInput}
use codex_autoapprover.Platform.{OperatingSystem}
use codex_autoapprover.Process.{
  ProcessError, ProcessIdentity, ProcessReader, ProcessRecord, validate_ancestry,
}
use codex_autoapprover.Broker.Ledger.{Request, RequestLedger, consume}
use codex_autoapprover.Compatibility.{is_verification_probe_command}
use codex_autoapprover.Update.Outcome.Audit.{request}
use codex_autoapprover.Arming.{valid_token}

pub record PeerCredentials : Type 0 where
  pub pid : ℕ
  pub uid : ℕ
  pub gid : ℕ

pub record BrokerConfig : Type 0 where
  pub admission : Option Admission
  pub codex_version : Bytes
  pub expected_cwd : Bytes
  pub expected_command : Option Bytes
  pub expected_tool_name : Option Bytes
  pub audit_path : Option Bytes

-- `SharedState` without its atomics. A poisoned lock holds none.
pub record SharedState : Type 0 where
  pub ledger : Option RequestLedger
  pub identity : Option ProcessIdentity
  pub config : BrokerConfig
  pub session_secret : Bytes

-- The answers during one call.
pub record Surroundings : Type 0 where
  pub euid : ℕ
  pub manifest : Result CertificationError Manifest
  pub reader : ProcessReader
  pub shut_first : Bool
  pub shut_last : Bool
  pub first_reads : AdmissionReads
  pub last_reads : AdmissionReads

-- `validate_peer`, with the time behind its last read.
unfoldable pub validate_peer : ProcessReader → ℕ → ℕ → ProcessIdentity → ℕ → ℕ × Bool
validate_peer reader now peer_pid expected effective_uid =
    let (later, valid) = validate_ancestry reader now peer_pid expected in
    if ltb 0 peer_pid && nat_eqb expected.effective_uid effective_uid
    then (later, is_ok valid)
    else (now, false)

unfoldable pub peer_uid_matches : Option PeerCredentials → ℕ → Bool
peer_uid_matches none effective_uid = false
peer_uid_matches (some credentials) effective_uid = nat_eqb credentials.uid effective_uid

-- The admission's first check, or the verifier's own command for the Bash tool.
unfoldable pub may_decide : OperatingSystem → AdmissionReads → BrokerConfig → ℕ → Bool
may_decide os reads config pid = elim config.admission [
  | some a ↦ is_ok (verify_process reads a pid)
  | none ↦ probes config.expected_command && config.expected_tool_name == some (codes "Bash")
]
  where
    probes : Option Bytes → Bool
    probes none = false
    probes (some command) = is_verification_probe_command os command

-- `is_none_or(|a| a.verify_process(pid).is_ok())`
unfoldable pub still_admitted : AdmissionReads → BrokerConfig → ℕ → Bool
still_admitted reads config pid = elim config.admission [
  | some a ↦ is_ok (verify_process reads a pid)
  | none ↦ true
]

-- `as_ref().map(|a| &a.target)`
abbrev pub target_of_admission : Option Admission → Option Target
target_of_admission none = none
target_of_admission (some a) = some a.target

unfoldable pub context_of : BrokerConfig → DecisionContext
unfolding to_string_lossy
context_of config = record {
  certified_target = target_of_admission config.admission;
  codex_version = config.codex_version;
  expected_cwd = to_string_lossy config.expected_cwd;
  expected_command = config.expected_command;
  expected_tool_name = config.expected_tool_name;
}

abbrev pub is_allow : Decision → Bool
is_allow allow = true
is_allow (decline reason) = false

module _ (os : OperatingSystem) (digest : HookInput → Option Bytes) where
  -- The last operand: the peer is read once more, and the ledger consumes the request.
  unfoldable pub consume_request :
      Option RequestLedger
      → Result ProcessError ProcessRecord
      → HookInput
      → Bool
      → Bool × Option RequestLedger
  consume_request ledger (err e) input verification = (false, ledger)
  consume_request none (ok peer) input verification = (false, none)
  consume_request (some l) (ok peer) input verification =
      let asked : Request = record {
        input = input;
        pid = peer.identity.pid;
        started = peer.identity.start_time;
        verification = verification;
      } in
      let (passed, next) = consume digest l asked in (passed, some next)

  -- The tests in front of the decision, for the identity that is expected.
  unfoldable pub is_trusted :
      SharedState → PeerCredentials → BrokerRequest → Surroundings → ProcessIdentity → Bool
  unfolding validate_peer peer_uid_matches
  is_trusted shared credentials r around expected = not (
      around.shut_first
      || not (peer_uid_matches (some credentials) around.euid)
      || not (valid_token (some r.session_secret))
      || not (constant_time_equal r.session_secret shared.session_secret)
      || not (validate_peer around.reader 0 credentials.pid expected around.euid).1)

  -- All the tests in front of the ledger; `still_valid` is the answer about the peer at the end.
  unfoldable pub passes :
      SharedState → PeerCredentials → BrokerRequest → Surroundings → ProcessIdentity → Bool → Bool
  unfolding is_trusted may_decide still_admitted context_of
  passes shared credentials r around expected still_valid =
      is_trusted shared credentials r around expected
      && may_decide os around.first_reads shared.config expected.pid
      && is_allow (decide os around.manifest r.hook_input (context_of shared.config))
      && still_admitted around.last_reads shared.config expected.pid
      && not around.shut_last
      && still_valid

  -- The answer, and the ledger that is left, for the identity that is expected.
  unfoldable pub verify_for :
      SharedState
      → PeerCredentials
      → BrokerRequest
      → Surroundings
      → ProcessIdentity
      → Bool × Option RequestLedger
  unfolding consume_request passes validate_peer
  verify_for shared credentials r around expected =
      let (now, first_valid) = validate_peer around.reader 0 credentials.pid expected around.euid in
      let (after, still_valid) =
        validate_peer around.reader now credentials.pid expected around.euid in
      if passes shared credentials r around expected still_valid
      then consume_request shared.ledger (around.reader after credentials.pid) r.hook_input
          (is_none shared.config.admission)
      else (false, shared.ledger)

  unfoldable pub verify_request :
      SharedState → PeerCredentials → BrokerRequest → Surroundings → Bool × Option RequestLedger
  unfolding verify_for
  verify_request shared credentials r around = elim shared.identity [
    | none ↦ (false, shared.ledger)
    | some expected ↦ verify_for shared credentials r around expected
  ]
