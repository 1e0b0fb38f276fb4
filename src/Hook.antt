-- ===== src/Hook.antt =====
-- The hook's side: `run` of src/hook.rs and `request` of src/broker/linux.rs. The process
-- environment, the streams, the clock and serde_json are arguments.
pub mod Delivery
use codex_autoapprover.Prelude.{
  ◌&&◌, ◌++◌, ◌==◌, Bool, Bytes, List, Option, Result, [], codes, if◌then◌else◌, err, false,
  if◌then◌else◌, is_ok, none, ok, some, if◌then◌else◌, true, ℕ, ◌∷◌, nat_eq, bytes_eq, option_eq,
}
use codex_autoapprover.Broker.Messages.{
  BrokerResponse, broker_allow, max_broker_message_bytes, max_broker_response_bytes, parse_response,
}
use codex_autoapprover.Protocol.{entry, parse, Event, HookInput, Value, WireHookInput}
use codex_autoapprover.Update.Outcome.{
  HookOutcome, protocol_failure, successful_exchange, transport_failure,
}
use codex_autoapprover.Broker.Frames.{
  IoError, Incoming, Outgoing, ensure_no_trailing_data, read_frame, write_frame,
}
use codex_autoapprover.Arming.{protocol_version, valid_token}

pub data RequestFailureKind : Type 0 where
  transport : RequestFailureKind
  protocol_failed : RequestFailureKind

-- What the request meets; none is a variable that is missing or no Unicode. `connects`, `timed` and
-- `shuts` tell whether connecting, setting the two timeouts and shutting the writing side succeed.
pub record Client : Type 0 where
  pub socket : Option Bytes
  pub secret : Option Bytes
  pub protocol : Option Bytes
  pub connects : Bool
  pub timed : Bool
  pub shuts : Bool
  pub flushed : Bool
  pub clock : ℕ → ℕ
  pub deadline : ℕ
  pub outgoing : Outgoing
  pub incoming : Incoming

-- serde_json's part on this side.
pub record ClientLibrary : Type 0 where
  pub deserialize : Bytes → Option (Event × Bytes)
  pub decode_response : Value → Option BrokerResponse
  pub decode_input : Value → Option WireHookInput
  pub serialize_request : Bytes → HookInput → Option Bytes

-- A result with the stages that were recorded before it.
abbrev pub Staged : Type 0 → Type 0
Staged A = List Bytes × Result RequestFailureKind A

-- Go on with a further stage, or fail.
unfoldable pub after_stage : {A : Type 0} → Bytes → Staged A → Staged A
after_stage name rest = (name ∷ rest.0, rest.1)

unfoldable pub require : {A : Type 0} → Bool → RequestFailureKind → Staged A → Staged A
require test kind rest = if test then rest else ([], err kind)

-- What a run of the hook leaves: its stages in order, the outcome that it records, whether the
-- allowing response was written whole, and the exit code, if it does not fail.
pub record HookRun : Type 0 where
  pub stages : List Bytes
  pub outcome : Option HookOutcome
  pub wrote_allow : Bool
  pub exit_code : Option ℕ

-- `no_decision_outcome`
abbrev pub no_decision_outcome : HookOutcome
no_decision_outcome = protocol_failure

unfoldable pub failure_outcome : RequestFailureKind → HookOutcome
failure_outcome transport = transport_failure
failure_outcome protocol_failed = protocol_failure

-- The branch on the broker's answer; `written` tells whether standard output took the response.
unfoldable pub conclude : Bool → Result RequestFailureKind Bool → HookRun
unfolding failure_outcome
conclude written (ok true) =
    if written
    then record {
      stages = codes "stdout_written" ∷ codes "broker_allow" ∷ [];
      outcome = some successful_exchange;
      wrote_allow = true;
      exit_code = some 0;
    }
    else record {
      stages = codes "stdout_error" ∷ [];
      outcome = some protocol_failure;
      wrote_allow = false;
      exit_code = none;
    }
conclude written (ok false) = record {
  stages = codes "broker_no_decision" ∷ [];
  outcome = some no_decision_outcome;
  wrote_allow = false;
  exit_code = some 0;
}
conclude written (err kind) = record {
  stages = codes "broker_error" ∷ [];
  outcome = some (failure_outcome kind);
  wrote_allow = false;
  exit_code = some 0;
}

module _ (lib : ClientLibrary) where
  -- What the client does with the answer's bytes: one frame, nothing behind it, and its message.
  unfoldable pub receive_from : Result IoError Bytes → Bool → Staged Bool
  unfolding after_stage require
  receive_from (err e) is_last = ([], err transport)
  receive_from (ok bytes) is_last = after_stage (codes "broker_response_received") (
      require is_last protocol_failed
        (elim (parse_response lib.deserialize lib.decode_response bytes) [
          | err e ↦ ([], err protocol_failed)
          | ok decision ↦ (codes "broker_response_parsed" ∷ [], ok decision)
        ]))

  unfoldable pub receive : Client → Staged Bool
  unfolding receive_from
  receive c =
      let (behind, frame) = read_frame c.clock c.deadline max_broker_response_bytes c.incoming in
      let (left, trailing) = ensure_no_trailing_data c.clock c.deadline behind in
      receive_from frame (is_ok trailing)

  -- What it sends, for the secret of the session.
  unfoldable pub send : Client → Bytes → HookInput → Staged Bool
  unfolding after_stage require receive
  send c secret input = elim (lib.serialize_request secret input) [
    | none ↦ ([], err protocol_failed)
    | some bytes ↦
        require
          (is_ok
            (write_frame c.clock c.deadline c.flushed bytes max_broker_message_bytes c.outgoing).1)
          transport
          (after_stage (codes "broker_request_sent") (require c.shuts transport (receive c)))
  ]

  -- `request`
  unfoldable pub request_decision : Client → HookInput → Staged Bool
  unfolding after_stage require send
  request_decision c input = elim c.socket [
    | none ↦ ([], err protocol_failed)
    | some socket ↦ elim c.secret [
      | none ↦ ([], err protocol_failed)
      | some secret ↦
          require (valid_token (some secret) && c.protocol == some protocol_version) protocol_failed
            (require c.connects transport (
              after_stage (codes "broker_connected")
                (require c.timed transport (send c secret input))))
    ]
  ]

  -- `run`, for what reading the bounded standard input gave.
  unfoldable pub run : Option Bytes → Bool → Client → HookRun
  unfolding conclude request_decision
  run stdin written c = elim stdin [
    | none ↦ record {
      stages = codes "entry" ∷ [];
      outcome = some protocol_failure;
      wrote_allow = false;
      exit_code = none;
    }
    | some bytes ↦ elim (parse lib.deserialize lib.decode_input bytes) [
      | err e ↦ record {
        stages = codes "entry" ∷ codes "stdin_read" ∷ codes "stdin_parse_error" ∷ [];
        outcome = some protocol_failure;
        wrote_allow = false;
        exit_code = some 0;
      }
      | ok input ↦
          let (stages, decision) = request_decision c input in
          let end_of_run = conclude written decision in
          record end_of_run {
            stages = codes "entry" ∷ codes "stdin_read" ∷ (stages ++ end_of_run.stages);
          }
    ]
  ]
