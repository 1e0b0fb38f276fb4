-- ===== src/Broker/Connection.antt =====
-- `handle_connection` of src/broker/linux.rs: what one connection appends to the audit and answers.
-- The socket, the clock, the audit's file and the decoders are arguments.
mod Allowing
pub mod Answers
mod Trail
use codex_autoapprover.Prelude.{
  ◌++◌, Bool, Bytes, List, Option, Result, [], if◌then◌else◌, err, false, if◌then◌else◌, is_ok,
  none, not, ok, some, if◌then◌else◌, true, ℕ, ◌∷◌,
}
use codex_autoapprover.Broker.Messages.{
  BrokerDecision, BrokerRequest, BrokerResponse, broker_allow, max_broker_message_bytes,
  max_broker_response_bytes, no_decision, parse_request, response_of,
}
use codex_autoapprover.Protocol.{Event, HookInput, Value}
use codex_autoapprover.Broker.Frames.{
  Incoming, IoError, Outgoing, ensure_no_trailing_data, read_frame, write_frame,
}
use codex_autoapprover.Platform.{OperatingSystem}
use codex_autoapprover.Broker.Verify.{PeerCredentials, SharedState, Surroundings, verify_request}
use codex_autoapprover.Broker.Ledger.{RequestLedger}
use codex_autoapprover.Audit.{
  allow_line, attempt_line, emitted_line, invoked_line, request_line, tool_or_unknown,
}

-- What a connection does that others can see: a line that the audit took, a line that it did not
-- take, and an answer with whether the write reported success.
pub data Effect : Type 0 where
  audited : Bytes → Effect
  not_audited : Bytes → Effect
  answered : BrokerDecision → Bool → Effect

-- The library's part: the reader of JSON, the decoder and the serializers, SHA-256, and the digest
-- of an input.
pub record Library : Type 0 where
  pub deserialize : Bytes → Option (Event × Bytes)
  pub decode_request : Value → Option BrokerRequest
  pub serialize_response : BrokerResponse → Bytes
  pub sha256 : Bytes → Bytes
  pub to_vec : Value → Bytes
  pub digest : HookInput → Option Bytes

-- The answers of the surroundings during one connection. `appended` tells of each of the five
-- appends to the audit whether it succeeds.
pub record Peer : Type 0 where
  pub credentials : Option PeerCredentials
  pub incoming : Incoming
  pub outgoing : Outgoing
  pub flushed : Bool
  pub clock : ℕ → ℕ
  pub deadline : ℕ
  pub appended : ℕ → Bool
  pub around : Surroundings

-- The five appends, in the order of the code.
abbrev pub attempt_append : ℕ
attempt_append = 0

abbrev pub invoked_append : ℕ
invoked_append = 1

abbrev pub request_append : ℕ
request_append = 2

abbrev pub allow_append : ℕ
allow_append = 3

abbrev pub emitted_append : ℕ
emitted_append = 4

-- `if let Some(path) = … && append(path, line).is_err()`: the effects, and whether to go on.
unfoldable pub audit : SharedState → Peer → ℕ → Bytes → List Effect × Bool
audit shared peer index line = elim shared.config.audit_path [
  | none ↦ ([], true)
  | some path ↦
      if peer.appended index then (audited line ∷ [], true) else (not_audited line ∷ [], false)
]

module _ (os : OperatingSystem) (lib : Library) where
  -- `write_response_until`
  unfoldable pub write_response : Peer → BrokerDecision → Outgoing × Result IoError (Unit {0})
  unfolding write_frame response_of
  write_response peer decision =
      write_frame peer.clock peer.deadline peer.flushed
        (lib.serialize_response (response_of decision)) max_broker_response_bytes peer.outgoing

  unfoldable pub answer_with : Peer → BrokerDecision → Effect
  unfolding write_response
  answer_with peer decision = answered decision (is_ok (write_response peer decision).1)

  -- The lines of a request that is allowed, and the answer behind them.
  unfoldable pub respond_allow : SharedState → Peer → HookInput → List Effect
  unfolding audit answer_with request_line allow_line emitted_line
  respond_allow shared peer input =
      let (request_effects, requested) = audit shared peer request_append (
        request_line lib.sha256 lib.to_vec input.tool_name input.hook_event_name
          input.tool_input) in
      let (allow_effects, recorded) =
        audit shared peer allow_append
          (allow_line lib.sha256 lib.to_vec (tool_or_unknown input.tool_name) input.tool_input) in
      let (emitted_effects, noted) =
        audit shared peer emitted_append
          (emitted_line lib.sha256 lib.to_vec (tool_or_unknown input.tool_name) input.tool_input) in
      if not requested
      then request_effects ++ answer_with peer no_decision ∷ []
      else if not recorded
      then request_effects ++ (allow_effects ++ answer_with peer no_decision ∷ [])
      else if is_ok (write_response peer broker_allow).1
      then request_effects ++ (allow_effects ++ answer_with peer broker_allow ∷ emitted_effects)
      else request_effects ++ (allow_effects ++ answer_with peer broker_allow ∷ [])

  -- A request that was decoded.
  unfoldable pub handle_request :
      SharedState → Peer → PeerCredentials → BrokerRequest → List Effect × Option RequestLedger
  unfolding audit answer_with invoked_line verify_request respond_allow
  handle_request shared peer credentials r =
      let (effects, go_on) =
        audit shared peer invoked_append (
          invoked_line lib.sha256 lib.to_vec r.hook_input.tool_name r.hook_input.hook_event_name) in
      let (passed, ledger) = verify_request os lib.digest shared credentials r peer.around in
      if not go_on
      then (effects ++ answer_with peer no_decision ∷ [], shared.ledger)
      else if passed
      then (effects ++ respond_allow shared peer r.hook_input, ledger)
      else (effects ++ answer_with peer no_decision ∷ [], ledger)

  -- What the socket has delivered: the frame, and whether nothing follows it.
  unfoldable pub handle_read :
      SharedState
      → Peer
      → PeerCredentials
      → Result IoError Bytes
      → Bool
      → List Effect × Option RequestLedger
  unfolding answer_with handle_request
  handle_read shared peer credentials (err e) is_last = ([], shared.ledger)
  handle_read shared peer credentials (ok frame) is_last =
      if not is_last
      then (answer_with peer no_decision ∷ [], shared.ledger)
      else elim (parse_request lib.deserialize lib.decode_request frame) [
        | err e ↦ (answer_with peer no_decision ∷ [], shared.ledger)
        | ok r ↦ handle_request shared peer credentials r
      ]

  unfoldable pub handle_frame :
      SharedState → Peer → PeerCredentials → List Effect × Option RequestLedger
  unfolding read_frame ensure_no_trailing_data handle_read
  handle_frame shared peer credentials =
      let (behind, frame) =
        read_frame peer.clock peer.deadline max_broker_message_bytes peer.incoming in
      let (left, trailing) = ensure_no_trailing_data peer.clock peer.deadline behind in
      handle_read shared peer credentials frame (is_ok trailing)

  -- The connection of a peer with its credentials.
  unfoldable pub handle_peer :
      SharedState → Peer → Option PeerCredentials → List Effect × Option RequestLedger
  unfolding audit handle_frame
  handle_peer shared peer none = ([], shared.ledger)
  handle_peer shared peer (some credentials) =
      let (effects, go_on) = audit shared peer attempt_append attempt_line in
      let (later, ledger) = handle_frame shared peer credentials in
      if not go_on then (effects, shared.ledger) else (effects ++ later, ledger)

  -- `handle_connection`: the effects in their order, and the ledger that is left.
  unfoldable pub handle_connection : SharedState → Peer → List Effect × Option RequestLedger
  unfolding handle_peer
  handle_connection shared peer = handle_peer shared peer peer.credentials
