-- ===== src/Broker/Messages.antt =====
-- The messages of src/broker/linux.rs: what a request and a response must look like, and the
-- comparison of the secrets. serde_json's reader and its decoders for the two types are arguments.
pub mod Secrets
use Prim.Native.Nat.{bit_or, bit_xor}
use codex_autoapprover.Prelude.{
  ◌&&◌, ◌+◌, ◌==◌, ◌>>◌, ◌>>=◌, Bool, Bytes, List, Option, Result, [], all, codes, contains,
  if◌then◌else◌, err, false, guard, if◌then◌else◌, leb, length, nat_eqb, not, ok, ok_or,
  if◌then◌else◌, true, ℕ, ◌∷◌, nat_eq, bytes_eq, option_eq,
}
use codex_autoapprover.Protocol.{
  Event, Fields, HookInput, ProtocolError, Value, as_object, keys, max_input_bytes,
  parse_unique_object,
}
use codex_autoapprover.Decision.{allow}

abbrev pub broker_protocol_version : Bytes
broker_protocol_version = codes "permission-binding-v1"

abbrev pub max_broker_message_bytes : ℕ
max_broker_message_bytes = max_input_bytes + 4096

abbrev pub max_broker_response_bytes : ℕ
max_broker_response_bytes = 256

pub record BrokerRequest : Type 0 where
  pub protocol_version : Bytes
  pub message_type : Bytes
  pub session_secret : Bytes
  pub hook_input : HookInput

pub record BrokerResponse : Type 0 where
  pub protocol_version : Bytes
  pub message_type : Bytes
  pub decision : Bytes

pub data BrokerDecision : Type 0 where
  broker_allow : BrokerDecision
  no_decision : BrokerDecision

pub data MessageError : Type 0 where
  message_too_large : MessageError
  unreadable_message : ProtocolError → MessageError
  message_not_object : MessageError
  unexpected_fields : MessageError
  undecodable : MessageError
  unsupported_message : MessageError
  invalid_decision : MessageError

abbrev pub request_fields : List Bytes
request_fields =
    codes "protocol_version"
    ∷ codes "message_type"
    ∷ codes "session_secret"
    ∷ codes "hook_input"
    ∷ []

abbrev pub response_fields : List Bytes
response_fields = codes "protocol_version" ∷ codes "message_type" ∷ codes "decision" ∷ []

-- `object.len() == FIELDS.len()`, and every key is one of them.
unfoldable pub has_fields : List Bytes → Fields → Bool
has_fields expected fields =
    nat_eqb (length (keys fields)) (length expected) && all (contains expected) (keys fields)

unfoldable pub read_unique : (Bytes → Option (Event × Bytes)) → Bytes → Result MessageError Value
read_unique deserialize bytes = elim (parse_unique_object deserialize bytes) [
  | ok tree ↦ ok tree
  | err e ↦ err (unreadable_message e)
]

unfoldable pub parse_request :
    (Bytes → Option (Event × Bytes))
    → (Value → Option BrokerRequest)
    → Bytes
    → Result MessageError BrokerRequest
parse_request deserialize decode bytes = do
  guard (leb (length bytes) max_broker_message_bytes) message_too_large
  tree ← read_unique deserialize bytes
  fields ← ok_or (as_object tree) message_not_object
  guard (has_fields request_fields fields) unexpected_fields
  r ← ok_or (decode tree) undecodable
  guard
      (r.protocol_version == broker_protocol_version
        && r.message_type == codes "permission_request")
      unsupported_message
  ok r

-- The value that `write_response_until` serializes.
unfoldable pub response_of : BrokerDecision → BrokerResponse
response_of decision = record {
  protocol_version = broker_protocol_version;
  message_type = codes "decision";
  decision = elim decision [ broker_allow ↦ codes "allow" | no_decision ↦ codes "no_decision" ];
}

unfoldable pub decision_of : Bytes → Result MessageError Bool
decision_of name =
    if name == codes "allow"
    then ok true
    else if name == codes "no_decision"
    then ok false
    else err invalid_decision

unfoldable pub parse_response :
    (Bytes → Option (Event × Bytes))
    → (Value → Option BrokerResponse)
    → Bytes
    → Result MessageError Bool
parse_response deserialize decode bytes = do
  tree ← read_unique deserialize bytes
  fields ← ok_or (as_object tree) message_not_object
  guard (has_fields response_fields fields) unexpected_fields
  r ← ok_or (decode tree) undecodable
  guard (r.protocol_version == broker_protocol_version && r.message_type == codes "decision")
      unsupported_message
  decision_of r.decision

-- The `fold` over the zipped bytes.
unfoldable pub difference_of : ℕ → Bytes → Bytes → ℕ
difference_of difference [] right = difference
difference_of difference (a ∷ left) [] = difference
difference_of difference (a ∷ left) (b ∷ right) =
    difference_of (bit_or difference (bit_xor a b)) left right

unfoldable pub constant_time_equal : Bytes → Bytes → Bool
constant_time_equal left right =
    if not (nat_eqb (length left) (length right))
    then false
    else nat_eqb (difference_of 0 left right) 0
