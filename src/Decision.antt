-- ===== src/Decision.antt =====
-- `decide` of src/decision.rs: whether one permission request is allowed.
pub mod Permits
pub mod Rules
use codex_autoapprover.Prelude.{
  ◌||◌, ◌&&◌, ◌==◌, Bool, Bytes, Option, Result, [], codes, if◌then◌else◌, err, false,
  if◌then◌else◌, is_nil, none, not, ok, some, if◌then◌else◌, true, nat_eq, bytes_eq, option_eq,
}
use codex_autoapprover.Certification.{CertificationError, Manifest, Target, admits}
use codex_autoapprover.Protocol.{
  Fields, HookInput, Value, array, as_object, as_str, bool, end, field, get, null, number, object,
  permission_request_event, string,
}
use codex_autoapprover.Platform.{OperatingSystem}
use codex_autoapprover.Compatibility.{is_verification_probe_command, verification_schema}

pub data DeclineReason : Type 0 where
  wrong_event : DeclineReason
  missing_required_field : DeclineReason
  unsupported_permission_mode : DeclineReason
  working_directory_mismatch : DeclineReason
  unsupported_codex_compatibility : DeclineReason
  unsupported_tool_type : DeclineReason
  unexpected_verification_action : DeclineReason

pub data Decision : Type 0 where
  allow : Decision
  decline : DeclineReason → Decision

pub record DecisionContext : Type 0 where
  pub certified_target : Option Target
  pub codex_version : Bytes
  pub expected_cwd : Bytes
  pub expected_command : Option Bytes
  pub expected_tool_name : Option Bytes

-- `is_none_or(str::is_empty)`
abbrev pub is_absent : Option Bytes → Bool
is_absent none = true
is_absent (some s) = is_nil s

-- `is_none()`
abbrev pub is_none {ℓ} : {A : Type ℓ} → Option A → Bool
is_none none = true
is_none (some a) = false

-- `unwrap_or_default()`
abbrev pub or_empty : Option Bytes → Bytes
or_empty none = []
or_empty (some s) = s

-- The session, the directory, the tool's name and its input are given.
unfoldable pub lacks_field : HookInput → Bool
lacks_field input =
    is_absent input.session_id
    || is_absent input.cwd
    || is_absent input.tool_name
    || is_none input.tool_input

-- `expected_tool_name.is_some_and(|expected| tool_name != Some(expected))`
unfoldable pub other_tool : DecisionContext → Option Bytes → Bool
other_tool context name = elim context.expected_tool_name [
  | none ↦ false
  | some expected ↦ not (name == some expected)
]

-- `verification`: no certified target, and the one probe command as the expected one.
unfoldable pub is_verification : OperatingSystem → DecisionContext → Bool
is_verification os context =
    is_none context.certified_target
    && probes context.expected_command
    && context.expected_tool_name == some (codes "Bash")
  where
    probes : Option Bytes → Bool
    probes none = false
    probes (some command) = is_verification_probe_command os command

-- The certified target equals the version and the tool, and the embedded manifest admits it.
-- `manifest` is what `Manifest::embedded()` returns.
unfoldable pub is_certified :
    Result CertificationError Manifest → DecisionContext → Bytes → Option Target → Bool
is_certified manifest context tool none = false
is_certified (err e) context tool (some target) = false
is_certified (ok m) context tool (some target) =
    target.codex_version == context.codex_version && target.tool == tool && admits m target

unfoldable pub is_admitted :
    OperatingSystem → Result CertificationError Manifest → DecisionContext → Bytes → Bool
is_admitted os manifest context tool =
    if is_verification os context
    then verification_schema os context.codex_version tool
    else is_certified manifest context tool context.certified_target

-- A field of the tool's input that is understood.
abbrev pub is_string : Value → Bool
is_string v = not (is_none (as_str v))

abbrev pub is_null : Value → Bool
is_null null = true
is_null (bool b) = false
is_null (number n) = false
is_null (string s) = false
is_null (array xs) = false
is_null (object fs) = false

unfoldable pub is_supported_field : Bytes → Value → Bool
is_supported_field key v =
    (key == codes "command" && is_string v)
    || (key == codes "description" && (is_string v || is_null v))

unfoldable pub fields_are_supported : Fields → Bool
fields_are_supported end = true
fields_are_supported (field key v rest) = is_supported_field key v && fields_are_supported rest

-- `object.get("command").and_then(as_str).is_some()`
unfoldable pub has_command : Fields → Bool
has_command fields = elim (get (codes "command") fields) [ none ↦ false | some v ↦ is_string v ]

-- `tool_input == json!({"command": expected})`: the object with that one field.
unfoldable pub is_command_object : Bytes → Option Value → Bool
is_command_object expected none = false
is_command_object expected (some null) = false
is_command_object expected (some (bool b)) = false
is_command_object expected (some (number n)) = false
is_command_object expected (some (string s)) = false
is_command_object expected (some (array xs)) = false
is_command_object expected (some (object fields)) = one_command fields
  where
    one_command : Fields → Bool
    one_command end = false
    one_command (field key v end) = key == codes "command" && as_str v == some expected
    one_command (field key v (field key' v' rest)) = false

unfoldable pub unexpected_action : DecisionContext → HookInput → Bool
unexpected_action context input = elim context.expected_command [
  | none ↦ false
  | some expected ↦ not (is_command_object expected input.tool_input)
]

-- The steps behind the tool's input.
decide_input : DecisionContext → HookInput → Option Fields → Decision
decide_input context input none = decline unsupported_tool_type
decide_input context input (some fields) =
    if not (has_command fields) || not (fields_are_supported fields)
    then decline unsupported_tool_type
    else if not (input.cwd == some context.expected_cwd)
    then decline working_directory_mismatch
    else if unexpected_action context input
    then decline unexpected_verification_action
    else allow

-- `tool_input.as_ref().and_then(as_object)`
abbrev pub input_fields : Option Value → Option Fields
input_fields none = none
input_fields (some v) = as_object v

unfoldable pub decide :
    OperatingSystem → Result CertificationError Manifest → HookInput → DecisionContext → Decision
unfolding decide_input
decide os manifest input context =
    if not (input.hook_event_name == some permission_request_event)
    then decline wrong_event
    else if lacks_field input
    then decline missing_required_field
    else if not (input.permission_mode == some (codes "default"))
    then decline unsupported_permission_mode
    else if other_tool context input.tool_name
    then decline unsupported_tool_type
    else if not (or_empty input.tool_name == codes "Bash")
    then decline unsupported_tool_type
    else if not (is_admitted os manifest context (or_empty input.tool_name))
    then decline unsupported_codex_compatibility
    else decide_input context input (input_fields input.tool_input)
