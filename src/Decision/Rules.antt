-- ===== src/Decision/Rules.antt =====
-- About `decide` of src/decision.rs: its conditions, each with a name.
use codex_autoapprover.Certification.{CertificationError, Manifest}
use codex_autoapprover.Decision.{
  is_none, decide_input, Decision, DeclineReason, allow, decide, decline, input_fields, lacks_field,
  or_empty, DecisionContext, fields_are_supported, has_command, is_absent, other_tool,
  unexpected_action,
}
use codex_autoapprover.Protocol.{
  Value, array, bool, null, number, string, Fields, HookInput, object, permission_request_event,
}
use codex_autoapprover.Prelude.{
  ==_refl, ◌↔◌, ==_iff, Bool, Bytes, Option, ap, arith, if◌then◌else◌, if◌then◌else◌, none, not,
  refl, if◌then◌else◌, nat_eq, bytes_eq, option_eq, Result, codes, false, is_nil, some, true, ◌≡◌,
}
use codex_autoapprover.Platform.{OperatingSystem}
use codex_autoapprover.Decision.Permits.{Authority, Authority-admitted, admitted-Authority}

-- What the tool's input holds: a command, perhaps a description, and nothing else.
pub record IsShellInput (fields : Fields) : Type 0 where
  pub commanded : has_command fields ≡ true
  pub understood : fields_are_supported fields ≡ true

pub record IsAllowed (os : OperatingSystem) (manifest : Result CertificationError Manifest)
    (input : HookInput) (context : DecisionContext) : Type 0 where
  pub event : input.hook_event_name ≡ some permission_request_event
  pub session : is_absent input.session_id ≡ false
  pub mode : input.permission_mode ≡ some (codes "default")
  pub tool : input.tool_name ≡ some (codes "Bash")
  pub tool_expected : other_tool context (some (codes "Bash")) ≡ false
  pub authority : Authority os manifest context
  pub fields : Fields
  pub structured : input.tool_input ≡ some (object fields)
  pub shell : IsShellInput fields
  pub directory : input.cwd ≡ some context.expected_cwd
  pub directory_given : is_nil context.expected_cwd ≡ false
  pub action : unexpected_action context input ≡ false

-- A decision that declines on a test and allows has passed it.
passed :
    (b : Bool) (r : DeclineReason) (d : Decision)
    → (if b then decline r else d) ≡ allow
    → (b ≡ false) × (d ≡ allow)
passed true r d h = cc
passed false r d h = (refl, h)

not-eq-false : (b : Bool) → not b ≡ false → b ≡ true
not-eq-false b h = ground arith

bash_name :
    (name : Option Bytes)
    → is_absent name ≡ false
    → or_empty name ≡ codes "Bash"
    → name ≡ some (codes "Bash")
bash_name none h e = cc
bash_name (some n) h e = ap some e

present :
    (input : HookInput)
    → (lacks_field input ≡ false) ↔ (
        (is_absent input.session_id ≡ false)
        × (is_absent input.cwd ≡ false)
        × (is_absent input.tool_name ≡ false)
        × (is_none input.tool_input ≡ false))
unfolding lacks_field
present input = (λ h. ground arith, λ h. ground arith)

input_shell :
    (context : DecisionContext) (input : HookInput) (o : Option Value)
    → decide_input context input (input_fields o) ≡ allow
    → (fields : Fields) × (o ≡ some (object fields))
      × IsShellInput fields
      × (input.cwd ≡ some context.expected_cwd)
      × (unexpected_action context input ≡ false)
unfolding decide_input
input_shell context input none h = cc
input_shell context input (some null) h = cc
input_shell context input (some (bool b)) h = cc
input_shell context input (some (number n)) h = cc
input_shell context input (some (string s)) h = cc
input_shell context input (some (array xs)) h = cc
input_shell context input (some (object fields)) h =
    let (a, h1) = passed _ _ _ h in
    let (b, h2) = passed _ _ _ h1 in
    let (c, h3) = passed _ _ _ h2 in
    (
      fields,
      refl,
      record { commanded = ground arith; understood = ground arith },
      (==_iff input.cwd (some context.expected_cwd)).0 (not-eq-false _ b),
      c,
    )

decide_sound :
    (os : OperatingSystem) (manifest : Result CertificationError Manifest) (input : HookInput)
    (context : DecisionContext)
    → decide os manifest input context ≡ allow
    → IsAllowed os manifest input context
unfolding decide
decide_sound os manifest input context h =
    let (e, h1) = passed _ _ _ h in
    let (l, h2) = passed _ _ _ h1 in
    let (m, h3) = passed _ _ _ h2 in
    let (t, h4) = passed _ _ _ h3 in
    let (b, h5) = passed _ _ _ h4 in
    let (a, h6) = passed _ _ _ h5 in
    let (fields, structured, shell, directory, action) =
      input_shell context input input.tool_input h6 in
    let bash = (==_iff (or_empty input.tool_name) (codes "Bash")).0 (not-eq-false _ b) in
    let given = (present input).0 l in
    let named = bash_name input.tool_name given.2 bash in
    record {
      event = (==_iff input.hook_event_name (some permission_request_event)).0 (not-eq-false _ e);
      session = given.0;
      mode = (==_iff input.permission_mode (some (codes "default"))).0 (not-eq-false _ m);
      tool = named;
      tool_expected = rw named at t;
      authority = admitted-Authority os manifest context (rw bash at (not-eq-false _ a));
      fields = fields;
      structured = structured;
      shell = shell;
      directory = directory;
      directory_given = let d = rw directory at given.1 in d;
      action = action;
    }

bash_given : is_nil (codes "Bash") ≡ false
unfolding codes
bash_given = refl

decide_complete :
    (os : OperatingSystem) (manifest : Result CertificationError Manifest) (input : HookInput)
    (context : DecisionContext)
    → IsAllowed os manifest input context
    → decide os manifest input context ≡ allow
unfolding decide decide_input
decide_complete os manifest input context a =
    let given : lacks_field input ≡ false =
      (present input).1
        (a.session, rw a.directory a.directory_given, rw a.tool bash_given, rw a.structured refl) in
    ground (
      arith,
      (==_iff input.hook_event_name (some permission_request_event)).1 a.event,
      given,
      (==_iff input.permission_mode (some (codes "default"))).1 a.mode,
      ap (other_tool context) a.tool,
      ap or_empty a.tool,
      ==_refl (codes "Bash"),
      Authority-admitted os manifest context a.authority,
      ap input_fields a.structured,
      (==_iff input.cwd (some context.expected_cwd)).1 a.directory,
    )

-- A request is allowed exactly when it is a PermissionRequest of a session, in the default
-- permission mode, for the Bash tool with a command and at most a description, in the expected
-- directory, for which the build holds a certificate of the exact version or the verifier expects
-- its own probe command, and which asks for the expected command where one is expected.
pub decide_iff :
    (os : OperatingSystem) (manifest : Result CertificationError Manifest) (input : HookInput)
    (context : DecisionContext)
    → (decide os manifest input context ≡ allow) ↔ IsAllowed os manifest input context
decide_iff os manifest input context =
    (decide_sound os manifest input context, decide_complete os manifest input context)
