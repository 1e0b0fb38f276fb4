-- ===== src/Examples/Hook.antt =====
-- Examples for the permission path: arming, the probe command, certificates, ancestry, the ledger,
-- the strict parser and the decision.
use codex_autoapprover.Platform.{linux}
use codex_autoapprover.Prelude.{
  ◌==◌, bytes_beq, is_utf8, chars, is_ascii_alphanumeric, is_ascii_digit, is_lower_hex,
  is_whitespace, split_on, split_whitespace, starts_with, strip_prefix, ◌++◌, Bytes, Distinct, In,
  List, Option, [], arith, codes, contains, if◌then◌else◌, err, false, if◌then◌else◌, inl, is_nil,
  length, list_beq, nat_eqb, none, ok, refl, some, if◌then◌else◌, true, ◌↔◌, ◌∷◌, ◌≡◌, ◌≤◌, nat_eq,
  bytes_eq, option_eq,
}
use codex_autoapprover.Certification
use codex_autoapprover.Certification.Reading.{IsRead, parse_manifest_iff}
use codex_autoapprover.Certification.{
  validate, Certificate, Manifest, Target, admits, artifact_digests, is_complete, is_evidence_id,
  is_revoked, is_sha256, launch_kind_fits, sandbox_fits, validate_entries, validate_revocations,
  validate_target,
}
use codex_autoapprover.Arming.{ChildEnv, arm_child, is_armed, new_secret, valid_token}
use codex_autoapprover.Decision.{DecisionContext, allow, decide}
use codex_autoapprover.Protocol.{
  Value, Event, HookInput, bool, end, entry, field, map_end, object, strict_value, string,
  visit_bool, visit_map,
}
use codex_autoapprover.Protocol.Unique.{HasUniqueKeys, plain, strict_value_iff}
use codex_autoapprover.Decision.Rules.{IsAllowed, decide_iff}
use codex_autoapprover.Process.Ancestry.{IsDescendant, validate_ancestry-IsDescendant}
use codex_autoapprover.Compatibility.Probe.{IsProbe, is_verification_probe_command_iff}
use codex_autoapprover.Broker.Ledger.Replay.{
  IsReplayFree, serve_all-IsReplayFree, verification-serve_all,
}
use codex_autoapprover.Process.{
  record_beq, ProcessIdentity, ProcessReader, collect_ancestry, collect_from, identity_beq,
  unavailable_process, validate_ancestry,
}
use codex_autoapprover.Broker.Ledger.{Request, empty_ledger, serve_all}
use codex_autoapprover.Certification.Admits.{
  admits_iff, certified_targets, revoked_certificate-admits, validate-Distinct,
}
use codex_autoapprover.Arming.Tokens.{arm_child-is_armed_iff, new_secret-valid_token}
use codex_autoapprover.Compatibility.{is_verification_probe_command}
use codex_autoapprover.Codex.{is_version, is_version_part, without_v, parse_version}
use codex_autoapprover.Update.Manifest.Duplicates.{visit, visit_iff}

abbrev random_bytes : Bytes
random_bytes =
    0 ∷ 1 ∷ 2 ∷ 3 ∷ 4 ∷ 5 ∷ 6 ∷ 7 ∷ 8 ∷ 9 ∷ 10 ∷ 11 ∷ 12 ∷ 13 ∷ 14 ∷ 15 ∷ 16 ∷ 17 ∷ 18 ∷ 19 ∷ 20
    ∷ 21 ∷ 22 ∷ 23 ∷ 24 ∷ 25 ∷ 26 ∷ 27 ∷ 28 ∷ 29 ∷ 30 ∷ 255 ∷ []

new_secret-valid_token_example :
    (secret : Bytes) × (new_secret (some random_bytes) ≡ ok secret)
    × (valid_token (some secret) ≡ true)
new_secret-valid_token_example = new_secret-valid_token random_bytes (ground arith) refl

abbrev sixteen : Bytes
sixteen = codes "0123456789abcdef"

abbrev pub digest_text : Bytes
digest_text = sixteen ++ sixteen ++ sixteen ++ sixteen

abbrev clean_env : ChildEnv
clean_env = record {
  session_token = none;
  session_socket = none;
  protocol = none;
  audit_path = none;
}

clean_env_unarmed : is_armed clean_env ≡ false
unfolding is_armed valid_token
clean_env_unarmed = refl

arm_child-is_armed_iff_example :
    (is_armed (arm_child (codes "/run/s") digest_text clean_env).0 ≡ true) ↔ (
      (valid_token (some digest_text) ≡ true)
      × (is_nil (codes "/run/s") ≡ false)
      × (is_utf8 (codes "/run/s") ≡ true))
arm_child-is_armed_iff_example =
    arm_child-is_armed_iff (codes "/run/s") digest_text clean_env clean_env_unarmed

abbrev probe_nonce : Bytes
probe_nonce = sixteen ++ sixteen

abbrev pub probe_command : Bytes
probe_command =
    codes "curl -fsSI --max-time 10 --noproxy 127.0.0.1 http://127.0.0.1:8080/" ++ probe_nonce

is_verification_probe_command_iff_example :
    (is_verification_probe_command linux probe_command ≡ true) ↔ IsProbe linux probe_command
is_verification_probe_command_iff_example = is_verification_probe_command_iff linux probe_command

abbrev pub a_target : Target
a_target = record {
  codex_version = codes "0.156.1";
  os = codes "linux";
  arch = codes "x86_64";
  os_release = codes "24.04";
  os_build = codes "6.8";
  sandbox = codes "linux-bwrap";
  surface = codes "native-cli";
  protocol = codes "permission-request-v1";
  tool = codes "Bash";
  codex_binary_sha256 = digest_text;
  codex_bundle_sha256 = digest_text;
  launch_kind = codes "native";
  launch_artifact_sha256 = digest_text;
  launch_package_sha256 = digest_text;
}

abbrev a_certificate : Certificate
a_certificate = record { evidence_id = codes "linux-1"; target = a_target }

abbrev one_certificate : Manifest
one_certificate = record {
  schema_version = 2;
  autoapprover_version = codes "0.1.0";
  entries = a_certificate ∷ [];
  revoked_artifact_sha256 = [];
}

abbrev revoking : Manifest
revoking = record {
  schema_version = 2;
  autoapprover_version = codes "0.1.0";
  entries = a_certificate ∷ [];
  revoked_artifact_sha256 = digest_text ∷ [];
}

one_certificate_valid : validate one_certificate ≡ ok tt
unfolding validate validate_entries validate_revocations validate_target is_complete sandbox_fits
    launch_kind_fits is_sha256 is_revoked is_evidence_id artifact_digests contains parse_version
    bytes_beq codes split_whitespace chars is_whitespace is_version split_on without_v strip_prefix
    is_version_part is_ascii_digit starts_with is_lower_hex is_ascii_alphanumeric
one_certificate_valid = refl

admits_iff_example :
    (admits one_certificate a_target ≡ true)
    ↔ ((validate one_certificate ≡ ok tt) × In a_target (certified_targets one_certificate.entries))
admits_iff_example = admits_iff one_certificate a_target

validate-Distinct_example : Distinct (certified_targets one_certificate.entries)
validate-Distinct_example = validate-Distinct one_certificate one_certificate_valid

digest_listed : In digest_text (artifact_digests a_target)
unfolding artifact_digests
digest_listed = inl refl

revoked_certificate-admits_example : admits revoking a_target ≡ false
revoked_certificate-admits_example =
    revoked_certificate-admits revoking a_certificate digest_text (inl refl) digest_listed
      (inl refl) a_target

abbrev pub empty_manifest : Manifest
empty_manifest = record {
  schema_version = 2;
  autoapprover_version = codes "0.1.0";
  entries = [];
  revoked_artifact_sha256 = [];
}

-- A reader of one text and a decoder of one object.
read_braces : Bytes → Option (Event × Bytes)
read_braces text = if text == codes "{}" then some (visit_map map_end, []) else none

decode_empty : Value → Option Manifest
decode_empty (object end) = some empty_manifest
decode_empty v = none

parse_manifest_iff_example :
    (Certification.parse read_braces decode_empty (codes "{}") ≡ ok empty_manifest)
    ↔ IsRead read_braces decode_empty (codes "{}") empty_manifest
parse_manifest_iff_example = parse_manifest_iff read_braces decode_empty (codes "{}") empty_manifest

abbrev pub shell_input : Bytes → HookInput
shell_input turn = record {
  hook_event_name = some (codes "PermissionRequest");
  session_id = some (codes "s");
  transcript_path = none;
  cwd = some (codes "/work");
  model = some (codes "m");
  tool_name = some (codes "Bash");
  tool_input = some (object (field (codes "command") (string probe_command) end));
  turn_id = some turn;
  permission_mode = some (codes "default");
}

abbrev probing : DecisionContext
probing = record {
  certified_target = none;
  codex_version = codes "0.156.1";
  expected_cwd = codes "/work";
  expected_command = some probe_command;
  expected_tool_name = some (codes "Bash");
}

decide_iff_example :
    (decide linux (ok empty_manifest) (shell_input (codes "t")) probing ≡ allow)
    ↔ IsAllowed linux (ok empty_manifest) (shell_input (codes "t")) probing
decide_iff_example = decide_iff linux (ok empty_manifest) (shell_input (codes "t")) probing

abbrev pub turn_digest : HookInput → Option Bytes
turn_digest input = input.turn_id

abbrev some_requests : List Request
some_requests =
    record { input = shell_input (codes "t1"); pid = 10; started = 1; verification = true }
    ∷ record { input = shell_input (codes "t1"); pid = 11; started = 2; verification = true }
    ∷ record { input = shell_input (codes "t2"); pid = 12; started = 3; verification = true }
    ∷ []

serve_all-IsReplayFree_example :
    IsReplayFree turn_digest
      (serve_all turn_digest empty_ledger [] some_requests).0
      (serve_all turn_digest empty_ledger [] some_requests).1
serve_all-IsReplayFree_example = serve_all-IsReplayFree turn_digest some_requests

verification-serve_all_example : length (serve_all turn_digest empty_ledger [] some_requests).1 ≤ 1
verification-serve_all_example =
    verification-serve_all turn_digest some_requests (refl, (refl, (refl, tt)))

-- Process 12 is the child of 10, which is the child of 1.
abbrev pub three_processes : ProcessReader
three_processes now pid =
    if nat_eqb pid 12
    then ok (record {
      identity = record { pid = 12; start_time = 7; effective_uid = 0 };
      parent_pid = 10;
    })
    else if nat_eqb pid 10
    then ok (record {
      identity = record { pid = 10; start_time = 5; effective_uid = 0 };
      parent_pid = 1;
    })
    else err unavailable_process

abbrev pub launcher_identity : ProcessIdentity
launcher_identity = record { pid = 10; start_time = 5; effective_uid = 0 }

child_accepted : (validate_ancestry three_processes 0 12 launcher_identity).1 ≡ ok tt
unfolding validate_ancestry collect_ancestry collect_from list_beq record_beq identity_beq
child_accepted = refl

validate_ancestry-IsDescendant_example : IsDescendant three_processes 0 12 launcher_identity
validate_ancestry-IsDescendant_example =
    validate_ancestry-IsDescendant three_processes 0 12 launcher_identity child_accepted

abbrev one_key : Event
one_key = visit_map (entry (codes "a") (visit_bool true) map_end)

strict_value_iff_example :
    (strict_value one_key ≡ some (object (field (codes "a") (bool true) end)))
    ↔ (HasUniqueKeys one_key × (plain one_key ≡ object (field (codes "a") (bool true) end)))
strict_value_iff_example = strict_value_iff one_key (object (field (codes "a") (bool true) end))

visit_iff_example : (visit one_key ≡ true) ↔ HasUniqueKeys one_key
visit_iff_example = visit_iff one_key
