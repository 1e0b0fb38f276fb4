-- ===== src/Examples/Broker.antt =====
-- Examples for the broker: frames, secrets, requests, connections and the serving loop.
use codex_autoapprover.Platform.{linux}
use mathlib.Core.Bool.{true, false}
use codex_autoapprover.Prelude.{
  is_ascii_hexdigit, is_ascii_uppercase, list_beq, option_beq, split_once, strip_prefix, bytes_beq,
  contains, is_ascii_whitespace, nat_eq, bytes_eq, option_eq, is_lower_hex, ◌+◌, ◌++◌, In, [],
  codes, err, inl, inr, none, ok, refl, some, ℕ, ◌↔◌, ◌∷◌, ◌≡◌, ◌≢◌, ◌≤◌, ◌⊎◌,
}
use codex_autoapprover.Admission.{AdmissionReads}
use codex_autoapprover.Broker.Verify.{
  BrokerConfig, PeerCredentials, SharedState, Surroundings, verify_request,
}
use codex_autoapprover.Broker.Messages.{
  difference_of, has_fields, parse_request, read_unique, BrokerRequest, broker_allow,
  broker_protocol_version, constant_time_equal,
}
use codex_autoapprover.Broker.Frames.Flow.{Delivers, bytes_of, is_flowing}
use codex_autoapprover.Protocol.{
  get, keys, opens_object, parse_unique_object, strict_value, unique_object, Event, entry, map_end,
  visit_bool, visit_map,
}
use codex_autoapprover.Identity.{Files}
use codex_autoapprover.Broker.Frames.{
  from_be_bytes, in_time, to_be_bytes, Incoming, Outgoing, chunk, read_frame, read_interrupted,
  taken, write_frame, write_interrupted,
}
use codex_autoapprover.Broker.Connection.Answers.{
  IsAnsweredAllow, handle_connection-IsAnsweredAllow,
}
use codex_autoapprover.Broker.Verify.Granted.{IsAuthorized}
use codex_autoapprover.Broker.Connection.{Library, Peer, answered, handle_connection}
use codex_autoapprover.Broker.Serve.{
  ServerState, Steps, and_then, here, loop, loop_step, max_active_connections, started, stream,
  taking_back, testing, would_block,
}
use codex_autoapprover.Broker.Messages.Secrets.{are_bytes, constant_time_equal_iff}
use codex_autoapprover.Examples.Hook.{
  empty_manifest, digest_text, launcher_identity, probe_command, shell_input, three_processes,
  turn_digest,
}
use codex_autoapprover.Broker.Ledger.{consume, empty_ledger}
use codex_autoapprover.Arming.{valid_token}
use codex_autoapprover.Broker.Frames.RoundTrip.{read_frame-write_frame}
use codex_autoapprover.Broker.Serve.Bounds.{serve-IsBounded}
use codex_autoapprover.Artifact.{unlocated}
use codex_autoapprover.Environment.{unreadable}
use codex_autoapprover.Broker.Verify.Authorized.{verify_request-IsAuthorized}
use codex_autoapprover.Process.{
  record_beq, collect_ancestry, collect_from, identity_beq, validate_ancestry,
}
use codex_autoapprover.Compatibility.{
  verification_schema, is_verification_probe_command, probe_prefix, verification_probe_command,
}
use codex_autoapprover.Prelude.Decimal.{to_decimal, parse_unsigned}
use codex_autoapprover.Decision.{
  decide, fields_are_supported, has_command, is_admitted, is_command_object, is_supported_field,
  is_verification, lacks_field, other_tool, unexpected_action,
}

abbrev slow_writes : Outgoing
slow_writes = record {
  ticks = 0;
  answers = taken 3 ∷ write_interrupted ∷ taken 4 ∷ taken 9 ∷ [];
  sent = [];
}

abbrev all_written : Outgoing
all_written = record { ticks = 4; answers = []; sent = 0 ∷ 0 ∷ 0 ∷ 2 ∷ codes "hi" }

abbrev pieces : Incoming
pieces = record {
  ticks = 0;
  answers =
      chunk (0 ∷ 0 ∷ []) ∷ read_interrupted ∷ chunk (0 ∷ 2 ∷ 104 ∷ []) ∷ chunk (105 ∷ 33 ∷ []) ∷ [];
}

abbrev pub no_time : ℕ → ℕ
no_time t = 0

message_written : write_frame no_time 5 true (codes "hi") 16 slow_writes ≡ (all_written, ok tt)
unfolding write_frame codes to_be_bytes
message_written = refl

pieces_flow : is_flowing pieces.answers ≡ true
unfolding is_flowing
pieces_flow = refl

pieces_bytes : bytes_of pieces.answers ≡ all_written.sent ++ 33 ∷ []
unfolding bytes_of codes
pieces_bytes = refl

read_frame-write_frame_example : Delivers (33 ∷ []) (codes "hi") (read_frame no_time 5 16 pieces)
read_frame-write_frame_example =
    read_frame-write_frame no_time no_time 5 5 16 (λ t. refl) true (codes "hi") (33 ∷ [])
      slow_writes all_written pieces refl message_written pieces_flow pieces_bytes

bytes_given : are_bytes digest_text ≡ true
unfolding codes
bytes_given = refl

constant_time_equal_iff_example :
    (constant_time_equal digest_text digest_text ≡ true) ↔ (digest_text ≡ digest_text)
constant_time_equal_iff_example =
    constant_time_equal_iff digest_text digest_text bytes_given bytes_given

-- A file system and an admission that answer_with nothing: the verifier asks neither.
abbrev pub no_files : Files
no_files = record {
  euid = 0;
  canonicalize = λ p. none;
  symlink_metadata = λ p. none;
  opened = λ p. none;
  held = λ h. none;
}

abbrev no_reads : AdmissionReads
no_reads = record {
  manifest = ok empty_manifest;
  observed = err unreadable;
  discovered = err unlocated;
  located = none;
  listed = none;
  files = no_files;
}

abbrev quiet : Surroundings
quiet = record {
  euid = 0;
  manifest = ok empty_manifest;
  reader = three_processes;
  shut_first = false;
  shut_last = false;
  first_reads = no_reads;
  last_reads = no_reads;
}

abbrev verifying : BrokerConfig
verifying = record {
  admission = none;
  codex_version = codes "0.156.1";
  expected_cwd = codes "/work";
  expected_command = some probe_command;
  expected_tool_name = some (codes "Bash");
  audit_path = some (codes "/run/audit");
}

abbrev session : SharedState
session = record {
  ledger = some empty_ledger;
  identity = some launcher_identity;
  config = verifying;
  session_secret = digest_text;
}

abbrev child : PeerCredentials
child = record { pid = 12; uid = 0; gid = 0 }

abbrev probe_request : BrokerRequest
probe_request = record {
  protocol_version = broker_protocol_version;
  message_type = codes "permission_request";
  session_secret = digest_text;
  hook_input = shell_input (codes "t1");
}

secret_valid : valid_token (some session.session_secret) ≡ true
unfolding valid_token codes is_lower_hex
secret_valid = refl

verify_request-IsAuthorized_example :
    ((verify_request linux turn_digest session child probe_request quiet).0 ≡ true
      × IsAuthorized linux turn_digest session child probe_request quiet
          (verify_request linux turn_digest session child probe_request quiet).1)
    ⊎ (verify_request linux turn_digest session child probe_request quiet ≡ (false, session.ledger))
verify_request-IsAuthorized_example =
    verify_request-IsAuthorized linux turn_digest session child probe_request quiet secret_valid

-- The object that a request is, and a library that reads it from any text.
abbrev request_event : Event
request_event = visit_map (
    entry (codes "protocol_version") (visit_bool true) (
      entry (codes "message_type") (visit_bool true) (
        entry (codes "session_secret") (visit_bool true)
          (entry (codes "hook_input") (visit_bool true) map_end))))

abbrev pub a_library : Library
a_library = record {
  deserialize = λ b. some (request_event, []);
  decode_request = λ v. some probe_request;
  serialize_response = λ r. codes "{" ++ r.decision;
  sha256 = λ b. 171 ∷ [];
  to_vec = λ v. [];
  digest = turn_digest;
}

abbrev pub a_peer : Peer
a_peer = record {
  credentials = some child;
  incoming = record { ticks = 0; answers = chunk (0 ∷ 0 ∷ 0 ∷ 1 ∷ 123 ∷ []) ∷ [] };
  outgoing = record { ticks = 0; answers = taken 4 ∷ taken 9 ∷ []; sent = [] };
  flushed = true;
  clock = no_time;
  deadline = 5;
  appended = λ i. true;
  around = quiet;
}

answered_allow :
    In (answered broker_allow true) (handle_connection linux a_library session a_peer).0
unfolding handle_connection from_be_bytes in_time parse_request read_unique parse_unique_object
    opens_object is_ascii_whitespace unique_object strict_value contains bytes_beq codes has_fields
    keys valid_token is_lower_hex constant_time_equal difference_of validate_ancestry
    collect_ancestry collect_from list_beq record_beq identity_beq is_verification_probe_command
    strip_prefix probe_prefix split_once parse_unsigned option_beq verification_probe_command
    is_ascii_hexdigit is_ascii_uppercase to_decimal decide lacks_field other_tool is_admitted
    is_verification verification_schema has_command get fields_are_supported is_supported_field
    unexpected_action is_command_object consume to_be_bytes
answered_allow = inr (inr (inr (inr (inl refl))))

handle_connection-IsAnsweredAllow_example :
    IsAnsweredAllow linux a_library session a_peer true
      (handle_connection linux a_library session a_peer).0
      (handle_connection linux a_library session a_peer).1
handle_connection-IsAnsweredAllow_example =
    handle_connection-IsAnsweredAllow linux a_library session a_peer true secret_valid
      answered_allow

abbrev one_worker : ServerState
one_worker = record { active = 1; running = 1; shutdown = false; point = testing }

one_accepted : Steps started one_worker
unfolding loop_step
one_accepted =
    and_then
      (and_then (and_then (and_then here (loop would_block started)) (loop would_block _))
        (loop stream _))
      (loop stream _)

serve-IsBounded_example :
    (one_worker.active ≡ one_worker.running)
    × (one_worker.running ≤ max_active_connections)
    × (one_worker.point ≢ taking_back)
    × (one_worker.shutdown ≡ true
        → (t : ServerState) → Steps one_worker t
        → t.running ≤ one_worker.running + 1)
serve-IsBounded_example = serve-IsBounded one_worker one_accepted
