-- ===== src/Examples/Launch.antt =====
-- Examples for the hook's side of the socket, the readers of /proc and the admission of a launch.
use codex_autoapprover.Platform.{linux}
use mathlib.Core.Bool.{true}
use codex_autoapprover.Prelude.{
  chars, is_ascii_digit, is_ascii_lowercase, is_lower_hex, list_beq, option_beq, split_on,
  split_whitespace, starts_with, bytes_beq, contains, contains_str, is_ascii_alphanumeric,
  is_ascii_uppercase, is_ascii_whitespace, is_utf8, is_whitespace, lines, strip_prefix, nat_eq,
  bytes_eq, option_eq, ◌++◌, All, Bytes, Lacks, List, Option, [], all, arith, codes, none, ok, refl,
  some, ◌∷◌, ◌≡◌, ◌⊎◌,
}
use codex_autoapprover.Admission.{
  require_workspace_write, sandbox_overrides, target_of, validate_arguments, validate_from,
  Admission, AdmissionReads, Installation, inspect,
}
use codex_autoapprover.Artifact.{Bundle}
use codex_autoapprover.Hook.{Client, ClientLibrary, receive}
use codex_autoapprover.Protocol.{
  keys, opens_object, parse_unique_object, strict_value, unique_object, Event, Fields, bool, end,
  entry, field, map_end, visit_bool, visit_map,
}
use codex_autoapprover.Environment.{
  observe_linux, release_field, host_surface, Host, HostReads, marker_not_found, observe, unset,
}
use codex_autoapprover.Admission.Tuple.{IsAdmitted, inspect-IsNative}
use codex_autoapprover.Hook.Delivery.{IsFaithful, IsInterrupted, receive-write_response}
use codex_autoapprover.Environment.Surfaces.{IsNative}
use codex_autoapprover.Certification.{
  validate, admits, artifact_digests, is_complete, is_evidence_id, is_revoked, is_sha256,
  launch_kind_fits, sandbox_fits, target_beq, validate_entries, validate_revocations,
  validate_target, Manifest, Target,
}
use codex_autoapprover.Broker.Frames.{to_be_bytes, Outgoing, chunk}
use codex_autoapprover.Process.Stat.{Text, parse_stat}
use codex_autoapprover.Examples.Broker.{a_library, a_peer, no_files, no_time}
use codex_autoapprover.Examples.Hook.{a_target, digest_text}
use codex_autoapprover.Broker.Messages.{has_fields, broker_allow, response_of}
use codex_autoapprover.Broker.Frames.Flow.{bytes_of, is_flowing}
use codex_autoapprover.Process.Stat.Names.{fields_of, is_word, parse_stat-reads, stat_line}
use codex_autoapprover.Arming.{hex}
use codex_autoapprover.Broker.Connection.{write_response}
use codex_autoapprover.Prelude.Decimal.{to_decimal}
use codex_autoapprover.Codex.{is_version, is_version_part, parse_version, without_v}

abbrev response_event : Event
response_event = visit_map (
    entry (codes "protocol_version") (visit_bool true) (
      entry (codes "message_type") (visit_bool true)
        (entry (codes "decision") (visit_bool true) map_end)))

abbrev a_client_library : ClientLibrary
a_client_library = record {
  deserialize = λ b. some (response_event, []);
  decode_response = λ v. some (response_of broker_allow);
  decode_input = λ v. none;
  serialize_request = λ secret input. none;
}

abbrev three_fields : Fields
three_fields =
    field (codes "protocol_version") (bool true)
      (field (codes "message_type") (bool true) (field (codes "decision") (bool true) end))

IsFaithful-allow : IsFaithful a_library a_client_library broker_allow three_fields
unfolding IsFaithful parse_unique_object opens_object codes is_ascii_whitespace unique_object
    strict_value contains bytes_beq has_fields keys
IsFaithful-allow = (refl, refl, refl)

abbrev written_allow : Outgoing
written_allow = record { ticks = 2; answers = []; sent = 0 ∷ 0 ∷ 0 ∷ 6 ∷ codes "{allow" }

abbrev a_client : Client
a_client = record {
  socket = some (codes "/run/s");
  secret = some [];
  protocol = none;
  connects = true;
  timed = true;
  shuts = true;
  flushed = true;
  clock = no_time;
  deadline = 5;
  outgoing = record { ticks = 0; answers = []; sent = [] };
  incoming = record {
    ticks = 0;
    answers = chunk (0 ∷ 0 ∷ []) ∷ chunk (0 ∷ 6 ∷ codes "{allow") ∷ [];
  };
}

allow_written : write_response linux a_library a_peer broker_allow ≡ (written_allow, ok tt)
unfolding write_response codes to_be_bytes
allow_written = refl

client_flows : is_flowing a_client.incoming.answers ≡ true
unfolding is_flowing
client_flows = refl

client_bytes : bytes_of a_client.incoming.answers ≡ written_allow.sent
unfolding bytes_of codes
client_bytes = refl

receive-write_response_example :
    ((receive a_client_library a_client).1 ≡ ok true) ⊎ IsInterrupted a_client
receive-write_response_example =
    receive-write_response linux a_library a_client_library a_peer a_client broker_allow
      written_allow three_fields IsFaithful-allow refl allow_written (λ t. refl) client_flows
      client_bytes

abbrev seventeen : List Text
seventeen =
    codes "1"
    ∷ codes "2"
    ∷ codes "3"
    ∷ codes "4"
    ∷ codes "5"
    ∷ codes "6"
    ∷ codes "7"
    ∷ codes "8"
    ∷ codes "9"
    ∷ codes "10"
    ∷ codes "11"
    ∷ codes "12"
    ∷ codes "13"
    ∷ codes "14"
    ∷ codes "15"
    ∷ codes "16"
    ∷ codes "17"
    ∷ []

-- A name that imitates the end of the name and other fields.
abbrev misleading : Text
misleading = codes ") S 1 ("

fields_are_words : all is_word (fields_of b'S' 10 seventeen 7 []) ≡ true
unfolding fields_of codes is_whitespace to_decimal
fields_are_words = refl

fields_lack_parentheses : All (Lacks 41) (fields_of b'S' 10 seventeen 7 [])
unfolding fields_of codes to_decimal
fields_lack_parentheses = ground arith

parse_stat-reads_example :
    parse_stat (stat_line 12 misleading (fields_of b'S' 10 seventeen 7 [])) 12
    ≡ ok (record {
      identity = record { pid = 12; start_time = 7; effective_uid = 0 };
      parent_pid = 10;
    })
parse_stat-reads_example =
    parse_stat-reads 12 10 7 b'S' misleading seventeen [] (ground arith) (ground arith)
      (ground arith) (ground arith) refl fields_are_words fields_lack_parentheses

-- A native host whose digest of /etc/os-release is short.
abbrev short_digest : Bytes → Bytes
short_digest content = 171 ∷ []

abbrev same_text : Bytes → Bytes
same_text s = s

abbrev native_reads : HostReads
native_reads = record {
  variable = λ name. unset;
  root_uid = some 0;
  kernel = some (codes "6.8");
  marker = λ path. marker_not_found;
  cgroups = some (codes "0::/");
  own_namespace = λ name. some name;
  first_namespace = λ name. some name;
  machine = some (codes "x86_64");
  release_file = some (codes "ID=ubuntu" ++ 10 ∷ codes "VERSION_ID=24");
  kernel_version = some (codes "#1");
  kernel_release = some (codes "6.8");
  windows_identity = none;
}

abbrev native_host : Host
native_host = record {
  os = codes "linux";
  arch = codes "x86_64";
  os_release = codes "ubuntu:24:sha256:ab";
  os_build = codes "6.8 #1";
  surface = codes "native-cli";
}

abbrev launch_target : Target
launch_target = record a_target {
  os_release = codes "ubuntu:24:sha256:ab";
  os_build = codes "6.8 #1";
}

abbrev launch_manifest : Manifest
launch_manifest = record {
  schema_version = 2;
  autoapprover_version = codes "0.1.0";
  entries = record { evidence_id = codes "linux-1"; target = launch_target } ∷ [];
  revoked_artifact_sha256 = [];
}

abbrev a_bundle : Bundle
a_bundle = record {
  executable = record {
    requested = codes "codex" ∷ [];
    path = codes "codex" ∷ [];
    sha256 = digest_text;
    stamp = [];
    file = 3;
  };
  bundle_sha256 = digest_text;
  launch_kind = codes "native";
  launch_sha256 = digest_text;
  launch_package_sha256 = digest_text;
  package_root = [];
  requested = codes "codex" ∷ [];
  launch_file = none;
  launch_package_file = none;
  files = [];
  file_names = [];
}

abbrev launch_reads : AdmissionReads
launch_reads = record {
  manifest = ok launch_manifest;
  observed = ok native_host;
  discovered = ok a_bundle;
  located = none;
  listed = none;
  files = no_files;
}

abbrev launched : Admission
launched = record {
  target = launch_target;
  executable = a_bundle.executable;
  bundle = a_bundle;
  host = native_host;
}

abbrev an_installation : Installation
an_installation = record { path = codes "codex" ∷ []; version = codes "0.156.1" }

abbrev a_prompt : List (Option Bytes)
a_prompt = some (codes "--model") ∷ some (codes "m") ∷ some (codes "hello") ∷ []

host_observed :
    launch_reads.observed ≡ observe short_digest same_text (codes "x86_64") linux native_reads
unfolding observe host_surface contains_str codes is_ascii_uppercase bytes_beq observe_linux is_utf8
    release_field lines strip_prefix is_ascii_alphanumeric hex
host_observed = refl

launch_inspected :
    inspect linux launch_reads an_installation
      (some (codes "linux-bwrap"))
      (some (codes "workspace-write"))
      a_prompt
    ≡ ok launched
unfolding inspect bytes_beq codes validate_arguments contains starts_with sandbox_overrides
    require_workspace_write validate_entries validate_target is_complete parse_version
    split_whitespace is_whitespace target_of validate_from artifact_digests launch_kind_fits
    sandbox_fits target_beq validate_revocations is_version is_version_part is_ascii_digit
    is_ascii_lowercase is_ascii_uppercase is_ascii_alphanumeric is_lower_hex list_beq split_on
    strip_prefix validate admits is_sha256 is_revoked is_evidence_id chars without_v option_beq
launch_inspected = refl

inspect-IsNative_example :
    IsAdmitted linux launch_reads an_installation
      (some (codes "linux-bwrap"))
      (some (codes "workspace-write"))
      a_prompt
      launched
    × IsNative native_reads
inspect-IsNative_example =
    inspect-IsNative short_digest same_text (codes "x86_64") native_reads launch_reads
      an_installation (some (codes "linux-bwrap")) (some (codes "workspace-write")) a_prompt
      launched host_observed launch_inspected
