-- ===== src/Audit.antt =====
-- The lines of src/audit.rs, which the broker appends to a session's audit. SHA-256 and the
-- serialisation of a JSON value are arguments.
use codex_autoapprover.Prelude.{
  ◌&&◌, ◌++◌, ◌==◌, Bool, Bytes, Option, [], codes, contains, contains_str, if◌then◌else◌,
  if◌then◌else◌, keep, length, lines, none, some, starts_with, take, if◌then◌else◌, ℕ, ◌∷◌, nat_eq,
  bytes_eq, option_eq,
}
use codex_autoapprover.Update.Outcome.{HookOutcome, audit_name}
use codex_autoapprover.Protocol.{Value}
use codex_autoapprover.Arming.{hex}

unfoldable pub event_label : Option Bytes → Bytes
event_label none = codes "unknown"
event_label (some event) =
    if event == codes "PermissionRequest" then codes "PermissionRequest" else codes "other"

-- `tool_name.unwrap_or("unknown")`
unfoldable pub tool_or_unknown : Option Bytes → Bytes
tool_or_unknown none = codes "unknown"
tool_or_unknown (some name) = name

-- The lines, without the newline that ends each of them.
unfoldable pub attempt_line : Bytes
attempt_line = codes "broker connection"

-- The counts over an audit that was read: `count_matching_lines` and its predicates.
unfoldable pub count_matching_lines : (Bytes → Bool) → Bytes → ℕ
count_matching_lines predicate contents = length (keep predicate (lines contents))

unfoldable pub allow_record_count : Bytes → ℕ
allow_record_count contents =
    count_matching_lines
      (λ line.
        starts_with line (codes "allowed one PermissionRequest ")
        && contains_str line (codes "tool_hash=")
        && contains_str line (codes "input_hash="))
      contents

unfoldable pub invocation_count : Bytes → ℕ
invocation_count contents =
    count_matching_lines (λ line. starts_with line (codes "invoked event=")) contents

unfoldable pub broker_attempt_count : Bytes → ℕ
broker_attempt_count contents =
    count_matching_lines (λ line. line == codes "broker connection") contents

module _ (sha256 : Bytes → Bytes) (to_vec : Value → Bytes) where
  -- The first eight bytes of a digest, `{byte:02x}` each.
  unfoldable pub short_hash : Bytes → Bytes
  short_hash value = hex (take 8 (sha256 value))

  unfoldable pub json_hash : Value → Bytes
  json_hash value = hex (take 8 (sha256 (to_vec value)))

  -- `tool_input.map(json_hash).unwrap_or_else(|| "none".into())`
  unfoldable pub input_hash : Option Value → Bytes
  unfolding json_hash
  input_hash none = codes "none"
  input_hash (some value) = json_hash value

  unfoldable pub invoked_line : Option Bytes → Option Bytes → Bytes
  unfolding event_label short_hash tool_or_unknown
  invoked_line tool event =
      codes "invoked event="
      ++ event_label event
      ++ codes " tool_hash="
      ++ short_hash (tool_or_unknown tool)

  unfoldable pub request_line : Option Bytes → Option Bytes → Option Value → Bytes
  unfolding event_label short_hash tool_or_unknown input_hash
  request_line tool event input =
      codes "request event="
      ++ event_label event
      ++ codes " tool_hash="
      ++ short_hash (tool_or_unknown tool)
      ++ codes " input_hash="
      ++ input_hash input

  unfoldable pub allow_line : Bytes → Option Value → Bytes
  unfolding short_hash input_hash
  allow_line tool input =
      codes "allowed one PermissionRequest tool_hash="
      ++ short_hash tool
      ++ codes " input_hash="
      ++ input_hash input

  unfoldable pub emitted_line : Bytes → Option Value → Bytes
  unfolding short_hash input_hash
  emitted_line tool input =
      codes "emitted one PermissionRequest tool_hash="
      ++ short_hash tool
      ++ codes " input_hash="
      ++ input_hash input

  unfoldable pub exact_request_count : Bytes → Bytes → Value → ℕ
  unfolding short_hash json_hash
  exact_request_count contents tool input =
      count_matching_lines
        (λ line.
          starts_with line (codes "request event=PermissionRequest ")
          && contains_str line (codes "tool_hash=" ++ short_hash tool ++ codes " ")
          && contains_str line (codes "input_hash=" ++ json_hash input))
        contents

  unfoldable pub emitted_allow_count : Bytes → Bytes → Value → ℕ
  unfolding short_hash json_hash
  emitted_allow_count contents tool input =
      count_matching_lines
        (λ line.
          starts_with line (codes "emitted one PermissionRequest ")
          && contains_str line (codes "tool_hash=" ++ short_hash tool ++ codes " ")
          && contains_str line (codes "input_hash=" ++ json_hash input))
        contents

-- `hook_stage_at` accepts these categories alone.
unfoldable pub is_stage : Bytes → Bool
is_stage category =
    contains
      (codes "entry"
        ∷ codes "stdin_read"
        ∷ codes "stdin_parse_error"
        ∷ codes "broker_connected"
        ∷ codes "broker_request_sent"
        ∷ codes "broker_response_received"
        ∷ codes "broker_response_parsed"
        ∷ codes "broker_allow"
        ∷ codes "broker_no_decision"
        ∷ codes "broker_error"
        ∷ codes "stdout_written"
        ∷ codes "stdout_error"
        ∷ [])
      category

unfoldable pub stage_line : Bytes → Option Bytes
unfolding is_stage
stage_line category = if is_stage category then some (codes "hook stage=" ++ category) else none

unfoldable pub outcome_line : HookOutcome → Option Bytes
outcome_line outcome = elim (audit_name outcome) [
  | none ↦ none
  | some category ↦ some (codes "hook outcome=" ++ codes category)
]
