-- ===== src/Update/Outcome/Audit.antt =====
-- `read_audit` of src/update/outcome.rs: the reader of the audit that the broker writes. The file
-- system is an argument: what the calls on the file answer.
pub mod Counting
pub mod Verdict
use codex_autoapprover.Prelude.{
  ℕ, zero, suc, ◌+◌, ◌-◌, ◌≤◌, ◌<◌, ◌≡◌, refl, Bool, true, false, ◌&&◌, ◌||◌, not, Option, none,
  some, List, [], ◌∷◌, arith, ltb, leb, if◌then◌else◌, length, take, is_nil, Bytes, codes, ◌==◌, Eq,
  bytes_eq, Result, ok, err, ◌>>=◌, ◌>>◌, guard, map_err, starts_with, contains_str, is_utf8, lines,
  String,
}
use codex_autoapprover.Update.Outcome.{
  HookOutcome, broker_allow_unconfirmed, protocol_failure, OutcomeError, unavailable,
  too_many_records, malformed, max_audit_bytes, max_outcome_count, HookOutcomeCounts,
  SessionOutcomeAccumulator, no_observations, increment, record_hook_outcome,
}

-- `Metadata`, as far as it is read.
pub record Metadata : Type 0 where
  pub is_file : Bool
  pub len : ℕ

-- An open file: the answer of `metadata`, and the bytes that it yields up to its end.
pub record AuditFile : Type 0 where
  pub metadata : Result (Unit {0}) Metadata
  pub contents : Result (Unit {0}) Bytes

-- The branches of the loop over the lines.
pub data LineKind : Type 0 where
  attempt invoked request allowed emitted other : LineKind

unfoldable pub classify : Bytes → LineKind
classify line =
    if line == codes "broker connection"
    then attempt
    else if starts_with line (codes "invoked event=") && contains_str line (codes " tool_hash=")
    then invoked
    else if starts_with line (codes "request event=PermissionRequest ")
    then request
    else if starts_with line (codes "allowed one PermissionRequest tool_hash=")
    then allowed
    else if starts_with line (codes "emitted one PermissionRequest tool_hash=")
    then emitted
    else other

-- `attempts`, and the accumulator.
pub record Reading : Type 0 where
  pub attempts : ℕ
  pub accumulator : SessionOutcomeAccumulator

-- `HookOutcomeCounts::increment(&mut n)?`
abbrev pub incremented : ℕ → Result OutcomeError ℕ
incremented n = let (m, r) = increment n in r >> ok m

-- `accumulator.record_hook_outcome(outcome)?`
abbrev pub recorded :
    SessionOutcomeAccumulator → HookOutcome → Result OutcomeError SessionOutcomeAccumulator
recorded a outcome = let (a', r) = record_hook_outcome a outcome in r >> ok a'

-- One round of the loop over the lines, by the branch that the line takes.
unfoldable pub read_kind : Reading → LineKind → Result OutcomeError Reading
read_kind s attempt = do n ← incremented s.attempts; ok (record s { attempts = n })
read_kind s invoked = do
  n ← incremented s.accumulator.counts.entry_count
  let c = record (s.accumulator.counts) { entry_count = n }
  ok (record s { accumulator = record (s.accumulator) { counts = c } })
read_kind s request = do
  n ← incremented s.accumulator.counts.validated_request_count
  let c = record (s.accumulator.counts) { validated_request_count = n }
  ok (record s { accumulator = record (s.accumulator) { counts = c } })
read_kind s allowed = do
  n ← incremented s.accumulator.counts.allow_count
  let c = record (s.accumulator.counts) { allow_count = n }
  ok (record s { accumulator = record (s.accumulator) { counts = c } })
read_kind s emitted = do
  a ← recorded s.accumulator broker_allow_unconfirmed
  ok (record s { accumulator = a })
read_kind s other = err malformed

unfoldable pub read_lines : Reading → List Bytes → Result OutcomeError Reading
read_lines s [] = ok s
read_lines s (line ∷ rest) = do s' ← read_kind s (classify line); read_lines s' rest

-- The test after the loop: each count is at most the one before it.
unfoldable pub is_consistent : Reading → Bool
is_consistent s = not (
    ltb s.attempts c.entry_count
    || ltb c.entry_count c.validated_request_count
    || ltb c.validated_request_count c.allow_count
    || ltb c.allow_count c.broker_allow_unconfirmed_count)
  where
    open s.accumulator use {counts as c}

-- `for _ in broker_allow_unconfirmed_count..attempts`
unfoldable pub count_no_decisions :
    ℕ → SessionOutcomeAccumulator → Result OutcomeError SessionOutcomeAccumulator
count_no_decisions zero a = ok a
count_no_decisions (suc n) a = do
  m ← incremented a.counts.no_decision_count
  let c = record (a.counts) { no_decision_count = m }
  count_no_decisions n (record a { counts = c })

-- What is done with the readings behind the test.
unfoldable pub settle : Reading → Result OutcomeError SessionOutcomeAccumulator
settle s =
    let unconfirmed = s.accumulator.counts.broker_allow_unconfirmed_count in
    if ltb unconfirmed s.attempts
    then (do
      a ← count_no_decisions (s.attempts - unconfirmed) s.accumulator
      recorded a protocol_failure)
    else ok s.accumulator

-- The text of the audit, once it is read.
unfoldable pub read_contents : Bytes → Result OutcomeError SessionOutcomeAccumulator
read_contents contents = do
  guard (not (is_nil contents)) unavailable
  s ← read_lines (record { attempts = 0; accumulator = no_observations }) (lines contents)
  guard (is_consistent s) malformed
  settle s

-- `file` is the answer of `File::open`. `take` caps the stream at the limit plus one byte.
unfoldable pub read_audit :
    Result (Unit {0}) AuditFile → Result OutcomeError SessionOutcomeAccumulator
read_audit file = do
  file ← map_err file unavailable
  metadata ← map_err file.metadata unavailable
  guard metadata.is_file unavailable
  guard (leb metadata.len max_audit_bytes) too_many_records
  stream ← map_err file.contents unavailable
  let bytes = take (max_audit_bytes + 1) stream
  guard (leb (length bytes) max_audit_bytes) too_many_records
  guard (is_utf8 bytes) malformed
  read_contents bytes
