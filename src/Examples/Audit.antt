-- ===== src/Examples/Audit.antt =====
-- Examples for the audit and the outcomes.
use Prim.Native.Nat.{max}
use codex_autoapprover.Prelude.{
  ◌≢◌, bytes_beq, ◌++◌, Bytes, [], arith, codes, contains_str, is_utf8, lines, none, ok, refl,
  starts_with, true, ◌↔◌, ◌∷◌, ◌≡◌, ◌⊎◌,
}
use codex_autoapprover.Update.Outcome.Audit.{
  AuditFile, Reading, attempt, classify, count_no_decisions, emitted, is_consistent, read_audit,
  read_contents, read_kind, read_lines, settle,
}
use codex_autoapprover.Update.Outcome.Bounds.{sum_counts}
use codex_autoapprover.Update.Outcome.{
  validate, record_hook_outcome, CommandOutcome, HookOutcomeCounts, SessionOutcomeAccumulator,
  aggregate_hook_outcome, broker_allow_unconfirmed, finish, increment, join_command, merge,
  merge_loop, no_counts, no_observations, protocol_failure, successful_exchange,
}
use codex_autoapprover.Update.Outcome.Audit.Counting.{Counted, read_lines-Counted, tally}
use codex_autoapprover.Update.Outcome.Audit.Verdict.{
  IsAudit, read_audit-verdict, read_contents_allow_iff, read_contents_iff,
}
use codex_autoapprover.Update.Outcome.Order.{
  IsExplicit, aggregate-sum_counts, merge_hides_failure, rank, rank-join_command, severity,
}

abbrev two_lines : Bytes
two_lines = codes "broker connection" ++ 10 ∷ (codes "invoked event=x tool_hash=y" ++ 10 ∷ [])

abbrev one_entry : HookOutcomeCounts
one_entry = record no_counts { entry_count = 1; no_decision_count = 1; protocol_failure_count = 1 }

abbrev undecided : SessionOutcomeAccumulator
undecided = record { counts = one_entry; command_outcome = none }

two_lines_read : read_contents two_lines ≡ ok undecided
unfolding read_contents read_lines read_kind classify increment record_hook_outcome is_consistent
    settle count_no_decisions lines starts_with contains_str codes bytes_beq
two_lines_read = refl

abbrev two_lines_file : AuditFile
two_lines_file = record {
  metadata = ok (record { is_file = true; len = 46 });
  contents = ok two_lines;
}

two_lines_audited : read_audit (ok two_lines_file) ≡ ok undecided
unfolding read_audit is_utf8 read_contents codes
two_lines_audited = two_lines_read

read_audit-verdict_example :
    ((finish undecided).hook_outcome ≡ broker_allow_unconfirmed)
    ⊎ ((finish undecided).hook_outcome ≡ protocol_failure)
read_audit-verdict_example = read_audit-verdict (ok two_lines_file) undecided two_lines_audited

read_contents_allow_iff_example :
    (((finish undecided).hook_outcome ≡ broker_allow_unconfirmed)
      ↔ (tally emitted (lines two_lines) ≡ tally attempt (lines two_lines)))
    × (((finish undecided).hook_outcome ≡ protocol_failure)
        ↔ (tally emitted (lines two_lines) ≢ tally attempt (lines two_lines)))
read_contents_allow_iff_example = read_contents_allow_iff two_lines undecided two_lines_read

read_contents_iff_example :
    ((a : SessionOutcomeAccumulator) × (read_contents two_lines ≡ ok a)) ↔ IsAudit two_lines
read_contents_iff_example = read_contents_iff two_lines

abbrev start : Reading
start = record { attempts = 0; accumulator = no_observations }

abbrev after_one : Reading
after_one = record { attempts = 1; accumulator = no_observations }

one_line_read : read_lines start (codes "broker connection" ∷ []) ≡ ok after_one
unfolding read_lines read_kind classify increment bytes_beq codes
one_line_read = refl

read_lines-Counted_example : Counted (λ k. tally k (codes "broker connection" ∷ [])) start after_one
read_lines-Counted_example =
    read_lines-Counted (codes "broker connection" ∷ []) start after_one one_line_read

merged : (merge one_entry one_entry).1 ≡ ok tt
unfolding merge merge_loop validate
merged = refl

abbrev one_exchange : HookOutcomeCounts
one_exchange = record no_counts { entry_count = 1; successful_exchange_count = 1 }

abbrev silent_entry : HookOutcomeCounts
silent_entry = record no_counts { entry_count = 1 }

exchange_aggregate : aggregate_hook_outcome one_exchange ≡ successful_exchange
unfolding aggregate_hook_outcome
exchange_aggregate = refl

silent_aggregate : aggregate_hook_outcome silent_entry ≡ protocol_failure
unfolding aggregate_hook_outcome
silent_aggregate = refl

exchange-IsExplicit : IsExplicit one_exchange
unfolding aggregate_hook_outcome
exchange-IsExplicit h = cc

entry-IsExplicit : IsExplicit one_entry
entry-IsExplicit h = omega arith

aggregate-sum_counts_example :
    severity (aggregate_hook_outcome (sum_counts one_exchange one_entry))
    ≡ max
        (severity (aggregate_hook_outcome one_exchange))
        (severity (aggregate_hook_outcome one_entry))
aggregate-sum_counts_example =
    aggregate-sum_counts one_exchange one_entry exchange-IsExplicit entry-IsExplicit

merge_hides_failure_example :
    aggregate_hook_outcome (sum_counts silent_entry one_exchange) ≡ successful_exchange
merge_hides_failure_example =
    merge_hides_failure silent_entry one_exchange silent_aggregate refl exchange_aggregate

rank-join_command_example :
    rank (join_command CommandOutcome.unknown CommandOutcome.failed)
    ≡ max (rank CommandOutcome.unknown) (rank CommandOutcome.failed)
rank-join_command_example = rank-join_command CommandOutcome.unknown CommandOutcome.failed
