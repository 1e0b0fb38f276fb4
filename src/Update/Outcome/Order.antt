-- ===== src/Update/Outcome/Order.antt =====
-- About `aggregate_hook_outcome` and the joined command outcomes of src/update/outcome.rs.
use codex_autoapprover.Prelude.{ℕ, ◌<◌, ◌≡◌, arith}
use codex_autoapprover.Update.Outcome.{
  HookOutcome, no_hook_invocation, broker_allow_unconfirmed, successful_exchange,
  compatibility_rejection, transport_failure, protocol_failure, HookOutcomeCounts,
  aggregate_hook_outcome, CommandOutcome, succeeded, failed, unknown, join_command,
}
use codex_autoapprover.Update.Outcome.Bounds.{sum_counts}
use Prim.Native.Nat.{max}

-- How conservative a category is.
unfoldable pub severity : HookOutcome → ℕ
severity no_hook_invocation = 0
severity successful_exchange = 1
severity broker_allow_unconfirmed = 2
severity compatibility_rejection = 3
severity transport_failure = 4
severity protocol_failure = 5

-- A protocol failure stands in its own counter, and is not only implied by an entry with no
-- outcome.
abbrev pub IsExplicit : HookOutcomeCounts → Type 0
IsExplicit c = aggregate_hook_outcome c ≡ protocol_failure → 0 < c.protocol_failure_count

-- The aggregate of merged counters is the more conservative of the two aggregates, if each
-- protocol failure stands in its own counter.
pub aggregate-sum_counts :
    (c o : HookOutcomeCounts)
    → IsExplicit c
    → IsExplicit o
    → severity (aggregate_hook_outcome (sum_counts c o))
      ≡ max (severity (aggregate_hook_outcome c)) (severity (aggregate_hook_outcome o))
unfolding severity aggregate_hook_outcome
aggregate-sum_counts c o h k = ground arith

-- If the aggregate of `c` is a protocol failure that its own counter does not show, and that of `o`
-- is a successful exchange, then the aggregate of their sums is a successful exchange.
pub merge_hides_failure :
    (c o : HookOutcomeCounts)
    → aggregate_hook_outcome c ≡ protocol_failure
    → c.protocol_failure_count ≡ 0
    → aggregate_hook_outcome o ≡ successful_exchange
    → aggregate_hook_outcome (sum_counts c o) ≡ successful_exchange
unfolding aggregate_hook_outcome
merge_hides_failure c o h z k = ground arith

abbrev pub rank : CommandOutcome → ℕ
rank succeeded = 0
rank unknown = 1
rank failed = 2

-- The joined command outcome is the worse of the two.
pub rank-join_command : (a b : CommandOutcome) → rank (join_command a b) ≡ max (rank a) (rank b)
unfolding join_command
rank-join_command a b = ground arith
