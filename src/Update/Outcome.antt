-- ===== src/Update/Outcome.antt =====
-- The session outcomes of src/update/outcome.rs: the fixed categories, the bounded counters and
-- the accumulator. The reader of the audit file is in the module `Audit` below.
pub mod Order
pub mod Bounds
pub mod Audit
use codex_autoapprover.Prelude.{
  ℕ, suc, ◌^◌, ◌-◌, ◌+◌, ◌*◌, ◌≤◌, ◌<◌, ◌≡◌, ◌↔◌, refl, Bool, true, false, ◌&&◌, Option, none, some,
  List, [], ◌∷◌, arith, ltb, leb, nat_eqb, if◌then◌else◌, any, Bytes, codes, Eq, Result, ok, err,
  String,
}
use codex_autoapprover.Prelude.State
use codex_autoapprover.Prelude.State.{◌>>=◌, ◌>>◌}

abbrev pub max_audit_bytes : ℕ
max_audit_bytes = 64 * 1024

abbrev pub max_outcome_count : ℕ
max_outcome_count = 64

abbrev pub max_u32 : ℕ
max_u32 = 2 ^ 32 - 1

pub data HookOutcome : Type 0 where
  no_hook_invocation : HookOutcome
  broker_allow_unconfirmed : HookOutcome
  successful_exchange : HookOutcome
  compatibility_rejection : HookOutcome
  transport_failure : HookOutcome
  protocol_failure : HookOutcome

pub data CommandOutcome : Type 0 where
  succeeded : CommandOutcome
  failed : CommandOutcome
  unknown : CommandOutcome

-- `HookOutcome::audit_name`
unfoldable pub audit_name : HookOutcome → Option String
audit_name no_hook_invocation = none
audit_name broker_allow_unconfirmed = none
audit_name successful_exchange = some "successful_exchange"
audit_name compatibility_rejection = some "compatibility_rejection"
audit_name transport_failure = some "transport_failure"
audit_name protocol_failure = some "protocol_failure"

pub data OutcomeError : Type 0 where
  too_many_records : OutcomeError
  unavailable : OutcomeError
  malformed : OutcomeError

-- Each field is a `u32`.
pub record HookOutcomeCounts : Type 0 where
  pub entry_count : ℕ
  pub validated_request_count : ℕ
  pub allow_count : ℕ
  pub no_decision_count : ℕ
  pub structured_emission_count : ℕ
  pub stdout_error_count : ℕ
  pub successful_exchange_count : ℕ
  pub broker_allow_unconfirmed_count : ℕ
  pub compatibility_rejection_count : ℕ
  pub transport_failure_count : ℕ
  pub protocol_failure_count : ℕ

-- `HookOutcomeCounts::default`
abbrev pub no_counts : HookOutcomeCounts
no_counts = record {
  entry_count = 0;
  validated_request_count = 0;
  allow_count = 0;
  no_decision_count = 0;
  structured_emission_count = 0;
  stdout_error_count = 0;
  successful_exchange_count = 0;
  broker_allow_unconfirmed_count = 0;
  compatibility_rejection_count = 0;
  transport_failure_count = 0;
  protocol_failure_count = 0;
}

abbrev pub count_list : HookOutcomeCounts → List ℕ
count_list c =
    c.entry_count ∷ c.validated_request_count ∷ c.allow_count ∷ c.no_decision_count
    ∷ c.structured_emission_count ∷ c.stdout_error_count ∷ c.successful_exchange_count
    ∷ c.broker_allow_unconfirmed_count ∷ c.compatibility_rejection_count ∷ c.transport_failure_count
    ∷ c.protocol_failure_count ∷ []

unfoldable pub validate : HookOutcomeCounts → Result OutcomeError (Unit {0})
validate c = if any (ltb max_outcome_count) (count_list c) then err too_many_records else ok tt

-- `increment(value: &mut u32)`: the counter that it leaves, and its result.
unfoldable pub increment : ℕ → ℕ × Result OutcomeError (Unit {0})
increment value =
    if ltb max_u32 (value + 1)
    then (value, err too_many_records)
    else if ltb max_outcome_count (value + 1)
    then (value + 1, err too_many_records)
    else (value + 1, ok tt)

abbrev pub CountsM : Type 0 → Type 0
CountsM A = State.M HookOutcomeCounts OutcomeError A

-- One entry of the array that `merge` walks: `&mut self.field` as a reader and a writer, and the
-- number to add.
pub record Round : Type 0 where
  pub left : HookOutcomeCounts → ℕ
  pub put : ℕ → HookOutcomeCounts → HookOutcomeCounts
  pub right : ℕ

abbrev pub rounds : HookOutcomeCounts → List Round
rounds o =
    record {
      left = λ c. c.entry_count;
      put = λ n c. record c { entry_count = n };
      right = o.entry_count;
    }
    ∷ record {
      left = λ c. c.validated_request_count;
      put = λ n c. record c { validated_request_count = n };
      right = o.validated_request_count;
    }
    ∷ record {
      left = λ c. c.allow_count;
      put = λ n c. record c { allow_count = n };
      right = o.allow_count;
    }
    ∷ record {
      left = λ c. c.no_decision_count;
      put = λ n c. record c { no_decision_count = n };
      right = o.no_decision_count;
    }
    ∷ record {
      left = λ c. c.structured_emission_count;
      put = λ n c. record c { structured_emission_count = n };
      right = o.structured_emission_count;
    }
    ∷ record {
      left = λ c. c.stdout_error_count;
      put = λ n c. record c { stdout_error_count = n };
      right = o.stdout_error_count;
    }
    ∷ record {
      left = λ c. c.successful_exchange_count;
      put = λ n c. record c { successful_exchange_count = n };
      right = o.successful_exchange_count;
    }
    ∷ record {
      left = λ c. c.broker_allow_unconfirmed_count;
      put = λ n c. record c { broker_allow_unconfirmed_count = n };
      right = o.broker_allow_unconfirmed_count;
    }
    ∷ record {
      left = λ c. c.compatibility_rejection_count;
      put = λ n c. record c { compatibility_rejection_count = n };
      right = o.compatibility_rejection_count;
    }
    ∷ record {
      left = λ c. c.transport_failure_count;
      put = λ n c. record c { transport_failure_count = n };
      right = o.transport_failure_count;
    }
    ∷ record {
      left = λ c. c.protocol_failure_count;
      put = λ n c. record c { protocol_failure_count = n };
      right = o.protocol_failure_count;
    }
    ∷ []

-- The loop: `*left = left.checked_add(right).ok_or(..)?`.
unfoldable pub merge_loop : List Round → CountsM (Unit {0})
merge_loop [] c = (c, ok tt)
merge_loop (r ∷ rs) c =
    let sum = r.left c + r.right in
    let rest = merge_loop rs (r.put sum c) in
    if ltb max_u32 sum then (c, err too_many_records) else rest

-- `merge(&mut self, other)`: the loop, then `self.validate()`.
unfoldable pub merge : HookOutcomeCounts → CountsM (Unit {0})
merge o = do merge_loop (rounds o); λ c. (c, validate c)

unfoldable pub aggregate_hook_outcome : HookOutcomeCounts → HookOutcome
aggregate_hook_outcome c =
    if ltb 0 c.protocol_failure_count
    then protocol_failure
    else if ltb 0 c.transport_failure_count
    then transport_failure
    else if ltb 0 c.compatibility_rejection_count
    then compatibility_rejection
    else if ltb 0 c.broker_allow_unconfirmed_count
    then broker_allow_unconfirmed
    else if ltb 0 c.successful_exchange_count
    then successful_exchange
    else if nat_eqb c.entry_count 0
    then no_hook_invocation
    else protocol_failure

pub record SessionOutcome : Type 0 where
  pub hook_outcome : HookOutcome
  pub command_outcome : CommandOutcome
  pub counts : HookOutcomeCounts

pub record SessionOutcomeAccumulator : Type 0 where
  pub counts : HookOutcomeCounts
  pub command_outcome : Option CommandOutcome

-- `SessionOutcomeAccumulator::default`
abbrev pub no_observations : SessionOutcomeAccumulator
no_observations = record { counts = no_counts; command_outcome = none }

-- The counter that an outcome selects, incremented in place.
unfoldable pub bump_outcome :
    HookOutcome → HookOutcomeCounts → HookOutcomeCounts × Result OutcomeError (Unit {0})
unfolding increment
bump_outcome no_hook_invocation c = (c, ok tt)
bump_outcome broker_allow_unconfirmed c =
    let (n, r) = increment c.broker_allow_unconfirmed_count in
    (record c { broker_allow_unconfirmed_count = n }, r)
bump_outcome successful_exchange c =
    let (n, r) = increment c.successful_exchange_count in
    (record c { successful_exchange_count = n }, r)
bump_outcome compatibility_rejection c =
    let (n, r) = increment c.compatibility_rejection_count in
    (record c { compatibility_rejection_count = n }, r)
bump_outcome transport_failure c =
    let (n, r) = increment c.transport_failure_count in
    (record c { transport_failure_count = n }, r)
bump_outcome protocol_failure c =
    let (n, r) = increment c.protocol_failure_count in (record c { protocol_failure_count = n }, r)

unfoldable pub record_hook_outcome :
    SessionOutcomeAccumulator
    → HookOutcome
    → SessionOutcomeAccumulator × Result OutcomeError (Unit {0})
unfolding bump_outcome
record_hook_outcome a outcome =
    let (c, r) = bump_outcome outcome a.counts in (record a { counts = c }, r)

-- The `match` of `record_command_outcome`, which `merge_command_outcomes` of src/update/state.rs
-- repeats on two outcomes.
unfoldable pub join_command : CommandOutcome → CommandOutcome → CommandOutcome
join_command failed _ = failed
join_command _ failed = failed
join_command unknown _ = unknown
join_command _ unknown = unknown
join_command succeeded succeeded = succeeded

-- An absent outcome joins as success does.
unfoldable pub record_command_outcome :
    SessionOutcomeAccumulator → CommandOutcome → SessionOutcomeAccumulator
unfolding join_command
record_command_outcome a outcome = record a {
  command_outcome = elim a.command_outcome [
    | none ↦ some (join_command succeeded outcome)
    | some old ↦ some (join_command old outcome)
  ];
}

unfoldable pub finish : SessionOutcomeAccumulator → SessionOutcome
unfolding aggregate_hook_outcome
finish a = record {
  hook_outcome = aggregate_hook_outcome a.counts;
  command_outcome = elim a.command_outcome [ none ↦ unknown | some o ↦ o ];
  counts = a.counts;
}
