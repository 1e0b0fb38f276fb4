-- ===== src/Update/State.antt =====
-- The update state of src/update/state.rs that is kept between checks, and the operations on it.
-- The
-- clock is an argument: the numbers that it answers.
pub mod Order
pub mod Valid
pub mod Inserted
pub mod Merged
pub mod Recorded
use codex_autoapprover.Platform.{surface_index, OperatingSystem, os_index, Surface, os_eq}
use codex_autoapprover.Update.Version.{StableVersion, version_eq, cmp, then_cmp, is_le}
use codex_autoapprover.Update.Outcome
use codex_autoapprover.Prelude.{
  ◌||◌, ◌&&◌, ◌+◌, ◌++◌, ◌==◌, ◌>>◌, ◌>>=◌, Bool, Bytes, List, Option, Result, [], any, chars,
  compare, if◌then◌else◌, err, false, guard, if◌then◌else◌, is_control, is_nil, leb, length, ltb,
  map_err, min, nat_eqb, none, not, ok, some, if◌then◌else◌, ℕ, ◌∷◌, nat_eq, bytes_eq, option_eq,
}
use codex_autoapprover.Update.Outcome.{
  CommandOutcome, HookOutcome, HookOutcomeCounts, aggregate_hook_outcome, broker_allow_unconfirmed,
  compatibility_rejection, join_command, max_outcome_count, max_u32, no_hook_invocation,
  protocol_failure, successful_exchange, transport_failure,
}
use codex_autoapprover.Prelude.Sorting.{sort_by}

abbrev pub max_validator_bytes : ℕ
max_validator_bytes = 512

abbrev pub max_compatibility_observations : ℕ
max_compatibility_observations = 8

pub record CompatibilityObservation : Type 0 where
  pub observed_at_unix_seconds : ℕ
  pub autoapprover_version : StableVersion
  pub codex_version : StableVersion
  pub operating_system : OperatingSystem
  pub surface : Surface
  pub hook_outcome : HookOutcome
  pub command_outcome : CommandOutcome
  pub counts : HookOutcomeCounts

pub record SuccessfulCheck : Type 0 where
  pub observed_at_unix_seconds : ℕ
  pub codex_version : StableVersion
  pub metadata_version : Option ℕ

pub record MetadataValidators : Type 0 where
  pub etag : Option Bytes
  pub last_modified : Option Bytes

pub record SkipScope : Type 0 where
  pub codex_version : StableVersion
  pub release_version : StableVersion

pub data BackoffReason : Type 0 where
  server_directed backoff_transport_failure metadata_failure : BackoffReason

pub record BackoffState : Type 0 where
  pub until_unix_seconds : ℕ
  pub reason : BackoffReason

pub data FailureCategory : Type 0 where
  storage_unavailable state_corrupt unsupported_state_version lock_contended check_unavailable
        metadata_invalid no_applicable_release installation_failed compatibility_unresolved :
      FailureCategory

pub record UpdateState : Type 0 where
  pub schema_version : ℕ
  pub installed_autoapprover_version : Option StableVersion
  pub last_codex_version : Option StableVersion
  pub last_successful_check : Option SuccessfulCheck
  pub metadata_validators : Option MetadataValidators
  pub skip_scope : Option SkipScope
  pub backoff : Option BackoffState
  pub last_failure : Option FailureCategory
  pub compatibility_observations : List CompatibilityObservation

-- `StateError`, as far as these operations return it.
pub data StateError : Type 0 where
  unsupported_schema : ℕ → StateError
  invalid_state : StateError

abbrev pub Verdict : Type 0
Verdict = Result StateError (Unit {0})

unfoldable pub validate_bounded_text : Option Bytes → Verdict
validate_bounded_text none = ok tt
validate_bounded_text (some value) =
    guard
      (not (is_nil value || ltb max_validator_bytes (length value) || any is_control (chars value)))
      invalid_state

unfoldable pub validate_check : Option SuccessfulCheck → Verdict
validate_check none = ok tt
validate_check (some check) = guard (not (nat_eqb check.observed_at_unix_seconds 0)) invalid_state

unfoldable pub validate_validators : Option MetadataValidators → Verdict
unfolding validate_bounded_text
validate_validators none = ok tt
validate_validators (some v) = do
  validate_bounded_text v.etag
  validate_bounded_text v.last_modified

unfoldable pub validate_backoff : Option BackoffState → Verdict
validate_backoff none = ok tt
validate_backoff (some b) = guard (not (nat_eqb b.until_unix_seconds 0)) invalid_state

-- The place of an outcome in its declaration, for the derived equality.
unfoldable pub hook_index : HookOutcome → ℕ
hook_index HookOutcome.no_hook_invocation = 0
hook_index HookOutcome.broker_allow_unconfirmed = 1
hook_index HookOutcome.successful_exchange = 2
hook_index HookOutcome.compatibility_rejection = 3
hook_index HookOutcome.transport_failure = 4
hook_index HookOutcome.protocol_failure = 5

-- `CompatibilityObservation::validate`
unfoldable pub validate_observation : CompatibilityObservation → Verdict
unfolding hook_index
validate_observation o = do
  guard (not (nat_eqb o.observed_at_unix_seconds 0)) invalid_state
  map_err (Outcome.validate o.counts) invalid_state
  guard (nat_eqb (hook_index o.hook_outcome) (hook_index (Outcome.aggregate_hook_outcome o.counts)))
      invalid_state

unfoldable pub validate_observations : List CompatibilityObservation → Verdict
unfolding validate_observation
validate_observations [] = ok tt
validate_observations (o ∷ os) = do validate_observation o; validate_observations os

-- `UpdateState::validate`
unfoldable pub validate_state : UpdateState → Verdict
unfolding validate_check validate_validators validate_backoff validate_observations
validate_state s = do
  guard (nat_eqb s.schema_version 1) (unsupported_schema s.schema_version)
  validate_check s.last_successful_check
  validate_validators s.metadata_validators
  validate_backoff s.backoff
  guard (leb (length s.compatibility_observations) max_compatibility_observations) invalid_state
  validate_observations s.compatibility_observations

unfoldable pub same_identity : CompatibilityObservation → CompatibilityObservation → Bool
same_identity a b =
    a.autoapprover_version == b.autoapprover_version
    && a.codex_version == b.codex_version
    && a.operating_system == b.operating_system
    && nat_eqb (surface_index a.surface) (surface_index b.surface)

-- The tuples of `observation_order`.
unfoldable pub observation_leb : CompatibilityObservation → CompatibilityObservation → Bool
observation_leb a b = is_le (
    then_cmp (cmp a.codex_version b.codex_version) (
      then_cmp (cmp a.autoapprover_version b.autoapprover_version) (
        then_cmp (compare (os_index a.operating_system) (os_index b.operating_system))
          (compare (surface_index a.surface) (surface_index b.surface)))))

-- `left.saturating_add(right).min(MAX_OUTCOME_COUNT)`
unfoldable pub capped : ℕ → ℕ → ℕ
capped left right = min (min (left + right) Outcome.max_u32) Outcome.max_outcome_count

unfoldable pub merge_counts : HookOutcomeCounts → HookOutcomeCounts → HookOutcomeCounts
unfolding capped
merge_counts c o = record {
  entry_count = capped c.entry_count o.entry_count;
  validated_request_count = capped c.validated_request_count o.validated_request_count;
  allow_count = capped c.allow_count o.allow_count;
  no_decision_count = capped c.no_decision_count o.no_decision_count;
  structured_emission_count = capped c.structured_emission_count o.structured_emission_count;
  stdout_error_count = capped c.stdout_error_count o.stdout_error_count;
  successful_exchange_count = capped c.successful_exchange_count o.successful_exchange_count;
  broker_allow_unconfirmed_count =
      capped c.broker_allow_unconfirmed_count o.broker_allow_unconfirmed_count;
  compatibility_rejection_count =
      capped c.compatibility_rejection_count o.compatibility_rejection_count;
  transport_failure_count = capped c.transport_failure_count o.transport_failure_count;
  protocol_failure_count = capped c.protocol_failure_count o.protocol_failure_count;
}

-- What is done to the existing observation; `merge_command_outcomes` is `join_command`.
unfoldable pub merge_observation :
    ℕ → CompatibilityObservation → CompatibilityObservation → CompatibilityObservation
unfolding merge_counts
merge_observation now o existing =
    let c = merge_counts existing.counts o.counts in
    record existing {
      counts = c;
      hook_outcome = Outcome.aggregate_hook_outcome c;
      command_outcome = Outcome.join_command existing.command_outcome o.command_outcome;
      observed_at_unix_seconds = now;
    }

-- `iter_mut().find(..)` with what is done to the first that is found.
unfoldable pub merge_first :
    ℕ
    → CompatibilityObservation
    → List CompatibilityObservation
    → Option (List CompatibilityObservation)
unfolding same_identity merge_observation
merge_first now o [] = none
merge_first now o (x ∷ xs) =
    let rest = merge_first now o xs in
    if same_identity x o
    then some (merge_observation now o x ∷ xs)
    else elim rest [ none ↦ none | some ys ↦ some (x ∷ ys) ]

-- The first of the oldest observations, and the others in their order.
unfoldable pub split_oldest :
    List CompatibilityObservation
    → Option (CompatibilityObservation × List CompatibilityObservation)
unfolding observation_leb
split_oldest [] = none
split_oldest (x ∷ xs) = elim (split_oldest xs) [
  | none ↦ some (x, [])
  | some (m, rest) ↦ if observation_leb x m then some (x, xs) else some (m, x ∷ rest)
]

-- The new list, when the observation is about a new identity.
unfoldable pub insert_observation :
    CompatibilityObservation
    → List CompatibilityObservation
    → Option (List CompatibilityObservation)
unfolding split_oldest
insert_observation o xs =
    if leb max_compatibility_observations (length xs)
    then elim (split_oldest xs) [
      | none ↦ none
      | some (oldest, rest) ↦
          if observation_leb o oldest
          then some xs
          else some (sort_by observation_leb (rest ++ o ∷ []))
    ]
    else some (sort_by observation_leb (xs ++ o ∷ []))

-- An observation without a date gets the clock's answer.
unfoldable pub dated_observation : ℕ → CompatibilityObservation → CompatibilityObservation
dated_observation dated o = record o {
  observed_at_unix_seconds =
      if nat_eqb o.observed_at_unix_seconds 0 then dated else o.observed_at_unix_seconds;
}

-- `record_compatibility_observation`: the first answer of the clock dates an undated observation,
-- the second is the time of the record.
unfoldable pub record_compatibility_observation :
    ℕ → ℕ → CompatibilityObservation → UpdateState → UpdateState × Verdict
unfolding merge_first insert_observation
record_compatibility_observation dated now observation s =
    let o = dated_observation dated observation in
    elim (validate_observation o) [
      | err e ↦ (s, err e)
      | ok _ ↦ elim (merge_first now o s.compatibility_observations) [
        | some xs ↦
            let next = record s { compatibility_observations = xs } in (next, validate_state next)
        | none ↦
            elim (insert_observation (record o { observed_at_unix_seconds = now })
              s.compatibility_observations) [
                | none ↦ (s, err invalid_state)
                | some xs ↦
                    let next = record s { compatibility_observations = xs } in
                    (next, validate_state next)
              ]
      ]
    ]

unfoldable pub record_successful_check :
    StableVersion → Option ℕ → MetadataValidators → ℕ → UpdateState → UpdateState × Verdict
record_successful_check codex metadata validators now s =
    elim (validate_validators (some validators)) [
      | err e ↦ (s, err e)
      | ok _ ↦
          let next = record s {
            last_codex_version = some codex;
            last_successful_check = some (record {
              observed_at_unix_seconds = now;
              codex_version = codex;
              metadata_version = metadata;
            });
            metadata_validators = some validators;
            last_failure = none;
          } in
          (next, validate_state next)
    ]

unfoldable pub is_backoff_active : UpdateState → ℕ → Bool
is_backoff_active s now = elim s.backoff [ none ↦ false | some b ↦ ltb now b.until_unix_seconds ]

unfoldable pub is_skipped_for : UpdateState → StableVersion → StableVersion → Bool
is_skipped_for s codex release = elim s.skip_scope [
  | none ↦ false
  | some skip ↦ skip.codex_version == codex && skip.release_version == release
]
