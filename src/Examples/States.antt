-- ===== src/Examples/States.antt =====
-- Examples for the update state.
use codex_autoapprover.Platform.{linux, local_cli_launcher}
use codex_autoapprover.Update.Outcome.{
  validate, aggregate_hook_outcome, no_counts, CommandOutcome, HookOutcome,
}
use codex_autoapprover.Update.State.{
  record_compatibility_observation, CompatibilityObservation, UpdateState, dated_observation,
  hook_index, validate_backoff, validate_check, validate_observation, validate_observations,
  validate_state, validate_validators,
}
use codex_autoapprover.Update.Version.{StableVersion}
use codex_autoapprover.Prelude.{[], arith, none, ok, refl, ℕ, ◌≡◌}
use codex_autoapprover.Update.State.Recorded.{
  IsRecorded, record_compatibility_observation-IsRecorded,
}

abbrev at_version : ℕ → StableVersion
at_version n = record { major = 0; minor = n; patch = 0 }

abbrev an_observation : CompatibilityObservation
an_observation = record {
  observed_at_unix_seconds = 0;
  autoapprover_version = at_version 1;
  codex_version = at_version 156;
  operating_system = linux;
  surface = local_cli_launcher;
  hook_outcome = HookOutcome.broker_allow_unconfirmed;
  command_outcome = CommandOutcome.succeeded;
  counts = record no_counts {
    entry_count = 1;
    validated_request_count = 1;
    allow_count = 1;
    broker_allow_unconfirmed_count = 1;
  };
}

abbrev fresh_state : UpdateState
fresh_state = record {
  schema_version = 1;
  installed_autoapprover_version = none;
  last_codex_version = none;
  last_successful_check = none;
  metadata_validators = none;
  skip_scope = none;
  backoff = none;
  last_failure = none;
  compatibility_observations = [];
}

fresh_state_valid : validate_state fresh_state ≡ ok tt
unfolding validate_state validate_check validate_validators validate_backoff validate_observations
fresh_state_valid = refl

observation_valid : validate_observation (dated_observation 100 an_observation) ≡ ok tt
unfolding validate_observation dated_observation hook_index validate aggregate_hook_outcome
observation_valid = refl

record_compatibility_observation-IsRecorded_example :
    ((record_compatibility_observation 100 101 an_observation fresh_state).1 ≡ ok tt)
    × (validate_state (record_compatibility_observation 100 101 an_observation fresh_state).0
        ≡ ok tt)
    × ((record_compatibility_observation 100 101 an_observation fresh_state).0
        ≡ record fresh_state {
          compatibility_observations =
              (record_compatibility_observation 100 101 an_observation
                fresh_state).0.compatibility_observations;
        })
    × IsRecorded 101
        (dated_observation 100 an_observation)
        []
        (record_compatibility_observation 100 101 an_observation
          fresh_state).0.compatibility_observations
record_compatibility_observation-IsRecorded_example =
    record_compatibility_observation-IsRecorded 100 101 an_observation fresh_state (ground arith)
      fresh_state_valid observation_valid
