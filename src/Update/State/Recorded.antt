-- ===== src/Update/State/Recorded.antt =====
-- About `UpdateState::record_compatibility_observation` of src/update/state.rs.
-- What a recording leaves in the list of observations.
use codex_autoapprover.Prelude.{
  List, Option-cases, arith, inl, inr, ok, refl, subst, ℕ, ◌<◌, Result-cases, ◌≡◌, ◌⊎◌,
}
use codex_autoapprover.Update.State.{
  CompatibilityObservation, UpdateState, dated_observation, insert_observation, merge_first,
  record_compatibility_observation, validate_observation, validate_state,
}
use codex_autoapprover.Update.State.Valid.{
  record_compatibility_observation-validate_state, validate_state-record_compatibility_observation,
}
use codex_autoapprover.Update.State.Merged.{
  IsMerged, IsNew, merge_first-IsMerged, merge_first-IsNew,
}
use codex_autoapprover.Update.State.Inserted.{IsInserted, insert_observation-IsInserted}

pub IsRecorded :
    ℕ
    → CompatibilityObservation
    → List CompatibilityObservation
    → List CompatibilityObservation
    → Type 0
IsRecorded now o xs ys =
    IsMerged now o xs ys
    ⊎ (IsNew o xs × IsInserted (record o { observed_at_unix_seconds = now }) xs ys)

-- Only the list changes, to a recorded one.
abbrev OnlyRecords : ℕ → CompatibilityObservation → UpdateState → UpdateState → Type 0
OnlyRecords now o s next =
    (next ≡ record s { compatibility_observations = next.compatibility_observations })
    × IsRecorded now o s.compatibility_observations next.compatibility_observations

ok_records :
    (dated now : ℕ) (o : CompatibilityObservation) (s : UpdateState)
    → (record_compatibility_observation dated now o s).1 ≡ ok tt
    → OnlyRecords now
        (dated_observation dated o)
        s
        (record_compatibility_observation dated now o s).0
unfolding record_compatibility_observation IsRecorded
ok_records dated now o s h =
    let d = dated_observation dated o in
    let next : List CompatibilityObservation → UpdateState =
      λ xs. record s { compatibility_observations = xs } in
    elim (Result-cases (validate_observation d)) [
      | inr (e, q) ↦ absurd (ground arith)
      | inl (u, q) ↦ elim (Option-cases (merge_first now d s.compatibility_observations)) [
        | inr (xs, p) ↦
            let left : next xs ≡ (record_compatibility_observation dated now o s).0 =
              rw (q, p, record_compatibility_observation) refl in
            subst (OnlyRecords now d s) left
              (refl, inl (merge_first-IsMerged now d s.compatibility_observations xs p))
        | inl n ↦
            elim (Option-cases (
              insert_observation (record d { observed_at_unix_seconds = now })
                s.compatibility_observations)) [
                  | inr (xs, p) ↦
                      let left : next xs ≡ (record_compatibility_observation dated now o s).0 =
                        rw (q, n, p, record_compatibility_observation) refl in
                      subst (OnlyRecords now d s) left (
                        refl,
                        inr (
                          merge_first-IsNew now d s.compatibility_observations n,
                          insert_observation-IsInserted
                              (record d { observed_at_unix_seconds = now })
                              s.compatibility_observations xs p,
                        ),
                      )
                  | inl m ↦ absurd (ground arith)
                ]
      ]
    ]

-- In a valid state, with a clock that does not answer 0, an observation that is valid once it is
-- dated is recorded: there is no error, the state is valid again, and nothing but the list of
-- observations changes. Where the list has an observation of the same versions, system and surface,
-- the first one gets the sums of the counters, each at most 64, the outcomes that follow, and the
-- time. Otherwise the list with the observation is sorted; a list of 8 first loses its oldest
-- observation, or stays as it is if the new one is not newer than that.
pub record_compatibility_observation-IsRecorded :
    (dated now : ℕ) (o : CompatibilityObservation) (s : UpdateState)
    → 0 < now
    → validate_state s ≡ ok tt
    → validate_observation (dated_observation dated o) ≡ ok tt
    → ((record_compatibility_observation dated now o s).1 ≡ ok tt)
      × (validate_state (record_compatibility_observation dated now o s).0 ≡ ok tt)
      × ((record_compatibility_observation dated now o s).0 ≡ record s {
        compatibility_observations =
            (record_compatibility_observation dated now o s).0.compatibility_observations;
      })
      × IsRecorded now
          (dated_observation dated o)
          s.compatibility_observations
          (record_compatibility_observation dated now o s).0.compatibility_observations
record_compatibility_observation-IsRecorded dated now o s t v w =
    let passed = validate_state-record_compatibility_observation dated now o s t v w in
    let (kept, recorded) = ok_records dated now o s passed in
    (passed, record_compatibility_observation-validate_state dated now o s passed, kept, recorded)
