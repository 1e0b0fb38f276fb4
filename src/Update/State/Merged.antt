-- ===== src/Update/State/Merged.antt =====
-- About `UpdateState::record_compatibility_observation` of src/update/state.rs.
-- What a recording does to an observation of the same versions, system and surface.
use codex_autoapprover.Prelude.{
  Bool-cases, List, Option-cases, [], any, ap, arith, false, inl, inr, min, none, refl, some, subst,
  true, ℕ, ◌+◌, ◌++◌, ◌∙◌, ◌≡◌, ◌∷◌,
}
use codex_autoapprover.Update.Outcome.{HookOutcomeCounts, aggregate_hook_outcome, join_command}
use codex_autoapprover.Update.State.{
  CompatibilityObservation, capped, merge_counts, merge_first, merge_observation, same_identity,
}

-- No observation of the list is about the same versions, system and surface.
abbrev pub IsNew : CompatibilityObservation → List CompatibilityObservation → Type 0
IsNew o xs = any (λ x. same_identity x o) xs ≡ false

-- The sums of the counters, each at most 64.
abbrev sums : HookOutcomeCounts → HookOutcomeCounts → HookOutcomeCounts
sums c o = record {
  entry_count = min (c.entry_count + o.entry_count) 64;
  validated_request_count = min (c.validated_request_count + o.validated_request_count) 64;
  allow_count = min (c.allow_count + o.allow_count) 64;
  no_decision_count = min (c.no_decision_count + o.no_decision_count) 64;
  structured_emission_count = min (c.structured_emission_count + o.structured_emission_count) 64;
  stdout_error_count = min (c.stdout_error_count + o.stdout_error_count) 64;
  successful_exchange_count = min (c.successful_exchange_count + o.successful_exchange_count) 64;
  broker_allow_unconfirmed_count =
      min (c.broker_allow_unconfirmed_count + o.broker_allow_unconfirmed_count) 64;
  compatibility_rejection_count =
      min (c.compatibility_rejection_count + o.compatibility_rejection_count) 64;
  transport_failure_count = min (c.transport_failure_count + o.transport_failure_count) 64;
  protocol_failure_count = min (c.protocol_failure_count + o.protocol_failure_count) 64;
}

-- The first observation of the identity has got the counters and the time; the others are as before.
pub record IsMerged (now : ℕ) (o : CompatibilityObservation) (xs ys : List CompatibilityObservation)
    : Type 0 where
  pub front : List CompatibilityObservation
  pub found : CompatibilityObservation
  pub back : List CompatibilityObservation
  pub before : xs ≡ front ++ found ∷ back
  pub first : IsNew o front
  pub same : same_identity found o ≡ true
  pub after :
      ys
      ≡ front
        ++ record found {
          counts = sums found.counts o.counts;
          hook_outcome = aggregate_hook_outcome (sums found.counts o.counts);
          command_outcome = join_command found.command_outcome o.command_outcome;
          observed_at_unix_seconds = now;
        }
          ∷ back

merge_counts-sums : (c o : HookOutcomeCounts) → merge_counts c o ≡ sums c o
unfolding merge_counts capped
merge_counts-sums c o = ground arith

pub merge_first-IsMerged :
    (now : ℕ) (o : CompatibilityObservation) (xs ys : List CompatibilityObservation)
    → merge_first now o xs ≡ some ys
    → IsMerged now o xs ys
unfolding merge_first merge_observation
merge_first-IsMerged now o [] ys h = cc
merge_first-IsMerged now o (x ∷ xs) ys h = elim (Bool-cases (same_identity x o)) [
  | inl e ↦ record {
    front = [];
    found = x;
    back = xs;
    before = refl;
    first = refl;
    same = e;
    after =
        subst
          (λ c.
            ys
            ≡ record x {
              counts = c;
              hook_outcome = aggregate_hook_outcome c;
              command_outcome = join_command x.command_outcome o.command_outcome;
              observed_at_unix_seconds = now;
            }
              ∷ xs)
          (merge_counts-sums x.counts o.counts) (ground arith);
  }
  | inr e ↦ elim (Option-cases (merge_first now o xs)) [
    | inl n ↦ absurd (ground arith)
    | inr (zs, q) ↦
        let m = merge_first-IsMerged now o xs zs q in
        let p : ys ≡ x ∷ zs = ground arith in
        record {
          front = x ∷ m.front;
          found = m.found;
          back = m.back;
          before = ap (λ l. x ∷ l) m.before;
          first = ground (arith, m.first);
          same = m.same;
          after = p ∙ ap (λ l. x ∷ l) m.after;
        }
  ]
]

pub merge_first-IsNew :
    (now : ℕ) (o : CompatibilityObservation) (xs : List CompatibilityObservation)
    → merge_first now o xs ≡ none
    → IsNew o xs
unfolding merge_first
merge_first-IsNew now o [] h = refl
merge_first-IsNew now o (x ∷ xs) h = elim (Bool-cases (same_identity x o)) [
  | inl e ↦ absurd (ground arith)
  | inr e ↦ elim (Option-cases (merge_first now o xs)) [
    | inl n ↦ rw e (merge_first-IsNew now o xs n)
    | inr (zs, q) ↦ absurd (ground arith)
  ]
]
