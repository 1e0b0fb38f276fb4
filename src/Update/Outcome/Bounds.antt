-- ===== src/Update/Outcome/Bounds.antt =====
-- About `HookOutcomeCounts::validate` and `merge` of src/update/outcome.rs.
use codex_autoapprover.Prelude.{
  ◌+◌, ℕ, ltb, any, All, false, Bool-cases, ◌≤◌, ◌≡◌, ◌↔◌, refl, arith, ok, List, [], ◌∷◌, inl, inr,
}
use codex_autoapprover.Update.Outcome.{
  HookOutcomeCounts, max_u32, count_list, max_outcome_count, validate,
}

-- Every counter is at most 64.
abbrev pub Bounded : HookOutcomeCounts → Type 0
Bounded c = All (λ n. n ≤ max_outcome_count) (count_list c)

none_above :
    (xs : List ℕ) → any (ltb max_outcome_count) xs ≡ false → All (λ n. n ≤ max_outcome_count) xs
none_above [] h = tt
none_above (x ∷ xs) h = (ground arith, none_above xs (ground arith))

above_none :
    (xs : List ℕ) → All (λ n. n ≤ max_outcome_count) xs → any (ltb max_outcome_count) xs ≡ false
above_none [] h = refl
above_none (x ∷ xs) h = ground (arith, above_none xs h.1)

-- Validation passes exactly when every counter is within the bound.
pub validate_iff : (c : HookOutcomeCounts) → (validate c ≡ ok tt) ↔ Bounded c
unfolding validate
validate_iff c = (
  λ h. elim (Bool-cases (any (ltb max_outcome_count) (count_list c))) [
    | inl e ↦ absurd (let k = rw e at h in cc)
    | inr e ↦ none_above (count_list c) e
  ],
  λ b. rw (above_none (count_list c) b),
)

-- The counters added one by one.
abbrev pub sum_counts : HookOutcomeCounts → HookOutcomeCounts → HookOutcomeCounts
sum_counts c o = record {
  entry_count = c.entry_count + o.entry_count;
  validated_request_count = c.validated_request_count + o.validated_request_count;
  allow_count = c.allow_count + o.allow_count;
  no_decision_count = c.no_decision_count + o.no_decision_count;
  structured_emission_count = c.structured_emission_count + o.structured_emission_count;
  stdout_error_count = c.stdout_error_count + o.stdout_error_count;
  successful_exchange_count = c.successful_exchange_count + o.successful_exchange_count;
  broker_allow_unconfirmed_count =
      c.broker_allow_unconfirmed_count + o.broker_allow_unconfirmed_count;
  compatibility_rejection_count = c.compatibility_rejection_count + o.compatibility_rejection_count;
  transport_failure_count = c.transport_failure_count + o.transport_failure_count;
  protocol_failure_count = c.protocol_failure_count + o.protocol_failure_count;
}

abbrev AllFit : HookOutcomeCounts → HookOutcomeCounts → Type 0
AllFit c o = All (λ n. n ≤ max_u32) (count_list (sum_counts c o))
