-- ===== src/Update/Choice/Granting.antt =====
-- About `select_compatibility` of src/update/selection.rs.
use codex_autoapprover.Update.Manifest.Schema.{
  CompatibilityEligibility, CompatibilityRecord, excluded, experimental, reviewed,
}
use codex_autoapprover.Update.Choice.{
  grant, CompatibilityMode, SelectedCompatibility, SelectionInput, automatic, is_excluded,
  only_record, select_compatibility, selected_experimental, selected_reviewed, strict,
  tuple_matches,
}
use codex_autoapprover.Prelude.{
  Bool-cases, Result, false, inl, inr, List, [], any, arith, if◌then◌else◌, err, if◌then◌else◌,
  keep, ok, refl, if◌then◌else◌, ◌↔◌, ◌∷◌, ◌≡◌,
}
use codex_autoapprover.Update.Runtime.{SelectionRejectionReason, compatibility_excluded}

-- What an eligibility grants in a mode.
abbrev pub Grants : CompatibilityMode → CompatibilityEligibility → SelectedCompatibility → Type 0
Grants mode (reviewed e) c = c ≡ selected_reviewed e
Grants automatic (experimental b) c = c ≡ selected_experimental b
Grants strict (experimental b) c = ⊥
Grants mode (excluded e) c = ⊥

grants :
    (mode : CompatibilityMode) (e : CompatibilityEligibility) (c : SelectedCompatibility)
    → is_excluded e ≡ false
    → grant mode e ≡ ok c
    → Grants mode e c
unfolding is_excluded grant
grants automatic (reviewed e) c n h = ground arith
grants strict (reviewed e) c n h = ground arith
grants automatic (experimental b) c n h = ground arith
grants strict (experimental b) c n h = cc
grants automatic (excluded e) c n h = cc
grants strict (excluded e) c n h = cc

granted :
    (mode : CompatibilityMode) (e : CompatibilityEligibility) (c : SelectedCompatibility)
    → Grants mode e c
    → (is_excluded e ≡ false) × (grant mode e ≡ ok c)
unfolding is_excluded grant
granted automatic (reviewed e) c h = (refl, ground arith)
granted strict (reviewed e) c h = (refl, ground arith)
granted automatic (experimental b) c h = (refl, ground arith)
granted strict (experimental b) c h = elim h [ ]
granted automatic (excluded e) c h = elim h [ ]
granted strict (excluded e) c h = elim h [ ]

chosen :
    CompatibilityMode
    → List CompatibilityRecord
    → Result SelectionRejectionReason SelectedCompatibility
unfolding only_record
chosen mode matching =
    if any (λ r. is_excluded r.eligibility) matching
    then err compatibility_excluded
    else only_record mode matching

chosen_iff :
    (mode : CompatibilityMode) (matching : List CompatibilityRecord) (c : SelectedCompatibility)
    → (chosen mode matching ≡ ok c)
      ↔ ((r : CompatibilityRecord) × (matching ≡ r ∷ []) × Grants mode r.eligibility c)
unfolding chosen only_record
chosen_iff mode [] c = (λ h. cc, λ (r, e, g). cc)
chosen_iff mode (r ∷ []) c = (
  λ h. elim (Bool-cases (is_excluded r.eligibility)) [
    | inl e ↦ absurd (ground arith)
    | inr e ↦ (r, refl, grants mode r.eligibility c e (ground arith))
  ],
  λ (s, e, g).
      let q : r ≡ s = ground arith in let (n, k) = granted mode s.eligibility c g in rw (q, n) k,
)
chosen_iff mode (r ∷ s ∷ rest) c = (λ h. absurd (ground arith), λ (t, e, g). absurd (ground arith))

-- A compatibility record is selected exactly when one record alone is for the input, and it grants
-- what is selected: a reviewed record always, an experimental one in the automatic mode.
pub select_compatibility_iff :
    (records : List CompatibilityRecord) (input : SelectionInput) (c : SelectedCompatibility)
    → (select_compatibility records input ≡ ok c) ↔ (
        (r : CompatibilityRecord) × (keep (λ x. tuple_matches x.tuple input) records ≡ r ∷ [])
        × Grants input.compatibility_mode r.eligibility c)
unfolding select_compatibility chosen
select_compatibility_iff records input c =
    chosen_iff input.compatibility_mode (keep (λ x. tuple_matches x.tuple input) records) c
