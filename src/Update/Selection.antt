-- ===== src/Update/Selection.antt =====
-- `select_applicable` of src/update/selection.rs: the loop over the authenticated manifests and the
-- choice among what it keeps.
pub mod Newest
use codex_autoapprover.Update.Version.{StableVersion, version_leb, version_ltb, version_eq}
use codex_autoapprover.Prelude.{
  ◌||◌, ◌&&◌, ◌==◌, ◌>>◌, ◌>>=◌, Bool, List, Result, [], err, guard, leb, none, not, ok, some, ℕ,
  ◌∷◌, nat_eq, bytes_eq, option_eq,
}
use codex_autoapprover.Update.Manifest.Schema.{ReleaseAsset, ReleaseManifest, ReleaseNotes}
use codex_autoapprover.Update.Choice.{
  SelectedCompatibility, SelectionInput, select_asset, select_compatibility,
}
use codex_autoapprover.Update.Runtime.{
  SelectionRejectionReason, ambiguous_asset, ambiguous_compatibility, compatibility_excluded,
  compatibility_unavailable, conflicting_asset_identity, duplicate_release_version, empty_catalog,
  malformed_runtime_requirement, not_newer_than_installed, runtime_below_minimum,
  strict_requires_reviewed, unknown_runtime, unsupported_architecture, unsupported_platform,
  unsupported_runtime,
}
use codex_autoapprover.Prelude.Sorting.{last, sort_by}
use codex_autoapprover.Update.Catalog.{validate_catalog_ambiguity}

pub record CandidateRejection : Type 0 where
  pub release_version : StableVersion
  pub reason : SelectionRejectionReason

pub record ApplicabilityExplanation : Type 0 where
  pub current_autoapprover_version : StableVersion
  pub new_autoapprover_version : StableVersion
  pub compatibility : SelectedCompatibility
  pub release_notes : ReleaseNotes

-- The authenticated wrapper is the manifest that it holds.
pub record SelectedRelease : Type 0 where
  pub release : ReleaseManifest
  pub asset : ReleaseAsset
  pub compatibility : SelectedCompatibility
  pub explanation : ApplicabilityExplanation

pub data SelectionOutcome : Type 0 where
  selected : SelectedRelease → SelectionOutcome
  no_applicable : List CandidateRejection → SelectionOutcome
  rejected : SelectionRejectionReason → SelectionOutcome

-- One round of the loop of `select_applicable`: a selection, or the reason against it.
unfoldable pub consider :
    SelectionInput → ReleaseManifest → Result SelectionRejectionReason SelectedRelease
unfolding select_asset select_compatibility
consider input m = do
  guard (not (version_leb m.release_version input.installed_autoapprover_version))
      not_newer_than_installed
  asset ← select_asset m.assets input
  compatibility ← select_compatibility m.compatibility input
  ok (record {
    release = m;
    asset = asset;
    compatibility = compatibility;
    explanation = record {
      current_autoapprover_version = input.installed_autoapprover_version;
      new_autoapprover_version = m.release_version;
      compatibility = compatibility;
      release_notes = m.release_notes;
    };
  })

-- The two vectors of the loop.
unfoldable pub partition :
    SelectionInput → List ReleaseManifest → List SelectedRelease × List CandidateRejection
partition input [] = ([], [])
partition input (m ∷ rest) =
    let (found, refused) = partition input rest in
    elim (consider input m) [
      | ok s ↦ (s ∷ found, refused)
      | err reason ↦
          (found, record { release_version = m.release_version; reason = reason } ∷ refused)
    ]

-- The derived order of rejections: the version, then the reason's place in its declaration.
unfoldable pub reason_index : SelectionRejectionReason → ℕ
reason_index empty_catalog = 0
reason_index duplicate_release_version = 1
reason_index conflicting_asset_identity = 2
reason_index ambiguous_asset = 3
reason_index ambiguous_compatibility = 4
reason_index not_newer_than_installed = 5
reason_index unsupported_platform = 6
reason_index unsupported_architecture = 7
reason_index unknown_runtime = 8
reason_index unsupported_runtime = 9
reason_index malformed_runtime_requirement = 10
reason_index runtime_below_minimum = 11
reason_index compatibility_excluded = 12
reason_index compatibility_unavailable = 13
reason_index strict_requires_reviewed = 14

unfoldable pub rejection_leb : CandidateRejection → CandidateRejection → Bool
unfolding reason_index
rejection_leb a b =
    version_ltb a.release_version b.release_version
    || (a.release_version == b.release_version
        && leb (reason_index a.reason) (reason_index b.reason))

unfoldable pub older : SelectedRelease → SelectedRelease → Bool
older a b = version_leb a.release.release_version b.release.release_version

unfoldable pub select_applicable : List ReleaseManifest → SelectionInput → SelectionOutcome
unfolding partition rejection_leb older
select_applicable [] input = rejected empty_catalog
select_applicable (m ∷ ms) input = elim (validate_catalog_ambiguity (m ∷ ms)) [
  | err reason ↦ rejected reason
  | ok _ ↦
      let (found, refused) = partition input (m ∷ ms) in
      elim (last (sort_by older found)) [
        | none ↦ no_applicable (sort_by rejection_leb refused)
        | some s ↦ selected s
      ]
]
