-- ===== src/Update/Choice.antt =====
-- src/update/selection.rs: what a selection is made for, and the choice of an asset and of a
-- compatibility record within one manifest.
pub mod Highest
pub mod Fitting
pub mod Granting
use codex_autoapprover.Update.Manifest.Targets.{
  TargetArchitecture, TargetOperatingSystem, target_os_eq, target_arch_eq,
}
use codex_autoapprover.Update.Manifest.Surfaces.{
  CompatibilityArchitecture, CompatibilityOperatingSystem, CompatibilitySurface, ExperimentalBasis,
  compatibility_os_eq, compatibility_arch_eq, surface_eq,
}
use codex_autoapprover.Update.Version.{StableVersion, version_eq, parse}
use codex_autoapprover.Prelude.{
  ◌&&◌, ◌==◌, ◌>>◌, ◌>>=◌, Bool, Bytes, List, Result, [], any, if◌then◌else◌, err, false, guard,
  if◌then◌else◌, is_nil, keep, map_err, not, ok, if◌then◌else◌, true, ◌∷◌, nat_eq, bytes_eq,
  option_eq,
}
use codex_autoapprover.Update.Manifest.Schema.{
  CompatibilityEligibility, CompatibilityRecord, CompatibilityTuple, ReleaseAsset, excluded,
  experimental, reviewed,
}
use codex_autoapprover.Update.Runtime.{
  RuntimeEnvironment, RuntimeMinimum, SelectionRejectionReason, ambiguous_asset,
  ambiguous_compatibility, compatibility_excluded, compatibility_unavailable,
  malformed_runtime_requirement, minimum_leb, parse_runtime_minimum, runtime_below_minimum,
  runtime_meets, strict_requires_reviewed, unsupported_architecture, unsupported_platform,
}
use codex_autoapprover.Prelude.Sorting.{sort_by}

-- src/cli.rs
pub data CompatibilityMode : Type 0 where
  automatic : CompatibilityMode
  strict : CompatibilityMode

pub record SelectionInput : Type 0 where
  pub installed_autoapprover_version : StableVersion
  pub codex_version : StableVersion
  pub operating_system : TargetOperatingSystem
  pub architecture : TargetArchitecture
  pub runtime : RuntimeEnvironment
  pub surface : CompatibilitySurface
  pub compatibility_mode : CompatibilityMode

pub data SelectionInputError : Type 0 where
  malformed_installed_autoapprover_version : SelectionInputError
  malformed_codex_version : SelectionInputError

-- `SelectionInput::from_versions`
unfoldable pub from_versions :
    Bytes
    → Bytes
    → TargetOperatingSystem
    → TargetArchitecture
    → RuntimeEnvironment
    → CompatibilitySurface
    → CompatibilityMode
    → Result SelectionInputError SelectionInput
from_versions installed codex os arch runtime surface mode = do
  i ← map_err (parse installed) malformed_installed_autoapprover_version
  c ← map_err (parse codex) malformed_codex_version
  ok (record {
    installed_autoapprover_version = i;
    codex_version = c;
    operating_system = os;
    architecture = arch;
    runtime = runtime;
    surface = surface;
    compatibility_mode = mode;
  })

pub data SelectedCompatibility : Type 0 where
  selected_reviewed : Bytes → SelectedCompatibility
  selected_experimental : ExperimentalBasis → SelectedCompatibility

-- The loop of `select_asset`: the applicable assets with their minima, and `malformed`.
unfoldable pub applicable_assets :
    SelectionInput
    → List ReleaseAsset
    → Result SelectionRejectionReason (List (ReleaseAsset × RuntimeMinimum) × Bool)
applicable_assets input [] = ok ([], false)
applicable_assets input (asset ∷ rest) = elim (parse_runtime_minimum asset) [
  | err e ↦ applicable_assets input rest >>= λ (found, malformed). ok (found, true)
  | ok minimum ↦ do
    meets ← runtime_meets input.runtime input.operating_system minimum
    (found, malformed) ← applicable_assets input rest
    ok (if meets then (asset, minimum) ∷ found else found, malformed)
]

-- The largest minimum wins, unless the second is as large.
unfoldable pub pick_asset :
    List (ReleaseAsset × RuntimeMinimum) → Bool → Result SelectionRejectionReason ReleaseAsset
pick_asset [] malformed =
    err (if malformed then malformed_runtime_requirement else runtime_below_minimum)
pick_asset (a ∷ []) malformed = ok a.0
pick_asset (a ∷ b ∷ rest) malformed =
    if minimum_leb a.1 b.1 && minimum_leb b.1 a.1 then err ambiguous_asset else ok a.0

-- `sort_by_key(|entry| Reverse(entry.1))`
unfoldable pub above : ReleaseAsset × RuntimeMinimum → ReleaseAsset × RuntimeMinimum → Bool
above a b = minimum_leb b.1 a.1

unfoldable pub select_asset :
    List ReleaseAsset → SelectionInput → Result SelectionRejectionReason ReleaseAsset
unfolding applicable_assets pick_asset above
select_asset assets input =
    let platform = keep (λ asset. asset.operating_system == input.operating_system) assets in
    let architecture = keep (λ asset. asset.architecture == input.architecture) platform in
    (do
      guard (not (is_nil platform)) unsupported_platform
      guard (not (is_nil architecture)) unsupported_architecture
      (found, malformed) ← applicable_assets input architecture
      pick_asset (sort_by above found) malformed)

unfoldable pub compatibility_os : TargetOperatingSystem → CompatibilityOperatingSystem
compatibility_os TargetOperatingSystem.linux = CompatibilityOperatingSystem.linux
compatibility_os TargetOperatingSystem.windows = CompatibilityOperatingSystem.windows

unfoldable pub tuple_matches : CompatibilityTuple → SelectionInput → Bool
unfolding compatibility_os
tuple_matches t input =
    t.codex_version == input.codex_version
    && t.operating_system == compatibility_os input.operating_system
    && t.architecture == CompatibilityArchitecture.x86_64
    && input.architecture == TargetArchitecture.x86_64
    && t.surface == input.surface

unfoldable pub is_excluded : CompatibilityEligibility → Bool
is_excluded (reviewed evidence_ref) = false
is_excluded (experimental basis) = false
is_excluded (excluded reason) = true

unfoldable pub grant :
    CompatibilityMode
    → CompatibilityEligibility
    → Result SelectionRejectionReason SelectedCompatibility
grant mode (reviewed evidence_ref) = ok (selected_reviewed evidence_ref)
grant automatic (experimental basis) = ok (selected_experimental basis)
grant strict (experimental basis) = err strict_requires_reviewed
grant mode (excluded reason) = err compatibility_excluded

unfoldable pub only_record :
    CompatibilityMode
    → List CompatibilityRecord
    → Result SelectionRejectionReason SelectedCompatibility
unfolding grant
only_record mode [] = err compatibility_unavailable
only_record mode (r ∷ []) = grant mode r.eligibility
only_record mode (r ∷ s ∷ rest) = err ambiguous_compatibility

unfoldable pub select_compatibility :
    List CompatibilityRecord
    → SelectionInput
    → Result SelectionRejectionReason SelectedCompatibility
unfolding only_record is_excluded
select_compatibility records input =
    let matching = keep (λ r. tuple_matches r.tuple input) records in
    if any (λ r. is_excluded r.eligibility) matching
    then err compatibility_excluded
    else only_record input.compatibility_mode matching
