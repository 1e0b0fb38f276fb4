-- ===== src/Update/Manifest/Schema.antt =====
-- The records of the release manifest of src/update/manifest.rs, and the key of a compatibility
-- record.
use codex_autoapprover.Prelude.{◌++◌, Bytes, List, Option, ℕ, ◌∷◌}
use codex_autoapprover.Update.Manifest.Targets.{
  ArchiveFormat, Libc, TargetArchitecture, TargetOperatingSystem,
}
use codex_autoapprover.Update.Manifest.Surfaces.{
  CompatibilityArchitecture, CompatibilityOperatingSystem, CompatibilitySurface, ExperimentalBasis,
  compatibility_arch_name, compatibility_os_name, surface_name,
}
use codex_autoapprover.Update.Version.{StableVersion, display}

pub record RuntimeRequirements : Type 0 where
  pub minimum : Bytes
  pub libc : Option Libc

pub record ReleaseNotes : Type 0 where
  pub title : Bytes
  pub url : Bytes

pub record AssetProvenance : Type 0 where
  pub source_repository : Bytes
  pub source_revision : Bytes
  pub build_workflow : Bytes
  pub build_id : Bytes

-- The digest is its 32 bytes.
pub record ReleaseAsset : Type 0 where
  pub target_name : Bytes
  pub operating_system : TargetOperatingSystem
  pub architecture : TargetArchitecture
  pub runtime : RuntimeRequirements
  pub archive_format : ArchiveFormat
  pub length : ℕ
  pub sha256 : Bytes
  pub download_origin : Bytes
  pub provenance : AssetProvenance

pub record CompatibilityTuple : Type 0 where
  pub codex_version : StableVersion
  pub operating_system : CompatibilityOperatingSystem
  pub architecture : CompatibilityArchitecture
  pub surface : CompatibilitySurface
  pub hook_event : Bytes
  pub hook_protocol : Bytes
  pub required_tool : Bytes
  pub tool_input_schema : Bytes
  pub response_behavior : Bytes

pub data CompatibilityEligibility : Type 0 where
  reviewed : Bytes → CompatibilityEligibility
  experimental : ExperimentalBasis → CompatibilityEligibility
  excluded : Bytes → CompatibilityEligibility

pub record CompatibilityRecord : Type 0 where
  pub tuple : CompatibilityTuple
  pub eligibility : CompatibilityEligibility

pub record ReleaseManifest : Type 0 where
  pub schema_version : ℕ
  pub manifest_target : Bytes
  pub release_version : StableVersion
  pub release_notes : ReleaseNotes
  pub assets : List ReleaseAsset
  pub compatibility : List CompatibilityRecord

-- The key that separates two compatibility records.
unfoldable pub compatibility_identity : CompatibilityTuple → Bytes
compatibility_identity t =
    display t.codex_version
    ++ b'|'
      ∷ (compatibility_os_name t.operating_system
          ++ b'|'
            ∷ (compatibility_arch_name t.architecture
                ++ b'|'
                  ∷ (surface_name t.surface
                      ++ b'|'
                        ∷ (t.hook_event
                            ++ b'|'
                              ∷ (t.hook_protocol
                                  ++ b'|'
                                    ∷ (t.required_tool
                                        ++ b'|'
                                          ∷ (t.tool_input_schema
                                              ++ b'|' ∷ t.response_behavior)))))))
