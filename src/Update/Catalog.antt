-- ===== src/Update/Catalog.antt =====
-- The tests for ambiguity of src/update/selection.rs, over the whole catalog, before any choice.
pub mod Versions
use codex_autoapprover.Update.Version.{StableVersion, version_eq}
use codex_autoapprover.Prelude.{
  ◌>>=◌, ◌++◌, ◌>>◌, Bytes, List, Option, Result, [], codes, contains, guard, none, not, ok, some,
  ◌∷◌, nat_eq, bytes_eq, option_eq,
}
use codex_autoapprover.Update.Manifest.Schema.{
  CompatibilityRecord, ReleaseAsset, ReleaseManifest, compatibility_identity,
}
use codex_autoapprover.Update.Manifest.Targets.{
  Libc, archive_name, libc_name, target_arch_name, target_os_name,
}
use codex_autoapprover.Update.Runtime.{
  SelectionRejectionReason, ambiguous_compatibility, conflicting_asset_identity,
  duplicate_release_version,
}

-- `Debug` of an optional library.
unfoldable pub libc_option_name : Option Libc → Bytes
libc_option_name none = codes "None"
libc_option_name (some c) = codes "Some(" ++ libc_name c ++ codes ")"

-- The identity of an asset here, which has the C library too.
unfoldable pub catalog_identity : ReleaseAsset → Bytes
unfolding libc_option_name
catalog_identity asset =
    target_os_name asset.operating_system
    ++ b'|'
      ∷ (target_arch_name asset.architecture
          ++ b'|'
            ∷ (asset.runtime.minimum
                ++ b'|'
                  ∷ (libc_option_name asset.runtime.libc
                      ++ b'|' ∷ archive_name asset.archive_format)))

unfoldable pub check_assets :
    List Bytes → List Bytes → List ReleaseAsset → Result SelectionRejectionReason (Unit {0})
unfolding catalog_identity
check_assets names identities [] = ok tt
check_assets names identities (asset ∷ rest) = do
  guard (not (contains names asset.target_name)) conflicting_asset_identity
  guard (not (contains identities (catalog_identity asset))) conflicting_asset_identity
  check_assets (asset.target_name ∷ names) (catalog_identity asset ∷ identities) rest

unfoldable pub check_records :
    List Bytes → List CompatibilityRecord → Result SelectionRejectionReason (Unit {0})
check_records identities [] = ok tt
check_records identities (r ∷ rest) = do
  guard (not (contains identities (compatibility_identity r.tuple))) ambiguous_compatibility
  check_records (compatibility_identity r.tuple ∷ identities) rest

unfoldable pub validate_manifest_ambiguity :
    ReleaseManifest → Result SelectionRejectionReason (Unit {0})
unfolding check_assets check_records
validate_manifest_ambiguity m = do check_assets [] [] m.assets; check_records [] m.compatibility

-- The loop of `validate_catalog_ambiguity`.
unfoldable pub check_catalog :
    List StableVersion → List ReleaseManifest → Result SelectionRejectionReason (Unit {0})
unfolding validate_manifest_ambiguity
check_catalog versions [] = ok tt
check_catalog versions (m ∷ rest) = do
  guard (not (contains versions m.release_version)) duplicate_release_version
  validate_manifest_ambiguity m
  check_catalog (m.release_version ∷ versions) rest

unfoldable pub validate_catalog_ambiguity :
    List ReleaseManifest → Result SelectionRejectionReason (Unit {0})
unfolding check_catalog
validate_catalog_ambiguity candidates = check_catalog [] candidates
