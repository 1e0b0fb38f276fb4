-- ===== src/Update/Manifest/Checks.antt =====
-- The validation of src/update/manifest.rs, in the order of its tests. serde_json's reading of the
-- text into a `ReleaseManifest` and sha2's digest are arguments.
pub mod Unambiguous
use codex_autoapprover.Prelude.{
  ◌||◌, ◌&&◌, ◌*◌, ◌++◌, ◌/◌, ◌==◌, ◌>>◌, ◌>>=◌, Bool, Bytes, List, Option, Result, [], all, any,
  chars, codes, contains, contains_str, false, guard, is_ascii_hexdigit, is_control, is_nil,
  is_whitespace, length, ltb, map_err, nat_eqb, none, not, ok, ok_or, some, split_on, starts_with,
  true, ℕ, ◌∷◌, nat_eq, bytes_eq, option_eq,
}
use codex_autoapprover.Update.Manifest.Targets.{
  ArchiveFormat, Libc, TargetOperatingSystem, archive_name, glibc, tar_gz, target_arch_name,
  target_os_name, zip,
}
use codex_autoapprover.Update.Manifest.Schema.{
  AssetProvenance, CompatibilityEligibility, CompatibilityRecord, CompatibilityTuple, ReleaseAsset,
  ReleaseManifest, ReleaseNotes, RuntimeRequirements, compatibility_identity, excluded,
  experimental, reviewed,
}
use codex_autoapprover.Protocol.{Event}
use codex_autoapprover.Update.Runtime.{parse_runtime_minimum}
use codex_autoapprover.Update.Manifest.Duplicates.{reject_duplicate_json_keys}

abbrev pub max_manifest_bytes : ℕ
max_manifest_bytes = 256 * 1024

abbrev pub max_asset_count : ℕ
max_asset_count = 16

abbrev pub max_compatibility_record_count : ℕ
max_compatibility_record_count = 128

abbrev pub max_asset_bytes : ℕ
max_asset_bytes = 512 * 1024 * 1024

abbrev pub max_string_bytes : ℕ
max_string_bytes = 4096

abbrev pub max_target_name_bytes : ℕ
max_target_name_bytes = 512

abbrev pub max_evidence_ref_bytes : ℕ
max_evidence_ref_bytes = 512

abbrev pub release_repository : Bytes
release_repository = codes "slee7286/codex-autoapprover"

-- `ManifestError`, with one constructor for each message of `Invalid`.
pub data ManifestError : Type 0 where
  too_large : ManifestError
  json : ManifestError
  unsupported_schema_version : ℕ → ManifestError
  invalid_string : ManifestError
  invalid_target_name : ManifestError
  invalid_url : ManifestError
  asset_count : ManifestError
  record_count : ManifestError
  duplicate_target_name : ManifestError
  duplicate_asset_identity : ManifestError
  duplicate_tuple : ManifestError
  malformed_minimum : ManifestError
  asset_length : ManifestError
  contradictory_asset : ManifestError
  contradictory_runtime : ManifestError
  foreign_repository : ManifestError
  partial_revision : ManifestError
  unsupported_tuple : ManifestError

abbrev pub Checked : Type 0
Checked = Result ManifestError (Unit {0})

unfoldable pub validate_string : Bytes → ℕ → Checked
validate_string value maximum =
    guard (not (is_nil value || ltb maximum (length value) || any is_control (chars value)))
      invalid_string

unfoldable pub is_traversal : Bytes → Bool
is_traversal part = is_nil part || part == codes "." || part == codes ".."

unfoldable pub validate_target_name : Bytes → Checked
unfolding validate_string is_traversal
validate_target_name value = do
  validate_string value max_target_name_bytes
  guard
      (not (
        starts_with value (codes "/")
        || contains_str value (b'\\' ∷ [])
        || any is_traversal (split_on b'/' value)))
      invalid_target_name

unfoldable pub validate_url : Bytes → Checked
unfolding validate_string
validate_url value = do
  validate_string value max_string_bytes
  guard
      (not (
        not (starts_with value (codes "https://"))
        || any is_whitespace (chars value)
        || contains_str value (codes "#")
        || contains_str value (codes "?")))
      invalid_url

-- The second arm of the match stands for any library and for none.
unfoldable pub validate_runtime : RuntimeRequirements → Checked
unfolding validate_string
validate_runtime runtime = do
  validate_string runtime.minimum max_string_bytes
  guard (is_consistent_runtime runtime.libc runtime.minimum) contradictory_runtime
  where
    is_consistent_runtime : Option Libc → Bytes → Bool
    is_consistent_runtime (some Libc.glibc) minimum =
        starts_with minimum (codes "glibc-") || starts_with minimum (codes "windows-")
    is_consistent_runtime none minimum = starts_with minimum (codes "windows-")

unfoldable pub validate_release_notes : ReleaseNotes → Checked
unfolding validate_string validate_url
validate_release_notes notes = do
  validate_string notes.title max_string_bytes
  validate_url notes.url

unfoldable pub validate_provenance : AssetProvenance → Checked
unfolding validate_string
validate_provenance p = do
  validate_string p.source_repository max_string_bytes
  guard (p.source_repository == release_repository) foreign_repository
  validate_string p.source_revision 40
  guard (nat_eqb (length p.source_revision) 40 && all is_ascii_hexdigit p.source_revision)
      partial_revision
  validate_string p.build_workflow max_string_bytes
  validate_string p.build_id max_string_bytes

-- The two combinations that the last match of `validate_asset` lets pass.
unfoldable pub is_coherent : TargetOperatingSystem → ArchiveFormat → Option Libc → Bool
is_coherent TargetOperatingSystem.windows zip none = true
is_coherent TargetOperatingSystem.windows zip (some c) = false
is_coherent TargetOperatingSystem.windows tar_gz libc = false
is_coherent TargetOperatingSystem.linux tar_gz (some Libc.glibc) = true
is_coherent TargetOperatingSystem.linux tar_gz none = false
is_coherent TargetOperatingSystem.linux zip libc = false

unfoldable pub validate_asset : ReleaseAsset → Checked
unfolding validate_target_name validate_runtime parse_runtime_minimum validate_url
    validate_provenance is_coherent
validate_asset asset = do
  validate_target_name asset.target_name
  validate_runtime asset.runtime
  map_err (parse_runtime_minimum asset) malformed_minimum >>= λ _. ok tt
  guard (not (nat_eqb asset.length 0 || ltb max_asset_bytes asset.length)) asset_length
  validate_url asset.download_origin
  validate_provenance asset.provenance
  guard (is_coherent asset.operating_system asset.archive_format asset.runtime.libc)
      contradictory_asset

unfoldable pub is_supported_tuple : CompatibilityTuple → Bool
is_supported_tuple t =
    t.hook_event == codes "PermissionRequest"
    && t.hook_protocol == codes "permission-request-v1"
    && t.required_tool == codes "Bash"
    && t.tool_input_schema == codes "command-string-v1"
    && t.response_behavior == codes "one-request-structured-allow"

unfoldable pub validate_eligibility : CompatibilityEligibility → Checked
unfolding validate_string
validate_eligibility (reviewed evidence_ref) = validate_string evidence_ref max_evidence_ref_bytes
validate_eligibility (experimental basis) = ok tt
validate_eligibility (excluded reason) = validate_string reason max_string_bytes

unfoldable pub validate_compatibility : CompatibilityRecord → Checked
unfolding validate_string is_supported_tuple validate_eligibility
validate_compatibility r = do
  validate_string r.tuple.hook_event max_string_bytes
  validate_string r.tuple.hook_protocol max_string_bytes
  validate_string r.tuple.required_tool max_string_bytes
  validate_string r.tuple.tool_input_schema max_string_bytes
  validate_string r.tuple.response_behavior max_string_bytes
  guard (is_supported_tuple r.tuple) unsupported_tuple
  validate_eligibility r.eligibility

-- The identity of an asset within a manifest.
unfoldable pub asset_identity : ReleaseAsset → Bytes
asset_identity asset =
    target_os_name asset.operating_system
    ++ b'|'
      ∷ (target_arch_name asset.architecture
          ++ b'|' ∷ (asset.runtime.minimum ++ b'|' ∷ archive_name asset.archive_format))

-- The loop over the assets; the two sets are kept as the lists of what is in them.
unfoldable pub validate_assets : List Bytes → List Bytes → List ReleaseAsset → Checked
unfolding validate_asset asset_identity
validate_assets names identities [] = ok tt
validate_assets names identities (asset ∷ rest) = do
  validate_asset asset
  guard (not (contains names asset.target_name)) duplicate_target_name
  guard (not (contains identities (asset_identity asset))) duplicate_asset_identity
  validate_assets (asset.target_name ∷ names) (asset_identity asset ∷ identities) rest

-- The loop over the compatibility records.
unfoldable pub validate_records : List Bytes → List CompatibilityRecord → Checked
unfolding validate_compatibility
validate_records identities [] = ok tt
validate_records identities (r ∷ rest) = do
  validate_compatibility r
  guard (not (contains identities (compatibility_identity r.tuple))) duplicate_tuple
  validate_records (compatibility_identity r.tuple ∷ identities) rest

unfoldable pub validate_manifest : ReleaseManifest → Checked
unfolding validate_target_name validate_release_notes validate_assets validate_records
validate_manifest m = do
  guard (nat_eqb m.schema_version 1) (unsupported_schema_version m.schema_version)
  validate_target_name m.manifest_target
  validate_release_notes m.release_notes
  guard (not (is_nil m.assets || ltb max_asset_count (length m.assets))) asset_count
  guard
      (not (is_nil m.compatibility || ltb max_compatibility_record_count (length m.compatibility)))
      record_count
  validate_assets [] [] m.assets
  validate_records [] m.compatibility

pub record ParsedManifest : Type 0 where
  pub manifest : ReleaseManifest
  pub byte_length : ℕ
  pub sha256 : Bytes

-- `parse_manifest`
unfoldable pub parse_manifest :
    (Bytes → Option (Event × Bytes))
    → (Bytes → Option ReleaseManifest)
    → (Bytes → Bytes)
    → Bytes
    → Result ManifestError ParsedManifest
unfolding validate_manifest reject_duplicate_json_keys
parse_manifest deserialize from_slice digest bytes = do
  guard (not (ltb max_manifest_bytes (length bytes))) too_large
  map_err (reject_duplicate_json_keys deserialize bytes) json
  manifest ← ok_or (from_slice bytes) json
  validate_manifest manifest
  ok (record { manifest = manifest; byte_length = length bytes; sha256 = digest bytes })
