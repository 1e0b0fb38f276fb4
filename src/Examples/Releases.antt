-- ===== src/Examples/Releases.antt =====
-- Examples for versions, release manifests and their selection.
use codex_autoapprover.Update.Manifest.Targets.{
  ArchiveFormat, Libc, TargetArchitecture, TargetOperatingSystem,
}
use codex_autoapprover.Update.Manifest.Surfaces.{
  CompatibilityArchitecture, CompatibilityOperatingSystem, local_cli_launcher,
}
use codex_autoapprover.Update.Manifest.Schema.{
  CompatibilityRecord, ReleaseAsset, ReleaseManifest, reviewed,
}
use codex_autoapprover.Update.Choice.Granting.{Grants, select_compatibility_iff}
use codex_autoapprover.Update.Choice.Fitting.{IsFittingAsset, select_asset-IsFittingAsset}
use codex_autoapprover.Update.Selection.Newest.{
  IsNewest, consider-select_applicable, select_applicable-IsNewest,
}
use codex_autoapprover.Update.Version.RoundTrip.{IsU64, parse-display, parse_plus_display}
use codex_autoapprover.Update.Version.Spelling.{parse-display_iff}
use codex_autoapprover.Prelude.{
  Lacks, bytes_beq, is_ascii_hexdigit, List, [], arith, chars, codes, contains, contains_str, inl,
  is_ascii_digit, is_control, is_whitespace, keep, ok, refl, some, split_on, starts_with,
  strip_prefix, ℕ, ◌↔◌, ◌∷◌, ◌≡◌, nat_eq, bytes_eq, option_eq,
}
use codex_autoapprover.Update.Selection.{
  SelectedRelease, consider, older, partition, select_applicable, selected,
}
use codex_autoapprover.Update.Choice.{
  SelectionInput, applicable_assets, compatibility_os, grant, is_excluded, only_record, pick_asset,
  select_asset, select_compatibility, selected_reviewed, strict, tuple_matches,
}
use codex_autoapprover.Update.Version.{
  parse, StableVersion, cmp, display, parse_component, version_beq,
}
use codex_autoapprover.Update.Catalog.{
  check_assets, check_catalog, check_records, validate_catalog_ambiguity,
  validate_manifest_ambiguity,
}
use codex_autoapprover.Update.Manifest.Checks.{
  is_coherent, is_supported_tuple, is_traversal, validate_asset, validate_assets,
  validate_compatibility, validate_eligibility, validate_manifest, validate_provenance,
  validate_records, validate_release_notes, validate_runtime, validate_string, validate_target_name,
  validate_url,
}
use codex_autoapprover.Update.Runtime.{
  leb2, linux_glibc_runtime, parse_decimal, parse_glibc_parts, parse_runtime_minimum, runtime_meets,
  runtime_minimum,
}
use codex_autoapprover.Prelude.Decimal.{parse_digits, parse_unsigned}
use codex_autoapprover.Prelude.Sorting.{sort_by}
use codex_autoapprover.Update.Manifest.Checks.Unambiguous.{
  validate_manifest-validate_manifest_ambiguity,
}

abbrev version : ℕ → StableVersion
version n = record { major = 1; minor = n; patch = 3 }

parse-display_example : parse (display (version 2)) ≡ ok (version 2)
parse-display_example = parse-display (version 2) (ground arith)

version_parsed : parse (codes "1.2.3") ≡ ok (version 2)
unfolding parse parse_component split_on starts_with parse_unsigned parse_digits codes
version_parsed = refl

no_plus : Lacks b'+' (codes "1.2.3")
unfolding codes
no_plus = ground arith

parse-display_iff_example :
    (parse (codes "1.2.3") ≡ ok (version 2))
    ↔ ((display (version 2) ≡ codes "1.2.3") × IsU64 (version 2))
parse-display_iff_example = parse-display_iff (codes "1.2.3") (version 2) no_plus

parse_plus_display_example : parse (b'+' ∷ display (version 2)) ≡ ok (version 2)
parse_plus_display_example = parse_plus_display (version 2) (ground arith)

abbrev linux_asset : ReleaseAsset
linux_asset = record {
  target_name = codes "linux.tar.gz";
  operating_system = TargetOperatingSystem.linux;
  architecture = TargetArchitecture.x86_64;
  runtime = record { minimum = codes "glibc-2.35"; libc = some Libc.glibc };
  archive_format = ArchiveFormat.tar_gz;
  length = 1000;
  sha256 = [];
  download_origin = codes "https://example.org/a";
  provenance = record {
    source_repository = codes "slee7286/codex-autoapprover";
    source_revision = codes "0123456789abcdef0123456789abcdef01234567";
    build_workflow = codes "release";
    build_id = codes "7";
  };
}

abbrev reviewed_record : CompatibilityRecord
reviewed_record = record {
  tuple = record {
    codex_version = version 2;
    operating_system = CompatibilityOperatingSystem.linux;
    architecture = CompatibilityArchitecture.x86_64;
    surface = local_cli_launcher;
    hook_event = codes "PermissionRequest";
    hook_protocol = codes "permission-request-v1";
    required_tool = codes "Bash";
    tool_input_schema = codes "command-string-v1";
    response_behavior = codes "one-request-structured-allow";
  };
  eligibility = reviewed (codes "evidence");
}

abbrev release : ℕ → ReleaseManifest
release n = record {
  schema_version = 1;
  manifest_target = codes "manifests/1.json";
  release_version = version n;
  release_notes = record { title = codes "notes"; url = codes "https://example.org/n" };
  assets = linux_asset ∷ [];
  compatibility = reviewed_record ∷ [];
}

abbrev on_linux : SelectionInput
on_linux = record {
  installed_autoapprover_version = version 0;
  codex_version = version 2;
  operating_system = TargetOperatingSystem.linux;
  architecture = TargetArchitecture.x86_64;
  runtime = linux_glibc_runtime 2 39;
  surface = local_cli_launcher;
  compatibility_mode = strict;
}

abbrev chosen_release : ℕ → SelectedRelease
chosen_release n = record {
  release = release n;
  asset = linux_asset;
  compatibility = selected_reviewed (codes "evidence");
  explanation = record {
    current_autoapprover_version = version 0;
    new_autoapprover_version = version n;
    compatibility = selected_reviewed (codes "evidence");
    release_notes = record { title = codes "notes"; url = codes "https://example.org/n" };
  };
}

abbrev catalog : List ReleaseManifest
catalog = release 4 ∷ release 5 ∷ release 1 ∷ []

asset_selected : select_asset (linux_asset ∷ []) on_linux ≡ ok linux_asset
unfolding select_asset applicable_assets parse_runtime_minimum runtime_minimum strip_prefix split_on
    parse_glibc_parts parse_decimal is_ascii_digit starts_with parse_unsigned parse_digits
    runtime_meets leb2 sort_by pick_asset codes
asset_selected = refl

select_asset-IsFittingAsset_example : IsFittingAsset (linux_asset ∷ []) on_linux linux_asset
select_asset-IsFittingAsset_example =
    select_asset-IsFittingAsset (linux_asset ∷ []) on_linux linux_asset asset_selected

select_compatibility_iff_example :
    (select_compatibility (reviewed_record ∷ []) on_linux
      ≡ ok (selected_reviewed (codes "evidence")))
    ↔ ((r : CompatibilityRecord) × (keep
            (λ x. tuple_matches x.tuple on_linux)
            (reviewed_record ∷ [])
          ≡ r ∷ [])
        × Grants on_linux.compatibility_mode r.eligibility (selected_reviewed (codes "evidence")))
select_compatibility_iff_example =
    select_compatibility_iff (reviewed_record ∷ []) on_linux (selected_reviewed (codes "evidence"))

considered : consider on_linux (release 4) ≡ ok (chosen_release 4)
unfolding consider select_asset applicable_assets parse_runtime_minimum runtime_minimum strip_prefix
    split_on parse_glibc_parts parse_decimal is_ascii_digit starts_with parse_unsigned parse_digits
    runtime_meets leb2 sort_by pick_asset select_compatibility tuple_matches compatibility_os
    version_beq is_excluded only_record grant cmp codes
considered = refl

unambiguous_catalog : validate_catalog_ambiguity catalog ≡ ok tt
unfolding validate_catalog_ambiguity check_catalog validate_manifest_ambiguity check_assets
    check_records contains version_beq
unambiguous_catalog = refl

consider-select_applicable_example :
    (s : SelectedRelease) × (select_applicable catalog on_linux ≡ selected s)
consider-select_applicable_example =
    consider-select_applicable catalog on_linux (release 4) (chosen_release 4) unambiguous_catalog
      (inl refl) considered

newest_selected : select_applicable catalog on_linux ≡ selected (chosen_release 5)
unfolding select_applicable partition consider select_asset applicable_assets parse_runtime_minimum
    runtime_minimum strip_prefix split_on parse_glibc_parts parse_decimal is_ascii_digit starts_with
    parse_unsigned parse_digits runtime_meets leb2 sort_by pick_asset select_compatibility
    tuple_matches compatibility_os version_beq is_excluded only_record grant cmp older
    validate_catalog_ambiguity check_catalog validate_manifest_ambiguity check_assets check_records
    contains codes
newest_selected = refl

select_applicable-IsNewest_example : IsNewest catalog on_linux (chosen_release 5)
select_applicable-IsNewest_example =
    select_applicable-IsNewest catalog on_linux (chosen_release 5) newest_selected

release_valid : validate_manifest (release 4) ≡ ok tt
unfolding validate_manifest validate_target_name validate_string validate_release_notes validate_url
    validate_assets validate_asset validate_runtime validate_provenance validate_records
    validate_compatibility validate_eligibility is_supported_tuple is_coherent parse_runtime_minimum
    runtime_minimum strip_prefix split_on parse_glibc_parts parse_decimal is_ascii_digit starts_with
    parse_unsigned parse_digits contains contains_str is_traversal is_control is_whitespace chars
    codes bytes_beq is_ascii_hexdigit
release_valid = refl

validate_manifest-validate_manifest_ambiguity_example :
    validate_manifest_ambiguity (release 4) ≡ ok tt
validate_manifest-validate_manifest_ambiguity_example =
    validate_manifest-validate_manifest_ambiguity (release 4) release_valid
