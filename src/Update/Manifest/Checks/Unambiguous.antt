-- ===== src/Update/Manifest/Checks/Unambiguous.antt =====
-- About `validate_manifest` of src/update/manifest.rs and `validate_manifest_ambiguity` of
-- src/update/selection.rs.
use codex_autoapprover.Prelude.{
  take, ◌==◌, ==_iff, All, Bool-cases, inl, inr, map, ◌++◌, >>=-eq-ok, Bytes, List, Option, [], ap,
  append-cancel, arith, codes, contains, drop, false, guard, guard-eq-ok, none, not, ok, refl, some,
  true, ◌∷◌, ◌≡◌, nat_eq, bytes_eq, option_eq,
}
use codex_autoapprover.Update.Manifest.Targets.{
  ArchiveFormat, Libc, TargetArchitecture, TargetOperatingSystem, archive_name, libc_name, tar_gz,
  target_arch_name, target_os_name, zip,
}
use codex_autoapprover.Update.Manifest.Schema.{
  ReleaseManifest, CompatibilityRecord, ReleaseAsset, compatibility_identity,
}
use codex_autoapprover.Update.Manifest.Checks.{
  validate_manifest, asset_identity, duplicate_asset_identity, duplicate_target_name, is_coherent,
  validate_asset, validate_assets, validate_records,
}
use codex_autoapprover.Update.Catalog.{
  catalog_identity, check_assets, libc_option_name, validate_manifest_ambiguity, check_records,
}

-- The two identities, on the fields that they are made of.
catalog_text :
    TargetOperatingSystem → TargetArchitecture → Bytes → Option Libc → ArchiveFormat → Bytes
unfolding libc_option_name
catalog_text os arch minimum libc format =
    target_os_name os
    ++ b'|'
      ∷ (target_arch_name arch
          ++ b'|' ∷ (minimum ++ b'|' ∷ (libc_option_name libc ++ b'|' ∷ archive_name format)))

asset_text : TargetOperatingSystem → TargetArchitecture → Bytes → ArchiveFormat → Bytes
asset_text os arch minimum format =
    target_os_name os
    ++ b'|' ∷ (target_arch_name arch ++ b'|' ∷ (minimum ++ b'|' ∷ archive_name format))

-- On coherent assets, the shorter identity is as fine as the longer one.
coherent_identity :
    (os os' : TargetOperatingSystem) (arch arch' : TargetArchitecture) (minimum minimum' : Bytes)
    (libc libc' : Option Libc) (format format' : ArchiveFormat)
    → is_coherent os format libc ≡ true
    → is_coherent os' format' libc' ≡ true
    → catalog_text os arch minimum libc format ≡ catalog_text os' arch' minimum' libc' format'
    → asset_text os arch minimum format ≡ asset_text os' arch' minimum' format'
unfolding is_coherent catalog_text asset_text target_os_name target_arch_name archive_name libc_name
    codes libc_option_name
coherent_identity TargetOperatingSystem.windows TargetOperatingSystem.windows
      TargetArchitecture.x86_64 TargetArchitecture.x86_64 m m' none none zip zip c d h =
    ap (λ x. asset_text TargetOperatingSystem.windows TargetArchitecture.x86_64 x ArchiveFormat.zip)
      (append-cancel m m' (codes "|None|Zip") (ap (drop 15) h))
coherent_identity TargetOperatingSystem.windows TargetOperatingSystem.windows a a' m m' none
      (some g) zip zip c d h =
    cc
coherent_identity TargetOperatingSystem.windows TargetOperatingSystem.windows a a' m m' none none
      zip tar_gz c d h =
    cc
coherent_identity TargetOperatingSystem.windows TargetOperatingSystem.windows a a' m m' none
      (some g) zip tar_gz c d h =
    cc
coherent_identity TargetOperatingSystem.windows TargetOperatingSystem.linux a a' m m' none none zip
      zip c d h =
    cc
coherent_identity TargetOperatingSystem.windows TargetOperatingSystem.linux a a' m m' none (some g)
      zip zip c d h =
    cc
coherent_identity TargetOperatingSystem.windows TargetOperatingSystem.linux a a' m m' none none zip
      tar_gz c d h =
    cc
coherent_identity TargetOperatingSystem.windows TargetOperatingSystem.linux
      TargetArchitecture.x86_64 TargetArchitecture.x86_64 m m' none (some Libc.glibc) zip tar_gz c d
      h =
    absurd (ground (arith, ap (take 1) h))
coherent_identity TargetOperatingSystem.windows os a a' m m' (some g) k zip f c d h = cc
coherent_identity TargetOperatingSystem.windows os a a' m m' none k tar_gz f c d h = cc
coherent_identity TargetOperatingSystem.windows os a a' m m' (some g) k tar_gz f c d h = cc
coherent_identity TargetOperatingSystem.linux os a a' m m' none k zip f c d h = cc
coherent_identity TargetOperatingSystem.linux os a a' m m' (some g) k zip f c d h = cc
coherent_identity TargetOperatingSystem.linux os a a' m m' none k tar_gz f c d h = cc
coherent_identity TargetOperatingSystem.linux TargetOperatingSystem.windows
      TargetArchitecture.x86_64 TargetArchitecture.x86_64 m m' (some Libc.glibc) none tar_gz zip c d
      h =
    absurd (ground (arith, ap (take 1) h))
coherent_identity TargetOperatingSystem.linux TargetOperatingSystem.windows a a' m m'
      (some Libc.glibc) (some g) tar_gz zip c d h =
    cc
coherent_identity TargetOperatingSystem.linux TargetOperatingSystem.windows a a' m m'
      (some Libc.glibc) none tar_gz tar_gz c d h =
    cc
coherent_identity TargetOperatingSystem.linux TargetOperatingSystem.windows a a' m m'
      (some Libc.glibc) (some g) tar_gz tar_gz c d h =
    cc
coherent_identity TargetOperatingSystem.linux TargetOperatingSystem.linux a a' m m'
      (some Libc.glibc) none tar_gz zip c d h =
    cc
coherent_identity TargetOperatingSystem.linux TargetOperatingSystem.linux a a' m m'
      (some Libc.glibc) (some g) tar_gz zip c d h =
    cc
coherent_identity TargetOperatingSystem.linux TargetOperatingSystem.linux a a' m m'
      (some Libc.glibc) none tar_gz tar_gz c d h =
    cc
coherent_identity TargetOperatingSystem.linux TargetOperatingSystem.linux TargetArchitecture.x86_64
      TargetArchitecture.x86_64 m m' (some Libc.glibc) (some Libc.glibc) tar_gz tar_gz c d h =
    ap
      (λ x. asset_text TargetOperatingSystem.linux TargetArchitecture.x86_64 x ArchiveFormat.tar_gz)
      (append-cancel m m' (codes "|Some(Glibc)|TarGz") (ap (drop 13) h))

abbrev pub IsCoherent : ReleaseAsset → Type 0
IsCoherent a = is_coherent a.operating_system a.archive_format a.runtime.libc ≡ true

same_identity :
    (a b : ReleaseAsset)
    → IsCoherent a
    → IsCoherent b
    → catalog_identity a ≡ catalog_identity b
    → asset_identity a ≡ asset_identity b
unfolding catalog_identity asset_identity catalog_text asset_text
same_identity a b c d h =
    coherent_identity a.operating_system b.operating_system a.architecture b.architecture
      a.runtime.minimum b.runtime.minimum a.runtime.libc b.runtime.libc a.archive_format
      b.archive_format c d h

validate_asset-IsCoherent : (a : ReleaseAsset) → validate_asset a ≡ ok tt → IsCoherent a
unfolding validate_asset
validate_asset-IsCoherent a h = ground arith

validate_manifest_loops :
    (m : ReleaseManifest)
    → validate_manifest m ≡ ok tt
    → (validate_assets [] [] m.assets ≡ ok tt) × (validate_records [] m.compatibility ≡ ok tt)
unfolding validate_manifest
validate_manifest_loops m h = ground arith

records_unambiguous :
    (identities : List Bytes) (rs : List CompatibilityRecord)
    → validate_records identities rs ≡ ok tt
    → check_records identities rs ≡ ok tt
unfolding validate_records check_records
records_unambiguous identities [] h = refl
records_unambiguous identities (r ∷ rs) h =
    ground (arith, records_unambiguous (compatibility_identity r.tuple ∷ identities) rs)

asset_checked :
    (names identities : List Bytes) (asset : ReleaseAsset) (rest : List ReleaseAsset)
    → validate_assets names identities (asset ∷ rest) ≡ ok tt
    → (validate_asset asset ≡ ok tt)
      × (contains names asset.target_name ≡ false)
      × (contains identities (asset_identity asset) ≡ false)
      × (validate_assets (asset.target_name ∷ names) (asset_identity asset ∷ identities) rest
          ≡ ok tt)
unfolding validate_assets
asset_checked names identities asset rest h =
    let (_, v, k1) = >>=-eq-ok (validate_asset asset) _ h in
    let (_, a, k2) =
      >>=-eq-ok (guard (not (contains names asset.target_name)) duplicate_target_name) _ k1 in
    let (_, b, k3) =
      >>=-eq-ok (guard (not (contains identities (asset_identity asset))) duplicate_asset_identity)
        _ k2 in
    let a' = guard-eq-ok _ _ a in let b' = guard-eq-ok _ _ b in (v, ground arith, ground arith, k3)

-- The identities of coherent assets that were seen before, in both forms.
identity_contained :
    (seen : List ReleaseAsset) (a : ReleaseAsset)
    → All IsCoherent seen
    → IsCoherent a
    → contains (map asset_identity seen) (asset_identity a) ≡ false
    → contains (map catalog_identity seen) (catalog_identity a) ≡ false
unfolding contains
identity_contained [] a s c h = refl
identity_contained (b ∷ seen) a s c h =
    elim (Bool-cases (catalog_identity a == catalog_identity b)) [
      | inl e ↦ absurd (
          ground (
            arith,
            (==_iff (asset_identity a) (asset_identity b)).1
                (same_identity a b c s.0 ((==_iff (catalog_identity a) (catalog_identity b)).0 e)),
          ))
      | inr e ↦ rw e (identity_contained seen a s.1 c (ground arith))
    ]

assets_unambiguous :
    (seen assets : List ReleaseAsset)
    → All IsCoherent seen
    → validate_assets (map (λ b. b.target_name) seen) (map asset_identity seen) assets ≡ ok tt
    → check_assets (map (λ b. b.target_name) seen) (map catalog_identity seen) assets ≡ ok tt
unfolding check_assets
assets_unambiguous seen [] s h = refl
assets_unambiguous seen (a ∷ rest) s h =
    let (v, n, i, k) =
      asset_checked (map (λ b. b.target_name) seen) (map asset_identity seen) a rest h in
    let c = validate_asset-IsCoherent a v in
    let more = assets_unambiguous (a ∷ seen) rest (c, s) k in
    rw (n, identity_contained seen a s c i) more

-- A manifest that passes the validation also passes the selection's tests for ambiguity.
pub validate_manifest-validate_manifest_ambiguity :
    (m : ReleaseManifest) → validate_manifest m ≡ ok tt → validate_manifest_ambiguity m ≡ ok tt
unfolding validate_manifest_ambiguity
validate_manifest-validate_manifest_ambiguity m h =
    let (a, r) = validate_manifest_loops m h in
    rw (assets_unambiguous [] m.assets tt a) (records_unambiguous [] m.compatibility r)
