-- ===== src/Update/Runtime.antt =====
-- The runtime requirements of src/update/selection.rs: what an asset asks for, what an environment
-- offers, and whether that is enough.
use codex_autoapprover.Prelude.{
  ◌||◌, ◌&&◌, ◌-◌, Bool, Bytes, List, Option, Result, [], ◌^◌, all, codes, if◌then◌else◌, err,
  false, if◌then◌else◌, is_ascii_digit, is_nil, leb, length, ltb, nat_eqb, none, not, ok, ok_or,
  some, split_on, starts_with, strip_prefix, if◌then◌else◌, true, ℕ, ◌∷◌,
}
use codex_autoapprover.Compatibility.{max_u16}
use codex_autoapprover.Prelude.Decimal.{parse_unsigned}
use codex_autoapprover.Update.Manifest.Targets.{Libc, TargetOperatingSystem}
use codex_autoapprover.Update.Manifest.Schema.{ReleaseAsset}

pub data SelectionRejectionReason : Type 0 where
  empty_catalog : SelectionRejectionReason
  duplicate_release_version : SelectionRejectionReason
  conflicting_asset_identity : SelectionRejectionReason
  ambiguous_asset : SelectionRejectionReason
  ambiguous_compatibility : SelectionRejectionReason
  not_newer_than_installed : SelectionRejectionReason
  unsupported_platform : SelectionRejectionReason
  unsupported_architecture : SelectionRejectionReason
  unknown_runtime : SelectionRejectionReason
  unsupported_runtime : SelectionRejectionReason
  malformed_runtime_requirement : SelectionRejectionReason
  runtime_below_minimum : SelectionRejectionReason
  compatibility_excluded : SelectionRejectionReason
  compatibility_unavailable : SelectionRejectionReason
  strict_requires_reviewed : SelectionRejectionReason

pub data RuntimeEnvironment : Type 0 where
  windows_runtime : (major year half : ℕ) → RuntimeEnvironment
  linux_glibc_runtime : (major minor : ℕ) → RuntimeEnvironment
  unknown_environment : RuntimeEnvironment

pub data RuntimeMinimum : Type 0 where
  windows_minimum : (major year half : ℕ) → RuntimeMinimum
  linux_glibc_minimum : (major minor : ℕ) → RuntimeMinimum

-- `parse_decimal_u16` and `parse_decimal_u8`, by the largest value of the type.
unfoldable pub parse_decimal : ℕ → Bytes → Option ℕ
parse_decimal max value =
    if is_nil value
      || not (all is_ascii_digit value)
      || (ltb 1 (length value) && starts_with value (b'0' ∷ []))
    then none
    else parse_unsigned max value

abbrev pub max_u8 : ℕ
max_u8 = 2 ^ 8 - 1

-- A byte that starts a character: `str::get` cuts only in front of one.
unfoldable pub is_boundary_byte : ℕ → Bool
is_boundary_byte b = ltb b 128 || leb 192 b

-- The part `YYhH` of a Windows release: four bytes, the year in two digits without a leading zero,
-- and the half 1 or 2.
unfoldable pub parse_release : Bytes → Option (ℕ × ℕ)
unfolding parse_decimal is_boundary_byte
parse_release (a ∷ b ∷ c ∷ d ∷ []) =
    if is_boundary_byte c
    then elim (parse_decimal max_u16 (a ∷ b ∷ [])) [
      | none ↦ none
      | some year ↦ elim (strip_prefix (c ∷ d ∷ []) (codes "h")) [
        | none ↦ none
        | some rest ↦ elim (parse_decimal max_u8 rest) [
          | none ↦ none
          | some half ↦ if nat_eqb half 1 || nat_eqb half 2 then some (year, half) else none
        ]
      ]
    ]
    else none
parse_release _ = none

unfoldable pub parse_windows_parts : List Bytes → Option RuntimeMinimum
unfolding parse_release
parse_windows_parts (major ∷ release ∷ []) = elim (parse_decimal max_u16 major) [
  | none ↦ none
  | some m ↦ elim (parse_release release) [
    | none ↦ none
    | some (year, half) ↦ some (windows_minimum m year half)
  ]
]
parse_windows_parts _ = none

unfoldable pub parse_glibc_parts : List Bytes → Option RuntimeMinimum
unfolding parse_decimal
parse_glibc_parts (major ∷ minor ∷ []) = elim (parse_decimal max_u16 major) [
  | none ↦ none
  | some m ↦ elim (parse_decimal max_u16 minor) [
    | none ↦ none
    | some n ↦ some (linux_glibc_minimum m n)
  ]
]
parse_glibc_parts _ = none

-- The minimum of an operating system, by its C library and the text.
unfoldable pub runtime_minimum : TargetOperatingSystem → Option Libc → Bytes → Option RuntimeMinimum
unfolding parse_windows_parts parse_glibc_parts
runtime_minimum TargetOperatingSystem.windows none minimum =
    elim (strip_prefix minimum (codes "windows-")) [
      | none ↦ none
      | some value ↦ parse_windows_parts (split_on b'-' value)
    ]
runtime_minimum TargetOperatingSystem.windows (some c) minimum = none
runtime_minimum TargetOperatingSystem.linux (some Libc.glibc) minimum =
    elim (strip_prefix minimum (codes "glibc-")) [
      | none ↦ none
      | some value ↦ parse_glibc_parts (split_on b'.' value)
    ]
runtime_minimum TargetOperatingSystem.linux none minimum = none

-- `parse_runtime_minimum`: every refusal has the same reason.
unfoldable pub parse_runtime_minimum : ReleaseAsset → Result SelectionRejectionReason RuntimeMinimum
parse_runtime_minimum asset =
    ok_or (runtime_minimum asset.operating_system asset.runtime.libc asset.runtime.minimum)
      malformed_runtime_requirement

-- The order of tuples, and the derived order of `RuntimeMinimum`: the variant first.
unfoldable pub leb2 : ℕ → ℕ → ℕ → ℕ → Bool
leb2 a b c d = ltb a c || (nat_eqb a c && leb b d)

unfoldable pub leb3 : ℕ → ℕ → ℕ → ℕ → ℕ → ℕ → Bool
unfolding leb2
leb3 a b c d e f = ltb a d || (nat_eqb a d && leb2 b c e f)

unfoldable pub minimum_leb : RuntimeMinimum → RuntimeMinimum → Bool
unfolding leb3
minimum_leb (windows_minimum a b c) (windows_minimum d e f) = leb3 a b c d e f
minimum_leb (windows_minimum a b c) (linux_glibc_minimum d e) = true
minimum_leb (linux_glibc_minimum a b) (windows_minimum c d e) = false
minimum_leb (linux_glibc_minimum a b) (linux_glibc_minimum c d) = leb2 a b c d

unfoldable pub runtime_meets :
    RuntimeEnvironment
    → TargetOperatingSystem
    → RuntimeMinimum
    → Result SelectionRejectionReason Bool
unfolding leb3
runtime_meets unknown_environment os minimum = err unknown_runtime
runtime_meets (windows_runtime a b c) TargetOperatingSystem.windows (windows_minimum d e f) =
    if not (nat_eqb c 1 || nat_eqb c 2) then err unknown_runtime else ok (leb3 d e f a b c)
runtime_meets (windows_runtime a b c) TargetOperatingSystem.windows (linux_glibc_minimum d e) =
    err unsupported_runtime
runtime_meets (windows_runtime a b c) TargetOperatingSystem.linux minimum = err unsupported_runtime
runtime_meets (linux_glibc_runtime a b) TargetOperatingSystem.linux (linux_glibc_minimum c d) =
    ok (leb2 c d a b)
runtime_meets (linux_glibc_runtime a b) TargetOperatingSystem.linux (windows_minimum c d e) =
    err unsupported_runtime
runtime_meets (linux_glibc_runtime a b) TargetOperatingSystem.windows minimum =
    err unsupported_runtime
