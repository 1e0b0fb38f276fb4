-- ===== src/Update/Manifest/Targets.antt =====
-- What an asset of src/update/manifest.rs is built for: its enumerations, their `PartialEq` and the
-- names that `{:?}` prints.
use codex_autoapprover.Prelude.{
  Bytes, Eq, ap, arith, codes, if◌then◌else◌, if◌then◌else◌, nat_eqb, refl, sym, if◌then◌else◌,
  true, ℕ, ◌↔◌, ◌∙◌, ◌≡◌,
}

pub data TargetOperatingSystem : Type 0 where
  linux : TargetOperatingSystem
  windows : TargetOperatingSystem

-- `Debug` of `TargetOperatingSystem`
unfoldable pub target_os_name : TargetOperatingSystem → Bytes
target_os_name TargetOperatingSystem.linux = codes "Linux"
target_os_name TargetOperatingSystem.windows = codes "Windows"

abbrev pub target_os_code : TargetOperatingSystem → ℕ
target_os_code TargetOperatingSystem.linux = 0
target_os_code TargetOperatingSystem.windows = 1

abbrev target_os_of : ℕ → TargetOperatingSystem
target_os_of n = if nat_eqb n 0 then TargetOperatingSystem.linux else TargetOperatingSystem.windows

target_os_of-code : (a : TargetOperatingSystem) → target_os_of (target_os_code a) ≡ a
target_os_of-code TargetOperatingSystem.linux = refl
target_os_of-code TargetOperatingSystem.windows = refl

pub target_os_beq_iff :
    (a b : TargetOperatingSystem) → (nat_eqb (target_os_code a) (target_os_code b) ≡ true) ↔ (a ≡ b)
target_os_beq_iff a b = (
  λ h.
      let p : target_os_code a ≡ target_os_code b = ground arith in
      sym (target_os_of-code a) ∙ ap target_os_of p ∙ target_os_of-code b,
  λ h. ground (arith, ap target_os_code h),
)

instance abbrev pub target_os_eq : Eq TargetOperatingSystem
target_os_eq = record {
  beq = λ a b. nat_eqb (target_os_code a) (target_os_code b);
  beq_iff = target_os_beq_iff;
}

pub data TargetArchitecture : Type 0 where
  x86_64 : TargetArchitecture

-- `Debug` of `TargetArchitecture`
unfoldable pub target_arch_name : TargetArchitecture → Bytes
target_arch_name TargetArchitecture.x86_64 = codes "X86_64"

abbrev pub target_arch_code : TargetArchitecture → ℕ
target_arch_code TargetArchitecture.x86_64 = 0

abbrev target_arch_of : ℕ → TargetArchitecture
target_arch_of n = TargetArchitecture.x86_64

target_arch_of-code : (a : TargetArchitecture) → target_arch_of (target_arch_code a) ≡ a
target_arch_of-code TargetArchitecture.x86_64 = refl

pub target_arch_beq_iff :
    (a b : TargetArchitecture)
    → (nat_eqb (target_arch_code a) (target_arch_code b) ≡ true) ↔ (a ≡ b)
target_arch_beq_iff a b = (
  λ h.
      let p : target_arch_code a ≡ target_arch_code b = ground arith in
      sym (target_arch_of-code a) ∙ ap target_arch_of p ∙ target_arch_of-code b,
  λ h. ground (arith, ap target_arch_code h),
)

instance abbrev pub target_arch_eq : Eq TargetArchitecture
target_arch_eq = record {
  beq = λ a b. nat_eqb (target_arch_code a) (target_arch_code b);
  beq_iff = target_arch_beq_iff;
}

pub data ArchiveFormat : Type 0 where
  zip : ArchiveFormat
  tar_gz : ArchiveFormat

-- `Debug` of `ArchiveFormat`
unfoldable pub archive_name : ArchiveFormat → Bytes
archive_name ArchiveFormat.zip = codes "Zip"
archive_name ArchiveFormat.tar_gz = codes "TarGz"

pub data Libc : Type 0 where
  glibc : Libc

-- `Debug` of `Libc`
unfoldable pub libc_name : Libc → Bytes
libc_name Libc.glibc = codes "Glibc"

abbrev pub libc_code : Libc → ℕ
libc_code Libc.glibc = 0

abbrev libc_of : ℕ → Libc
libc_of n = Libc.glibc

libc_of-code : (a : Libc) → libc_of (libc_code a) ≡ a
libc_of-code Libc.glibc = refl

pub libc_beq_iff : (a b : Libc) → (nat_eqb (libc_code a) (libc_code b) ≡ true) ↔ (a ≡ b)
libc_beq_iff a b = (
  λ h.
      let p : libc_code a ≡ libc_code b = ground arith in
      sym (libc_of-code a) ∙ ap libc_of p ∙ libc_of-code b,
  λ h. ground (arith, ap libc_code h),
)

instance abbrev pub libc_eq : Eq Libc
libc_eq = record { beq = λ a b. nat_eqb (libc_code a) (libc_code b); beq_iff = libc_beq_iff }
