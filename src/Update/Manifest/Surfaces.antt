-- ===== src/Update/Manifest/Surfaces.antt =====
-- What a compatibility record of src/update/manifest.rs is about: its enumerations, their
-- `PartialEq` and the names that `{:?}` prints.
use codex_autoapprover.Prelude.{
  Bytes, Eq, ap, arith, codes, if◌then◌else◌, if◌then◌else◌, nat_eqb, refl, sym, if◌then◌else◌,
  true, ℕ, ◌↔◌, ◌∙◌, ◌≡◌,
}

pub data CompatibilityOperatingSystem : Type 0 where
  linux : CompatibilityOperatingSystem
  mac_os : CompatibilityOperatingSystem
  windows : CompatibilityOperatingSystem
  other : CompatibilityOperatingSystem

-- `Debug` of `CompatibilityOperatingSystem`
unfoldable pub compatibility_os_name : CompatibilityOperatingSystem → Bytes
compatibility_os_name CompatibilityOperatingSystem.linux = codes "Linux"
compatibility_os_name CompatibilityOperatingSystem.mac_os = codes "MacOs"
compatibility_os_name CompatibilityOperatingSystem.windows = codes "Windows"
compatibility_os_name CompatibilityOperatingSystem.other = codes "Other"

abbrev pub compatibility_os_code : CompatibilityOperatingSystem → ℕ
compatibility_os_code CompatibilityOperatingSystem.linux = 0
compatibility_os_code CompatibilityOperatingSystem.mac_os = 1
compatibility_os_code CompatibilityOperatingSystem.windows = 2
compatibility_os_code CompatibilityOperatingSystem.other = 3

abbrev compatibility_os_of : ℕ → CompatibilityOperatingSystem
compatibility_os_of n =
    if nat_eqb n 0
    then CompatibilityOperatingSystem.linux
    else if nat_eqb n 1
    then CompatibilityOperatingSystem.mac_os
    else if nat_eqb n 2
    then CompatibilityOperatingSystem.windows
    else CompatibilityOperatingSystem.other

compatibility_os_of-code :
    (a : CompatibilityOperatingSystem) → compatibility_os_of (compatibility_os_code a) ≡ a
compatibility_os_of-code CompatibilityOperatingSystem.linux = refl
compatibility_os_of-code CompatibilityOperatingSystem.mac_os = refl
compatibility_os_of-code CompatibilityOperatingSystem.windows = refl
compatibility_os_of-code CompatibilityOperatingSystem.other = refl

pub compatibility_os_beq_iff :
    (a b : CompatibilityOperatingSystem)
    → (nat_eqb (compatibility_os_code a) (compatibility_os_code b) ≡ true) ↔ (a ≡ b)
compatibility_os_beq_iff a b = (
  λ h.
      let p : compatibility_os_code a ≡ compatibility_os_code b = ground arith in
      sym (compatibility_os_of-code a) ∙ ap compatibility_os_of p ∙ compatibility_os_of-code b,
  λ h. ground (arith, ap compatibility_os_code h),
)

instance abbrev pub compatibility_os_eq : Eq CompatibilityOperatingSystem
compatibility_os_eq = record {
  beq = λ a b. nat_eqb (compatibility_os_code a) (compatibility_os_code b);
  beq_iff = compatibility_os_beq_iff;
}

pub data CompatibilityArchitecture : Type 0 where
  x86_64 : CompatibilityArchitecture
  aarch64 : CompatibilityArchitecture
  other : CompatibilityArchitecture

-- `Debug` of `CompatibilityArchitecture`
unfoldable pub compatibility_arch_name : CompatibilityArchitecture → Bytes
compatibility_arch_name CompatibilityArchitecture.x86_64 = codes "X86_64"
compatibility_arch_name CompatibilityArchitecture.aarch64 = codes "Aarch64"
compatibility_arch_name CompatibilityArchitecture.other = codes "Other"

abbrev pub compatibility_arch_code : CompatibilityArchitecture → ℕ
compatibility_arch_code CompatibilityArchitecture.x86_64 = 0
compatibility_arch_code CompatibilityArchitecture.aarch64 = 1
compatibility_arch_code CompatibilityArchitecture.other = 2

abbrev compatibility_arch_of : ℕ → CompatibilityArchitecture
compatibility_arch_of n =
    if nat_eqb n 0
    then CompatibilityArchitecture.x86_64
    else if nat_eqb n 1
    then CompatibilityArchitecture.aarch64
    else CompatibilityArchitecture.other

compatibility_arch_of-code :
    (a : CompatibilityArchitecture) → compatibility_arch_of (compatibility_arch_code a) ≡ a
compatibility_arch_of-code CompatibilityArchitecture.x86_64 = refl
compatibility_arch_of-code CompatibilityArchitecture.aarch64 = refl
compatibility_arch_of-code CompatibilityArchitecture.other = refl

pub compatibility_arch_beq_iff :
    (a b : CompatibilityArchitecture)
    → (nat_eqb (compatibility_arch_code a) (compatibility_arch_code b) ≡ true) ↔ (a ≡ b)
compatibility_arch_beq_iff a b = (
  λ h.
      let p : compatibility_arch_code a ≡ compatibility_arch_code b = ground arith in
      sym (compatibility_arch_of-code a)
      ∙ ap compatibility_arch_of p
      ∙ compatibility_arch_of-code b,
  λ h. ground (arith, ap compatibility_arch_code h),
)

instance abbrev pub compatibility_arch_eq : Eq CompatibilityArchitecture
compatibility_arch_eq = record {
  beq = λ a b. nat_eqb (compatibility_arch_code a) (compatibility_arch_code b);
  beq_iff = compatibility_arch_beq_iff;
}

pub data CompatibilitySurface : Type 0 where
  local_cli_launcher : CompatibilitySurface
  vs_code_ide : CompatibilitySurface
  desktop_app : CompatibilitySurface
  remote_environment : CompatibilitySurface
  container : CompatibilitySurface
  wsl : CompatibilitySurface
  ssh_hosted_ide : CompatibilitySurface
  codex_cloud : CompatibilitySurface
  unknown : CompatibilitySurface

-- `Debug` of `CompatibilitySurface`
unfoldable pub surface_name : CompatibilitySurface → Bytes
surface_name CompatibilitySurface.local_cli_launcher = codes "LocalCliLauncher"
surface_name CompatibilitySurface.vs_code_ide = codes "VsCodeIde"
surface_name CompatibilitySurface.desktop_app = codes "DesktopApp"
surface_name CompatibilitySurface.remote_environment = codes "RemoteEnvironment"
surface_name CompatibilitySurface.container = codes "Container"
surface_name CompatibilitySurface.wsl = codes "Wsl"
surface_name CompatibilitySurface.ssh_hosted_ide = codes "SshHostedIde"
surface_name CompatibilitySurface.codex_cloud = codes "CodexCloud"
surface_name CompatibilitySurface.unknown = codes "Unknown"

abbrev pub surface_code : CompatibilitySurface → ℕ
surface_code CompatibilitySurface.local_cli_launcher = 0
surface_code CompatibilitySurface.vs_code_ide = 1
surface_code CompatibilitySurface.desktop_app = 2
surface_code CompatibilitySurface.remote_environment = 3
surface_code CompatibilitySurface.container = 4
surface_code CompatibilitySurface.wsl = 5
surface_code CompatibilitySurface.ssh_hosted_ide = 6
surface_code CompatibilitySurface.codex_cloud = 7
surface_code CompatibilitySurface.unknown = 8

abbrev surface_of : ℕ → CompatibilitySurface
surface_of n =
    if nat_eqb n 0
    then CompatibilitySurface.local_cli_launcher
    else if nat_eqb n 1
    then CompatibilitySurface.vs_code_ide
    else if nat_eqb n 2
    then CompatibilitySurface.desktop_app
    else if nat_eqb n 3
    then CompatibilitySurface.remote_environment
    else if nat_eqb n 4
    then CompatibilitySurface.container
    else if nat_eqb n 5
    then CompatibilitySurface.wsl
    else if nat_eqb n 6
    then CompatibilitySurface.ssh_hosted_ide
    else if nat_eqb n 7
    then CompatibilitySurface.codex_cloud
    else CompatibilitySurface.unknown

surface_of-code : (a : CompatibilitySurface) → surface_of (surface_code a) ≡ a
surface_of-code CompatibilitySurface.local_cli_launcher = refl
surface_of-code CompatibilitySurface.vs_code_ide = refl
surface_of-code CompatibilitySurface.desktop_app = refl
surface_of-code CompatibilitySurface.remote_environment = refl
surface_of-code CompatibilitySurface.container = refl
surface_of-code CompatibilitySurface.wsl = refl
surface_of-code CompatibilitySurface.ssh_hosted_ide = refl
surface_of-code CompatibilitySurface.codex_cloud = refl
surface_of-code CompatibilitySurface.unknown = refl

pub surface_beq_iff :
    (a b : CompatibilitySurface) → (nat_eqb (surface_code a) (surface_code b) ≡ true) ↔ (a ≡ b)
surface_beq_iff a b = (
  λ h.
      let p : surface_code a ≡ surface_code b = ground arith in
      sym (surface_of-code a) ∙ ap surface_of p ∙ surface_of-code b,
  λ h. ground (arith, ap surface_code h),
)

instance abbrev pub surface_eq : Eq CompatibilitySurface
surface_eq = record {
  beq = λ a b. nat_eqb (surface_code a) (surface_code b);
  beq_iff = surface_beq_iff;
}

pub data ExperimentalBasis : Type 0 where
  stable_at_or_above_adapter_baseline : ExperimentalBasis
  capability_probe_only : ExperimentalBasis
  requested_target : ExperimentalBasis
