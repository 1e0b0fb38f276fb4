-- ===== src/Admission.antt =====
-- src/admission.rs: whether a launch may be armed, and the check of the same facts at each request.
pub mod Tuple
use codex_autoapprover.Prelude.{
  ◌&&◌, ◌++◌, ◌-◌, ◌==◌, ◌>>◌, ◌>>=◌, Bool, Bytes, List, Option, Result, [], any, codes, contains,
  if◌then◌else◌, err, false, guard, if◌then◌else◌, none, ok, ok_or, some, starts_with,
  if◌then◌else◌, true, ℕ, ◌∷◌, nat_eq, bytes_eq, option_eq,
}
use codex_autoapprover.Artifact.{Bundle, BundleError, Location, recheck_bundle}
use codex_autoapprover.Certification.{CertificationError, Manifest, Target, admits}
use codex_autoapprover.Environment.{EnvironmentError, Host}
use codex_autoapprover.Identity.{Executable, FilePath, Files, IdentityError, verify_image}
use codex_autoapprover.Platform.{OperatingSystem, is_linux, is_windows}
use codex_autoapprover.Arming.{protocol_version}

pub record Installation : Type 0 where
  pub path : FilePath
  pub version : Bytes

pub record Admission : Type 0 where
  pub target : Target
  pub executable : Executable
  pub bundle : Bundle
  pub host : Host

pub data AdmissionError : Type 0 where
  bad_manifest : CertificationError → AdmissionError
  no_certification : AdmissionError
  not_unicode_argument : AdmissionError
  missing_argument_value : AdmissionError
  uncertified_option : AdmissionError
  uncertified_subcommand : AdmissionError
  ambiguous_arguments : AdmissionError
  host_unknown : EnvironmentError → AdmissionError
  unsupported_surface : AdmissionError
  no_sandbox : AdmissionError
  unknown_sandbox : AdmissionError
  other_sandbox_mode : AdmissionError
  package_refused : BundleError → AdmissionError
  not_certified : AdmissionError
  identity_changed : AdmissionError
  image_refused : IdentityError → AdmissionError

-- A result of another module with its error.
abbrev pub lift_error : {E A : Type 0} → (E → AdmissionError) → Result E A → Result AdmissionError A
lift_error f (ok a) = ok a
lift_error f (err e) = err (f e)

-- The options that take a value, the options without one, and the subcommands.
abbrev pub valued_options : List Bytes
valued_options = codes "--model" ∷ codes "-m" ∷ codes "--image" ∷ codes "-i" ∷ []

abbrev pub plain_options : List Bytes
plain_options = codes "--search" ∷ codes "--no-alt-screen" ∷ []

abbrev pub subcommands : List Bytes
subcommands =
    codes "exec"
    ∷ codes "e"
    ∷ codes "resume"
    ∷ codes "fork"
    ∷ codes "app-server"
    ∷ codes "remote"
    ∷ codes "cloud"
    ∷ codes "login"
    ∷ codes "logout"
    ∷ codes "sandbox"
    ∷ codes "mcp"
    ∷ codes "doctor"
    ∷ codes "features"
    ∷ codes "review"
    ∷ codes "apply"
    ∷ codes "completion"
    ∷ codes "debug"
    ∷ codes "update"
    ∷ codes "help"
    ∷ []

-- The loop of `validate_arguments`; none is an argument that is not Unicode.
unfoldable pub validate_from : Bool → List (Option Bytes) → Result AdmissionError (Unit {0})
validate_from prompt_seen [] = ok tt
validate_from prompt_seen (none ∷ rest) = err not_unicode_argument
validate_from prompt_seen (some arg ∷ []) =
    if contains valued_options arg
    then err missing_argument_value
    else if contains plain_options arg
    then ok tt
    else if starts_with arg (codes "-")
    then err uncertified_option
    else if contains subcommands arg
    then err uncertified_subcommand
    else if prompt_seen
    then err ambiguous_arguments
    else ok tt
validate_from prompt_seen (some arg ∷ next ∷ rest) =
    let behind_value = validate_from prompt_seen rest in
    let behind = validate_from prompt_seen (next ∷ rest) in
    let behind_prompt = validate_from true (next ∷ rest) in
    if contains valued_options arg
    then behind_value
    else if contains plain_options arg
    then behind
    else if starts_with arg (codes "-")
    then err uncertified_option
    else if contains subcommands arg
    then err uncertified_subcommand
    else if prompt_seen
    then err ambiguous_arguments
    else behind_prompt

unfoldable pub validate_arguments : List (Option Bytes) → Result AdmissionError (Unit {0})
unfolding validate_from
validate_arguments arguments = validate_from false arguments

unfoldable pub sandbox_overrides : OperatingSystem → Bytes → Result AdmissionError (List Bytes)
sandbox_overrides os sandbox =
    if sandbox == codes "linux-bwrap" && is_linux os
    then ok (codes "features.use_legacy_landlock=false" ∷ [])
    else if sandbox == codes "linux-landlock" && is_linux os
    then ok (codes "features.use_legacy_landlock=true" ∷ [])
    else if sandbox == codes "windows-elevated" && is_windows os
    then ok (codes "windows.sandbox=\"elevated\"" ∷ [])
    else if sandbox == codes "windows-unelevated" && is_windows os
    then ok (codes "windows.sandbox=\"unelevated\"" ∷ [])
    else err unknown_sandbox

unfoldable pub require_workspace_write : Option Bytes → Result AdmissionError (Unit {0})
require_workspace_write mode = guard (mode == some (codes "workspace-write")) other_sandbox_mode

-- The target of an installation on a host.
unfoldable pub target_of : Installation → Host → Bytes → Bundle → Target
target_of installation host sandbox bundle = record {
  codex_version = installation.version;
  os = host.os;
  arch = host.arch;
  os_release = host.os_release;
  os_build = host.os_build;
  sandbox = sandbox;
  surface = host.surface;
  protocol = protocol_version;
  tool = codes "Bash";
  codex_binary_sha256 = bundle.executable.sha256;
  codex_bundle_sha256 = bundle.bundle_sha256;
  launch_kind = bundle.launch_kind;
  launch_artifact_sha256 = bundle.launch_sha256;
  launch_package_sha256 = bundle.launch_package_sha256;
}

unfoldable pub host_beq : Host → Host → Bool
host_beq a b =
    a.os == b.os
    && a.arch == b.arch
    && a.os_release == b.os_release
    && a.os_build == b.os_build
    && a.surface == b.surface

-- What the other components answer while one operation runs: `Manifest::embedded`,
-- `environment::observe`, `Bundle::discover`, and the reads of `Bundle::recheck`.
pub record AdmissionReads : Type 0 where
  pub manifest : Result CertificationError Manifest
  pub observed : Result EnvironmentError Host
  pub discovered : Result BundleError Bundle
  pub located : Option Location
  pub listed : Option (List Bytes)
  pub files : Files

-- `Admission::inspect`
unfoldable pub inspect :
    OperatingSystem
    → AdmissionReads
    → Installation
    → Option Bytes
    → Option Bytes
    → List (Option Bytes)
    → Result AdmissionError Admission
inspect os reads installation sandbox sandbox_mode arguments = do
  m ← lift_error bad_manifest reads.manifest
  guard (any (λ e. e.target.codex_version == installation.version) m.entries) no_certification
  validate_arguments arguments
  host ← lift_error host_unknown reads.observed
  guard (host.surface == codes "native-cli") unsupported_surface
  chosen ← ok_or sandbox no_sandbox
  overrides ← sandbox_overrides os chosen
  require_workspace_write sandbox_mode
  bundle ← lift_error package_refused reads.discovered
  guard (admits m (target_of installation host chosen bundle)) not_certified
  ok (record {
    target = target_of installation host chosen bundle;
    executable = bundle.executable;
    bundle = bundle;
    host = host;
  })

-- `Admission::recheck`
unfoldable pub recheck : AdmissionReads → Admission → Result AdmissionError (Unit {0})
unfolding host_beq
recheck reads a = do
  m ← lift_error bad_manifest reads.manifest
  guard (admits m a.target) identity_changed
  host ← lift_error host_unknown reads.observed
  guard (host_beq host a.host) identity_changed
  lift_error package_refused (recheck_bundle reads.located reads.listed reads.files a.bundle)

-- `Admission::verify_process`
unfoldable pub verify_process : AdmissionReads → Admission → ℕ → Result AdmissionError (Unit {0})
unfolding recheck
verify_process reads a pid = do
  recheck reads a
  lift_error image_refused (verify_image reads.files a.executable pid)

-- The arguments and settings that `configure_child` adds for the sandbox.
unfoldable pub configured_arguments :
    OperatingSystem → Admission → Result AdmissionError (List Bytes)
unfolding sandbox_overrides
configured_arguments os a = do
  settings ← sandbox_overrides os a.target.sandbox
  ok (
      (codes "--no-daemon"
        ∷ codes "-s"
        ∷ codes "workspace-write"
        ∷ codes "-a"
        ∷ codes "on-request"
        ∷ [])
      ++ with_option settings)
  where
    with_option : List Bytes → List Bytes
    with_option [] = []
    with_option (setting ∷ settings) = codes "-c" ∷ setting ∷ with_option settings
