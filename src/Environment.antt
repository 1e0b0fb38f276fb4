-- ===== src/Environment.antt =====
-- src/environment.rs: the host that a launch runs on, from the answers of the process environment
-- and of the files under /proc and /etc. SHA-256 and the library's `trim` are arguments.
pub mod Surfaces
use codex_autoapprover.Prelude.{
  ◌||◌, ◌&&◌, ◌+◌, ◌++◌, ◌/◌, ◌==◌, ◌>>◌, ◌>>=◌, Bool, Bytes, List, Option, Result, [], all, any,
  codes, contains, contains_str, if◌then◌else◌, err, false, guard, if◌then◌else◌,
  is_ascii_alphanumeric, is_ascii_uppercase, is_nil, is_utf8, lines, map, nat_eqb, none, not, ok,
  ok_or, some, strip_prefix, if◌then◌else◌, true, ℕ, ◌∷◌, nat_eq, bytes_eq, option_eq,
}
use codex_autoapprover.Platform.{OperatingSystem, is_linux, is_windows}
use codex_autoapprover.Update.Manifest.Surfaces.{container, wsl}
use codex_autoapprover.Protocol.{field}
use codex_autoapprover.Arming.{hex}
use codex_autoapprover.Process.Stat.{trim}

-- `env::var`
pub data Variable : Type 0 where
  unset : Variable
  unicode : Bytes → Variable
  not_unicode : Variable

-- `fs::symlink_metadata` of a marker file.
pub data Marker : Type 0 where
  marker_found : Marker
  marker_not_found : Marker
  marker_failed : Marker

pub record Host : Type 0 where
  pub os : Bytes
  pub arch : Bytes
  pub os_release : Bytes
  pub os_build : Bytes
  pub surface : Bytes

pub data EnvironmentError : Type 0 where
  unreadable : EnvironmentError
  mismatched_architecture : EnvironmentError
  missing_distro_id : EnvironmentError
  missing_distro_version : EnvironmentError
  native_os_unsupported : EnvironmentError

-- The answers; none is a failed read.
pub record HostReads : Type 0 where
  pub variable : Bytes → Variable
  pub root_uid : Option ℕ
  pub kernel : Option Bytes
  pub marker : Bytes → Marker
  pub cgroups : Option Bytes
  pub own_namespace : Bytes → Option Bytes
  pub first_namespace : Bytes → Option Bytes
  pub machine : Option Bytes
  pub release_file : Option Bytes
  pub kernel_version : Option Bytes
  pub kernel_release : Option Bytes
  pub windows_identity : Option (Bytes × Bytes × Bytes)

-- `env::var_os(key).is_some()`
abbrev pub is_given : Variable → Bool
is_given unset = false
is_given (unicode s) = true
is_given not_unicode = true

-- `env::var(key).is_ok_and(test)`
abbrev pub is_ok_and : (Bytes → Bool) → Variable → Bool
is_ok_and test unset = false
is_ok_and test (unicode s) = test s
is_ok_and test not_unicode = false

unfoldable pub to_ascii_lowercase : Bytes → Bytes
to_ascii_lowercase bytes = map (λ b. if is_ascii_uppercase b then b + 32 else b) bytes

abbrev pub wsl_variables : List Bytes
wsl_variables = codes "WSL_DISTRO_NAME" ∷ codes "WSL_INTEROP" ∷ []

abbrev pub remote_variables : List Bytes
remote_variables =
    codes "SSH_CONNECTION"
    ∷ codes "SSH_CLIENT"
    ∷ codes "SSH_TTY"
    ∷ codes "CODESPACES"
    ∷ codes "CLOUD_SHELL"
    ∷ []

abbrev pub ide_variables : List Bytes
ide_variables =
    codes "VSCODE_PID"
    ∷ codes "VSCODE_IPC_HOOK_CLI"
    ∷ codes "CURSOR_TRACE_ID"
    ∷ codes "REMOTE_CONTAINERS"
    ∷ []

abbrev pub any_given : HostReads → List Bytes → Bool
any_given reads names = any (λ name. is_given (reads.variable name)) names

-- No character outside ASCII has one of these lowercase letters, so that `to_lowercase` is the
-- ASCII one here.
unfoldable pub is_editor : Bytes → Bool
unfolding to_ascii_lowercase
is_editor name =
    to_ascii_lowercase name == codes "vscode" || to_ascii_lowercase name == codes "cursor"

abbrev pub markers : List Bytes
markers = codes "/.dockerenv" ∷ codes "/run/.containerenv" ∷ codes "/run/systemd/container" ∷ []

abbrev pub container_words : List Bytes
container_words =
    codes "docker" ∷ codes "kubepods" ∷ codes "containerd" ∷ codes "lxc" ∷ codes "libpod" ∷ []

abbrev pub namespaces : List Bytes
namespaces = codes "mnt" ∷ codes "user" ∷ codes "pid" ∷ []

-- The loop over the marker files: the surface that it returns, if it does.
unfoldable pub check_markers : HostReads → List Bytes → Result EnvironmentError (Option Bytes)
check_markers reads [] = ok none
check_markers reads (path ∷ paths) =
    let rest = check_markers reads paths in
    elim (reads.marker path) [
      | marker_found ↦ ok (some (codes "container"))
      | marker_not_found ↦ rest
      | marker_failed ↦ err unreadable
    ]

-- The loop over the namespaces.
unfoldable pub check_namespaces : HostReads → List Bytes → Result EnvironmentError (Option Bytes)
check_namespaces reads [] = ok none
check_namespaces reads (name ∷ names) =
    let rest = check_namespaces reads names in
    do
      own ← ok_or (reads.own_namespace name) unreadable
      first ← ok_or (reads.first_namespace name) unreadable
      if not (own == first) then ok (some (codes "isolated-namespace")) else rest

-- The block for Linux, from its end: the control groups and what follows them.
unfoldable pub grouped_surface : HostReads → Result EnvironmentError (Option Bytes)
unfolding check_namespaces
grouped_surface reads =
    if is_given (reads.variable (codes "container")) then ok (some (codes "container")) else (do
      cgroups ← ok_or reads.cgroups unreadable
      if any (contains_str cgroups) container_words
          then ok (some (codes "container"))
          else check_namespaces reads namespaces)

-- The marker files and what follows them.
unfoldable pub marked_surface : HostReads → Result EnvironmentError (Option Bytes)
unfolding check_markers grouped_surface
marked_surface reads = do
  found ← check_markers reads markers
  elim found [ some surface ↦ ok (some surface) | none ↦ grouped_surface reads ]

unfoldable pub linux_surface : HostReads → Result EnvironmentError (Option Bytes)
unfolding marked_surface to_ascii_lowercase
linux_surface reads = do
  uid ← ok_or reads.root_uid unreadable
  if not (nat_eqb uid 0) then ok (some (codes "isolated-namespace")) else (do
    kernel ← ok_or reads.kernel unreadable
    if contains_str (to_ascii_lowercase kernel) (codes "microsoft")
        then ok (some (codes "wsl"))
        else marked_surface reads)

unfoldable pub native_or : Option Bytes → Bytes
native_or none = codes "native-cli"
native_or (some surface) = surface

unfoldable pub host_surface : OperatingSystem → HostReads → Result EnvironmentError Bytes
unfolding is_editor linux_surface native_or
host_surface os reads =
    if any_given reads wsl_variables
    then ok (codes "wsl")
    else if any_given reads remote_variables
    then ok (codes "remote")
    else if any_given reads ide_variables
    then ok (codes "ide")
    else if is_ok_and is_editor (reads.variable (codes "TERM_PROGRAM"))
    then ok (codes "ide")
    else if is_ok_and (λ v. not (v == codes "codex_cli_rs"))
        (reads.variable (codes "CODEX_INTERNAL_ORIGINATOR_OVERRIDE"))
    then ok (codes "hosted")
    else if is_linux os
    then (do found ← linux_surface reads; ok (native_or found))
    else ok (codes "native-cli")

-- `trim_matches('"')`
unfoldable pub trim_start_quotes : Bytes → Bytes
trim_start_quotes [] = []
trim_start_quotes (b ∷ rest) =
    let trimmed = trim_start_quotes rest in if nat_eqb b b'"' then trimmed else b ∷ rest

unfoldable pub trim_end_quotes : Bytes → Bytes
trim_end_quotes [] = []
trim_end_quotes (b ∷ rest) =
    let trimmed = trim_end_quotes rest in
    if nat_eqb b b'"' && is_nil trimmed then [] else b ∷ trimmed

-- The values of the lines `key=…`.
unfoldable pub values_of : Bytes → List Bytes → List Bytes
values_of key [] = []
values_of key (line ∷ lines) =
    let rest = values_of key lines in
    elim (strip_prefix line (key ++ codes "=")) [ none ↦ rest | some v ↦ v ∷ rest ]

abbrev pub is_literal : ℕ → Bool
is_literal b = is_ascii_alphanumeric b || contains (codes "._-") b

unfoldable pub release_field : Bytes → Bytes → Option Bytes
unfolding values_of trim_start_quotes trim_end_quotes
release_field contents key = only (values_of key (lines contents))
  where
    only : List Bytes → Option Bytes
    only [] = none
    only (v ∷ vs) =
        let field = trim_end_quotes (trim_start_quotes v) in
        if is_nil field || not (is_nil vs) || not (all is_literal field) then none else some field

-- `observe`; `architecture` is `env::consts::ARCH`.
module _ (sha256 : Bytes → Bytes) (trim : Bytes → Bytes) (architecture : Bytes) where
  unfoldable pub observe_linux : Bytes → HostReads → Result EnvironmentError Host
  observe_linux surface reads = do
    arch ← ok_or reads.machine unreadable
    guard (arch == architecture) mismatched_architecture
    release ← ok_or reads.release_file unreadable
    guard (is_utf8 release) unreadable
    id ← ok_or (release_field release (codes "ID")) missing_distro_id
    version ← ok_or (release_field release (codes "VERSION_ID")) missing_distro_version
    build ← ok_or reads.kernel_version unreadable
    uname ← ok_or reads.kernel_release unreadable
    ok (record {
      os = codes "linux";
      arch = arch;
      os_release = id ++ codes ":" ++ version ++ codes ":sha256:" ++ hex (sha256 release);
      os_build = uname ++ codes " " ++ trim build;
      surface = surface;
    })

  unfoldable pub observe : OperatingSystem → HostReads → Result EnvironmentError Host
  observe os reads = do
    surface ← host_surface os reads
    if is_linux os
        then observe_linux surface reads
        else if is_windows os
        then (do
          (arch, release, build) ← ok_or reads.windows_identity unreadable
          ok (record {
            os = codes "windows";
            arch = arch;
            os_release = release;
            os_build = build;
            surface = surface;
          }))
        else err native_os_unsupported
