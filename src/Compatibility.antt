-- ===== src/Compatibility.antt =====
-- src/compatibility.rs: the verifier's metadata, and the one command that a verification admits.
-- The operating system is that of the build.
pub mod Probe
use codex_autoapprover.Prelude.{
  ◌||◌, ◌&&◌, ◌++◌, ◌-◌, ◌==◌, Bool, Bytes, Option, [], ◌^◌, all, codes, if◌then◌else◌, false,
  if◌then◌else◌, is_ascii_hexdigit, is_ascii_uppercase, length, nat_eqb, none, not, some,
  split_once, strip_prefix, if◌then◌else◌, ℕ, ◌∷◌, nat_eq, bytes_eq, option_eq,
}
use codex_autoapprover.Platform.{
  Surface, local_cli_launcher, OperatingSystem, is_windows, linux, mac_os, other_os, windows,
}
use codex_autoapprover.Prelude.Decimal.{parse_unsigned, to_decimal}
use codex_autoapprover.Arming.{protocol_version}

unfoldable pub verification_curl : OperatingSystem → Bytes
verification_curl os = if is_windows os then codes "curl.exe" else codes "curl"

-- The fixed front of the command, up to the port.
unfoldable pub probe_prefix : OperatingSystem → Bytes
unfolding verification_curl
probe_prefix os =
    verification_curl os ++ codes " -fsSI --max-time 10 --noproxy 127.0.0.1 http://127.0.0.1:"

unfoldable pub is_nonce : Bytes → Bool
is_nonce nonce =
    nat_eqb (length nonce) 32 && all (λ b. is_ascii_hexdigit b && not (is_ascii_uppercase b)) nonce

-- `port` is a `u16`.
unfoldable pub verification_probe_command : OperatingSystem → ℕ → Bytes → Option Bytes
unfolding is_nonce
verification_probe_command os port nonce =
    if nat_eqb port 0 || not (is_nonce nonce)
    then none
    else some (probe_prefix os ++ (to_decimal port ++ b'/' ∷ nonce))

abbrev pub max_u16 : ℕ
max_u16 = 2 ^ 16 - 1

-- The chain of `let … else` in the order of the source.
probe_endpoint : OperatingSystem → Bytes → Option (Bytes × Bytes) → Bool
probe_endpoint os command none = false
probe_endpoint os command (some (port, nonce)) = elim (parse_unsigned max_u16 port) [
  | none ↦ false
  | some n ↦ verification_probe_command os n nonce == some command
]

unfoldable pub is_verification_probe_command : OperatingSystem → Bytes → Bool
unfolding probe_endpoint
is_verification_probe_command os command = elim (strip_prefix command (probe_prefix os)) [
  | none ↦ false
  | some endpoint ↦ probe_endpoint os command (split_once b'/' endpoint)
]

-- `verification_schema_for`
unfoldable pub verification_schema : OperatingSystem → Bytes → Bytes → Bool
verification_schema os version tool = tool == codes "Bash" && known os
  where
    known : OperatingSystem → Bool
    known linux =
        version == codes "0.151.0"
        || version == codes "0.152.1"
        || version == codes "0.156.0"
        || version == codes "0.156.1"
    known windows =
        version == codes "0.152.1" || version == codes "0.156.0" || version == codes "0.156.1"
    known mac_os = false
    known other_os = false

pub record VerificationTarget : Type 0 where
  pub version : Bytes
  pub operating_system : OperatingSystem
  pub surface : Surface
  pub hook_protocol : Bytes
  pub observed_tool_type : Bytes

unfoldable pub resolved_verification_target : OperatingSystem → Bytes → Option VerificationTarget
resolved_verification_target os version =
    if verification_schema os version (codes "Bash")
    then some (record {
      version = version;
      operating_system = os;
      surface = local_cli_launcher;
      hook_protocol = protocol_version;
      observed_tool_type = codes "Bash";
    })
    else none

unfoldable pub verification_version_matches : Bytes → VerificationTarget → Bool
verification_version_matches actual target = actual == target.version
