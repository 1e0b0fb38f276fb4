-- ===== src/Certification.antt =====
-- src/certification.rs: the manifest that the build embeds, the only source of production approval
-- authority.
pub mod Admits
pub mod Reading
use codex_autoapprover.Prelude.{
  ◌||◌, ◌&&◌, ◌++◌, ◌==◌, ◌>>◌, ◌>>=◌, Bool, Bytes, Eq, List, Result, [], Option, map_err, ok_or,
  all, any, ap, arith, bytes_beq, bytes_eq, codes, contains, guard, is_ascii_alphanumeric,
  is_lower_hex, is_nil, is_ok, length, list_beq, list_beq_iff, nat_eqb, not, ok, true, ℕ, ◌↔◌, ◌∷◌,
  ◌≡◌, nat_eq, option_eq,
}
use codex_autoapprover.Platform.{linux, windows}
use codex_autoapprover.Protocol.{Event, Value, parse_unique_object}
use codex_autoapprover.Codex.{parse_version}
use codex_autoapprover.Arming.{protocol_version}
use codex_autoapprover.Prelude.Decimal.{value}

pub record Target : Type 0 where
  pub codex_version : Bytes
  pub os : Bytes
  pub arch : Bytes
  pub os_release : Bytes
  pub os_build : Bytes
  pub sandbox : Bytes
  pub surface : Bytes
  pub protocol : Bytes
  pub tool : Bytes
  pub codex_binary_sha256 : Bytes
  pub codex_bundle_sha256 : Bytes
  pub launch_kind : Bytes
  pub launch_artifact_sha256 : Bytes
  pub launch_package_sha256 : Bytes

-- The derived `PartialEq`: field by field.
abbrev pub target_fields : Target → List Bytes
target_fields t =
    t.codex_version ∷ t.os ∷ t.arch ∷ t.os_release ∷ t.os_build ∷ t.sandbox ∷ t.surface ∷ t.protocol
    ∷ t.tool ∷ t.codex_binary_sha256 ∷ t.codex_bundle_sha256 ∷ t.launch_kind
    ∷ t.launch_artifact_sha256 ∷ t.launch_package_sha256 ∷ []

unfoldable pub target_beq : Target → Target → Bool
target_beq a b = list_beq bytes_beq (target_fields a) (target_fields b)

target_of_fields : (a b : Target) → target_fields a ≡ target_fields b → a ≡ b
target_of_fields a b h = ground arith

pub target_beq_iff : (a b : Target) → (target_beq a b ≡ true) ↔ (a ≡ b)
unfolding target_beq
target_beq_iff a b = (
  λ h. target_of_fields a b ((list_beq_iff bytes_eq (target_fields a) (target_fields b)).0 h),
  λ h. (list_beq_iff bytes_eq (target_fields a) (target_fields b)).1 (ap target_fields h),
)

instance abbrev pub target_eq : Eq Target
target_eq = record { beq = target_beq; beq_iff = target_beq_iff }

pub record Certificate : Type 0 where
  pub evidence_id : Bytes
  pub target : Target

pub record Manifest : Type 0 where
  pub schema_version : ℕ
  pub autoapprover_version : Bytes
  pub entries : List Certificate
  pub revoked_artifact_sha256 : List Bytes

-- The messages of the errors.
pub data CertificationError : Type 0 where
  invalid_fields : CertificationError
  undecodable_manifest : CertificationError
  unsupported_schema : CertificationError
  incomplete_target : CertificationError
  mismatched_sandbox : CertificationError
  invalid_certificate : CertificationError
  revoked_artifact : CertificationError
  invalid_revocation : CertificationError

unfoldable pub is_sha256 : Bytes → Bool
is_sha256 value = nat_eqb (length value) 64 && all is_lower_hex value

unfoldable pub artifact_digests : Target → List Bytes
artifact_digests t =
    t.codex_binary_sha256 ∷ t.codex_bundle_sha256 ∷ t.launch_artifact_sha256
    ∷ t.launch_package_sha256 ∷ []

-- `matches!(value, a | b | …)`
abbrev pub one_of : Bytes → List Bytes → Bool
one_of value options = contains options value

-- The pairs of an operating system with its ways to launch, and with its sandboxes.
unfoldable pub launch_kind_fits : Target → Bool
launch_kind_fits t =
    (t.os == codes "linux" && one_of t.launch_kind (codes "native" ∷ codes "npm-bin" ∷ []))
    || (t.os == codes "windows"
        && one_of t.launch_kind (codes "native" ∷ codes "npm-cmd" ∷ codes "npm-ps1" ∷ []))

unfoldable pub sandbox_fits : Target → Bool
sandbox_fits t =
    (t.os == codes "linux" && one_of t.sandbox (codes "linux-bwrap" ∷ codes "linux-landlock" ∷ []))
    || (t.os == codes "windows"
        && one_of t.sandbox (codes "windows-elevated" ∷ codes "windows-unelevated" ∷ []))

-- The first condition of `Target::validate`, with its tests in the source's order, negated.
unfoldable pub is_complete : Target → Bool
is_complete t =
    is_ok (parse_version (codes "codex-cli " ++ t.codex_version))
    && one_of t.arch (codes "x86_64" ∷ codes "aarch64" ∷ [])
    && not (is_nil t.os_release)
    && not (is_nil t.os_build)
    && t.surface == codes "native-cli"
    && t.protocol == protocol_version
    && t.tool == codes "Bash"
    && is_sha256 t.codex_binary_sha256
    && is_sha256 t.codex_bundle_sha256
    && is_sha256 t.launch_artifact_sha256
    && is_sha256 t.launch_package_sha256
    && one_of t.launch_kind
        (codes "native" ∷ codes "npm-bin" ∷ codes "npm-cmd" ∷ codes "npm-ps1" ∷ [])
    && launch_kind_fits t

-- `Target::validate`
unfoldable pub validate_target : Target → Result CertificationError (Unit {0})
validate_target t = do
  guard (is_complete t) incomplete_target
  guard (sandbox_fits t) mismatched_sandbox

-- `artifact_digests().iter().any(|digest| revoked.iter().any(|item| item == digest))`
unfoldable pub is_revoked : List Bytes → Target → Bool
is_revoked revoked t = any (contains revoked) (artifact_digests t)

unfoldable pub is_evidence_id : Bytes → Bool
is_evidence_id id = not (is_nil id) && all (λ b. is_ascii_alphanumeric b || nat_eqb b b'-') id

-- The loop over the entries. The two sets are kept as the lists of what is in them.
unfoldable pub validate_entries :
    List Bytes → List Bytes → List Target → List Certificate → Result CertificationError (Unit {0})
validate_entries revoked ids known [] = ok tt
validate_entries revoked ids known (entry ∷ rest) = do
  validate_target entry.target
  guard
      (is_evidence_id entry.evidence_id
        && not (contains ids entry.evidence_id)
        && not (contains known entry.target))
      invalid_certificate
  guard (not (is_revoked revoked entry.target)) revoked_artifact
  validate_entries revoked (entry.evidence_id ∷ ids) (entry.target ∷ known) rest

-- The loop over the revocations.
unfoldable pub validate_revocations : List Bytes → List Bytes → Result CertificationError (Unit {0})
validate_revocations seen [] = ok tt
validate_revocations seen (digest ∷ rest) = do
  guard (is_sha256 digest && not (contains seen digest)) invalid_revocation
  validate_revocations (digest ∷ seen) rest

-- `env!("CARGO_PKG_VERSION")`, of Cargo.toml.
abbrev pub package_version : Bytes
package_version = codes "0.1.0"

-- `Manifest::validate`
unfoldable pub validate : Manifest → Result CertificationError (Unit {0})
validate m = do
  guard (nat_eqb m.schema_version 2 && m.autoapprover_version == package_version) unsupported_schema
  validate_entries m.revoked_artifact_sha256 [] [] m.entries
  validate_revocations [] m.revoked_artifact_sha256

-- `Manifest::admits`
unfoldable pub admits : Manifest → Target → Bool
admits m observed =
    is_ok (validate m)
    && is_ok (validate_target observed)
    && not (is_revoked m.revoked_artifact_sha256 observed)
    && any (λ entry. entry.target == observed) m.entries

-- serde_json's part, and the decoder that `derive(Deserialize)` makes for `Manifest`.
module _ (deserialize : Bytes → Option (Event × Bytes)) (decode : Value → Option Manifest) where
  -- `Manifest::parse`
  unfoldable pub parse : Bytes → Result CertificationError Manifest
  parse bytes = do
    tree ← map_err (parse_unique_object deserialize bytes) invalid_fields
    m ← ok_or (decode tree) undecodable_manifest
    validate m
    ok m
