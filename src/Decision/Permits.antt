-- ===== src/Decision/Permits.antt =====
-- About the two authorities that `decide` of src/decision.rs accepts.
use codex_autoapprover.Prelude.{
  ==_iff, Bool-cases, In, Option, Result, and-eq-true, arith, codes, err, false, inl, inr, none, ok,
  refl, some, true, ◌≡◌, nat_eq, bytes_eq, option_eq,
}
use codex_autoapprover.Certification.{validate, CertificationError, Manifest, Target, admits}
use codex_autoapprover.Decision.{DecisionContext, is_admitted, is_certified, is_verification}
use codex_autoapprover.Platform.{OperatingSystem}
use codex_autoapprover.Certification.Admits.{admits_iff, certified_targets}
use codex_autoapprover.Compatibility.{verification_schema}

-- The context admits the Bash tool: by the verifier's own command at a known version, or by a
-- certificate of the embedded manifest for the exact version.
pub data Authority (os : OperatingSystem) (manifest : Result CertificationError Manifest)
    (context : DecisionContext) : Type 0 where
  verifier :
      is_verification os context ≡ true
      → verification_schema os context.codex_version (codes "Bash") ≡ true
      → Authority os manifest context
  certificate :
      (m : Manifest) (target : Target)
      → manifest ≡ ok m
      → context.certified_target ≡ some target
      → target.codex_version ≡ context.codex_version
      → target.tool ≡ codes "Bash"
      → validate m ≡ ok tt
      → In target (certified_targets m.entries)
      → Authority os manifest context

certified_parts :
    (context : DecisionContext) (m : Manifest) (t : Target)
    → is_certified (ok m) context (codes "Bash") (some t) ≡ true
    → (t.codex_version ≡ context.codex_version) × (t.tool ≡ codes "Bash") × (admits m t ≡ true)
unfolding is_certified
certified_parts context m t h =
    let (front, a) = and-eq-true _ _ h in
    let (v, n) = and-eq-true _ _ front in
    ((==_iff t.codex_version context.codex_version).0 v, (==_iff t.tool (codes "Bash")).0 n, a)

certified-Authority :
    (os : OperatingSystem) (manifest r : Result CertificationError Manifest)
    (context : DecisionContext) (o : Option Target)
    → manifest ≡ r
    → context.certified_target ≡ o
    → is_certified r context (codes "Bash") o ≡ true
    → Authority os manifest context
unfolding is_certified
certified-Authority os manifest r context none e f g = cc
certified-Authority os manifest (err x) context (some t) e f g = cc
certified-Authority os manifest (ok m) context (some t) e f g =
    let (v, n, a) = certified_parts context m t g in
    let (valid, listed) = (admits_iff m t).0 a in Authority.certificate m t e f v n valid listed

pub admitted-Authority :
    (os : OperatingSystem) (manifest : Result CertificationError Manifest)
    (context : DecisionContext)
    → is_admitted os manifest context (codes "Bash") ≡ true
    → Authority os manifest context
unfolding is_admitted
admitted-Authority os manifest context h = elim (Bool-cases (is_verification os context)) [
  | inl v ↦ Authority.verifier v (ground arith)
  | inr n ↦
      certified-Authority os manifest manifest context context.certified_target refl refl
        (ground arith)
]

certified_join :
    (context : DecisionContext) (m : Manifest) (t : Target)
    → t.codex_version ≡ context.codex_version
    → t.tool ≡ codes "Bash"
    → admits m t ≡ true
    → is_certified (ok m) context (codes "Bash") (some t) ≡ true
unfolding is_certified
certified_join context m t v n a = ground (
  arith,
  (==_iff t.codex_version context.codex_version).1 v,
  (==_iff t.tool (codes "Bash")).1 n,
  a,
)

no_verification :
    (os : OperatingSystem) (context : DecisionContext) (t : Target)
    → context.certified_target ≡ some t
    → is_verification os context ≡ false
unfolding is_verification
no_verification os context t e = rw e

pub Authority-admitted :
    (os : OperatingSystem) (manifest : Result CertificationError Manifest)
    (context : DecisionContext)
    → Authority os manifest context
    → is_admitted os manifest context (codes "Bash") ≡ true
unfolding is_admitted
Authority-admitted os manifest context (Authority.verifier v s) = rw v s
Authority-admitted os manifest context (Authority.certificate m t e f v n valid listed) = ground (
  arith,
  no_verification os context t f,
  certified_join context m t v n ((admits_iff m t).1 (valid, listed)),
)
