-- ===== src/Admission/Tuple.antt =====
-- About `Admission::inspect` of src/admission.rs.
-- What an admitted launch has been through.
use codex_autoapprover.Prelude.{
  >>=-eq-ok, ==_iff, ap, guard-eq-ok, refl, subst, sym, ◌∙◌, Option-cases, Result-cases, inl, inr,
  ◌==◌, Bytes, In, List, Option, Result, arith, codes, err, ok, some, true, ◌≡◌, nat_eq, bytes_eq,
  option_eq,
}
use codex_autoapprover.Admission.{
  Admission, AdmissionError, AdmissionReads, Installation, inspect, lift_error,
  require_workspace_write, sandbox_overrides, target_of, validate_arguments,
}
use codex_autoapprover.Artifact.{Bundle}
use codex_autoapprover.Environment.{HostReads, observe, observe_linux, host_surface, Host}
use codex_autoapprover.Certification.{validate, Manifest, admits}
use codex_autoapprover.Platform.{linux, OperatingSystem}
use codex_autoapprover.Certification.Admits.{admits_iff, certified_targets}
use codex_autoapprover.Environment.Surfaces.{IsNative, host_surface-IsNative}
use codex_autoapprover.Process.Stat.{trim}

pub record IsAdmitted (os : OperatingSystem) (reads : AdmissionReads) (installation : Installation)
    (sandbox sandbox_mode : Option Bytes) (arguments : List (Option Bytes)) (a : Admission)
    : Type 0 where
  pub m : Manifest
  pub embedded : reads.manifest ≡ ok m
  pub valid : validate m ≡ ok tt
  pub certified : In a.target (certified_targets m.entries)
  pub foreground : validate_arguments arguments ≡ ok tt
  pub observed : reads.observed ≡ ok a.host
  pub native : a.host.surface ≡ codes "native-cli"
  pub discovered : reads.discovered ≡ ok a.bundle
  pub same_image : a.executable ≡ a.bundle.executable
  pub chosen : sandbox ≡ some a.target.sandbox
  pub settings : (overrides : List Bytes) × (sandbox_overrides os a.target.sandbox ≡ ok overrides)
  pub write_mode : sandbox_mode ≡ some (codes "workspace-write")
  pub target : a.target ≡ target_of installation a.host a.target.sandbox a.bundle

lift_error-eq-ok :
    {E A : Type 0} (f : E → AdmissionError) (r : Result E A) (x : A)
    → lift_error f r ≡ ok x
    → r ≡ ok x
lift_error-eq-ok f (ok y) x h = ground arith
lift_error-eq-ok f (err e) x h = cc

-- The steps behind the manifest, for what each of them answers.
inspect-parts :
    (os : OperatingSystem) (reads : AdmissionReads) (installation : Installation)
    (sandbox sandbox_mode : Option Bytes) (arguments : List (Option Bytes)) (a : Admission)
    → inspect os reads installation sandbox sandbox_mode arguments ≡ ok a
    → (m : Manifest) × (host : Host) × (chosen : Bytes) × (overrides : List Bytes)
      × (bundle : Bundle) × (reads.manifest ≡ ok m)
      × (validate_arguments arguments ≡ ok tt)
      × (reads.observed ≡ ok host)
      × ((host.surface == codes "native-cli") ≡ true)
      × (sandbox ≡ some chosen)
      × (sandbox_overrides os chosen ≡ ok overrides)
      × (require_workspace_write sandbox_mode ≡ ok tt)
      × (reads.discovered ≡ ok bundle)
      × (admits m (target_of installation host chosen bundle) ≡ true)
      × (a ≡ record {
        target = target_of installation host chosen bundle;
        executable = bundle.executable;
        bundle = bundle;
        host = host;
      })
unfolding inspect
inspect-parts os reads installation sandbox sandbox_mode arguments a h =
    elim (Result-cases reads.manifest) [
      | inr (x, e1) ↦ absurd (ground arith)
      | inl (m, e1) ↦ elim (Result-cases (validate_arguments arguments)) [
        | inr (x, e2) ↦ absurd (ground arith)
        | inl (u, e2) ↦ elim (Result-cases reads.observed) [
          | inr (x, e3) ↦ absurd (ground arith)
          | inl (host, e3) ↦ elim (Option-cases sandbox) [
            | inl e4 ↦ absurd (ground arith)
            | inr (chosen, e4) ↦ elim (Result-cases (sandbox_overrides os chosen)) [
              | inr (x, e5) ↦ absurd (ground arith)
              | inl (overrides, e5) ↦ elim (Result-cases (require_workspace_write sandbox_mode)) [
                | inr (x, e6) ↦ absurd (ground arith)
                | inl (u', e6) ↦ elim (Result-cases reads.discovered) [
                  | inr (x, e7) ↦ absurd (ground arith)
                  | inl (bundle, e7) ↦ (
                    m,
                    host,
                    chosen,
                    overrides,
                    bundle,
                    e1,
                    e2,
                    e3,
                    ground arith,
                    e4,
                    e5,
                    e6,
                    e7,
                    ground arith,
                    ground arith,
                  )
                ]
              ]
            ]
          ]
        ]
      ]
    ]

inspect-IsAdmitted :
    (os : OperatingSystem) (reads : AdmissionReads) (installation : Installation)
    (sandbox sandbox_mode : Option Bytes) (arguments : List (Option Bytes)) (a : Admission)
    → inspect os reads installation sandbox sandbox_mode arguments ≡ ok a
    → IsAdmitted os reads installation sandbox sandbox_mode arguments a
unfolding target_of require_workspace_write
inspect-IsAdmitted os reads installation sandbox sandbox_mode arguments a h =
    let (
      m, host, chosen, overrides, bundle, e1, e2, e3, surface, e4, e5, mode, e7, admitted, is_a,
    ) =
      inspect-parts os reads installation sandbox sandbox_mode arguments a h in
    let (valid, listed) = (admits_iff m (target_of installation host chosen bundle)).0 admitted in
    subst (IsAdmitted os reads installation sandbox sandbox_mode arguments) (sym is_a) (record {
      m = m;
      embedded = e1;
      valid = valid;
      certified = listed;
      foreground = e2;
      observed = e3;
      native = (==_iff host.surface (codes "native-cli")).0 surface;
      discovered = e7;
      same_image = refl;
      chosen = e4;
      settings = (overrides, e5);
      write_mode = (==_iff sandbox_mode (some (codes "workspace-write"))).0 (guard-eq-ok _ _ mode);
      target = refl;
    })

observe_linux-surface :
    (sha256 trim : Bytes → Bytes) (architecture surface : Bytes) (reads : HostReads) (host : Host)
    → observe_linux sha256 trim architecture surface reads ≡ ok host
    → host.surface ≡ surface
unfolding observe_linux
observe_linux-surface sha256 trim architecture surface reads host h = ground arith

observe-surface :
    (sha256 trim : Bytes → Bytes) (architecture : Bytes) (reads : HostReads) (host : Host)
    → observe sha256 trim architecture linux reads ≡ ok host
    → host_surface linux reads ≡ ok host.surface
unfolding observe
observe-surface sha256 trim architecture reads host h =
    let (place, e, rest) =
      >>=-eq-ok (host_surface linux reads)
        (λ place. observe_linux sha256 trim architecture place reads) h in
    e ∙ ap (λ s. ok s) (sym (observe_linux-surface sha256 trim architecture place reads host rest))

-- A launch on Linux is admitted only where the embedded manifest is valid and lists exactly this
-- target; the host was seen to be native, with no sign of another machine, an editor, a container
-- or a namespace of its own; the arguments stay on the certified foreground surface; a sandbox that
-- belongs to the platform and the workspace-write mode were both chosen; and the target is made of
-- the installation, that host, that sandbox and the bundle that was found.
pub inspect-IsNative :
    (sha256 trim : Bytes → Bytes) (architecture : Bytes) (host_reads : HostReads)
    (reads : AdmissionReads) (installation : Installation) (sandbox sandbox_mode : Option Bytes)
    (arguments : List (Option Bytes)) (a : Admission)
    → reads.observed ≡ observe sha256 trim architecture linux host_reads
    → inspect linux reads installation sandbox sandbox_mode arguments ≡ ok a
    → IsAdmitted linux reads installation sandbox sandbox_mode arguments a × IsNative host_reads
inspect-IsNative sha256 trim architecture host_reads reads installation sandbox sandbox_mode
      arguments a from h =
    let admitted = inspect-IsAdmitted linux reads installation sandbox sandbox_mode arguments a h in
    let surface =
      observe-surface sha256 trim architecture host_reads a.host (sym from ∙ admitted.observed) in
    (admitted, host_surface-IsNative host_reads (surface ∙ ap (λ s. ok s) admitted.native))
