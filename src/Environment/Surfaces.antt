-- ===== src/Environment/Surfaces.antt =====
-- About the native host of src/environment.rs.
-- Nothing hints at another machine, an editor or an isolated namespace, and every question about
-- the boundaries of the host was answered.
use codex_autoapprover.Prelude.{
  >>=-eq-ok, not, Bool, Result, if◌then◌else◌, if◌then◌else◌, if◌then◌else◌, true, ==_iff,
  Result-cases, ap, length, nat_eqb, ◌==◌, Bool-cases, Option, Option-cases, arith, refl, ◌≢◌, ◌⊎◌,
  nat_eq, bytes_eq, option_eq, All, Bytes, List, [], any, codes, contains_str, false, inl, inr,
  none, ok, some, ◌∷◌, ◌≡◌,
}
use codex_autoapprover.Environment.{
  EnvironmentError, grouped_surface, marked_surface, host_surface, Marker, check_namespaces,
  linux_surface, marker_failed, marker_found, native_or, HostReads, any_given, check_markers,
  container_words, ide_variables, is_editor, is_given, is_ok_and, marker_not_found, markers,
  namespaces, remote_variables, to_ascii_lowercase, wsl_variables,
}
use codex_autoapprover.Platform.{linux}

pub record IsNative (reads : HostReads) : Type 0 where
  pub no_wsl : any_given reads wsl_variables ≡ false
  pub no_remote : any_given reads remote_variables ≡ false
  pub no_ide : any_given reads ide_variables ≡ false
  pub no_editor : is_ok_and is_editor (reads.variable (codes "TERM_PROGRAM")) ≡ false
  pub not_hosted :
      is_ok_and
        (λ v. not (v == codes "codex_cli_rs"))
        (reads.variable (codes "CODEX_INTERNAL_ORIGINATOR_OVERRIDE"))
      ≡ false
  pub host_root : reads.root_uid ≡ some 0
  pub own_kernel :
      (kernel : Bytes) × (reads.kernel ≡ some kernel)
      × (contains_str (to_ascii_lowercase kernel) (codes "microsoft") ≡ false)
  pub unmarked : All (λ path. reads.marker path ≡ marker_not_found) markers
  pub no_container : is_given (reads.variable (codes "container")) ≡ false
  pub own_cgroups :
      (cgroups : Bytes) × (reads.cgroups ≡ some cgroups)
      × (any (contains_str cgroups) container_words ≡ false)
  pub same_namespaces :
      All
        (λ name.
          (inside : Bytes) × (reads.own_namespace name ≡ some inside)
          × (reads.first_namespace name ≡ some inside))
        namespaces

Marker-cases : (m : Marker) → (m ≡ marker_found) ⊎ (m ≡ marker_not_found) ⊎ (m ≡ marker_failed)
Marker-cases marker_found = inl refl
Marker-cases marker_not_found = inr (inl refl)
Marker-cases marker_failed = inr (inr refl)

native_is_not_container : codes "container" ≢ codes "native-cli"
unfolding codes
native_is_not_container h = ground (arith, ap length h)

native_is_not_isolated : codes "isolated-namespace" ≢ codes "native-cli"
unfolding codes
native_is_not_isolated h = ground (arith, ap length h)

native_is_not_wsl : codes "wsl" ≢ codes "native-cli"
unfolding codes
native_is_not_wsl h = ground (arith, ap length h)

-- The markers let a native host pass only where all of them are missing.
unmarked_paths :
    (reads : HostReads) (paths : List Bytes) (found : Option Bytes)
    → check_markers reads paths ≡ ok found
    → native_or found ≡ codes "native-cli"
    → All (λ path. reads.marker path ≡ marker_not_found) paths × (found ≡ none)
unfolding check_markers native_or
unmarked_paths reads [] found h n = (tt, ground arith)
unmarked_paths reads (path ∷ paths) found h n = elim (Marker-cases (reads.marker path)) [
  | inl e ↦ absurd (ground (arith, native_is_not_container))
  | inr (inl e) ↦
      let (rest, nothing) = unmarked_paths reads paths found (ground arith) n in
      ((e, rest), nothing)
  | inr (inr e) ↦ absurd (ground arith)
]

same_namespaces :
    (reads : HostReads) (names : List Bytes) (found : Option Bytes)
    → check_namespaces reads names ≡ ok found
    → native_or found ≡ codes "native-cli"
    → All
        (λ name.
          (inside : Bytes) × (reads.own_namespace name ≡ some inside)
          × (reads.first_namespace name ≡ some inside))
        names
unfolding check_namespaces native_or
same_namespaces reads [] found h n = tt
same_namespaces reads (name ∷ names) found h n = elim (Option-cases (reads.own_namespace name)) [
  | inl e ↦ absurd (ground arith)
  | inr (own, e) ↦ elim (Option-cases (reads.first_namespace name)) [
    | inl e' ↦ absurd (ground arith)
    | inr (first, e') ↦ elim (Bool-cases (own == first)) [
      | inl q ↦ (
        (own, e, ground (arith, (==_iff own first).0 q)),
        same_namespaces reads names found (ground arith) n,
      )
      | inr q ↦ absurd (ground (arith, native_is_not_isolated))
    ]
  ]
]

-- The parts of `IsNative` that Linux is asked for, from the last.
abbrev IsGroupedNative : HostReads → Type 0
IsGroupedNative reads =
    (is_given (reads.variable (codes "container")) ≡ false)
    × ((cgroups : Bytes) × (reads.cgroups ≡ some cgroups)
        × (any (contains_str cgroups) container_words ≡ false))
    × All
        (λ name.
          (inside : Bytes) × (reads.own_namespace name ≡ some inside)
          × (reads.first_namespace name ≡ some inside))
        namespaces

grouped_surface-native :
    (reads : HostReads) (found : Option Bytes)
    → grouped_surface reads ≡ ok found
    → native_or found ≡ codes "native-cli"
    → IsGroupedNative reads
unfolding grouped_surface native_or
grouped_surface-native reads found h n =
    elim (Bool-cases (is_given (reads.variable (codes "container")))) [
      | inl c ↦ absurd (ground (arith, native_is_not_container))
      | inr c ↦ elim (Option-cases reads.cgroups) [
        | inl e ↦ absurd (ground arith)
        | inr (cgroups, e) ↦ elim (Bool-cases (any (contains_str cgroups) container_words)) [
          | inl w ↦ absurd (ground (arith, native_is_not_container))
          | inr w ↦ (c, (cgroups, e, w), same_namespaces reads namespaces found (ground arith) n)
        ]
      ]
    ]

marked_surface-native :
    (reads : HostReads) (found : Option Bytes)
    → marked_surface reads ≡ ok found
    → native_or found ≡ codes "native-cli"
    → All (λ path. reads.marker path ≡ marker_not_found) markers × IsGroupedNative reads
unfolding marked_surface native_or
marked_surface-native reads found h n = elim (Result-cases (check_markers reads markers)) [
  | inr (x, e) ↦ absurd (ground arith)
  | inl (some place, e) ↦
      absurd (ground (arith, unmarked_paths reads markers (some place) e (ground arith)))
  | inl (none, e) ↦ (
    (unmarked_paths reads markers none e refl).0,
    grouped_surface-native reads found (ground arith) n,
  )
]

linux_surface-native :
    (reads : HostReads) (found : Option Bytes)
    → linux_surface reads ≡ ok found
    → native_or found ≡ codes "native-cli"
    → (reads.root_uid ≡ some 0)
      × ((kernel : Bytes) × (reads.kernel ≡ some kernel)
          × (contains_str (to_ascii_lowercase kernel) (codes "microsoft") ≡ false))
      × All (λ path. reads.marker path ≡ marker_not_found) markers
      × IsGroupedNative reads
unfolding linux_surface native_or
linux_surface-native reads found h n = elim (Option-cases reads.root_uid) [
  | inl e ↦ absurd (ground arith)
  | inr (uid, e) ↦ elim (Bool-cases (nat_eqb uid 0)) [
    | inr z ↦ absurd (ground (arith, native_is_not_isolated))
    | inl z ↦ elim (Option-cases reads.kernel) [
      | inl k ↦ absurd (ground arith)
      | inr (kernel, k) ↦
          elim (Bool-cases (contains_str (to_ascii_lowercase kernel) (codes "microsoft"))) [
            | inl m ↦ absurd (ground (arith, native_is_not_wsl))
            | inr m ↦
                let (unmarked, grouped) = marked_surface-native reads found (ground arith) n in
                (ground arith, (kernel, k, m), unmarked, grouped)
          ]
    ]
  ]
]

native_is_not_remote : codes "remote" ≢ codes "native-cli"
unfolding codes
native_is_not_remote h = ground (arith, ap length h)

native_is_not_ide : codes "ide" ≢ codes "native-cli"
unfolding codes
native_is_not_ide h = ground (arith, ap length h)

native_is_not_hosted : codes "hosted" ≢ codes "native-cli"
unfolding codes
native_is_not_hosted h = ground (arith, ap length h)

-- A result that is returned early is another one.
goes_on :
    {A : Type 0} (b : Bool) (early rest out : A)
    → early ≢ out
    → (if b then early else rest) ≡ out
    → (b ≡ false) × (rest ≡ out)
goes_on true early rest out other h = absurd (other h)
goes_on false early rest out other h = (refl, h)

ok_other :
    (place : Bytes)
    → place ≢ codes "native-cli"
    → ¬ Path (Result EnvironmentError Bytes) (ok place) (ok (codes "native-cli"))
ok_other place n h = n (ground arith)

-- On Linux the surface is reported as a native command line only where no sign of a subsystem, a
-- remote session, an editor, a container or a namespace of its own is found, and where each
-- question about the boundaries of the host has got its answer.
pub host_surface-IsNative :
    (reads : HostReads) → host_surface linux reads ≡ ok (codes "native-cli") → IsNative reads
unfolding host_surface
host_surface-IsNative reads h =
    let (w, h1) = goes_on (any_given reads wsl_variables) _ _ _ (ok_other _ native_is_not_wsl) h in
    let (r, h2) =
      goes_on (any_given reads remote_variables) _ _ _ (ok_other _ native_is_not_remote) h1 in
    let (i, h3) = goes_on (any_given reads ide_variables) _ _ _ (ok_other _ native_is_not_ide) h2 in
    let (t, h4) =
      goes_on (is_ok_and is_editor (reads.variable (codes "TERM_PROGRAM"))) _ _ _
        (ok_other _ native_is_not_ide) h3 in
    let (o, h5) =
      goes_on
        (is_ok_and (λ v. not (v == codes "codex_cli_rs"))
          (reads.variable (codes "CODEX_INTERNAL_ORIGINATOR_OVERRIDE")))
        _ _ _ (ok_other _ native_is_not_hosted) h4 in
    let (found, e, native) = >>=-eq-ok (linux_surface reads) (λ found. ok (native_or found)) h5 in
    let (root, kernel, unmarked, (contained, cgroups, same)) =
      linux_surface-native reads found e (ground arith) in
    record {
      no_wsl = w;
      no_remote = r;
      no_ide = i;
      no_editor = t;
      not_hosted = o;
      host_root = root;
      own_kernel = kernel;
      unmarked = unmarked;
      no_container = contained;
      own_cgroups = cgroups;
      same_namespaces = same;
    }
