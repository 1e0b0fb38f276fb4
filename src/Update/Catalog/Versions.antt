-- ===== src/Update/Catalog/Versions.antt =====
-- About the release versions of a catalog that `validate_catalog_ambiguity` of
-- src/update/selection.rs lets pass.
use mathlib.Core.Bool.{false≢true}
use codex_autoapprover.Update.Version.{StableVersion, version_eq}
use codex_autoapprover.Prelude.{
  Bool-cases, In, List, [], ap, arith, contains, contains_iff, false, inl, inr, ok, sym, ◌∙◌, ◌∷◌,
  ◌≡◌, nat_eq, bytes_eq, option_eq,
}
use codex_autoapprover.Update.Manifest.Schema.{ReleaseManifest}
use codex_autoapprover.Update.Catalog.{check_catalog}

check_catalog-eq-ok :
    (versions : List StableVersion) (m : ReleaseManifest) (ms : List ReleaseManifest)
    → check_catalog versions (m ∷ ms) ≡ ok tt
    → (contains versions m.release_version ≡ false)
      × (check_catalog (m.release_version ∷ versions) ms ≡ ok tt)
unfolding check_catalog
check_catalog-eq-ok versions m ms h = ground arith

check_catalog_fresh :
    (versions : List StableVersion) (ms : List ReleaseManifest) (m : ReleaseManifest)
    → check_catalog versions ms ≡ ok tt
    → In m ms
    → contains versions m.release_version ≡ false
check_catalog_fresh versions [] m h i = elim i [ ]
check_catalog_fresh versions (n ∷ ms) m h (inl p) =
    ap (λ (x : ReleaseManifest). contains versions x.release_version) p
    ∙ (check_catalog-eq-ok versions n ms h).0
check_catalog_fresh versions (n ∷ ms) m h (inr i) =
    let (_, k) = check_catalog-eq-ok versions n ms h in
    let f = check_catalog_fresh (n.release_version ∷ versions) ms m k i in
    elim (Bool-cases (contains versions m.release_version)) [
      | inr e ↦ e
      | inl e ↦
          let there = (contains_iff versions m.release_version).0 e in
          absurd (
            false≢true (
              sym f
              ∙ (contains_iff (n.release_version ∷ versions) m.release_version).1 (inr there)))
    ]

-- In an unambiguous catalog a release is known by its version.
pub same_release :
    (versions : List StableVersion) (ms : List ReleaseManifest) (m n : ReleaseManifest)
    → check_catalog versions ms ≡ ok tt
    → In m ms
    → In n ms
    → m.release_version ≡ n.release_version
    → m ≡ n
same_release versions [] m n h i j e = elim i [ ]
same_release versions (k ∷ ms) m n h (inl p) (inl q) e = p ∙ sym q
same_release versions (k ∷ ms) m n h (inl p) (inr j) e =
    let (_, c) = check_catalog-eq-ok versions k ms h in
    let f = check_catalog_fresh (k.release_version ∷ versions) ms n c j in
    absurd (
      false≢true (
        sym f
        ∙ (contains_iff (k.release_version ∷ versions) n.release_version).1
            (inl (sym e ∙ ap (λ (x : ReleaseManifest). x.release_version) p))))
same_release versions (k ∷ ms) m n h (inr i) (inl q) e =
    let (_, c) = check_catalog-eq-ok versions k ms h in
    let f = check_catalog_fresh (k.release_version ∷ versions) ms m c i in
    absurd (
      false≢true (
        sym f
        ∙ (contains_iff (k.release_version ∷ versions) m.release_version).1
            (inl (e ∙ ap (λ (x : ReleaseManifest). x.release_version) q))))
same_release versions (k ∷ ms) m n h (inr i) (inr j) e =
    let (_, c) = check_catalog-eq-ok versions k ms h in
    same_release (k.release_version ∷ versions) ms m n c i j e
