-- ===== src/Certification/Admits.antt =====
-- About `Manifest::admits` and `Manifest::validate` of src/certification.rs.
use codex_autoapprover.Prelude.{
  Distinct, ◌&&◌, Bool-cases, and-eq-true, any-eq-true, any_of-In, ap, arith, contains_iff, guard,
  guard-eq-ok, inl, inr, is_ok-eq, not, refl, subst, sym, ◌↔◌, ◌∙◌, bytes_eq, ◌==◌, ==_iff,
  >>=-eq-ok, Bytes, In, List, [], contains, false, map, ok, true, ◌∷◌, ◌≡◌, nat_eq, bytes_eq,
  option_eq,
}
use mathlib.Core.Bool.{false≢true}
use codex_autoapprover.Certification.{
  Manifest, admits, artifact_digests, invalid_certificate, revoked_artifact, validate, target_eq,
  Certificate, Target, is_evidence_id, is_revoked, validate_entries, validate_target,
}

pub certified_targets : List Certificate → List Target
certified_targets = map (λ entry. entry.target)

-- What validation establishes of one certificate.
pub record IsCertified (revoked : List Bytes) (entry : Certificate) : Type 0 where
  pub valid : validate_target entry.target ≡ ok tt
  pub identified : is_evidence_id entry.evidence_id ≡ true
  pub unrevoked : is_revoked revoked entry.target ≡ false

entries_checked :
    (revoked ids : List Bytes) (seen : List Target) (entry : Certificate) (rest : List Certificate)
    → validate_entries revoked ids seen (entry ∷ rest) ≡ ok tt
    → IsCertified revoked entry
      × (contains ids entry.evidence_id ≡ false)
      × (contains seen entry.target ≡ false)
      × (validate_entries revoked (entry.evidence_id ∷ ids) (entry.target ∷ seen) rest ≡ ok tt)
unfolding validate_entries
entries_checked revoked ids seen entry rest h =
    let t = entry.target in
    let (_, v, k1) = >>=-eq-ok (validate_target t) _ h in
    let fresh = not (contains ids entry.evidence_id) && not (contains seen t) in
    let named = is_evidence_id entry.evidence_id in
    let (_, g, k2) =
      >>=-eq-ok
        (guard (named && not (contains ids entry.evidence_id) && not (contains seen t))
          invalid_certificate)
        _ k1 in
    let (_, r, k3) = >>=-eq-ok (guard (not (is_revoked revoked t)) revoked_artifact) _ k2 in
    let ge = guard-eq-ok _ _ g in
    let re = guard-eq-ok _ _ r in
    (
      record { valid = v; identified = ground arith; unrevoked = ground arith },
      ground arith,
      ground arith,
      k3,
    )

not_in_tail :
    (seen : List Target) (x y : Target) → contains (x ∷ seen) y ≡ false → contains seen y ≡ false
unfolding contains
not_in_tail seen x y h = ground arith

In-certified_targets :
    (t : Target) (entries : List Certificate)
    → In t (certified_targets entries)
    → (entry : Certificate) × In entry entries × (entry.target ≡ t)
unfolding certified_targets
In-certified_targets t [] m = elim m [ ]
In-certified_targets t (e ∷ rest) (inl p) = (e, inl refl, sym p)
In-certified_targets t (e ∷ rest) (inr m) =
    let (entry, m', p) = In-certified_targets t rest m in (entry, inr m', p)

certified_targets-In :
    (entry : Certificate) (entries : List Certificate)
    → In entry entries
    → In entry.target (certified_targets entries)
unfolding certified_targets
certified_targets-In entry [] m = elim m [ ]
certified_targets-In entry (e ∷ rest) (inl p) = inl (ap (λ c. c.target) p)
certified_targets-In entry (e ∷ rest) (inr m) = inr (certified_targets-In entry rest m)

-- The validated entries are certified, and their targets are new and all different.
entries-IsCertified :
    (revoked ids : List Bytes) (seen : List Target) (entries : List Certificate)
    → validate_entries revoked ids seen entries ≡ ok tt
    → (entry : Certificate) → In entry entries
    → IsCertified revoked entry × (contains seen entry.target ≡ false)
entries-IsCertified revoked ids seen [] h entry m = elim m [ ]
entries-IsCertified revoked ids seen (e ∷ rest) h entry m =
    let (c, i, n, k) = entries_checked revoked ids seen e rest h in
    elim m [
      | inl p ↦ subst (λ x. IsCertified revoked x × (contains seen x.target ≡ false)) (sym p) (c, n)
      | inr m' ↦
          let (c', n') =
            entries-IsCertified revoked (e.evidence_id ∷ ids) (e.target ∷ seen) rest k entry m' in
          (c', not_in_tail seen e.target entry.target n')
    ]

entries-Distinct :
    (revoked ids : List Bytes) (seen : List Target) (entries : List Certificate)
    → validate_entries revoked ids seen entries ≡ ok tt
    → Distinct (certified_targets entries)
unfolding certified_targets
entries-Distinct revoked ids seen [] h = tt
entries-Distinct revoked ids seen (e ∷ rest) h =
    let (c, i, n, k) = entries_checked revoked ids seen e rest h in
    (
      λ m.
          let (entry, m', p) = In-certified_targets e.target rest m in
          let (_, n') =
            entries-IsCertified revoked (e.evidence_id ∷ ids) (e.target ∷ seen) rest k entry m' in
          false≢true (sym n' ∙ (contains_iff (e.target ∷ seen) entry.target).1 (inl p)),
      entries-Distinct revoked (e.evidence_id ∷ ids) (e.target ∷ seen) rest k,
    )

validate_parts :
    (m : Manifest)
    → validate m ≡ ok tt
    → validate_entries m.revoked_artifact_sha256 [] [] m.entries ≡ ok tt
unfolding validate
validate_parts m h = ground arith

admitted_listed :
    (m : Manifest) (t : Target)
    → admits m t ≡ true
    → (validate m ≡ ok tt) × In t (certified_targets m.entries)
unfolding admits
admitted_listed m t h =
    let (front, found) = and-eq-true _ _ h in
    let (front', _) = and-eq-true _ _ front in
    let (v, _) = and-eq-true _ _ front' in
    let (entry, i, p) = any-eq-true (λ entry. entry.target == t) m.entries found in
    (
      is_ok-eq (validate m) v,
      subst (λ x. In x (certified_targets m.entries)) ((==_iff entry.target t).0 p)
          (certified_targets-In entry m.entries i),
    )

listed_admitted :
    (m : Manifest) (t : Target)
    → validate m ≡ ok tt
    → In t (certified_targets m.entries)
    → admits m t ≡ true
unfolding admits
listed_admitted m t v i =
    let (entry, e, p) = In-certified_targets t m.entries i in
    let (c, _) =
      entries-IsCertified m.revoked_artifact_sha256 [] [] m.entries (validate_parts m v) entry e in
    let found =
      any_of-In (λ entry. entry.target == t) entry m.entries e ((==_iff entry.target t).1 p) in
    let valid : validate_target t ≡ ok tt = subst (λ x. validate_target x ≡ ok tt) p c.valid in
    let clean : is_revoked m.revoked_artifact_sha256 t ≡ false =
      subst (λ x. is_revoked m.revoked_artifact_sha256 x ≡ false) p c.unrevoked in
    rw (v, valid, clean, found)

-- A manifest admits a target exactly when it is valid and one of its certificates is for that very
-- target.
pub admits_iff :
    (m : Manifest) (t : Target)
    → (admits m t ≡ true) ↔ ((validate m ≡ ok tt) × In t (certified_targets m.entries))
admits_iff m t = (admitted_listed m t, λ (v, i). listed_admitted m t v i)

-- The certificates of a valid manifest are for different targets.
pub validate-Distinct : (m : Manifest) → validate m ≡ ok tt → Distinct (certified_targets m.entries)
validate-Distinct m h =
    entries-Distinct m.revoked_artifact_sha256 [] [] m.entries (validate_parts m h)

-- Once a digest of any certified target is revoked, the manifest admits no target at all.
pub revoked_certificate-admits :
    (m : Manifest) (entry : Certificate) (digest : Bytes)
    → In entry m.entries
    → In digest (artifact_digests entry.target)
    → In digest m.revoked_artifact_sha256
    → (t : Target) → admits m t ≡ false
revoked_certificate-admits m entry digest e d r t = elim (Bool-cases (admits m t)) [
  | inr refused ↦ refused
  | inl admitted ↦
      let v = ((admits_iff m t).0 admitted).0 in
      let (c, _) =
        entries-IsCertified m.revoked_artifact_sha256 [] [] m.entries (validate_parts m v) entry
          e in
      let hit =
        any_of-In (contains m.revoked_artifact_sha256) digest (artifact_digests entry.target) d
          ((contains_iff m.revoked_artifact_sha256 digest).1 r) in
      absurd (false≢true (sym c.unrevoked ∙ unfold is_revoked in hit))
]
