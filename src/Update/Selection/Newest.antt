-- ===== src/Update/Selection/Newest.antt =====
-- About `select_applicable` of src/update/selection.rs.
use codex_autoapprover.Prelude.{
  true, Option-cases, some, ◌⊎◌, Result-cases, ap, err, refl, subst, ◌∙◌, nat_eq, bytes_eq,
  option_eq, In, List, [], arith, inl, inr, ok, sym, ◌∷◌, ◌≡◌,
}
use codex_autoapprover.Prelude.Sorting.{
  In-sort_by, last-In, last-above, last-eq-none, sort_by-IsSorted, last, sort_by, IsOrder,
}
use codex_autoapprover.Update.Manifest.Schema.{ReleaseManifest}
use codex_autoapprover.Update.Selection.{
  select_applicable, selected, SelectedRelease, consider, older, partition,
}
use codex_autoapprover.Update.Choice.{SelectionInput}
use codex_autoapprover.Update.Version.{
  version_leb-ltb, version_ltb_sound, version_trichotomy, VersionLt, version_eq, StableVersion, cmp,
  version_leb,
}
use codex_autoapprover.Update.Runtime.{SelectionRejectionReason}
use codex_autoapprover.Update.Catalog.{validate_catalog_ambiguity}
use codex_autoapprover.Update.Catalog.Versions.{same_release}

version_leb-IsOrder : IsOrder version_leb
unfolding cmp
version_leb-IsOrder = record {
  total = λ a b h. ground arith;
  trans = λ a b c h k. ground arith;
  reflexive = λ a. ground arith;
}

older-IsOrder : IsOrder older
unfolding older
older-IsOrder =
    let o = version_leb-IsOrder in
    let v : SelectedRelease → StableVersion = λ s. s.release.release_version in
    record {
      total = λ a b h. o.total (v a) (v b) h;
      trans = λ a b c h k. o.trans (v a) (v b) (v c) h k;
      reflexive = λ a. o.reflexive (v a);
    }

consider-release :
    (input : SelectionInput) (m : ReleaseManifest) (s : SelectedRelease)
    → consider input m ≡ ok s
    → s.release ≡ m
unfolding consider
consider-release input m s h = ground arith

partition-ok :
    (input : SelectionInput) (m : ReleaseManifest) (ms : List ReleaseManifest) (s : SelectedRelease)
    → consider input m ≡ ok s
    → (partition input (m ∷ ms)).0 ≡ s ∷ (partition input ms).0
unfolding partition
partition-ok input m ms s h = ground arith

partition-err :
    (input : SelectionInput) (m : ReleaseManifest) (ms : List ReleaseManifest)
    (e : SelectionRejectionReason)
    → consider input m ≡ err e
    → partition input (m ∷ ms) ≡ (
      (partition input ms).0,
      record { release_version = m.release_version; reason = e } ∷ (partition input ms).1,
    )
unfolding partition
partition-err input m ms e h = ground arith

partition-found :
    (input : SelectionInput) (ms : List ReleaseManifest) (s : SelectedRelease)
    → In s (partition input ms).0
    → (m : ReleaseManifest) × In m ms × (consider input m ≡ ok s)
partition-found input [] s i = unfold partition in elim i [ ]
partition-found input (m ∷ ms) s i =
    let rest = partition-found input ms s in
    elim (Result-cases (consider input m)) [
      | inl (t, e) ↦ elim (subst (In s) (partition-ok input m ms t e) i) [
        | inl p ↦ (m, inl refl, e ∙ ap ok (sym p))
        | inr j ↦ let (n, k, q) = rest j in (n, inr k, q)
      ]
      | inr (x, e) ↦
          let (n, k, q) = rest (subst (In s) (ap (λ r. r.0) (partition-err input m ms x e)) i) in
          (n, inr k, q)
    ]

found-partition :
    (input : SelectionInput) (ms : List ReleaseManifest) (s : SelectedRelease) (m : ReleaseManifest)
    → In m ms
    → consider input m ≡ ok s
    → In s (partition input ms).0
found-partition input [] s m i h = elim i [ ]
found-partition input (n ∷ ms) s m (inl p) h =
    subst (In s) (sym (partition-ok input n ms s (ap (consider input) (sym p) ∙ h))) (inl refl)
found-partition input (n ∷ ms) s m (inr i) h =
    let rest = found-partition input ms s m i h in
    elim (Result-cases (consider input n)) [
      | inl (t, e) ↦ subst (In s) (sym (partition-ok input n ms t e)) (inr rest)
      | inr (x, e) ↦ subst (In s) (ap (λ r. r.0) (sym (partition-err input n ms x e))) rest
    ]

-- The catalog is unambiguous, the release is one of the candidates that apply, and every other
-- candidate that applies is older.
pub record IsNewest (ms : List ReleaseManifest) (input : SelectionInput) (s : SelectedRelease)
    : Type 0 where
  pub unambiguous : validate_catalog_ambiguity ms ≡ ok tt
  pub candidate : In s.release ms
  pub applies : consider input s.release ≡ ok s
  pub newest :
      (m : ReleaseManifest) (t : SelectedRelease)
      → In m ms
      → consider input m ≡ ok t
      → (m ≡ s.release) ⊎ VersionLt m.release_version s.release.release_version

select_applicable-eq-selected :
    (ms : List ReleaseManifest) (input : SelectionInput) (s : SelectedRelease)
    → select_applicable ms input ≡ selected s
    → (validate_catalog_ambiguity ms ≡ ok tt)
      × (last (sort_by older (partition input ms).0) ≡ some s)
unfolding select_applicable
select_applicable-eq-selected [] input s h = cc
select_applicable-eq-selected (m ∷ ms) input s h =
    elim (Result-cases (validate_catalog_ambiguity (m ∷ ms))) [
      | inr (x, e) ↦ absurd (ground arith)
      | inl (u, e) ↦ elim (Option-cases (last (sort_by older (partition input (m ∷ ms)).0))) [
        | inl n ↦ absurd (ground arith)
        | inr (t, p) ↦ (ground arith, ground arith)
      ]
    ]

newer :
    (ms : List ReleaseManifest) (input : SelectionInput) (m n : ReleaseManifest)
    (s t : SelectedRelease)
    → validate_catalog_ambiguity ms ≡ ok tt
    → In m ms
    → In n ms
    → s.release ≡ m
    → t.release ≡ n
    → older t s ≡ true
    → (n ≡ s.release) ⊎ VersionLt n.release_version s.release.release_version
unfolding older validate_catalog_ambiguity
newer ms input m n s t v i j p q h =
    let h' : version_leb n.release_version m.release_version ≡ true =
      subst (λ x. version_leb x.release_version m.release_version ≡ true) q
        (subst (λ x. version_leb t.release.release_version x.release_version ≡ true) p h) in
    let g : (n ≡ m) ⊎ VersionLt n.release_version m.release_version =
      elim (version_trichotomy n.release_version m.release_version) [
        | inl (inl a) ↦ inr (version_ltb_sound n.release_version m.release_version a)
        | inl (inr a) ↦ absurd (ground (arith, version_leb-ltb n.release_version m.release_version))
        | inr e ↦ inl (same_release [] ms n m v j i e)
      ] in
    subst (λ x. (n ≡ x) ⊎ VersionLt n.release_version x.release_version) (sym p) g

-- A selected release is the newest of the candidates that apply to the input, in an unambiguous
-- catalog.
pub select_applicable-IsNewest :
    (ms : List ReleaseManifest) (input : SelectionInput) (s : SelectedRelease)
    → select_applicable ms input ≡ selected s
    → IsNewest ms input s
select_applicable-IsNewest ms input s h =
    let (v, l) = select_applicable-eq-selected ms input s h in
    let found = (partition input ms).0 in
    let listed = (In-sort_by older s found).0 (last-In older (sort_by older found) s l) in
    let (m, i, e) = partition-found input ms s listed in
    let r = consider-release input m s e in
    record {
      unambiguous = v;
      candidate = subst (λ x. In x ms) (sym r) i;
      applies = ap (consider input) r ∙ e;
      newest = λ n t j k.
          let there = (In-sort_by older t found).1 (found-partition input ms t n j k) in
          let last_one =
            last-above older older-IsOrder (sort_by older found) s t
              (sort_by-IsSorted older older-IsOrder found) l there in
          newer ms input m n s t v i j r (consider-release input n t k) last_one;
    }

-- In an unambiguous catalog, a release is selected as soon as one candidate applies.
pub consider-select_applicable :
    (ms : List ReleaseManifest) (input : SelectionInput) (m : ReleaseManifest) (t : SelectedRelease)
    → validate_catalog_ambiguity ms ≡ ok tt
    → In m ms
    → consider input m ≡ ok t
    → (s : SelectedRelease) × (select_applicable ms input ≡ selected s)
unfolding select_applicable
consider-select_applicable [] input m t v i h = elim i [ ]
consider-select_applicable (n ∷ ms) input m t v i h =
    let found = (partition input (n ∷ ms)).0 in
    elim (Option-cases (last (sort_by older found))) [
      | inr (s, e) ↦ (s, ground arith)
      | inl e ↦
          let there = (In-sort_by older t found).1 (found-partition input (n ∷ ms) t m i h) in
          absurd (subst (In t) (last-eq-none older (sort_by older found) e) there)
    ]
