-- ===== src/Update/Choice/Fitting.antt =====
-- About `select_asset` of src/update/selection.rs.
use codex_autoapprover.Prelude.{
  ◌==◌, ==_iff, In-keep, keep, nat_eq, bytes_eq, option_eq, sym, ◌∙◌, Bool-cases, Result-cases, ap,
  err, inl, inr, subst, ◌⊎◌, Bool, In, List, [], arith, false, ok, true, ◌↔◌, ◌∷◌, ◌≡◌,
}
use codex_autoapprover.Prelude.Sorting.{In-sort_by, sort_by, sort_by-IsSorted}
use codex_autoapprover.Update.Manifest.Targets.{target_os_eq, target_arch_eq}
use codex_autoapprover.Update.Manifest.Schema.{ReleaseAsset}
use codex_autoapprover.Update.Runtime.{
  SelectionRejectionReason, RuntimeMinimum, minimum_leb, parse_runtime_minimum, runtime_meets,
}
use codex_autoapprover.Update.Choice.{
  select_asset, pick_asset, SelectionInput, above, applicable_assets,
}
use codex_autoapprover.Update.Choice.Highest.{above-IsOrder, picked}

-- An asset's runtime requirement is met.
abbrev pub Meets : SelectionInput → ReleaseAsset → RuntimeMinimum → Type 0
Meets input asset minimum =
    (parse_runtime_minimum asset ≡ ok minimum)
    × (runtime_meets input.runtime input.operating_system minimum ≡ ok true)

-- What the loop does with one asset when it goes through.
unreadable_asset :
    (input : SelectionInput) (a : ReleaseAsset) (rest : List ReleaseAsset)
    (found : List (ReleaseAsset × RuntimeMinimum)) (refused : Bool) (e : SelectionRejectionReason)
    → parse_runtime_minimum a ≡ err e
    → applicable_assets input (a ∷ rest) ≡ ok (found, refused)
    → (later : Bool) × (applicable_assets input rest ≡ ok (found, later))
unfolding applicable_assets
unreadable_asset input a rest found refused e p h =
    elim (Result-cases (applicable_assets input rest)) [
      | inl ((found', later), q) ↦ (later, ground arith)
      | inr (x, q) ↦ absurd (ground arith)
    ]

pub record Readable (input : SelectionInput) (a : ReleaseAsset) (rest : List ReleaseAsset)
    (found : List (ReleaseAsset × RuntimeMinimum)) (minimum : RuntimeMinimum) : Type 0 where
  pub later : List (ReleaseAsset × RuntimeMinimum)
  pub flag : Bool
  pub rest_found : applicable_assets input rest ≡ ok (later, flag)
  pub answer :
      ((runtime_meets input.runtime input.operating_system minimum ≡ ok true)
        × (found ≡ (a, minimum) ∷ later))
      ⊎ ((runtime_meets input.runtime input.operating_system minimum ≡ ok false) × (found ≡ later))

Readable-asset :
    (input : SelectionInput) (a : ReleaseAsset) (rest : List ReleaseAsset)
    (found : List (ReleaseAsset × RuntimeMinimum)) (refused : Bool) (minimum : RuntimeMinimum)
    → parse_runtime_minimum a ≡ ok minimum
    → applicable_assets input (a ∷ rest) ≡ ok (found, refused)
    → Readable input a rest found minimum
unfolding applicable_assets
Readable-asset input a rest found refused minimum p h =
    elim (Result-cases (runtime_meets input.runtime input.operating_system minimum)) [
      | inr (x, q) ↦ absurd (ground arith)
      | inl (meets, q) ↦ elim (Result-cases (applicable_assets input rest)) [
        | inr (x, r) ↦ absurd (ground arith)
        | inl ((later, flag), r) ↦ record {
          later = later;
          flag = flag;
          rest_found = r;
          answer = elim (Bool-cases meets) [
            | inl t ↦ inl (ground arith, ground arith)
            | inr f ↦ inr (ground arith, ground arith)
          ];
        }
      ]
    ]

-- The loop finds exactly the assets whose requirement is met, with their requirements.
applicable_assets_iff :
    (input : SelectionInput) (assets : List ReleaseAsset)
    (found : List (ReleaseAsset × RuntimeMinimum)) (refused : Bool)
    → applicable_assets input assets ≡ ok (found, refused)
    → (asset : ReleaseAsset) (minimum : RuntimeMinimum)
    → In (asset, minimum) found ↔ (In asset assets × Meets input asset minimum)
applicable_assets_iff input [] found refused h asset minimum =
    let p : found ≡ [] = unfold applicable_assets in ground arith in
    (λ i. elim (subst (In (asset, minimum)) p i) [ ], λ i. elim i.0 [ ])
applicable_assets_iff input (a ∷ rest) found refused h asset minimum =
    elim (Result-cases (parse_runtime_minimum a)) [
      | inr (e, p) ↦
          let (later, q) = unreadable_asset input a rest found refused e p h in
          let r = applicable_assets_iff input rest found later q asset minimum in
          (
            λ i. let (j, m) = r.0 i in (inr j, m),
            λ (j, m). elim j [ inl k ↦ absurd (clash a e p k m) | inr k ↦ r.1 (k, m) ],
          )
      | inl (n, p) ↦
          let s = Readable-asset input a rest found refused n p h in
          let r = applicable_assets_iff input rest s.later s.flag s.rest_found asset minimum in
          elim s.answer [
            | inl (t, f) ↦ (
              λ i. elim (subst (In (asset, minimum)) f i) [
                | inl q ↦ (inl (ap (λ x. x.0) q), subst (λ x. Meets input x.0 x.1) (sym q) (p, t))
                | inr j ↦ let (k, m) = r.0 j in (inr k, m)
              ],
              λ (j, m).
                  subst (In (asset, minimum)) (sym f)
                    (elim j [ inl k ↦ inl (same_minimum a n p k m) | inr k ↦ inr (r.1 (k, m)) ]),
            )
            | inr (t, f) ↦ (
              λ i. let (k, m) = r.0 (subst (In (asset, minimum)) f i) in (inr k, m),
              λ (j, m). elim j [
                | inl k ↦ absurd (unmet a n p t k m)
                | inr k ↦ subst (In (asset, minimum)) (sym f) (r.1 (k, m))
              ],
            )
          ]
    ]
  where
    clash :
        (b : ReleaseAsset) (e : SelectionRejectionReason)
        → parse_runtime_minimum b ≡ err e
        → asset ≡ b
        → Meets input asset minimum
        → ⊥
    clash b e p k m = ground (arith, ap parse_runtime_minimum k)

    same_minimum :
        (b : ReleaseAsset) (n : RuntimeMinimum)
        → parse_runtime_minimum b ≡ ok n
        → asset ≡ b
        → Meets input asset minimum
        → ◌≡◌ {A = ReleaseAsset × RuntimeMinimum} (asset, minimum) (b, n)
    same_minimum b n p k m = let q = sym m.0 ∙ ap parse_runtime_minimum k ∙ p in ground arith

    unmet :
        (b : ReleaseAsset) (n : RuntimeMinimum)
        → parse_runtime_minimum b ≡ ok n
        → runtime_meets input.runtime input.operating_system n ≡ ok false
        → asset ≡ b
        → Meets input asset minimum
        → ⊥
    unmet b n p t k m = let q = sym m.0 ∙ ap parse_runtime_minimum k ∙ p in ground arith

-- The two filters of `select_asset`.
unfoldable pub on_platform : SelectionInput → List ReleaseAsset → List ReleaseAsset
on_platform input assets =
    keep (λ asset. asset.architecture == input.architecture)
      (keep (λ asset. asset.operating_system == input.operating_system) assets)

on_platform_iff :
    (input : SelectionInput) (assets : List ReleaseAsset) (asset : ReleaseAsset)
    → In asset (on_platform input assets) ↔ (
        In asset assets
        × (asset.operating_system ≡ input.operating_system)
        × (asset.architecture ≡ input.architecture))
unfolding on_platform
on_platform_iff input assets asset =
    let os = λ (x : ReleaseAsset). x.operating_system == input.operating_system in
    let arch = λ (x : ReleaseAsset). x.architecture == input.architecture in
    let inner = In-keep os asset assets in
    let outer = In-keep arch asset (keep os assets) in
    (
      λ i.
          let (j, a) = outer.0 i in
          let (l, o) = inner.0 j in
          (
            l,
            (==_iff asset.operating_system input.operating_system).0 o,
            (==_iff asset.architecture input.architecture).0 a,
          ),
      λ (l, o, a). outer.1 (
        inner.1 (l, (==_iff asset.operating_system input.operating_system).1 o),
        (==_iff asset.architecture input.architecture).1 a,
      ),
    )

-- The asset is for the input's platform, its requirement is met, and no other asset of the
-- platform whose requirement is met asks for more.
pub record IsFittingAsset (assets : List ReleaseAsset) (input : SelectionInput)
    (asset : ReleaseAsset) : Type 0 where
  pub listed : In asset assets
  pub platform : asset.operating_system ≡ input.operating_system
  pub architecture : asset.architecture ≡ input.architecture
  pub minimum : RuntimeMinimum
  pub meets : Meets input asset minimum
  pub closest :
      (b : ReleaseAsset) (n : RuntimeMinimum)
      → In b assets
      → b.operating_system ≡ input.operating_system
      → b.architecture ≡ input.architecture
      → Meets input b n
      → minimum_leb n minimum ≡ true

fitting :
    (assets : List ReleaseAsset) (input : SelectionInput) (asset : ReleaseAsset)
    (found : List (ReleaseAsset × RuntimeMinimum)) (refused : Bool)
    → applicable_assets input (on_platform input assets) ≡ ok (found, refused)
    → pick_asset (sort_by above found) refused ≡ ok asset
    → IsFittingAsset assets input asset
fitting assets input asset found refused h k =
    let (minimum, i, top) =
      picked (sort_by above found) refused asset (sort_by-IsSorted above above-IsOrder found) k in
    let iff = applicable_assets_iff input (on_platform input assets) found refused h in
    let (j, m) = (iff asset minimum).0 ((In-sort_by above (asset, minimum) found).0 i) in
    let (l, o, a) = (on_platform_iff input assets asset).0 j in
    record {
      listed = l;
      platform = o;
      architecture = a;
      minimum = minimum;
      meets = m;
      closest = λ b n l' o' a' m'. top b n (
          (In-sort_by above (b, n) found).1
            ((iff b n).1 ((on_platform_iff input assets b).1 (l', o', a'), m')));
    }

-- An asset that is selected fits: it is for the input's system and architecture, its runtime
-- requirement is met, and no other asset that fits has a higher one.
pub select_asset-IsFittingAsset :
    (assets : List ReleaseAsset) (input : SelectionInput) (asset : ReleaseAsset)
    → select_asset assets input ≡ ok asset
    → IsFittingAsset assets input asset
unfolding select_asset on_platform
select_asset-IsFittingAsset assets input asset h =
    elim (Result-cases (applicable_assets input (on_platform input assets))) [
      | inl ((found, refused), e) ↦ fitting assets input asset found refused e (ground arith)
      | inr (x, e) ↦ absurd (ground arith)
    ]
