-- ===== src/Update/Choice/Highest.antt =====
-- The order of the runtime minima of src/update/selection.rs, and the asset that comes first in it.
use codex_autoapprover.Prelude.{
  Bool, In, List, [], ap, arith, false, inl, inr, ok, refl, sym, true, ◌∙◌, ◌∷◌, ◌≡◌,
}
use codex_autoapprover.Prelude.Sorting.{IsBelow-In, IsOrder, IsSorted}
use codex_autoapprover.Update.Manifest.Schema.{ReleaseAsset}
use codex_autoapprover.Update.Runtime.{
  RuntimeMinimum, linux_glibc_minimum, minimum_leb, windows_minimum,
}
use codex_autoapprover.Update.Choice.{above, pick_asset}

minimum_leb_total : (a b : RuntimeMinimum) → minimum_leb a b ≡ false → minimum_leb b a ≡ true
unfolding minimum_leb
minimum_leb_total (windows_minimum a b c) (windows_minimum d e f) h = ground arith
minimum_leb_total (windows_minimum a b c) (linux_glibc_minimum d e) h = cc
minimum_leb_total (linux_glibc_minimum a b) (windows_minimum d e f) h = refl
minimum_leb_total (linux_glibc_minimum a b) (linux_glibc_minimum d e) h = ground arith

minimum_leb_trans :
    (a b c : RuntimeMinimum)
    → minimum_leb a b ≡ true
    → minimum_leb b c ≡ true
    → minimum_leb a c ≡ true
unfolding minimum_leb
minimum_leb_trans (windows_minimum a b c) (windows_minimum d e f) (windows_minimum g i j) h k =
    ground arith
minimum_leb_trans (windows_minimum a b c) (windows_minimum d e f) (linux_glibc_minimum g i) h k =
    refl
minimum_leb_trans (windows_minimum a b c) (linux_glibc_minimum d e) (windows_minimum g i j) h k = cc
minimum_leb_trans (windows_minimum a b c) (linux_glibc_minimum d e) (linux_glibc_minimum g i) h k =
    refl
minimum_leb_trans (linux_glibc_minimum a b) (windows_minimum d e f) c h k = cc
minimum_leb_trans (linux_glibc_minimum a b) (linux_glibc_minimum d e) (windows_minimum g i j) h k =
    cc
minimum_leb_trans (linux_glibc_minimum a b) (linux_glibc_minimum d e) (linux_glibc_minimum g i) h
      k =
    ground arith

minimum_leb_refl : (a : RuntimeMinimum) → minimum_leb a a ≡ true
unfolding minimum_leb
minimum_leb_refl (windows_minimum a b c) = ground arith
minimum_leb_refl (linux_glibc_minimum a b) = ground arith

minimum_leb-IsOrder : IsOrder minimum_leb
minimum_leb-IsOrder = record {
  total = minimum_leb_total;
  trans = minimum_leb_trans;
  reflexive = minimum_leb_refl;
}

pub above-IsOrder : IsOrder above
unfolding above
above-IsOrder =
    let o = minimum_leb-IsOrder in
    record {
      total = λ a b h. o.total b.1 a.1 h;
      trans = λ a b c h k. o.trans c.1 b.1 a.1 k h;
      reflexive = λ a. o.reflexive a.1;
    }

-- The first of the sorted assets has the largest minimum.
pub picked :
    (xs : List (ReleaseAsset × RuntimeMinimum)) (refused : Bool) (asset : ReleaseAsset)
    → IsSorted above xs
    → pick_asset xs refused ≡ ok asset
    → (minimum : RuntimeMinimum) × In (asset, minimum) xs
      × ((b : ReleaseAsset) (n : RuntimeMinimum) → In (b, n) xs → minimum_leb n minimum ≡ true)
unfolding pick_asset above
picked [] refused asset s h = cc
picked ((a, m) ∷ []) refused asset s h =
    let e : a ≡ asset = ground arith in
    (
      m,
      inl (ap (λ x. (x, m)) (sym e)),
      λ b n. elim [
        | inl q ↦ ap (λ x. minimum_leb x.1 m) q ∙ minimum_leb_refl m
        | inr i ↦ elim i [ ]
      ],
    )
picked ((a, m) ∷ (a', m') ∷ xs) refused asset s h =
    let e : a ≡ asset = ground arith in
    (
      m,
      inl (ap (λ x. (x, m)) (sym e)),
      λ b n. elim [
        | inl q ↦ ap (λ x. minimum_leb x.1 m) q ∙ minimum_leb_refl m
        | inr i ↦ IsBelow-In above (a, m) (b, n) ((a', m') ∷ xs) s.0 i
      ],
    )
