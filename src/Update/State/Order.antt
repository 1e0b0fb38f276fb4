-- ===== src/Update/State/Order.antt =====
-- About `observation_order` of src/update/state.rs: the order of the observations is a total
-- preorder.
use codex_autoapprover.Prelude.{
  List, Ordering, [], ap, arith, compare, false, refl, true, ℕ, ◌∷◌, ◌≡◌,
}
use codex_autoapprover.Prelude.Sorting.{IsOrder}
use codex_autoapprover.Platform.{os_index, surface_index}
use codex_autoapprover.Update.Version.{cmp, is_le, then_cmp}
use codex_autoapprover.Update.State.{CompatibilityObservation, observation_leb}

-- The numbers that are compared, the first difference first.
abbrev keys : CompatibilityObservation → List ℕ
keys o =
    o.codex_version.major
    ∷ o.codex_version.minor
    ∷ o.codex_version.patch
    ∷ o.autoapprover_version.major
    ∷ o.autoapprover_version.minor
    ∷ o.autoapprover_version.patch
    ∷ os_index o.operating_system
    ∷ surface_index o.surface
    ∷ []

abbrev lex : List ℕ → List ℕ → Ordering
lex [] [] = Ordering.eq
lex [] (y ∷ ys) = Ordering.lt
lex (x ∷ xs) [] = Ordering.gt
lex (x ∷ xs) (y ∷ ys) = then_cmp (compare x y) (lex xs ys)

then_cmp-then_cmp : (a b c : Ordering) → then_cmp (then_cmp a b) c ≡ then_cmp a (then_cmp b c)
then_cmp-then_cmp Ordering.lt b c = refl
then_cmp-then_cmp Ordering.eq b c = refl
then_cmp-then_cmp Ordering.gt b c = refl

then_cmp-eq : (a : Ordering) → then_cmp a Ordering.eq ≡ a
then_cmp-eq Ordering.lt = refl
then_cmp-eq Ordering.eq = refl
then_cmp-eq Ordering.gt = refl

observation_leb-lex :
    (a b : CompatibilityObservation) → observation_leb a b ≡ is_le (lex (keys a) (keys b))
unfolding observation_leb cmp
observation_leb-lex a b = ap is_le (simp (then_cmp-then_cmp, then_cmp-eq))

lex_total : (xs ys : List ℕ) → is_le (lex xs ys) ≡ false → is_le (lex ys xs) ≡ true
lex_total [] [] h = refl
lex_total [] (y ∷ ys) h = absurd (ground arith)
lex_total (x ∷ xs) [] h = refl
lex_total (x ∷ xs) (y ∷ ys) h = ground (arith, lex_total xs ys)

lex_trans :
    (xs ys zs : List ℕ)
    → is_le (lex xs ys) ≡ true
    → is_le (lex ys zs) ≡ true
    → is_le (lex xs zs) ≡ true
lex_trans [] ys [] h k = refl
lex_trans [] ys (z ∷ zs) h k = refl
lex_trans (x ∷ xs) [] zs h k = absurd (ground arith)
lex_trans (x ∷ xs) (y ∷ ys) [] h k = absurd (ground arith)
lex_trans (x ∷ xs) (y ∷ ys) (z ∷ zs) h k = ground (arith, lex_trans xs ys zs)

lex_refl : (xs : List ℕ) → is_le (lex xs xs) ≡ true
lex_refl [] = refl
lex_refl (x ∷ xs) = ground (arith, lex_refl xs)

pub observation_leb-IsOrder : IsOrder observation_leb
observation_leb-IsOrder = record {
  total =
      λ a b. rw (observation_leb-lex a b, observation_leb-lex b a) (lex_total (keys a) (keys b));
  trans = λ a b c.
      rw (observation_leb-lex a b, observation_leb-lex b c, observation_leb-lex a c)
        (lex_trans (keys a) (keys b) (keys c));
  reflexive = λ a. rw (observation_leb-lex a a) (lex_refl (keys a));
}
