-- ===== src/Prelude/Sorting.antt =====
-- The stable `sort_by` of slices and `Vec::pop`.
use mathlib.Core.Path.{◌≡◌, refl, ap, ◌∙◌}
use mathlib.Core.Logic.{◌↔◌, inl, inr}
use mathlib.Core.List.{List, [], ◌∷◌}
use mathlib.Core.Bool.{Bool, true, false}
use mathlib.Core.Option.{Option, none, some}
use native.Mathlib.Omega.{arith}
use codex_autoapprover.Prelude.Tests.{if◌then◌else◌, Bool-cases}
use Prim.Native.Nat.{suc}
use codex_autoapprover.Prelude.Lists.{In, length}

-- An element goes in front of the first that it is not above, so that equals keep their order.
unfoldable pub insert_by : {A : Type 0} → (A → A → Bool) → A → List A → List A
insert_by le x [] = x ∷ []
insert_by le x (y ∷ ys) = let rest = insert_by le x ys in if le x y then x ∷ y ∷ ys else y ∷ rest

unfoldable pub sort_by : {A : Type 0} → (A → A → Bool) → List A → List A
unfolding insert_by
sort_by le [] = []
sort_by le (x ∷ xs) = insert_by le x (sort_by le xs)

-- `Vec::pop`
abbrev pub last : {A : Type 0} → List A → Option A
last [] = none
last (x ∷ []) = some x
last (x ∷ y ∷ ys) = last (y ∷ ys)

-- Every element of `xs` is at least `x`.
abbrev pub IsBelow : {A : Type 0} → (A → A → Bool) → A → List A → Type 0
IsBelow le x [] = Unit
IsBelow le x (y ∷ ys) = (le x y ≡ true) × IsBelow le x ys

abbrev pub IsSorted : {A : Type 0} → (A → A → Bool) → List A → Type 0
IsSorted le [] = Unit
IsSorted le (x ∷ xs) = IsBelow le x xs × IsSorted le xs

-- A total preorder.
pub record IsOrder {A : Type 0} (le : A → A → Bool) : Type 0 where
  pub total : (a b : A) → le a b ≡ false → le b a ≡ true
  pub trans : (a b c : A) → le a b ≡ true → le b c ≡ true → le a c ≡ true
  pub reflexive : (a : A) → le a a ≡ true

module _ {A : Type 0} (le : A → A → Bool) where
  In-insert_by : (x y : A) (ys : List A) → In x (insert_by le y ys) ↔ In x (y ∷ ys)
  unfolding insert_by
  In-insert_by x y [] = (λ m. m, λ m. m)
  In-insert_by x y (z ∷ zs) =
      let h = In-insert_by x y zs in
      elim (Bool-cases (le y z)) [
        | inl e ↦ rw e (λ m. m, λ m. m)
        | inr e ↦ rw e (
          elim [
            | inl p ↦ inr (inl p)
            | inr m ↦ elim (h.0 m) [ inl q ↦ inl q | inr n ↦ inr (inr n) ]
          ],
          elim [
            | inl p ↦ inr (h.1 (inl p))
            | inr m ↦ elim m [ inl q ↦ inl q | inr n ↦ inr (h.1 (inr n)) ]
          ],
        )
      ]

  pub In-sort_by : (x : A) (xs : List A) → In x (sort_by le xs) ↔ In x xs
  unfolding sort_by
  In-sort_by x [] = (λ m. m, λ m. m)
  In-sort_by x (y ∷ ys) =
      let h = In-sort_by x ys in
      let k = In-insert_by x y (sort_by le ys) in
      (
        λ m. elim (k.0 m) [ inl p ↦ inl p | inr n ↦ inr (h.0 n) ],
        elim [ inl p ↦ k.1 (inl p) | inr n ↦ k.1 (inr (h.1 n)) ],
      )

  pub IsBelow-In : (x y : A) (ys : List A) → IsBelow le x ys → In y ys → le x y ≡ true
  IsBelow-In x y [] b m = elim m [ ]
  IsBelow-In x y (z ∷ zs) b (inl p) = ap (le x) p ∙ b.0
  IsBelow-In x y (z ∷ zs) b (inr m) = IsBelow-In x y zs b.1 m

  IsBelow-trans :
      IsOrder le → (x y : A) (ys : List A) → le x y ≡ true → IsBelow le y ys → IsBelow le x ys
  IsBelow-trans o x y [] h b = tt
  IsBelow-trans o x y (z ∷ zs) h b = (o.trans x y z h b.0, IsBelow-trans o x y zs h b.1)

  IsBelow-insert_by :
      (x y : A) (ys : List A) → le x y ≡ true → IsBelow le x ys → IsBelow le x (insert_by le y ys)
  unfolding insert_by
  IsBelow-insert_by x y [] h b = (h, tt)
  IsBelow-insert_by x y (z ∷ zs) h b = elim (Bool-cases (le y z)) [
    | inl e ↦ rw e (h, b)
    | inr e ↦ rw e (b.0, IsBelow-insert_by x y zs h b.1)
  ]

  insert_by-IsSorted :
      IsOrder le → (x : A) (xs : List A) → IsSorted le xs → IsSorted le (insert_by le x xs)
  unfolding insert_by
  insert_by-IsSorted o x [] s = (tt, tt)
  insert_by-IsSorted o x (y ∷ ys) s =
      let rest = insert_by-IsSorted o x ys s.1 in
      elim (Bool-cases (le x y)) [
        | inl e ↦ rw e ((e, IsBelow-trans o x y ys e s.0), s)
        | inr e ↦ rw e (IsBelow-insert_by y x ys (o.total x y e) s.0, rest)
      ]

  pub sort_by-IsSorted : IsOrder le → (xs : List A) → IsSorted le (sort_by le xs)
  unfolding sort_by
  sort_by-IsSorted o [] = tt
  sort_by-IsSorted o (x ∷ xs) = insert_by-IsSorted o x (sort_by le xs) (sort_by-IsSorted o xs)

  pub last-In : (xs : List A) (x : A) → last xs ≡ some x → In x xs
  last-In [] x h = cc
  last-In (y ∷ []) x h = inl (ground arith)
  last-In (y ∷ z ∷ zs) x h = inr (last-In (z ∷ zs) x h)

  -- The last of a sorted list is at least every element.
  pub last-above :
      IsOrder le
      → (xs : List A) (x y : A) → IsSorted le xs
      → last xs ≡ some x
      → In y xs
      → le y x ≡ true
  last-above o [] x y s h m = elim m [ ]
  last-above o (z ∷ []) x y s h (inl p) = rw p (ap (le z) (ground arith) ∙ o.reflexive z)
  last-above o (z ∷ []) x y s h (inr m) = elim m [ ]
  last-above o (z ∷ w ∷ ws) x y s h (inl p) =
      rw p (IsBelow-In z x (w ∷ ws) s.0 (last-In (w ∷ ws) x h))
  last-above o (z ∷ w ∷ ws) x y s h (inr m) = last-above o (w ∷ ws) x y s.1 h m

  pub last-eq-none : (xs : List A) → last xs ≡ none → xs ≡ []
  last-eq-none [] h = refl
  last-eq-none (x ∷ []) h = cc
  last-eq-none (x ∷ y ∷ ys) h = absurd (ground (arith, last-eq-none (y ∷ ys) h))

module _ {A : Type 0} (le : A → A → Bool) where
  length-insert_by : (x : A) (xs : List A) → length (insert_by le x xs) ≡ suc (length xs)
  unfolding insert_by
  length-insert_by x [] = refl
  length-insert_by x (y ∷ ys) = elim (Bool-cases (le x y)) [
    | inl e ↦ rw e refl
    | inr e ↦ rw e (ap suc (length-insert_by x ys))
  ]

  pub length-sort_by : (xs : List A) → length (sort_by le xs) ≡ length xs
  unfolding sort_by
  length-sort_by [] = refl
  length-sort_by (x ∷ xs) = length-insert_by x (sort_by le xs) ∙ ap suc (length-sort_by xs)
