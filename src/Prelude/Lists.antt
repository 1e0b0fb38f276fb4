-- ===== src/Prelude/Lists.antt =====
-- Lists measured and tested by native numbers and Booleans, under the library's names.
use Prim.Native.Nat.{ℕ, zero, suc, ◌+◌}
use mathlib.Core.Path.{◌≡◌, refl, ap, ◌∙◌}
use mathlib.Core.Logic.{◌⊎◌, ◌↔◌, inl, inr}
use mathlib.Core.List.{List, [], ◌∷◌, ◌++◌, map}
use mathlib.Core.Bool.{Bool, true, false, ◌&&◌, ◌||◌}
use mathlib.Core.Option.{Option, none, some}
use native.Mathlib.Omega.{arith}
use codex_autoapprover.Prelude.Tests.{if◌then◌else◌, Bool-cases}

module _ {ℓ} {A : Type ℓ} where
  abbrev pub length : List A → ℕ
  length [] = 0
  length (x ∷ xs) = suc (length xs)

  abbrev pub get_elem? : List A → ℕ → Option A
  get_elem? [] i = none
  get_elem? (x ∷ xs) zero = some x
  get_elem? (x ∷ xs) (suc i) = get_elem? xs i

  abbrev pub take : ℕ → List A → List A
  take zero xs = []
  take (suc n) [] = []
  take (suc n) (x ∷ xs) = x ∷ take n xs

  abbrev pub drop : ℕ → List A → List A
  drop zero xs = xs
  drop (suc n) [] = []
  drop (suc n) (x ∷ xs) = drop n xs

  -- `.is_empty()`
  abbrev pub is_nil : List A → Bool
  is_nil [] = true
  is_nil (x ∷ xs) = false

  -- `.iter().all(p)` and `.iter().any(p)`
  abbrev pub all : (A → Bool) → List A → Bool
  all p [] = true
  all p (x ∷ xs) = p x && all p xs

  abbrev pub any : (A → Bool) → List A → Bool
  any p [] = false
  any p (x ∷ xs) = p x || any p xs

  -- `.iter().filter(p).collect()`
  abbrev pub keep : (A → Bool) → List A → List A
  keep p [] = []
  keep p (x ∷ xs) = let rest = keep p xs in if p x then x ∷ rest else rest

  pub length-append : (xs ys : List A) → length (xs ++ ys) ≡ length xs + length ys
  length-append [] ys = omega arith
  length-append (x ∷ xs) ys = omega (arith, length-append xs ys)

module _ {ℓ} {A : Type ℓ} where
  pub append-cancel : (xs ys zs : List A) → xs ++ zs ≡ ys ++ zs → xs ≡ ys
  append-cancel [] [] zs h = refl
  append-cancel [] (y ∷ ys) zs h = absurd (omega (arith, ap length h, length-append ys zs))
  append-cancel (x ∷ xs) [] zs h = absurd (omega (arith, ap length h, length-append xs zs))
  append-cancel (x ∷ xs) (y ∷ ys) zs h = ground (arith, append-cancel xs ys zs)

module _ {ℓ κ} {A : Type ℓ} where
  -- A predicate on every element, computed to a tuple.
  abbrev pub All : (A → Type κ) → List A → Type κ
  All P [] = Unit
  All P (x ∷ xs) = P x × All P xs

-- Membership by recursion, which computes.
abbrev pub In : {A : Type 0} → A → List A → Type 0
In a [] = ⊥
In a (x ∷ xs) = (a ≡ x) ⊎ In a xs

-- No element stands at two places.
abbrev pub Distinct : {A : Type 0} → List A → Type 0
Distinct [] = Unit
Distinct (x ∷ xs) = (¬ In x xs) × Distinct xs

module _ {A : Type 0} where
  pub any-eq-true :
      (p : A → Bool) (xs : List A) → any p xs ≡ true → (x : A) × In x xs × (p x ≡ true)
  any-eq-true p [] h = cc
  any-eq-true p (x ∷ xs) h = elim (Bool-cases (p x)) [
    | inl e ↦ (x, inl refl, e)
    | inr e ↦ let (y, m, q) = any-eq-true p xs (ground arith) in (y, inr m, q)
  ]

  pub any_of-In : (p : A → Bool) (x : A) (xs : List A) → In x xs → p x ≡ true → any p xs ≡ true
  any_of-In p x [] m h = elim m [ ]
  any_of-In p x (y ∷ xs) (inl e) h = ground (arith, ap p e)
  any_of-In p x (y ∷ xs) (inr m) h = ground (arith, any_of-In p x xs m h)

  pub all_of-In : (p : A → Bool) (x : A) (xs : List A) → In x xs → all p xs ≡ true → p x ≡ true
  all_of-In p x [] m h = elim m [ ]
  all_of-In p x (y ∷ xs) (inl e) h = ground (arith, ap p e)
  all_of-In p x (y ∷ xs) (inr m) h = all_of-In p x xs m (ground arith)

  pub any-eq-false : (p : A → Bool) (x : A) (xs : List A) → In x xs → any p xs ≡ false → p x ≡ false
  any-eq-false p x [] m h = elim m [ ]
  any-eq-false p x (y ∷ xs) (inl e) h = ground (arith, ap p e)
  any-eq-false p x (y ∷ xs) (inr m) h = any-eq-false p x xs m (ground arith)

  In-keep-true :
      (p : A → Bool) (x y : A) (xs : List A)
      → p y ≡ true
      → In x (keep p xs) ↔ (In x xs × (p x ≡ true))
      → In x (y ∷ keep p xs) ↔ (In x (y ∷ xs) × (p x ≡ true))
  In-keep-true p x y xs e h = (
    elim [ inl q ↦ (inl q, ap p q ∙ e) | inr m ↦ (inr (h.0 m).0, (h.0 m).1) ],
    λ (m, t). elim m [ inl q ↦ inl q | inr n ↦ inr (h.1 (n, t)) ],
  )

  In-keep-false :
      (p : A → Bool) (x y : A) (xs : List A)
      → p y ≡ false
      → In x (keep p xs) ↔ (In x xs × (p x ≡ true))
      → In x (keep p xs) ↔ (In x (y ∷ xs) × (p x ≡ true))
  In-keep-false p x y xs e h = (
    λ m. (inr (h.0 m).0, (h.0 m).1),
    λ (m, t). elim m [ inl q ↦ absurd (ground (arith, ap p q)) | inr n ↦ h.1 (n, t) ],
  )

  -- `keep` returns exactly the elements that pass.
  pub In-keep : (p : A → Bool) (x : A) (xs : List A) → In x (keep p xs) ↔ (In x xs × (p x ≡ true))
  In-keep p x [] = (λ m. elim m [ ], λ m. elim m.0 [ ])
  In-keep p x (y ∷ xs) = elim (Bool-cases (p y)) [
    | inl e ↦ rw e (In-keep-true p x y xs e (In-keep p x xs))
    | inr e ↦ rw e (In-keep-false p x y xs e (In-keep p x xs))
  ]

pub length-map {ℓ κ} :
    {A : Type ℓ} {B : Type κ} (f : A → B) (xs : List A) → length (map f xs) ≡ length xs
length-map f [] = refl
length-map f (x ∷ xs) = ap suc (length-map f xs)

pub In-append : {A : Type 0} (x : A) (xs ys : List A) → In x (xs ++ ys) → In x xs ⊎ In x ys
In-append x [] ys i = inr i
In-append x (y ∷ xs) ys (inl p) = inl (inl p)
In-append x (y ∷ xs) ys (inr i) = elim (In-append x xs ys i) [ inl j ↦ inl (inr j) | inr j ↦ inr j ]
