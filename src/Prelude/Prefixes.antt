-- ===== src/Prelude/Prefixes.antt =====
-- The first elements of a list and the rest, where the list is written as a sum.
use Prim.Native.Nat.{ℕ, zero, suc, ◌-◌, ◌≤◌}
use mathlib.Core.Path.{◌≡◌, ap}
use mathlib.Core.List.{List, [], ◌∷◌, ◌++◌}
use native.Mathlib.Omega.{arith}
use codex_autoapprover.Prelude.Lists.{length, take, drop}

module _ {A : Type 0} where
  pub take-append_long :
      (n : ℕ) (xs ys : List A) → length xs ≤ n → take n (xs ++ ys) ≡ xs ++ take (n - length xs) ys
  take-append_long n [] ys h = ground arith
  take-append_long zero (x ∷ xs) ys h = ground arith
  take-append_long (suc n) (x ∷ xs) ys h = ground (arith, take-append_long n xs ys (omega arith))

  pub drop-append_long :
      (n : ℕ) (xs ys : List A) → length xs ≤ n → drop n (xs ++ ys) ≡ drop (n - length xs) ys
  drop-append_long n [] ys h = ground arith
  drop-append_long zero (x ∷ xs) ys h = ground arith
  drop-append_long (suc n) (x ∷ xs) ys h = ground (arith, drop-append_long n xs ys (omega arith))

  pub take-append_short : (n : ℕ) (xs ys : List A) → n ≤ length xs → take n (xs ++ ys) ≡ take n xs
  take-append_short zero [] ys h = ground arith
  take-append_short zero (x ∷ xs) ys h = ground arith
  take-append_short (suc n) [] ys h = ground arith
  take-append_short (suc n) (x ∷ xs) ys h =
      ap (λ t. x ∷ t) (take-append_short n xs ys (omega arith))

  pub drop-append_short :
      (n : ℕ) (xs ys : List A) → n ≤ length xs → drop n (xs ++ ys) ≡ drop n xs ++ ys
  drop-append_short zero [] ys h = ground arith
  drop-append_short zero (x ∷ xs) ys h = ground arith
  drop-append_short (suc n) [] ys h = ground arith
  drop-append_short (suc n) (x ∷ xs) ys h = drop-append_short n xs ys (omega arith)

  pub take-length : (xs ys : List A) → take (length xs) (xs ++ ys) ≡ xs
  take-length [] ys = ground arith
  take-length (x ∷ xs) ys = ap (λ t. x ∷ t) (take-length xs ys)

  pub drop-length : (xs ys : List A) → drop (length xs) (xs ++ ys) ≡ ys
  drop-length [] ys = ground arith
  drop-length (x ∷ xs) ys = drop-length xs ys
