-- ===== src/Prelude/Decimal.antt =====
-- Unsigned decimal numbers: `str::parse::<uN>()` of the standard library, which also takes one
-- leading plus sign, and `Display`.
pub mod Value
use Prim.Native.Nat.{ℕ, zero, suc, ◌+◌, ◌-◌, ◌*◌, ◌/◌, ◌%◌, ◌≤◌, ◌<◌}
use mathlib.Core.Path.{◌≡◌, refl, ap, ◌∙◌}
use mathlib.Core.Logic.{inl, inr}
use mathlib.Core.List.{[], ◌∷◌, ◌++◌}
use mathlib.Core.Bool.{Bool, true, false, ◌&&◌}
use mathlib.Core.Option.{Option, none, some}
use native.Mathlib.Omega.{arith}
use codex_autoapprover.Prelude.Tests.{if◌then◌else◌, ltb, leb, nat_eqb, Bool-cases}
use codex_autoapprover.Prelude.Lists.{all}
use codex_autoapprover.Prelude.Text.{Bytes, Lacks}
use codex_autoapprover.Prelude.Ascii.{is_ascii_digit}

-- The digits, with `checked_mul` and `checked_add` against the largest value of the type.
unfoldable pub parse_digits : ℕ → ℕ → Bytes → Option ℕ
unfolding is_ascii_digit
parse_digits max n [] = some n
parse_digits max n (c ∷ s) =
    let m = n * 10 + (c - b'0') in
    let rest = parse_digits max m s in
    if is_ascii_digit c then if leb m max then rest else none else none

unfoldable pub parse_unsigned : ℕ → Bytes → Option ℕ
unfolding parse_digits
parse_unsigned max [] = none
parse_unsigned max (c ∷ []) = parse_digits max 0 (c ∷ [])
parse_unsigned max (c ∷ d ∷ s) =
    let after_plus = parse_digits max 0 (d ∷ s) in
    let whole = parse_digits max 0 (c ∷ d ∷ s) in if nat_eqb c b'+' then after_plus else whole

-- The decimal digits of a number below the fuel.
unfoldable pub decimal : ℕ → ℕ → Bytes
decimal zero n = []
decimal (suc fuel) n =
    let front = decimal fuel (n / 10) in
    if ltb n 10 then (b'0' + n) ∷ [] else front ++ (b'0' + n % 10) ∷ []

unfoldable pub to_decimal : ℕ → Bytes
unfolding decimal
to_decimal n = decimal (suc n) n

-- No sign and no leading zero, the form that `to_decimal` prints.
abbrev pub is_plain : Bytes → Bool
is_plain [] = false
is_plain (c ∷ []) = is_ascii_digit c
is_plain (c ∷ d ∷ s) = is_ascii_digit c && leb b'1' c && all is_ascii_digit (d ∷ s)

-- The value that digits spell behind `n`.
abbrev pub value : ℕ → Bytes → ℕ
value n [] = n
value n (c ∷ s) = value (n * 10 + (c - b'0')) s

le-value : (digits : Bytes) (front : ℕ) → front ≤ value front digits
le-value [] front = omega arith
le-value (d ∷ digits) front = omega (arith, le-value digits (front * 10 + (d - b'0')))

pub parse_digits_complete :
    (max n : ℕ) (s : Bytes)
    → all is_ascii_digit s ≡ true
    → value n s ≤ max
    → parse_digits max n s ≡ some (value n s)
unfolding parse_digits
parse_digits_complete max n [] d h = refl
parse_digits_complete max n (c ∷ s) d h =
    let m = n * 10 + (c - b'0') in ground (arith, parse_digits_complete max m s, le-value s m)

pub parse_digits_sound :
    (max n : ℕ) (s : Bytes) (r : ℕ)
    → n ≤ max
    → parse_digits max n s ≡ some r
    → (all is_ascii_digit s ≡ true) × (r ≡ value n s) × (r ≤ max)
unfolding parse_digits
parse_digits_sound max n [] r fits h = ground arith
parse_digits_sound max n (c ∷ s) r fits h =
    ground (arith, parse_digits_sound max (n * 10 + (c - b'0')) s r)

value-append : (n : ℕ) (s t : Bytes) → value n (s ++ t) ≡ value (value n s) t
value-append n [] t = refl
value-append n (c ∷ s) t = value-append (n * 10 + (c - b'0')) s t

all-append : (p : ℕ → Bool) (s t : Bytes) → all p s ≡ true → all p t ≡ true → all p (s ++ t) ≡ true
all-append p [] t h k = k
all-append p (c ∷ s) t h k = ground (arith, all-append p s t)

value-decimal : (fuel n : ℕ) → n < fuel → value 0 (decimal fuel n) ≡ n
unfolding decimal
value-decimal zero n h = absurd (omega arith)
value-decimal (suc fuel) n h = elim (Bool-cases (ltb n 10)) [
  | inl e ↦ rw e (omega arith)
  | inr e ↦
      rw (e, value-append 0 (decimal fuel (n / 10)), value-decimal fuel (n / 10) (ground arith))
        (omega arith)
]

is_plain-append :
    (s : Bytes) (d : ℕ)
    → is_plain s ≡ true
    → (1 ≤ value 0 s)
    → is_ascii_digit d ≡ true
    → is_plain (s ++ d ∷ []) ≡ true
unfolding is_ascii_digit
is_plain-append [] d h v k = cc
is_plain-append (c ∷ []) d h v k = ground arith
is_plain-append (c ∷ c' ∷ s) d h v k = ground (arith, all-append is_ascii_digit s (d ∷ []))

decimal_plain : (fuel n : ℕ) → n < fuel → is_plain (decimal fuel n) ≡ true
unfolding decimal is_ascii_digit
decimal_plain zero n h = absurd (omega arith)
decimal_plain (suc fuel) n h = elim (Bool-cases (ltb n 10)) [
  | inl e ↦ rw e (ground arith)
  | inr e ↦ rw e (
      is_plain-append (decimal fuel (n / 10)) (b'0' + n % 10)
        (decimal_plain fuel (n / 10) (ground arith))
        (rw (value-decimal fuel (n / 10) (ground arith)) (ground arith)) (ground arith))
]

pub to_decimal_plain : (n : ℕ) → is_plain (to_decimal n) ≡ true
unfolding to_decimal
to_decimal_plain n = decimal_plain (suc n) n (omega arith)

pub value-to_decimal : (n : ℕ) → value 0 (to_decimal n) ≡ n
unfolding to_decimal
value-to_decimal n = value-decimal (suc n) n (omega arith)

-- On a plain decimal, the parser computes the value, or refuses it when it does not fit.
pub parse_unsigned_plain :
    (max : ℕ) (s : Bytes)
    → is_plain s ≡ true
    → value 0 s ≤ max
    → parse_unsigned max s ≡ some (value 0 s)
unfolding parse_unsigned is_ascii_digit
parse_unsigned_plain max [] h k = cc
parse_unsigned_plain max (c ∷ []) h k = parse_digits_complete max 0 (c ∷ []) (ground arith) k
parse_unsigned_plain max (c ∷ d ∷ s) h k = ground (arith, parse_digits_complete max 0 (c ∷ d ∷ s))

-- Every value of the type is read back from its print.
pub parse_unsigned-to_decimal : (max n : ℕ) → n ≤ max → parse_unsigned max (to_decimal n) ≡ some n
parse_unsigned-to_decimal max n h =
    parse_unsigned_plain max (to_decimal n) (to_decimal_plain n) (omega (arith, value-to_decimal n))
    ∙ ap some (value-to_decimal n)

digits-Lacks : (sep : ℕ) (s : Bytes) → sep < b'0' → all is_ascii_digit s ≡ true → Lacks sep s
unfolding is_ascii_digit
digits-Lacks sep [] h k = tt
digits-Lacks sep (c ∷ s) h k = (ground arith, digits-Lacks sep s h (ground arith))

-- A digit is none of the separators.
pub is_plain-Lacks : (sep : ℕ) (s : Bytes) → sep < b'0' → is_plain s ≡ true → Lacks sep s
unfolding is_ascii_digit
is_plain-Lacks sep [] h k = cc
is_plain-Lacks sep (c ∷ []) h k = ground arith
is_plain-Lacks sep (c ∷ d ∷ s) h k = (ground arith, digits-Lacks sep (d ∷ s) h (ground arith))
