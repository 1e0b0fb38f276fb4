-- ===== src/Prelude/Decimal/Value.antt =====
-- The printed form of the value that digits spell.
use codex_autoapprover.Prelude.{
  all, Bool-cases, Bytes, [], ap, append-nil, append_assoc, arith, inl, inr, is_ascii_digit, ltb,
  refl, suc, sym, true, false, zero, ℕ, ◌%◌, ◌*◌, ◌++◌, ◌+◌, ◌-◌, ◌/◌, ◌<◌, ◌∙◌, ◌∷◌, ◌≡◌, ◌≤◌,
}
use codex_autoapprover.Prelude.Decimal.{decimal, is_plain, to_decimal, value}

-- More fuel than the number needs changes nothing.
decimal_fuel : (f g n : ℕ) → n < f → n < g → decimal f n ≡ decimal g n
unfolding decimal
decimal_fuel zero g n h k = absurd (omega arith)
decimal_fuel (suc f) zero n h k = absurd (omega arith)
decimal_fuel (suc f) (suc g) n h k = elim (Bool-cases (ltb n 10)) [
  | inl e ↦ rw e refl
  | inr e ↦ rw e (
      ap (λ t. t ++ (b'0' + n % 10) ∷ []) (decimal_fuel f g (n / 10) (ground arith) (ground arith)))
]

to_decimal-digit :
    (front c : ℕ)
    → 1 ≤ front
    → is_ascii_digit c ≡ true
    → to_decimal (front * 10 + (c - b'0')) ≡ to_decimal front ++ c ∷ []
unfolding to_decimal decimal is_ascii_digit
to_decimal-digit front c h d =
    let n = front * 10 + (c - b'0') in
    let above : ltb n 10 ≡ false = ground arith in
    let tens : n / 10 ≡ front = ground arith in
    let unit : b'0' + n % 10 ≡ c = ground arith in
    rw (above, tens, unit)
      (ap (λ t. t ++ c ∷ []) (decimal_fuel n (suc front) front (omega arith) (omega arith)))

to_decimal-value_behind :
    (front : ℕ) (s : Bytes)
    → 1 ≤ front
    → all is_ascii_digit s ≡ true
    → to_decimal (value front s) ≡ to_decimal front ++ s
to_decimal-value_behind front [] h d = sym (append-nil (to_decimal front))
to_decimal-value_behind front (c ∷ s) h d =
    let here : is_ascii_digit c ≡ true = ground arith in
    to_decimal-value_behind (front * 10 + (c - b'0')) s (omega arith) (ground arith)
    ∙ ap (λ t. t ++ s) (to_decimal-digit front c h here)
    ∙ append_assoc (to_decimal front) (c ∷ []) s

one_digit : (c : ℕ) → is_ascii_digit c ≡ true → to_decimal (0 + (c - b'0')) ≡ c ∷ []
unfolding to_decimal decimal is_ascii_digit
one_digit c h =
    let below : ltb (0 + (c - b'0')) 10 ≡ true = ground arith in
    rw below (ap (λ t. t ∷ []) (ground arith))

-- A plain decimal is the print of its value.
pub to_decimal-value : (s : Bytes) → is_plain s ≡ true → to_decimal (value 0 s) ≡ s
to_decimal-value [] h = cc
to_decimal-value (c ∷ []) h = one_digit c h
to_decimal-value (c ∷ d ∷ s) h =
    let first : is_ascii_digit c ≡ true = ground arith in
    to_decimal-value_behind (0 + (c - b'0')) (d ∷ s) (ground arith) (ground arith)
    ∙ ap (λ t. t ++ d ∷ s) (one_digit c first)
