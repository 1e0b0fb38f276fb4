-- ===== src/Broker/Messages/Secrets.antt =====
-- About `constant_time_equal` of src/broker/linux.rs.
use Prim.Native.Nat.{bit_or, bit_xor}
use codex_autoapprover.Prelude.{
  all_below, all_below_sound, ap, Bytes, [], all, if◌then◌else◌, if◌then◌else◌, length,
  if◌then◌else◌, ◌↔◌, ◌∷◌, ◌&&◌, ◌<◌, Bool, arith, ltb, nat_eqb, not, refl, true, ℕ, ◌≡◌,
}
use codex_autoapprover.Broker.Messages.{constant_time_equal, difference_of}

xor_table :
    all_below 256 (λ a. all_below 256 (λ b.
      (if nat_eqb (bit_xor a b) 0 then nat_eqb a b else not (nat_eqb a b))
      && ltb (bit_xor a b) 256))
    ≡ true
unfolding all_below
xor_table = refl

or_table :
    all_below 256 (λ d. all_below 256 (λ x.
      (if nat_eqb (bit_or d x) 0
        then nat_eqb d 0 && nat_eqb x 0
        else not (nat_eqb d 0 && nat_eqb x 0))
      && ltb (bit_or d x) 256))
    ≡ true
unfolding all_below
or_table = refl

-- On bytes, the exclusive or is 0 at equal ones alone.
bit_xor-byte : (a b : ℕ) → a < 256 → b < 256 → ((bit_xor a b ≡ 0) ↔ (a ≡ b)) × (bit_xor a b < 256)
bit_xor-byte a b p q =
    let row =
      all_below_sound 256
        (λ a. all_below 256 (λ b.
          (if nat_eqb (bit_xor a b) 0 then nat_eqb a b else not (nat_eqb a b))
          && ltb (bit_xor a b) 256))
        a xor_table p in
    let cell =
      all_below_sound 256
        (λ b.
          (if nat_eqb (bit_xor a b) 0 then nat_eqb a b else not (nat_eqb a b))
          && ltb (bit_xor a b) 256)
        b row q in
    ((λ h. ground arith, λ h. ground arith), ground arith)

bit_or-byte :
    (d x : ℕ) → d < 256 → x < 256 → ((bit_or d x ≡ 0) ↔ ((d ≡ 0) × (x ≡ 0))) × (bit_or d x < 256)
bit_or-byte d x p q =
    let row =
      all_below_sound 256
        (λ d. all_below 256 (λ x.
          (if nat_eqb (bit_or d x) 0
            then nat_eqb d 0 && nat_eqb x 0
            else not (nat_eqb d 0 && nat_eqb x 0))
          && ltb (bit_or d x) 256))
        d or_table p in
    let cell =
      all_below_sound 256
        (λ x.
          (if nat_eqb (bit_or d x) 0
            then nat_eqb d 0 && nat_eqb x 0
            else not (nat_eqb d 0 && nat_eqb x 0))
          && ltb (bit_or d x) 256)
        x row q in
    ((λ h. ground arith, λ h. ground arith), ground arith)

abbrev pub are_bytes : Bytes → Bool
are_bytes text = all (λ b. ltb b 256) text

difference_of-zero :
    (d : ℕ) (left right : Bytes)
    → d < 256
    → are_bytes left ≡ true
    → are_bytes right ≡ true
    → length left ≡ length right
    → (difference_of d left right ≡ 0) ↔ ((d ≡ 0) × (left ≡ right))
unfolding difference_of
difference_of-zero d [] [] p l r e = (λ h. (h, refl), λ h. h.0)
difference_of-zero d [] (b ∷ right) p l r e = ground arith
difference_of-zero d (a ∷ left) [] p l r e = ground arith
difference_of-zero d (a ∷ left) (b ∷ right) p l r e =
    let x = bit_xor-byte a b (ground arith) (ground arith) in
    let o = bit_or-byte d (bit_xor a b) p x.1 in
    let rest =
      difference_of-zero (bit_or d (bit_xor a b)) left right o.1 (ground arith) (ground arith)
        (ground arith) in
    (
      λ h.
          let (z, same) = rest.0 h in
          let (zd, zx) = o.0.0 z in (zd, ground (arith, x.0.0 zx, same)),
      λ h. rest.1 (o.0.1 (h.0, x.0.1 (ground arith)), ground arith),
    )

-- The comparison that takes the same time at every difference answers true at equal secrets alone,
-- for any two strings of bytes.
pub constant_time_equal_iff :
    (left right : Bytes)
    → are_bytes left ≡ true
    → are_bytes right ≡ true
    → (constant_time_equal left right ≡ true) ↔ (left ≡ right)
unfolding constant_time_equal
constant_time_equal_iff left right l r =
    let same_size : constant_time_equal left right ≡ true → length left ≡ length right =
      λ h. ground arith in
    (
      λ h. ((difference_of-zero 0 left right (ground arith) l r (same_size h)).0 (ground arith)).1,
      λ h. ground (
        arith,
        ap length h,
        (difference_of-zero 0 left right (ground arith) l r (ap length h)).1 (refl, h),
      ),
    )
