-- ===== src/Update/Version/RoundTrip.antt =====
-- About `StableVersion::parse` and `Display` of src/update/manifest.rs.
use codex_autoapprover.Prelude.{
  ap, some, is_ascii_digit, ℕ, ◌≤◌, ltb, ◌||◌, ◌&&◌, false, ◌≡◌, refl, arith, Bytes, ok, [], ◌∷◌,
  true, is_nil, length, starts_with, split_on-append, split_on-Lacks,
}
use codex_autoapprover.Update.Version.{StableVersion, max_u64, parse_component, parse, display}
use codex_autoapprover.Prelude.Decimal.{
  value, parse_digits_complete, to_decimal, is_plain, to_decimal_plain, parse_unsigned,
  parse_unsigned-to_decimal, is_plain-Lacks, value-to_decimal,
}

pub record IsU64 (v : StableVersion) : Type 0 where
  pub major_fits : v.major ≤ max_u64
  pub minor_fits : v.minor ≤ max_u64
  pub patch_fits : v.patch ≤ max_u64

plain_head :
    (s : Bytes)
    → is_plain s ≡ true
    → (is_nil s || (ltb 1 (length s) && starts_with s (b'0' ∷ []))) ≡ false
unfolding starts_with
plain_head [] h = cc
plain_head (c ∷ []) h = ground arith
plain_head (c ∷ d ∷ s) h = ground arith

-- A component is not empty and has no leading zero, unless it is the one digit.
plain_component : (n : ℕ) → n ≤ max_u64 → parse_component (to_decimal n) ≡ ok n
unfolding parse_component
plain_component n h =
    ground
      (arith, plain_head (to_decimal n) (to_decimal_plain n), parse_unsigned-to_decimal max_u64 n h)

-- Every version whose components fit in 64 bits is read back from its print.
pub parse-display : (v : StableVersion) → IsU64 v → parse (display v) ≡ ok v
unfolding parse display
parse-display v fits =
    rw
      (
        split_on-append b'.' (to_decimal v.major) _
            (is_plain-Lacks b'.' _ (omega arith) (to_decimal_plain v.major)),
        split_on-append b'.' (to_decimal v.minor) _
            (is_plain-Lacks b'.' _ (omega arith) (to_decimal_plain v.minor)),
        split_on-Lacks b'.' (to_decimal v.patch)
            (is_plain-Lacks b'.' _ (omega arith) (to_decimal_plain v.patch)),
      )
      (rw (
        plain_component v.major fits.major_fits,
        plain_component v.minor fits.minor_fits,
        plain_component v.patch fits.patch_fits,
      ))

display-injective : (v w : StableVersion) → IsU64 v → IsU64 w → display v ≡ display w → v ≡ w
display-injective v w a b h = cc (parse-display v a, parse-display w b, ap parse h)

plus_unsigned :
    (s : Bytes) (n : ℕ)
    → is_plain s ≡ true
    → value 0 s ≡ n
    → n ≤ max_u64
    → parse_unsigned max_u64 (b'+' ∷ s) ≡ some n
unfolding parse_unsigned is_ascii_digit
plus_unsigned [] n h k l = cc
plus_unsigned (c ∷ []) n h k l = ground (arith, parse_digits_complete max_u64 0 (c ∷ []))
plus_unsigned (c ∷ d ∷ s) n h k l = ground (arith, parse_digits_complete max_u64 0 (c ∷ d ∷ s))

plus_component : (n : ℕ) → n ≤ max_u64 → parse_component (b'+' ∷ to_decimal n) ≡ ok n
unfolding parse_component starts_with
plus_component n h =
    ground (arith, plus_unsigned (to_decimal n) n (to_decimal_plain n) (value-to_decimal n) h)

-- For a version whose components fit in 64 bits, its print with a plus sign in front is accepted
-- as the same version.
pub parse_plus_display : (v : StableVersion) → IsU64 v → parse (b'+' ∷ display v) ≡ ok v
unfolding parse display
parse_plus_display v fits =
    rw
      (
        split_on-append b'.' (b'+' ∷ to_decimal v.major) _
            (refl, is_plain-Lacks b'.' _ (omega arith) (to_decimal_plain v.major)),
        split_on-append b'.' (to_decimal v.minor) _
            (is_plain-Lacks b'.' _ (omega arith) (to_decimal_plain v.minor)),
        split_on-Lacks b'.' (to_decimal v.patch)
            (is_plain-Lacks b'.' _ (omega arith) (to_decimal_plain v.patch)),
      )
      (rw (
        plus_component v.major fits.major_fits,
        plain_component v.minor fits.minor_fits,
        plain_component v.patch fits.patch_fits,
      ))
