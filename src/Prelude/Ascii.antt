-- ===== src/Prelude/Ascii.antt =====
-- Byte classes of the standard library, and the order of byte strings.
use Prim.Native.Nat.{ℕ}
use mathlib.Core.Bool.{Bool, ◌&&◌, ◌||◌}
use codex_autoapprover.Prelude.Tests.{leb, nat_eqb}

unfoldable pub is_ascii_digit : ℕ → Bool
is_ascii_digit b = leb b'0' b && leb b b'9'

unfoldable pub is_ascii_uppercase : ℕ → Bool
is_ascii_uppercase b = leb b'A' b && leb b b'Z'

unfoldable pub is_ascii_lowercase : ℕ → Bool
is_ascii_lowercase b = leb b'a' b && leb b b'z'

unfoldable pub is_ascii_hexdigit : ℕ → Bool
unfolding is_ascii_digit
is_ascii_hexdigit b = is_ascii_digit b || (leb b'a' b && leb b b'f') || (leb b'A' b && leb b b'F')

unfoldable pub is_ascii_alphanumeric : ℕ → Bool
unfolding is_ascii_digit is_ascii_uppercase is_ascii_lowercase
is_ascii_alphanumeric b = is_ascii_digit b || is_ascii_uppercase b || is_ascii_lowercase b

-- A lowercase hexadecimal digit, the test `is_ascii_digit() || (b'a'..=b'f').contains(&b)`.
unfoldable pub is_lower_hex : ℕ → Bool
unfolding is_ascii_digit
is_lower_hex b = is_ascii_digit b || (leb b'a' b && leb b b'f')

-- `u8::is_ascii_whitespace`: space, tab, line feed, form feed, carriage return.
unfoldable pub is_ascii_whitespace : ℕ → Bool
is_ascii_whitespace b = nat_eqb b 32 || nat_eqb b 9 || nat_eqb b 10 || nat_eqb b 12 || nat_eqb b 13
