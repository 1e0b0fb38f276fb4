-- ===== src/Arming/Tokens.antt =====
-- About `new_secret`, `valid_token`, `arm_child` and `disarm_child` of src/arming.rs.
use codex_autoapprover.Prelude.{
  nat_eq, bytes_eq, option_eq, ◌%◌, ◌*◌, ◌/◌, ◌<◌, ==_refl, All, Bytes, [], all, arith, false, ap,
  codes, not, Bool-cases, ascii-is_utf8, inl, inr, is_ascii_digit, is_utf8, ltb, none, var_ok,
  if◌then◌else◌, is_lower_hex, is_nil, length, ok, refl, some, true, ℕ, ◌↔◌, ◌∷◌, ◌≡◌,
}
use codex_autoapprover.Arming.{
  ChildEnv, arm_child, disarm_child, hex, hex_digit, is_armed, new_secret, protocol_version,
  token_bytes, valid_token,
}

-- A half byte is a lowercase hexadecimal digit.
hex_digit_lower : (n : ℕ) → n < 16 → is_lower_hex (hex_digit n) ≡ true
unfolding is_lower_hex hex_digit
hex_digit_lower n h = ground arith

abbrev IsByte : ℕ → Type 0
IsByte b = b < 256

pub hex_lower : (bytes : Bytes) → All IsByte bytes → all is_lower_hex (hex bytes) ≡ true
unfolding hex
hex_lower [] h = refl
hex_lower (b ∷ bytes) h =
    ground (arith, hex_digit_lower (b / 16), hex_digit_lower (b % 16), hex_lower bytes)

pub length-hex : (bytes : Bytes) → length (hex bytes) ≡ 2 * length bytes
unfolding hex
length-hex [] = refl
length-hex (b ∷ bytes) = omega (arith, length-hex bytes)

-- Any 32 random bytes give a secret that the token check accepts.
pub new_secret-valid_token :
    (random : Bytes)
    → All IsByte random
    → length random ≡ token_bytes
    → (secret : Bytes) × (new_secret (some random) ≡ ok secret) × (valid_token (some secret) ≡ true)
unfolding new_secret valid_token
new_secret-valid_token random h n =
    (hex random, refl, ground (arith, hex_lower random h, length-hex random))

token_ascii : (s : Bytes) → all is_lower_hex s ≡ true → all (λ b. ltb b 0x80) s ≡ true
unfolding is_lower_hex is_ascii_digit
token_ascii [] h = refl
token_ascii (b ∷ s) h = ground (arith, token_ascii s)

-- A token is a text, so that the environment gives it back.
valid_token-var_ok : (s : Bytes) → valid_token (var_ok (some s)) ≡ valid_token (some s)
unfolding valid_token var_ok
valid_token-var_ok s = elim (Bool-cases (all is_lower_hex s)) [
  | inl e ↦ rw (ascii-is_utf8 s (token_ascii s e)) refl
  | inr e ↦ elim (Bool-cases (is_utf8 s)) [ inl u ↦ rw u refl | inr u ↦ rw u (ground arith) ]
]

var_ok-some : (s : Bytes) → var_ok (some s) ≡ (if is_utf8 s then some s else none)
unfolding var_ok
var_ok-some s = refl

protocol-var_ok : var_ok (some protocol_version) ≡ some protocol_version
unfolding var_ok codes
protocol-var_ok = refl

-- With the token's shape, the socket decides.
armed_by_socket :
    (socket secret : Bytes) (env : ChildEnv)
    → valid_token (some secret) ≡ true
    → is_armed (arm_child socket secret env).0
      ≡ (if is_utf8 socket then not (is_nil socket) else false)
unfolding arm_child is_armed
armed_by_socket socket secret env e = rw e (
    rw (valid_token-var_ok secret, e, protocol-var_ok, ==_refl (some protocol_version))
      (elim (Bool-cases (is_utf8 socket)) [
        | inl u ↦ rw (var_ok-some socket, u) refl
        | inr u ↦ rw (var_ok-some socket, u) refl
      ]))

refused_by_token :
    (socket secret : Bytes) (env : ChildEnv)
    → valid_token (some secret) ≡ false
    → (arm_child socket secret env).0 ≡ env
unfolding arm_child
refused_by_token socket secret env e = rw e refl

-- A child is armed by a call exactly when the secret has the shape of a token and the socket's
-- path is a text in UTF-8 that is not empty, if it was not armed before.
pub arm_child-is_armed_iff :
    (socket secret : Bytes) (env : ChildEnv)
    → is_armed env ≡ false
    → (is_armed (arm_child socket secret env).0 ≡ true)
      ↔ ((valid_token (some secret) ≡ true) × (is_nil socket ≡ false) × (is_utf8 socket ≡ true))
arm_child-is_armed_iff socket secret env h = elim (Bool-cases (valid_token (some secret))) [
  | inr e ↦
      let same = ap is_armed (refused_by_token socket secret env e) in
      (λ k. absurd (ground (arith, same)), λ k. absurd (ground arith))
  | inl e ↦
      let given = armed_by_socket socket secret env e in
      (λ k. ground (arith, given), λ k. ground (arith, given))
]

-- A refused call leaves the environment as it was, and disarming always disarms.
pub disarm_child-is_armed : (env : ChildEnv) → is_armed (disarm_child env) ≡ false
unfolding disarm_child is_armed valid_token
disarm_child-is_armed env = refl
