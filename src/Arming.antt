-- ===== src/Arming.antt =====
-- src/arming.rs: the session token, and the environment of an armed child.
pub mod Tokens
use codex_autoapprover.Prelude.{
  ◌%◌, ◌&&◌, ◌*◌, ◌+◌, ◌-◌, ◌/◌, ◌==◌, Bool, Bytes, Option, Result, [], all, codes, if◌then◌else◌,
  err, false, if◌then◌else◌, is_lower_hex, is_nil, length, ltb, nat_eqb, none, not, ok, some,
  if◌then◌else◌, ℕ, ◌∷◌, nat_eq, bytes_eq, option_eq, var_ok,
}
use codex_autoapprover.Prelude.Decimal.{value}

abbrev pub token_bytes : ℕ
token_bytes = 32

abbrev pub protocol_version : Bytes
protocol_version = codes "permission-request-v1"

-- `hex`: two digits for each byte.
unfoldable pub hex_digit : ℕ → ℕ
hex_digit n = if ltb n 10 then b'0' + n else b'a' + (n - 10)

unfoldable pub hex : Bytes → Bytes
unfolding hex_digit
hex [] = []
hex (b ∷ bytes) = hex_digit (b / 16) ∷ hex_digit (b % 16) ∷ hex bytes

unfoldable pub valid_token : Option Bytes → Bool
valid_token none = false
valid_token (some value) = nat_eqb (length value) (token_bytes * 2) && all is_lower_hex value

-- `new_secret`: the random bytes are what the operating system's generator fills in.
unfoldable pub new_secret : Option Bytes → Result (Unit {0}) Bytes
new_secret none = err tt
new_secret (some random) = ok (hex random)

-- The variables of a child's environment that arming is about, as `env::var_os` answers them;
-- `none` is unset.
pub record ChildEnv : Type 0 where
  pub session_token : Option Bytes
  pub session_socket : Option Bytes
  pub protocol : Option Bytes
  pub audit_path : Option Bytes

unfoldable pub arm_child : Bytes → Bytes → ChildEnv → ChildEnv × Result (Unit {0}) (Unit {0})
unfolding valid_token
arm_child socket secret env =
    if valid_token (some secret)
    then (
      record env {
        session_token = some secret;
        session_socket = some socket;
        protocol = some protocol_version;
      },
      ok tt,
    )
    else (env, err tt)

unfoldable pub disarm_child : ChildEnv → ChildEnv
disarm_child env = record {
  session_token = none;
  session_socket = none;
  protocol = none;
  audit_path = none;
}

-- A socket variable that is unset, empty or no text does not arm.
socket_given : Option Bytes → Bool
socket_given none = false
socket_given (some socket) = not (is_nil socket)

unfoldable pub is_armed : ChildEnv → Bool
unfolding socket_given var_ok
is_armed env =
    valid_token (var_ok env.session_token)
    && var_ok env.protocol == some protocol_version
    && socket_given (var_ok env.session_socket)
