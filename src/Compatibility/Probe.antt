-- ===== src/Compatibility/Probe.antt =====
-- About the recogniser and the generator of the probe command in src/compatibility.rs.
use codex_autoapprover.Prelude.{
  ap, ◌++◌, ==_iff, ==_refl, Bytes, Option, Option-cases, [], arith, inl, inr, none, some,
  split_once, split_once-append, strip_prefix, strip_prefix-append, true, ℕ, ◌↔◌, ◌∷◌, ◌≡◌, ◌≤◌,
  nat_eq, bytes_eq, option_eq,
}
use codex_autoapprover.Platform.{OperatingSystem}
use codex_autoapprover.Prelude.Decimal.{
  is_plain-Lacks, parse_digits_sound, parse_unsigned, parse_unsigned-to_decimal, to_decimal,
  to_decimal_plain,
}
use codex_autoapprover.Compatibility.{
  probe_endpoint, is_verification_probe_command, max_u16, probe_prefix, verification_probe_command,
}

-- A command that the verifier makes, for a port and a nonce of the right shape.
pub record IsProbe (os : OperatingSystem) (command : Bytes) : Type 0 where
  pub port : ℕ
  pub nonce : Bytes
  pub port_fits : port ≤ max_u16
  pub made : verification_probe_command os port nonce ≡ some command

probe_parts :
    (os : OperatingSystem) (port : ℕ) (nonce command : Bytes)
    → verification_probe_command os port nonce ≡ some command
    → probe_prefix os ++ (to_decimal port ++ b'/' ∷ nonce) ≡ command
unfolding verification_probe_command
probe_parts os port nonce command h = ground arith

probe_accepted :
    (os : OperatingSystem) (port : ℕ) (nonce command : Bytes)
    → port ≤ max_u16
    → verification_probe_command os port nonce ≡ some command
    → is_verification_probe_command os command ≡ true
unfolding is_verification_probe_command
probe_accepted os port nonce command fits made =
    let spelled = probe_parts os port nonce command made in
    let digits = is_plain-Lacks b'/' (to_decimal port) (omega arith) (to_decimal_plain port) in
    ground (
      arith,
      ap (λ c. strip_prefix c (probe_prefix os)) spelled,
      strip_prefix-append (probe_prefix os) (to_decimal port ++ b'/' ∷ nonce),
      split_once-append b'/' (to_decimal port) nonce digits,
      parse_unsigned-to_decimal max_u16 port fits,
      made,
      ==_refl (some command),
    )

parse_unsigned_fits : (max n : ℕ) (s : Bytes) → parse_unsigned max s ≡ some n → n ≤ max
unfolding parse_unsigned
parse_unsigned_fits max n [] h = cc
parse_unsigned_fits max n (c ∷ []) h = ground (arith, parse_digits_sound max 0 (c ∷ []) n)
parse_unsigned_fits max n (c ∷ d ∷ s) h =
    ground (arith, parse_digits_sound max 0 (c ∷ d ∷ s) n, parse_digits_sound max 0 (d ∷ s) n)

endpoint_sound :
    (os : OperatingSystem) (command : Bytes) (parts : Option (Bytes × Bytes))
    → probe_endpoint os command parts ≡ true
    → IsProbe os command
unfolding probe_endpoint
endpoint_sound os command none h = cc
endpoint_sound os command (some (port, nonce)) h =
    elim (Option-cases (parse_unsigned max_u16 port)) [
      | inl e ↦ absurd (ground arith)
      | inr (n, e) ↦ record {
        port = n;
        nonce = nonce;
        port_fits = parse_unsigned_fits max_u16 n port e;
        made = (==_iff (verification_probe_command os n nonce) (some command)).0 (ground arith);
      }
    ]

IsProbe-sound :
    (os : OperatingSystem) (command : Bytes)
    → is_verification_probe_command os command ≡ true
    → IsProbe os command
unfolding is_verification_probe_command
IsProbe-sound os command h = elim (Option-cases (strip_prefix command (probe_prefix os))) [
  | inl e ↦ absurd (ground arith)
  | inr (endpoint, e) ↦ endpoint_sound os command (split_once b'/' endpoint) (ground arith)
]

-- The test of a command holds exactly of the commands that `verification_probe_command` makes of a
-- 16-bit port and a nonce.
pub is_verification_probe_command_iff :
    (os : OperatingSystem) (command : Bytes)
    → (is_verification_probe_command os command ≡ true) ↔ IsProbe os command
is_verification_probe_command_iff os command =
    (IsProbe-sound os command, λ p. probe_accepted os p.port p.nonce command p.port_fits p.made)
