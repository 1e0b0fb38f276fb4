-- ===== src/Codex.antt =====
-- src/codex.rs: the version that `codex --version` prints.
use codex_autoapprover.Prelude.{
  ◌||◌, ◌&&◌, ◌==◌, Bool, Bytes, List, Result, [], all, chars, codes, if◌then◌else◌, err,
  if◌then◌else◌, is_ascii_digit, is_nil, length, nat_eqb, none, not, ok, some, split_on,
  split_whitespace, starts_with, strip_prefix, if◌then◌else◌, ℕ, ◌∷◌, nat_eq, bytes_eq, option_eq,
}

-- One of the three parts of the version.
unfoldable pub is_version_part : List ℕ → Bool
is_version_part part =
    not (is_nil part)
    && (nat_eqb (length part) 1 || not (starts_with part (b'0' ∷ [])))
    && all is_ascii_digit part

-- `token.strip_prefix('v').unwrap_or(token)`
unfoldable pub without_v : List ℕ → List ℕ
without_v token = elim (strip_prefix token (b'v' ∷ [])) [ none ↦ token | some rest ↦ rest ]

unfoldable pub is_version : List ℕ → Bool
is_version candidate =
    let parts = split_on b'.' candidate in nat_eqb (length parts) 3 && all is_version_part parts

version_of : List (List ℕ) → Result (Unit {0}) Bytes
version_of (name ∷ token ∷ []) =
    if name == codes "codex-cli" && is_version (without_v token)
    then ok (without_v token)
    else err tt
version_of _ = err tt

-- `parse_version`. The words are lists of characters; an accepted version is ASCII, so that its
-- characters are its bytes.
unfoldable pub parse_version : Bytes → Result (Unit {0}) Bytes
unfolding version_of
parse_version output = version_of (split_whitespace (chars output))
