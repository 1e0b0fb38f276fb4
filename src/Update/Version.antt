-- ===== src/Update/Version.antt =====
-- `StableVersion` of src/update/manifest.rs: a version of exactly three numeric components.
pub mod RoundTrip
pub mod Spelling
use codex_autoapprover.Prelude.{
  ◌^◌, ◌-◌, ℕ, suc, ◌^◌, ◌-◌, ◌+◌, ◌*◌, ◌≤◌, ◌<◌, ◌≡◌, refl, ◌↔◌, ◌⊎◌, inl, inr, Bool, true, false,
  ◌&&◌, ◌||◌, Option, none, some, List, [], ◌∷◌, ◌++◌, arith, ltb, leb, nat_eqb, nat_eqb_iff,
  if◌then◌else◌, length, Bytes, Eq, split_on, Result, ok, err, ◌>>=◌, starts_with, compare,
  Ordering, map_err, ok_or, guard, ◌>>◌, is_nil, not,
}
use codex_autoapprover.Prelude.Decimal.{parse_unsigned, to_decimal}

abbrev pub max_u64 : ℕ
max_u64 = 2 ^ 64 - 1

pub record StableVersion : Type 0 where
  pub major : ℕ
  pub minor : ℕ
  pub patch : ℕ

-- The two messages of `StableVersion::parse`.
pub data VersionError : Type 0 where
  not_three_components : VersionError
  invalid_component : VersionError

-- The closure `parse_component`.
unfoldable pub parse_component : Bytes → Result VersionError ℕ
parse_component part = do
  guard (not (is_nil part || (ltb 1 (length part) && starts_with part (b'0' ∷ []))))
      invalid_component
  ok_or (parse_unsigned max_u64 part) invalid_component

unfoldable pub parse_parts : List Bytes → Result VersionError StableVersion
unfolding parse_component
parse_parts (a ∷ b ∷ c ∷ []) = do
  major ← parse_component a
  minor ← parse_component b
  patch ← parse_component c
  ok (record { major = major; minor = minor; patch = patch })
parse_parts _ = err not_three_components

unfoldable pub parse : Bytes → Result VersionError StableVersion
unfolding parse_parts
parse value = parse_parts (split_on b'.' value)

-- `Display`, which `Serialize` writes too.
unfoldable pub display : StableVersion → Bytes
display v = to_decimal v.major ++ b'.' ∷ (to_decimal v.minor ++ b'.' ∷ to_decimal v.patch)

-- The derived lexicographic order: the first difference decides.
abbrev pub then_cmp : Ordering → Ordering → Ordering
then_cmp Ordering.lt o = Ordering.lt
then_cmp Ordering.eq o = o
then_cmp Ordering.gt o = Ordering.gt

abbrev pub is_lt : Ordering → Bool
is_lt Ordering.lt = true
is_lt Ordering.eq = false
is_lt Ordering.gt = false

abbrev pub is_le : Ordering → Bool
is_le Ordering.lt = true
is_le Ordering.eq = true
is_le Ordering.gt = false

unfoldable pub cmp : StableVersion → StableVersion → Ordering
cmp a b =
    then_cmp (compare a.major b.major)
      (then_cmp (compare a.minor b.minor) (compare a.patch b.patch))

abbrev pub version_ltb : StableVersion → StableVersion → Bool
version_ltb a b = is_lt (cmp a b)

abbrev pub version_leb : StableVersion → StableVersion → Bool
version_leb a b = is_le (cmp a b)

unfoldable pub version_beq : StableVersion → StableVersion → Bool
version_beq a b = nat_eqb a.major b.major && nat_eqb a.minor b.minor && nat_eqb a.patch b.patch

pub version_beq_iff : (a b : StableVersion) → (version_beq a b ≡ true) ↔ (a ≡ b)
unfolding version_beq
version_beq_iff a b = (λ h. ground arith, λ h. ground arith)

instance abbrev pub version_eq : Eq StableVersion
version_eq = record { beq = version_beq; beq_iff = version_beq_iff }

-- The specification of the order, on the numbers.
abbrev pub VersionLt : StableVersion → StableVersion → Type 0
VersionLt a b =
    (a.major < b.major)
    ⊎ ((a.major ≡ b.major) × ((a.minor < b.minor) ⊎ ((a.minor ≡ b.minor) × (a.patch < b.patch))))

pub version_ltb_sound : (a b : StableVersion) → version_ltb a b ≡ true → VersionLt a b
unfolding cmp
version_ltb_sound a b h = ground arith

pub version_ltb_complete : (a b : StableVersion) → VersionLt a b → version_ltb a b ≡ true
unfolding cmp
version_ltb_complete a b h = ground arith

pub version_ltb_trans :
    (a b c : StableVersion)
    → version_ltb a b ≡ true
    → version_ltb b c ≡ true
    → version_ltb a c ≡ true
unfolding cmp
version_ltb_trans a b c h k = ground arith

-- The order is total: exactly one of the three holds, and equality is equality of versions.
pub version_trichotomy :
    (a b : StableVersion) → ((version_ltb a b ≡ true) ⊎ (version_ltb b a ≡ true)) ⊎ (a ≡ b)
unfolding cmp
version_trichotomy a b = ground arith

pub version_leb-ltb : (a b : StableVersion) → version_leb a b ≡ not (version_ltb b a)
unfolding cmp
version_leb-ltb a b = ground arith
