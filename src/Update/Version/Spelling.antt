-- ===== src/Update/Version/Spelling.antt =====
-- About `StableVersion::parse` of src/update/manifest.rs.
-- What the accepted texts without a plus sign look like.
use codex_autoapprover.Prelude.{
  >>=-eq-ok, Bool-cases, Bytes, Lacks, List, [], ap, arith, false, inl, inr, ok, refl, split_on,
  starts_with, subst, sym, true, ℕ, ◌++◌, ◌∙◌, ◌∷◌, ◌≡◌, ◌≤◌, ◌≢◌, is_ascii_digit, nat_eqb, ◌↔◌,
  prepend,
}
use codex_autoapprover.Prelude.Decimal.{parse_digits_sound, parse_unsigned, to_decimal}
use codex_autoapprover.Prelude.Decimal.Value.{to_decimal-value}
use codex_autoapprover.Update.Version.{
  StableVersion, display, max_u64, parse, parse_component, parse_parts,
}
use codex_autoapprover.Update.Version.RoundTrip.{IsU64, parse-display}

-- The parts with the separator between them.
join_with : ℕ → List Bytes → Bytes
join_with sep [] = []
join_with sep (a ∷ []) = a
join_with sep (a ∷ b ∷ rest) = a ++ sep ∷ join_with sep (b ∷ rest)

join_with-prepend :
    (sep c : ℕ) (parts : List Bytes) → join_with sep (prepend c parts) ≡ c ∷ join_with sep parts
unfolding join_with prepend
join_with-prepend sep c [] = refl
join_with-prepend sep c (a ∷ []) = refl
join_with-prepend sep c (a ∷ b ∷ rest) = refl

prepend-ne-nil : (c : ℕ) (parts : List Bytes) → prepend c parts ≢ []
unfolding prepend
prepend-ne-nil c [] h = cc
prepend-ne-nil c (a ∷ parts) h = cc

split_on-ne-nil : (sep : ℕ) (s : Bytes) → split_on sep s ≢ []
unfolding split_on
split_on-ne-nil sep [] = λ h. cc
split_on-ne-nil sep (c ∷ s) = elim (Bool-cases (nat_eqb c sep)) [
  | inl e ↦ rw e (λ h. cc)
  | inr e ↦ rw e (prepend-ne-nil c (split_on sep s))
]

join_with-split_on : (sep : ℕ) (s : Bytes) → join_with sep (split_on sep s) ≡ s
unfolding split_on join_with
join_with-split_on sep [] = refl
join_with-split_on sep (c ∷ s) = elim (Bool-cases (nat_eqb c sep)) [
  | inl e ↦ rw e (front (split_on sep s) (split_on-ne-nil sep s) (join_with-split_on sep s) e)
  | inr e ↦
      rw e (join_with-prepend sep c (split_on sep s) ∙ ap (λ t. c ∷ t) (join_with-split_on sep s))
]
  where
    front :
        (parts : List Bytes)
        → parts ≢ []
        → join_with sep parts ≡ s
        → nat_eqb c sep ≡ true
        → join_with sep ([] ∷ parts) ≡ c ∷ s
    front [] n j e = absurd (n refl)
    front (a ∷ parts) n j e = ground (arith, j)

Lacks-append : (sep : ℕ) (a b : Bytes) → Lacks sep (a ++ b) → Lacks sep a × Lacks sep b
Lacks-append sep [] b h = (tt, h)
Lacks-append sep (c ∷ a) b h = let (l, r) = Lacks-append sep a b h.1 in ((h.0, l), r)

-- An accepted component without a sign is the print of its number, which has 64 bits.
component_spelled :
    (s : Bytes) (n : ℕ)
    → parse_component s ≡ ok n
    → Lacks b'+' s
    → (to_decimal n ≡ s) × (n ≤ max_u64)
unfolding parse_component parse_unsigned starts_with is_ascii_digit
component_spelled [] n h l = cc
component_spelled (c ∷ []) n h l =
    let (digits, same, fits) =
      parse_digits_sound max_u64 0 (c ∷ []) n (omega arith) (ground arith) in
    (ap to_decimal same ∙ to_decimal-value (c ∷ []) (ground arith), fits)
component_spelled (c ∷ d ∷ s) n h l =
    let plus : nat_eqb c b'+' ≡ false = l.0 in
    let (digits, same, fits) =
      parse_digits_sound max_u64 0 (c ∷ d ∷ s) n (omega arith) (ground arith) in
    (ap to_decimal same ∙ to_decimal-value (c ∷ d ∷ s) (ground arith), fits)

parts_spelled :
    (parts : List Bytes) (v : StableVersion)
    → parse_parts parts ≡ ok v
    → Lacks b'+' (join_with b'.' parts)
    → (display v ≡ join_with b'.' parts) × IsU64 v
unfolding parse_parts join_with display
parts_spelled (a ∷ b ∷ c ∷ []) v h l =
    let (x, hx, kx) = >>=-eq-ok (parse_component a) _ h in
    let (y, hy, ky) = >>=-eq-ok (parse_component b) _ kx in
    let (z, hz, kz) = >>=-eq-ok (parse_component c) _ ky in
    let (la, lrest) = Lacks-append b'+' a (b'.' ∷ (b ++ b'.' ∷ c)) l in
    let (lb, lc) = Lacks-append b'+' b (b'.' ∷ c) lrest.1 in
    let (sa, fa) = component_spelled a x hx la in
    let (sb, fb) = component_spelled b y hy lb in
    let (sc, fc) = component_spelled c z hz lc.1 in
    let p : Path StableVersion (record { major = x; minor = y; patch = z }) v = ground arith in
    subst
      (λ w.
        (to_decimal w.major ++ b'.' ∷ (to_decimal w.minor ++ b'.' ∷ to_decimal w.patch)
          ≡ a ++ b'.' ∷ (b ++ b'.' ∷ c))
        × IsU64 w)
      p (rw (sa, sb, sc) refl, record { major_fits = fa; minor_fits = fb; patch_fits = fc })
parts_spelled [] v h l = cc
parts_spelled (a ∷ []) v h l = cc
parts_spelled (a ∷ b ∷ []) v h l = cc
parts_spelled (a ∷ b ∷ c ∷ d ∷ r) v h l = cc

-- A text without a plus sign is accepted as a version exactly when it is the print of that version
-- and the version's components fit in 64 bits: no other spelling, with a component that is missing,
-- empty or has a leading zero, is accepted.
pub parse-display_iff :
    (s : Bytes) (v : StableVersion) → Lacks b'+' s → (parse s ≡ ok v) ↔ ((display v ≡ s) × IsU64 v)
unfolding parse
parse-display_iff s v l =
    let joined = join_with-split_on b'.' s in
    (
      λ h.
          let (spelled, fits) =
            parts_spelled (split_on b'.' s) v h (subst (Lacks b'+') (sym joined) l) in
          (spelled ∙ joined, fits),
      λ (spelled, fits). ap parse (sym spelled) ∙ parse-display v fits,
    )
