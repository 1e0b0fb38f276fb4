-- ===== src/Certification/Reading.antt =====
-- About `Manifest::parse` of src/certification.rs.
use codex_autoapprover.Prelude.{
  >>=-eq-ok, Bytes, Option, Option-cases, Result-cases, [], arith, guard, guard-eq-ok, inl, inr,
  is_nil, ok, refl, some, true, ◌↔◌, ◌≡◌, ◌∙◌, sym, ap, ◌∷◌,
}
use codex_autoapprover.Protocol.{
  Entries, Event, Value, not_an_object, object, opens_object, parse_unique_object, unique_object,
  visit_bool, visit_map, visit_none, visit_number, visit_seq, visit_str,
}
use codex_autoapprover.Protocol.Unique.{
  UniqueFields, plain, plain_fields, strict_value_iff, HasUniqueKeys,
}
use codex_autoapprover.Certification.{Manifest, parse, validate}

-- The text is one object and nothing behind it, which repeats no key at any depth, and the manifest
-- is what it spells and is valid.
pub record IsRead (deserialize : Bytes → Option (Event × Bytes)) (decode : Value → Option Manifest)
    (bytes : Bytes) (m : Manifest) : Type 0 where
  pub opens : opens_object bytes ≡ true
  pub entries : Entries
  pub whole : deserialize bytes ≡ some (visit_map entries, [])
  pub unique : UniqueFields entries
  pub spelled : decode (object (plain_fields entries)) ≡ some m
  pub valid : validate m ≡ ok tt

is_object :
    (e : Event) (v : Value)
    → unique_object e ≡ some v
    → (entries : Entries) × (e ≡ visit_map entries)
      × UniqueFields entries
      × (v ≡ object (plain_fields entries))
unfolding unique_object HasUniqueKeys plain
is_object (visit_map entries) v h =
    let (unique, same) = (strict_value_iff (visit_map entries) v).0 h in
    (entries, refl, unique, sym same)
is_object visit_none v h = cc
is_object (visit_bool b) v h = cc
is_object (visit_number n) v h = cc
is_object (visit_str s) v h = cc
is_object (visit_seq es) v h = cc

object_of :
    (entries : Entries)
    → UniqueFields entries
    → unique_object (visit_map entries) ≡ some (object (plain_fields entries))
unfolding unique_object HasUniqueKeys plain
object_of entries unique =
    (strict_value_iff (visit_map entries) (object (plain_fields entries))).1 (unique, refl)

nothing_behind : (s : Bytes) → is_nil s ≡ true → s ≡ []
nothing_behind [] h = refl
nothing_behind (b ∷ s) h = cc

module _ (deserialize : Bytes → Option (Event × Bytes)) (decode : Value → Option Manifest) where
  parse_unique_object_sound :
      (bytes : Bytes) (v : Value)
      → parse_unique_object deserialize bytes ≡ ok v
      → (entries : Entries) × (opens_object bytes ≡ true)
        × (deserialize bytes ≡ some (visit_map entries, []))
        × UniqueFields entries
        × (v ≡ object (plain_fields entries))
  unfolding parse_unique_object
  parse_unique_object_sound bytes v h =
      let (_, g, k1) = >>=-eq-ok (guard (opens_object bytes) not_an_object) _ h in
      elim (Option-cases (deserialize bytes)) [
        | inl n ↦ absurd (ground arith)
        | inr ((event, trailing), e) ↦ elim (Option-cases (unique_object event)) [
          | inl n ↦ absurd (ground arith)
          | inr (tree, u) ↦
              let (entries, q, unique, same) = is_object event tree u in
              let behind = nothing_behind trailing (ground arith) in
              (entries, guard-eq-ok _ _ g, cc, unique, ground (arith, same))
        ]
      ]

  parse_unique_object_complete :
      (bytes : Bytes) (entries : Entries)
      → opens_object bytes ≡ true
      → deserialize bytes ≡ some (visit_map entries, [])
      → UniqueFields entries
      → parse_unique_object deserialize bytes ≡ ok (object (plain_fields entries))
  unfolding parse_unique_object
  parse_unique_object_complete bytes entries o d u = rw (o, d) (rw (object_of entries u) refl)

  parse-IsRead :
      (bytes : Bytes) (m : Manifest)
      → parse deserialize decode bytes ≡ ok m
      → IsRead deserialize decode bytes m
  unfolding parse
  parse-IsRead bytes m h = elim (Result-cases (parse_unique_object deserialize bytes)) [
    | inr (e, q) ↦ absurd (ground arith)
    | inl (v, q) ↦
        let (entries, opens, whole, unique, same) = parse_unique_object_sound bytes v q in
        elim (Option-cases (decode v)) [
          | inl n ↦ absurd (ground arith)
          | inr (read, d) ↦ elim (Result-cases (validate read)) [
            | inr (e, w) ↦ absurd (ground arith)
            | inl (u, w) ↦
                let p : read ≡ m = ground arith in
                record {
                  opens = opens;
                  entries = entries;
                  whole = whole;
                  unique = unique;
                  spelled = ap decode (sym same) ∙ d ∙ ap some p;
                  valid = ap validate (sym p) ∙ w;
                }
          ]
        ]
  ]

  IsRead-parse :
      (bytes : Bytes) (m : Manifest)
      → IsRead deserialize decode bytes m
      → parse deserialize decode bytes ≡ ok m
  unfolding parse
  IsRead-parse bytes m r =
      rw (parse_unique_object_complete bytes r.entries r.opens r.whole r.unique, r.spelled, r.valid)
        refl

-- A manifest is read from a text exactly when the text is one object with nothing behind it, no key
-- stands in it twice at any depth, and the manifest is what the object spells and is valid.
pub parse_manifest_iff :
    (deserialize : Bytes → Option (Event × Bytes)) (decode : Value → Option Manifest)
    (bytes : Bytes) (m : Manifest)
    → (parse deserialize decode bytes ≡ ok m) ↔ IsRead deserialize decode bytes m
parse_manifest_iff deserialize decode bytes m =
    (parse-IsRead deserialize decode bytes m, IsRead-parse deserialize decode bytes m)
