-- ===== src/Update/Manifest/Duplicates.antt =====
-- `reject_duplicate_json_keys` of src/update/manifest.rs: a second visitor over the events of
-- serde_json, which builds nothing.
use codex_autoapprover.Prelude.{
  ◌&&◌, ◌>>◌, ◌>>=◌, Bool, Bytes, List, Option, Option-cases, Result, [], arith, contains, false,
  guard, inl, inr, is_nil, none, not, ok_or, refl, some, true, ◌↔◌, ◌∷◌, ◌≡◌, nat_eq, bytes_eq,
  option_eq,
}
use codex_autoapprover.Protocol.{
  Entries, Event, Events, element, entry, map_end, seq_end, strict_fields, strict_items,
  strict_value, visit_bool, visit_map, visit_none, visit_number, visit_seq, visit_str,
}
use codex_autoapprover.Protocol.Unique.{HasUniqueKeys, plain, strict_value_iff}

-- `DuplicateKeyVisitor`; `seen` is the set `keys` of `visit_map`.
unfoldable mutual
  pub visit : Event → Bool
  visit visit_none = true
  visit (visit_bool b) = true
  visit (visit_number n) = true
  visit (visit_str s) = true
  visit (visit_seq es) = visit_elements es
  visit (visit_map es) = visit_entries es []

  pub visit_elements : Events → Bool
  visit_elements seq_end = true
  visit_elements (element e es) = visit e && visit_elements es

  pub visit_entries : Entries → List Bytes → Bool
  visit_entries map_end seen = true
  visit_entries (entry k e es) seen =
      not (contains seen k) && visit e && visit_entries es (k ∷ seen)

-- `deserialize` is serde_json's part: the events of a text, and what is behind them.
unfoldable pub reject_duplicate_json_keys :
    (Bytes → Option (Event × Bytes)) → Bytes → Result (Unit {0}) (Unit {0})
reject_duplicate_json_keys deserialize bytes = do
  (event, trailing) ← ok_or (deserialize bytes) tt
  guard (visit event) tt
  guard (is_nil trailing) tt

abbrev is_some : {A : Type 0} → Option A → Bool
is_some none = false
is_some (some a) = true

mutual
  unfolding visit strict_value

  visit-strict_value : (e : Event) → visit e ≡ is_some (strict_value e)
  visit-strict_value visit_none = refl
  visit-strict_value (visit_bool b) = refl
  visit-strict_value (visit_number n) = refl
  visit-strict_value (visit_str s) = refl
  visit-strict_value (visit_seq es) = ground (arith, visit-strict_items es)
  visit-strict_value (visit_map es) = ground (arith, visit-strict_fields es [])

  visit-strict_items : (es : Events) → visit_elements es ≡ is_some (strict_items es)
  visit-strict_items seq_end = refl
  visit-strict_items (element e es) = ground (arith, visit-strict_value e, visit-strict_items es)

  visit-strict_fields :
      (es : Entries) (seen : List Bytes) → visit_entries es seen ≡ is_some (strict_fields es seen)
  visit-strict_fields map_end seen = refl
  visit-strict_fields (entry k e es) seen =
      ground (arith, visit-strict_value e, visit-strict_fields es (k ∷ seen))

-- The manifest's check for repeated keys passes exactly on the events with no repeated key at any
-- depth.
pub visit_iff : (e : Event) → (visit e ≡ true) ↔ HasUniqueKeys e
visit_iff e = (
  λ h. elim (Option-cases (strict_value e)) [
    | inl n ↦ absurd (ground (arith, visit-strict_value e))
    | inr (v, s) ↦ ((strict_value_iff e v).0 s).0
  ],
  λ u. ground (arith, visit-strict_value e, (strict_value_iff e (plain e)).1 (u, refl)),
)
