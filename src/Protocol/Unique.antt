-- ===== src/Protocol/Unique.antt =====
-- About the strict visitors of src/protocol.rs and the keys of an object.

use mathlib.Core.Bool.{false≢true}
use codex_autoapprover.Prelude.{
  ◌==◌, ==_iff, Bool, Bool-cases, Bytes, In, List, Option, [], ap, arith, contains, contains_iff,
  false, inl, inr, none, refl, some, sym, true, ◌↔◌, ◌∙◌, ◌∷◌, ◌≡◌, nat_eq, bytes_eq, option_eq,
}
use codex_autoapprover.Protocol.{
  ◌>>=?◌, Entries, Event, Events, Fields, Items, Value, array, bool, cons, element, end, entry,
  field, map_end, map_option, nil, null, number, object, seq_end, strict_fields, strict_items,
  strict_value, string, unless, visit_bool, visit_map, visit_none, visit_number, visit_seq,
  visit_str,
}

-- The value of the events, with no test.
unfoldable mutual
  pub plain : Event → Value
  plain visit_none = null
  plain (visit_bool b) = bool b
  plain (visit_number n) = number n
  plain (visit_str s) = string s
  plain (visit_seq es) = array (plain_items es)
  plain (visit_map es) = object (plain_fields es)

  pub plain_items : Events → Items
  plain_items seq_end = nil
  plain_items (element e es) = cons (plain e) (plain_items es)

  pub plain_fields : Entries → Fields
  plain_fields map_end = end
  plain_fields (entry k e es) = field k (plain e) (plain_fields es)

-- The keys of a map, as it is written.
unfoldable pub entry_keys : Entries → List Bytes
entry_keys map_end = []
entry_keys (entry k e es) = k ∷ entry_keys es

-- No map holds a key twice, at any depth.
unfoldable mutual
  pub HasUniqueKeys : Event → Type 0
  HasUniqueKeys visit_none = Unit
  HasUniqueKeys (visit_bool b) = Unit
  HasUniqueKeys (visit_number n) = Unit
  HasUniqueKeys (visit_str s) = Unit
  HasUniqueKeys (visit_seq es) = UniqueItems es
  HasUniqueKeys (visit_map es) = UniqueFields es

  pub UniqueItems : Events → Type 0
  UniqueItems seq_end = Unit
  UniqueItems (element e es) = HasUniqueKeys e × UniqueItems es

  pub UniqueFields : Entries → Type 0
  UniqueFields map_end = Unit
  UniqueFields (entry k e es) = (¬ In k (entry_keys es)) × HasUniqueKeys e × UniqueFields es

-- None of the keys is among those seen.
abbrev pub Fresh : List Bytes → List Bytes → Type 0
Fresh seen [] = Unit
Fresh seen (k ∷ ks) = (contains seen k ≡ false) × Fresh seen ks

bind-eq-some :
    {A B : Type 0} (o : Option A) (f : A → Option B) {b : B}
    → (o >>=? f) ≡ some b
    → (a : A) × (o ≡ some a) × (f a ≡ some b)
bind-eq-some none f h = cc
bind-eq-some (some a) f h = (a, refl, h)

map-eq-some :
    {A B : Type 0} (o : Option A) (f : A → B) {b : B}
    → map_option f o ≡ some b
    → (a : A) × (o ≡ some a) × (f a ≡ b)
map-eq-some none f h = cc
map-eq-some (some a) f h = (a, refl, ground arith)

unless-eq-some :
    {A : Type 0} (b : Bool) (o : Option A) {a : A}
    → unless b o ≡ some a
    → (b ≡ false) × (o ≡ some a)
unless-eq-some true o h = cc
unless-eq-some false o h = (refl, h)

Fresh-weaken :
    (seen : List Bytes) (k : Bytes) (ks : List Bytes) → Fresh (k ∷ seen) ks → Fresh seen ks
unfolding contains
Fresh-weaken seen k [] h = tt
Fresh-weaken seen k (j ∷ ks) h = (ground arith, Fresh-weaken seen k ks h.1)

Fresh-not-In : (seen : List Bytes) (k : Bytes) (ks : List Bytes) → Fresh (k ∷ seen) ks → ¬ In k ks
Fresh-not-In seen k [] h m = m
Fresh-not-In seen k (j ∷ ks) h (inl p) =
    false≢true (sym h.0 ∙ (contains_iff (k ∷ seen) j).1 (inl (sym p)))
Fresh-not-In seen k (j ∷ ks) h (inr m) = Fresh-not-In seen k ks h.1 m

not_seen :
    (seen : List Bytes) (k j : Bytes)
    → contains seen j ≡ false
    → ¬ (k ≡ j)
    → contains (k ∷ seen) j ≡ false
unfolding contains
not_seen seen k j h n = elim (Bool-cases (j == k)) [
  | inl e ↦ absurd (n (sym ((==_iff j k).0 e)))
  | inr e ↦ ground arith
]

Fresh-nil : (ks : List Bytes) → Fresh [] ks
unfolding contains
Fresh-nil [] = tt
Fresh-nil (k ∷ ks) = (refl, Fresh-nil ks)

Fresh-add :
    (seen : List Bytes) (k : Bytes) (ks : List Bytes)
    → Fresh seen ks
    → ¬ In k ks
    → Fresh (k ∷ seen) ks
Fresh-add seen k [] h m = tt
Fresh-add seen k (j ∷ ks) h m =
    (not_seen seen k j h.0 (λ p. m (inl p)), Fresh-add seen k ks h.1 (λ i. m (inr i)))

mutual
  unfolding strict_value plain HasUniqueKeys entry_keys

  strict_value_sound :
      (e : Event) (v : Value) → strict_value e ≡ some v → HasUniqueKeys e × (plain e ≡ v)
  strict_value_sound visit_none v h = (tt, ground arith)
  strict_value_sound (visit_bool b) v h = (tt, ground arith)
  strict_value_sound (visit_number n) v h = (tt, ground arith)
  strict_value_sound (visit_str s) v h = (tt, ground arith)
  strict_value_sound (visit_seq es) v h =
      let (vs, hs, p) = map-eq-some (strict_items es) array h in
      let (u, q) = strict_items_sound es vs hs in (u, ap array q ∙ p)
  strict_value_sound (visit_map es) v h =
      let (vs, hs, p) = map-eq-some (strict_fields es []) object h in
      let (u, q, _) = strict_fields_sound es [] vs hs in (u, ap object q ∙ p)

  strict_items_sound :
      (es : Events) (vs : Items)
      → strict_items es ≡ some vs
      → UniqueItems es × (plain_items es ≡ vs)
  strict_items_sound seq_end vs h = (tt, ground arith)
  strict_items_sound (element e es) vs h =
      let (v, hv, k) = bind-eq-some (strict_value e) _ h in
      let (ws, hw, k') = bind-eq-some (strict_items es) _ k in
      let (u, q) = strict_value_sound e v hv in
      let (u', q') = strict_items_sound es ws hw in ((u, u'), cc)

  strict_fields_sound :
      (es : Entries) (seen : List Bytes) (fs : Fields)
      → strict_fields es seen ≡ some fs
      → UniqueFields es × (plain_fields es ≡ fs) × Fresh seen (entry_keys es)
  strict_fields_sound map_end seen fs h = (tt, ground arith, tt)
  strict_fields_sound (entry k e es) seen fs h =
      let (new, h') = unless-eq-some (contains seen k) _ h in
      let (v, hv, h'') = bind-eq-some (strict_value e) _ h' in
      let (gs, hg, p) = map-eq-some (strict_fields es (k ∷ seen)) (field k v) h'' in
      let (u, q) = strict_value_sound e v hv in
      let (u', q', fresh) = strict_fields_sound es (k ∷ seen) gs hg in
      (
        (Fresh-not-In seen k (entry_keys es) fresh, u, u'),
        cc,
        (new, Fresh-weaken seen k (entry_keys es) fresh),
      )

mutual
  unfolding strict_value plain HasUniqueKeys entry_keys

  strict_value_complete : (e : Event) → HasUniqueKeys e → strict_value e ≡ some (plain e)
  strict_value_complete visit_none u = refl
  strict_value_complete (visit_bool b) u = refl
  strict_value_complete (visit_number n) u = refl
  strict_value_complete (visit_str s) u = refl
  strict_value_complete (visit_seq es) u = rw (strict_items_complete es u)
  strict_value_complete (visit_map es) u =
      rw (strict_fields_complete es [] u (Fresh-nil (entry_keys es)))

  strict_items_complete : (es : Events) → UniqueItems es → strict_items es ≡ some (plain_items es)
  strict_items_complete seq_end u = refl
  strict_items_complete (element e es) u =
      rw (strict_value_complete e u.0, strict_items_complete es u.1)

  strict_fields_complete :
      (es : Entries) (seen : List Bytes)
      → UniqueFields es
      → Fresh seen (entry_keys es)
      → strict_fields es seen ≡ some (plain_fields es)
  strict_fields_complete map_end seen u f = refl
  strict_fields_complete (entry k e es) seen u f = rw (
    f.0,
    strict_value_complete e u.1,
    strict_fields_complete es (k ∷ seen) u.2 (Fresh-add seen k (entry_keys es) f.1 u.0),
  )

-- The strict parser returns a value exactly for the events with no repeated key at any depth, and
-- it returns the value that the text spells.
pub strict_value_iff :
    (e : Event) (v : Value) → (strict_value e ≡ some v) ↔ (HasUniqueKeys e × (plain e ≡ v))
strict_value_iff e v = (strict_value_sound e v, λ (u, p). strict_value_complete e u ∙ ap some p)
