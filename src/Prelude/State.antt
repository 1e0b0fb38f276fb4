-- ===== src/Prelude/State.antt =====
-- A method on `&mut self` that may return early with an error: it returns the state that it has
-- left, beside its result. The names are used through the module.
use mathlib.Core.Path.{◌≡◌, refl, ap}
use codex_autoapprover.Prelude.Results.{Result, ok, err}

abbrev pub M {ℓ} : Type ℓ → Type 0 → Type 0 → Type ℓ
M S E A = S → S × Result E A

infixl 5 ◌>>=◌ ◌>>◌
abbrev pub ◌>>=◌ : {S E A B : Type 0} → M S E A → (A → M S E B) → M S E B
◌>>=◌ m f s = let (s', r) = m s in elim r [ ok a ↦ f a s' | err e ↦ (s', err e) ]

abbrev pub ◌>>◌ : {S E B : Type 0} → M S E (Unit {0}) → M S E B → M S E B
◌>>◌ m k s = let (s', r) = m s in elim r [ ok a ↦ k s' | err e ↦ (s', err e) ]

abbrev pub pure : {S E A : Type 0} → A → M S E A
pure a s = (s, ok a)

-- Read a part of the state, and assign to the state.
abbrev pub gets : {S E A : Type 0} → (S → A) → M S E A
gets f s = (s, ok (f s))

abbrev pub modify : {S E : Type 0} → (S → S) → M S E (Unit {0})
modify f s = (f s, ok tt)

-- A result that changes no state, with its `?`.
abbrev pub lift : {S E A : Type 0} → Result E A → M S E A
lift r s = (s, r)

-- What a chain that succeeds has passed through.
pub >>=-succeeds :
    {S E A B : Type 0} (m : M S E A) (f : A → M S E B) (s t : S) (b : B)
    → (m >>= f) s ≡ (t, ok b)
    → (u : S) × (a : A) × (m s ≡ (u, ok a)) × (f a u ≡ (t, ok b))
>>=-succeeds {S} {E} {A} {B} m f s t b h = split (m s) refl h
  where
    split :
        (out : S × Result E A)
        → m s ≡ out
        → Path (S × Result E B) (elim out.1 [ ok a ↦ f a out.0 | err e ↦ (out.0, err e) ]) (t, ok b)
        → (u : S) × (a : A) × (m s ≡ (u, ok a)) × (f a u ≡ (t, ok b))
    split (u, ok a) e g = (u, a, e, g)
    split (u, err x) e g = cc

pub >>-succeeds :
    {S E B : Type 0} (m : M S E (Unit {0})) (k : M S E B) (s t : S) (b : B)
    → (m >> k) s ≡ (t, ok b)
    → (u : S) × (m s ≡ (u, ok tt)) × (k u ≡ (t, ok b))
>>-succeeds m k s t b h =
    let (u, a, first, next) = >>=-succeeds m (λ _. k) s t b h in (u, first, next)

pub >>=-continues :
    {S E A B : Type 0} (m : M S E A) (f : A → M S E B) (s u : S) (a : A)
    → m s ≡ (u, ok a)
    → (m >>= f) s ≡ f a u
>>=-continues {S} {E} {A} {B} m f s u a h =
    ap (λ (out : S × Result E A). elim out.1 [ ok x ↦ f x out.0 | err e ↦ (out.0, err e) ]) h
