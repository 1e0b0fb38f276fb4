-- ===== src/Update/State/Valid.antt =====
-- About `UpdateState::record_compatibility_observation` of src/update/state.rs.
use codex_autoapprover.Prelude.{
  In-append, ◌++◌, Bool-cases, Option-cases, Result-cases, leb, length-append, subst, ◌∙◌, ◌≤◌, ◌<◌,
  In, List, [], ap, arith, inl, inr, length, none, ok, refl, some, suc, ℕ, ◌∷◌, ◌≡◌,
}
use codex_autoapprover.Update.Outcome.Bounds.{Bounded, validate_iff}
use codex_autoapprover.Update.State.{
  dated_observation, insert_observation, max_compatibility_observations, observation_leb,
  same_identity, record_compatibility_observation, CompatibilityObservation, UpdateState, capped,
  merge_counts, merge_first, merge_observation, split_oldest, validate_observation,
  validate_observations, validate_state,
}
use codex_autoapprover.Update.Outcome.{HookOutcomeCounts}
use codex_autoapprover.Prelude.Sorting.{In-sort_by, length-sort_by, sort_by}

merge_counts-Bounded : (c o : HookOutcomeCounts) → Bounded (merge_counts c o)
unfolding merge_counts capped
merge_counts-Bounded c o = ground arith

validate_observation-merge :
    (now : ℕ) (o x : CompatibilityObservation)
    → 0 < now
    → validate_observation (merge_observation now o x) ≡ ok tt
unfolding validate_observation merge_observation
validate_observation-merge now o x t = ground (
  arith,
  (validate_iff (merge_counts x.counts o.counts)).1 (merge_counts-Bounded x.counts o.counts),
)

cons_valid :
    (x : CompatibilityObservation) (xs : List CompatibilityObservation)
    → validate_observation x ≡ ok tt
    → validate_observations xs ≡ ok tt
    → validate_observations (x ∷ xs) ≡ ok tt
unfolding validate_observations
cons_valid x xs h k = rw (h, k) refl

uncons_valid :
    (x : CompatibilityObservation) (xs : List CompatibilityObservation)
    → validate_observations (x ∷ xs) ≡ ok tt
    → (validate_observation x ≡ ok tt) × (validate_observations xs ≡ ok tt)
unfolding validate_observations
uncons_valid x xs h = ground arith

-- The list is as long and as valid as before.
abbrev AsValid : List CompatibilityObservation → List CompatibilityObservation → Type 0
AsValid xs ys = (validate_observations ys ≡ ok tt) × (length ys ≡ length xs)

merge_first_valid :
    (now : ℕ) (o : CompatibilityObservation) (xs ys : List CompatibilityObservation)
    → 0 < now
    → merge_first now o xs ≡ some ys
    → validate_observations xs ≡ ok tt
    → AsValid xs ys
unfolding merge_first
merge_first_valid now o [] ys t h v = cc
merge_first_valid now o (x ∷ xs) ys t h v =
    let (vx, vxs) = uncons_valid x xs v in
    let again = merge_first_valid now o xs in
    elim (Bool-cases (same_identity x o)) [
      | inl e ↦
          let p : merge_observation now o x ∷ xs ≡ ys = ground arith in
          subst (AsValid (x ∷ xs)) p (
            cons_valid (merge_observation now o x) xs (validate_observation-merge now o x t) vxs,
            refl,
          )
      | inr e ↦ elim (Option-cases (merge_first now o xs)) [
        | inl n ↦ absurd (ground arith)
        | inr (zs, q) ↦
            let (vz, lz) = again zs t q vxs in
            let p : x ∷ zs ≡ ys = ground arith in
            subst (AsValid (x ∷ xs)) p (cons_valid x zs vx vz, ap suc lz)
      ]
    ]

validate_observations-In :
    (x : CompatibilityObservation) (xs : List CompatibilityObservation)
    → validate_observations xs ≡ ok tt
    → In x xs
    → validate_observation x ≡ ok tt
unfolding validate_observations
validate_observations-In x [] v i = elim i [ ]
validate_observations-In x (y ∷ ys) v (inl p) = ground (arith, ap validate_observation p)
validate_observations-In x (y ∷ ys) v (inr i) = validate_observations-In x ys (ground arith) i

In-validate_observations :
    (xs : List CompatibilityObservation)
    → ((x : CompatibilityObservation) → In x xs → validate_observation x ≡ ok tt)
    → validate_observations xs ≡ ok tt
unfolding validate_observations
In-validate_observations [] f = refl
In-validate_observations (x ∷ xs) f =
    rw (f x (inl refl)) (In-validate_observations xs (λ y i. f y (inr i)))

pub split_oldest-eq-none : (xs : List CompatibilityObservation) → split_oldest xs ≡ none → xs ≡ []
unfolding split_oldest
split_oldest-eq-none [] h = refl
split_oldest-eq-none (x ∷ xs) h = absurd (ground arith)

abbrev IsPart : List CompatibilityObservation → List CompatibilityObservation → Type 0
IsPart xs rest =
    (length xs ≡ suc (length rest)) × ((y : CompatibilityObservation) → In y rest → In y xs)

split_oldest-IsPart :
    (xs rest : List CompatibilityObservation) (m : CompatibilityObservation)
    → split_oldest xs ≡ some (m, rest)
    → IsPart xs rest
unfolding split_oldest
split_oldest-IsPart [] rest m h = cc
split_oldest-IsPart (x ∷ xs) rest m h = elim (Option-cases (split_oldest xs)) [
  | inl n ↦
      let p : [] ≡ rest = ground arith in
      let q = split_oldest-eq-none xs n in
      subst (IsPart (x ∷ xs)) p (ap (λ l. suc (length l)) q, λ y i. elim i [ ])
  | inr ((k, ks), q) ↦
      let (l, part) = split_oldest-IsPart xs ks k q in
      elim (Bool-cases (observation_leb x k)) [
        | inl e ↦ let p : xs ≡ rest = ground arith in subst (IsPart (x ∷ xs)) p (refl, λ y i. inr i)
        | inr e ↦
            let p : x ∷ ks ≡ rest = ground arith in
            subst (IsPart (x ∷ xs)) p
              (ap suc l, λ y. elim [ inl r ↦ inl r | inr i ↦ inr (part y i) ])
      ]
]

-- A recording that reports success leaves a valid state.
pub record_compatibility_observation-validate_state :
    (dated now : ℕ) (o : CompatibilityObservation) (s : UpdateState)
    → (record_compatibility_observation dated now o s).1 ≡ ok tt
    → validate_state (record_compatibility_observation dated now o s).0 ≡ ok tt
unfolding record_compatibility_observation
record_compatibility_observation-validate_state dated now o s h =
    let d = dated_observation dated o in
    elim (Result-cases (validate_observation d)) [
      | inr (e, q) ↦ absurd (ground arith)
      | inl (u, q) ↦ elim (Option-cases (merge_first now d s.compatibility_observations)) [
        | inr (xs, p) ↦ ground arith
        | inl n ↦
            elim (Option-cases (
              insert_observation (record d { observed_at_unix_seconds = now })
                s.compatibility_observations)) [
                  | inr (xs, p) ↦ ground arith
                  | inl m ↦ absurd (ground arith)
                ]
      ]
    ]

insert_valid :
    (o : CompatibilityObservation) (xs : List CompatibilityObservation)
    → validate_observation o ≡ ok tt
    → validate_observations xs ≡ ok tt
    → length xs ≤ max_compatibility_observations
    → (ys : List CompatibilityObservation) × (insert_observation o xs ≡ some ys)
      × (validate_observations ys ≡ ok tt)
      × (length ys ≤ max_compatibility_observations)
unfolding insert_observation
insert_valid o xs v w l =
    let added : (rest : List CompatibilityObservation)
        → ((y : CompatibilityObservation) → In y rest → In y xs)
        → validate_observations (sort_by observation_leb (rest ++ o ∷ [])) ≡ ok tt =
      λ rest part. In-validate_observations (sort_by observation_leb (rest ++ o ∷ [])) (λ y i.
        elim (In-append y rest (o ∷ []) ((In-sort_by observation_leb y (rest ++ o ∷ [])).0 i)) [
          | inl j ↦ validate_observations-In y xs w (part y j)
          | inr j ↦ elim j [ inl p ↦ ap validate_observation p ∙ v | inr k ↦ elim k [ ] ]
        ]) in
    elim (Bool-cases (leb max_compatibility_observations (length xs))) [
      | inr e ↦ (
        sort_by observation_leb (xs ++ o ∷ []),
        ground arith,
        added xs (λ y i. i),
        ground (arith, length-sort_by observation_leb (xs ++ o ∷ []), length-append xs (o ∷ [])),
      )
      | inl e ↦ elim (Option-cases (split_oldest xs)) [
        | inl n ↦ absurd (ground (arith, ap length (split_oldest-eq-none xs n)))
        | inr ((m, rest), q) ↦
            let (k, part) = split_oldest-IsPart xs rest m q in
            elim (Bool-cases (observation_leb o m)) [
              | inl f ↦ (xs, ground arith, w, l)
              | inr f ↦ (
                sort_by observation_leb (rest ++ o ∷ []),
                ground arith,
                added rest part,
                ground (
                  arith,
                  length-sort_by observation_leb (rest ++ o ∷ []),
                  length-append rest (o ∷ []),
                ),
              )
            ]
      ]
    ]

-- Only the observations change, to valid ones that are few enough.
replaced_valid :
    (s : UpdateState) (xs : List CompatibilityObservation)
    → validate_state s ≡ ok tt
    → validate_observations xs ≡ ok tt
    → length xs ≤ max_compatibility_observations
    → validate_state (record s { compatibility_observations = xs }) ≡ ok tt
unfolding validate_state
replaced_valid s xs v w l = ground arith

state_parts :
    (s : UpdateState)
    → validate_state s ≡ ok tt
    → (validate_observations s.compatibility_observations ≡ ok tt)
      × (length s.compatibility_observations ≤ max_compatibility_observations)
unfolding validate_state
state_parts s v = ground arith

redated :
    (now : ℕ) (o : CompatibilityObservation)
    → 0 < now
    → validate_observation o ≡ ok tt
    → validate_observation (record o { observed_at_unix_seconds = now }) ≡ ok tt
unfolding validate_observation
redated now o t v = ground arith

-- In a valid state, with a clock that does not answer 0, an observation that is valid once it is
-- dated meets no error.
pub validate_state-record_compatibility_observation :
    (dated now : ℕ) (o : CompatibilityObservation) (s : UpdateState)
    → 0 < now
    → validate_state s ≡ ok tt
    → validate_observation (dated_observation dated o) ≡ ok tt
    → (record_compatibility_observation dated now o s).1 ≡ ok tt
unfolding record_compatibility_observation
validate_state-record_compatibility_observation dated now o s t v w =
    let d = dated_observation dated o in
    let (vs, l) = state_parts s v in
    elim (Option-cases (merge_first now d s.compatibility_observations)) [
      | inr (xs, p) ↦
          let (vx, lx) = merge_first_valid now d s.compatibility_observations xs t p vs in
          let done = replaced_valid s xs v vx (omega (arith, lx, l)) in ground arith
      | inl n ↦
          let (ys, p, vy, ly) =
            insert_valid (record d { observed_at_unix_seconds = now }) s.compatibility_observations
              (redated now d t w) vs l in
          let done = replaced_valid s ys v vy ly in ground arith
    ]
