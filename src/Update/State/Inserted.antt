-- ===== src/Update/State/Inserted.antt =====
-- About `UpdateState::record_compatibility_observation` of src/update/state.rs.
-- What a recording does with an observation that is new.
use codex_autoapprover.Prelude.{
  Bool-cases, In, In-append, List, Option-cases, [], ap, arith, false, inl, inr, length,
  length-append, refl, some, subst, suc, sym, true, ◌++◌, ◌<◌, ◌∙◌, ◌↔◌, leb, ◌≡◌, ◌≤◌, ◌⊎◌, ◌∷◌,
}
use codex_autoapprover.Prelude.Sorting.{
  In-sort_by, IsSorted, length-sort_by, sort_by, sort_by-IsSorted,
}
use codex_autoapprover.Update.State.{
  CompatibilityObservation, insert_observation, max_compatibility_observations, observation_leb,
  split_oldest,
}
use codex_autoapprover.Update.State.Order.{observation_leb-IsOrder}
use codex_autoapprover.Update.State.Valid.{split_oldest-eq-none}

-- The list holds the kept observations and the new one, sorted.
pub record IsAdded (o : CompatibilityObservation) (kept ys : List CompatibilityObservation)
    : Type 0 where
  pub elements : (y : CompatibilityObservation) → In y ys ↔ (In y kept ⊎ (y ≡ o))
  pub longer : length ys ≡ suc (length kept)
  pub sorted : IsSorted observation_leb ys

-- The list without its oldest observation.
pub record IsEvicted (oldest : CompatibilityObservation) (xs rest : List CompatibilityObservation)
    : Type 0 where
  pub elements : (y : CompatibilityObservation) → In y xs ↔ ((y ≡ oldest) ⊎ In y rest)
  pub shorter : length xs ≡ suc (length rest)
  pub lowest : (y : CompatibilityObservation) → In y xs → observation_leb oldest y ≡ true

-- With room the observation is added. Without room it replaces the oldest one, if it is newer.
pub IsInserted :
    CompatibilityObservation
    → List CompatibilityObservation
    → List CompatibilityObservation
    → Type 0
IsInserted o xs ys =
    ((length xs < max_compatibility_observations) × IsAdded o xs ys)
    ⊎ ((max_compatibility_observations ≤ length xs)
        × ((oldest : CompatibilityObservation) × (rest : List CompatibilityObservation) × IsEvicted
              oldest xs rest
            × (((observation_leb o oldest ≡ true) × (ys ≡ xs))
                ⊎ ((observation_leb o oldest ≡ false) × IsAdded o rest ys))))

sort_by-IsAdded :
    (o : CompatibilityObservation) (kept : List CompatibilityObservation)
    → IsAdded o kept (sort_by observation_leb (kept ++ o ∷ []))
sort_by-IsAdded o kept = record {
  elements = λ y.
      let moved = In-sort_by observation_leb y (kept ++ o ∷ []) in
      (
        λ i. elim (In-append y kept (o ∷ []) (moved.0 i)) [
          | inl j ↦ inl j
          | inr j ↦ elim j [ inl p ↦ inr p | inr k ↦ elim k [ ] ]
        ],
        λ c. moved.1 (elim c [ inl j ↦ In-front y kept j | inr p ↦ In-behind y kept p ]),
      );
  longer =
      length-sort_by observation_leb (kept ++ o ∷ []) ∙ (length-append kept (o ∷ []) ∙ omega arith);
  sorted = sort_by-IsSorted observation_leb observation_leb-IsOrder (kept ++ o ∷ []);
}
  where
    In-front :
        (y : CompatibilityObservation) (l : List CompatibilityObservation)
        → In y l
        → In y (l ++ o ∷ [])
    In-front y [] i = elim i [ ]
    In-front y (z ∷ l) (inl p) = inl p
    In-front y (z ∷ l) (inr i) = inr (In-front y l i)

    In-behind :
        (y : CompatibilityObservation) (l : List CompatibilityObservation)
        → y ≡ o
        → In y (l ++ o ∷ [])
    In-behind y [] p = inl p
    In-behind y (z ∷ l) p = inr (In-behind y l p)

abbrev Split : Type 0
Split = CompatibilityObservation × List CompatibilityObservation

split_oldest-IsEvicted :
    (xs rest : List CompatibilityObservation) (m : CompatibilityObservation)
    → split_oldest xs ≡ some (m, rest)
    → IsEvicted m xs rest
unfolding split_oldest
split_oldest-IsEvicted [] rest m h = cc
split_oldest-IsEvicted (x ∷ xs) rest m h = elim (Option-cases (split_oldest xs)) [
  | inl n ↦
      let p : Path Split (x, []) (m, rest) = ground arith in
      let q = split_oldest-eq-none xs n in
      subst (λ l. IsEvicted m (x ∷ l) rest) (sym q)
        (subst (λ t. IsEvicted t.0 (x ∷ []) t.1) p
          (record {
            elements = λ y. (elim [ inl r ↦ inl r | inr i ↦ elim i [ ] ], λ c. c);
            shorter = refl;
            lowest = λ y. elim [
              | inl r ↦ ap (observation_leb x) r ∙ observation_leb-IsOrder.reflexive x
              | inr i ↦ elim i [ ]
            ];
          }))
  | inr ((k, ks), q) ↦
      let part = split_oldest-IsEvicted xs ks k q in
      elim (Bool-cases (observation_leb x k)) [
        | inl e ↦
            let p : Path Split (x, xs) (m, rest) = ground arith in
            subst (λ t. IsEvicted t.0 (x ∷ xs) t.1) p
              (record {
                elements = λ y. (λ c. c, λ c. c);
                shorter = refl;
                lowest = λ y. elim [
                  | inl r ↦ ap (observation_leb x) r ∙ observation_leb-IsOrder.reflexive x
                  | inr i ↦ observation_leb-IsOrder.trans x k y e (part.lowest y i)
                ];
              })
        | inr e ↦
            let p : Path Split (k, x ∷ ks) (m, rest) = ground arith in
            subst (λ t. IsEvicted t.0 (x ∷ xs) t.1) p
              (record {
                elements = λ y. (
                  elim [
                    | inl r ↦ inr (inl r)
                    | inr i ↦ elim ((part.elements y).0 i) [ inl r ↦ inl r | inr j ↦ inr (inr j) ]
                  ],
                  elim [
                    | inl r ↦ inr ((part.elements y).1 (inl r))
                    | inr i ↦ elim i [ inl r ↦ inl r | inr j ↦ inr ((part.elements y).1 (inr j)) ]
                  ],
                );
                shorter = ap suc part.shorter;
                lowest = λ y. elim [
                  | inl r ↦ ap (observation_leb k) r ∙ observation_leb-IsOrder.total x k e
                  | inr i ↦ part.lowest y i
                ];
              })
      ]
]

pub insert_observation-IsInserted :
    (o : CompatibilityObservation) (xs ys : List CompatibilityObservation)
    → insert_observation o xs ≡ some ys
    → IsInserted o xs ys
unfolding insert_observation IsInserted
insert_observation-IsInserted o xs ys h =
    elim (Bool-cases (leb max_compatibility_observations (length xs))) [
      | inr e ↦
          let p : sort_by observation_leb (xs ++ o ∷ []) ≡ ys = ground arith in
          inl (ground arith, subst (IsAdded o xs) p (sort_by-IsAdded o xs))
      | inl e ↦ elim (Option-cases (split_oldest xs)) [
        | inl n ↦ absurd (ground arith)
        | inr ((m, rest), q) ↦
            let evicted = split_oldest-IsEvicted xs rest m q in
            elim (Bool-cases (observation_leb o m)) [
              | inl f ↦ inr (ground arith, (m, rest, evicted, inl (f, ground arith)))
              | inr f ↦
                  let p : sort_by observation_leb (rest ++ o ∷ []) ≡ ys = ground arith in
                  inr (
                    ground arith,
                    (m, rest, evicted, inr (f, subst (IsAdded o rest) p (sort_by-IsAdded o rest))),
                  )
            ]
      ]
    ]
