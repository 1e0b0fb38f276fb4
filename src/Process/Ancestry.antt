-- ===== src/Process/Ancestry.antt =====
-- About `validate_ancestry` of src/process/linux.rs and the chain of records that it reads.
use codex_autoapprover.Prelude.{
  list_beq_iff, sym, ◌+◌, ◌==◌, ==_iff, Bool-cases, In, any, any-eq-true, ap, append_assoc, nat_eqb,
  subst, true, ◌∙◌, ◌⊎◌, nat_eq, bytes_eq, option_eq, ◌++◌, ◌<◌, List, Result-cases, [], arith, inl,
  inr, length, ok, suc, zero, ℕ, ◌∷◌, ◌≡◌, ◌≢◌, ◌≤◌,
}
use codex_autoapprover.Process.{
  identity_eq, record_eq, ProcessIdentity, collect_ancestry, max_ancestry_depth, validate_ancestry,
  ProcessReader, ProcessRecord, collect_from,
}

-- Records linked by parent, from one process up to the first record of the expected one.
pub IsChain : ℕ → ℕ → List ProcessRecord → Type 0
IsChain expected_pid current [] = ⊥
IsChain expected_pid current (r ∷ []) =
    (r.identity.pid ≡ current) × (current ≡ expected_pid) × (0 < current)
IsChain expected_pid current (r ∷ s ∷ rs) =
    (r.identity.pid ≡ current)
    × (current ≢ expected_pid)
    × (0 < current)
    × IsChain expected_pid r.parent_pid (s ∷ rs)

-- The records are the answers to successive reads.
pub IsReading : ProcessReader → ℕ → List ProcessRecord → Type 0
IsReading reader now [] = Unit
IsReading reader now (r ∷ rs) = (reader now r.identity.pid ≡ ok r) × IsReading reader (now + 1) rs

IsChain-step :
    (expected_pid current : ℕ) (r : ProcessRecord) (rs : List ProcessRecord)
    → r.identity.pid ≡ current
    → current ≢ expected_pid
    → 0 < current
    → IsChain expected_pid r.parent_pid rs
    → IsChain expected_pid current (r ∷ rs)
unfolding IsChain
IsChain-step expected_pid current r [] a b c d = elim d [ ]
IsChain-step expected_pid current r (s ∷ rs) a b c d = (a, b, c, d)

-- What one round has established when the loop succeeds.
pub record Round (reader : ProcessReader) (expected_pid rounds now : ℕ)
    (records : List ProcessRecord) (current : ℕ) (out : List ProcessRecord) : Type 0 where
  pub process : ProcessRecord
  pub answered : reader now current ≡ ok process
  pub alive : 0 < current
  pub same : process.identity.pid ≡ current
  pub next :
      ((current ≡ expected_pid)
        × (out ≡ records ++ process ∷ [])
        × ((collect_from reader expected_pid (suc rounds) now records current).0 ≡ now + 1))
      ⊎ ((current ≢ expected_pid)
          × ((collect_from reader expected_pid rounds
                (now + 1)
                (records ++ process ∷ [])
                process.parent_pid).1
              ≡ ok out)
          × ((collect_from reader expected_pid (suc rounds) now records current).0
              ≡ (collect_from reader expected_pid rounds
                  (now + 1)
                  (records ++ process ∷ [])
                  process.parent_pid).0))

round :
    (reader : ProcessReader) (expected_pid rounds now : ℕ) (records : List ProcessRecord)
    (current : ℕ) (out : List ProcessRecord)
    → (collect_from reader expected_pid (suc rounds) now records current).1 ≡ ok out
    → Round reader expected_pid rounds now records current out
unfolding collect_from
round reader expected_pid rounds now records current out h =
    elim (Result-cases (reader now current)) [
      | inl (r, e) ↦ record {
        process = r;
        answered = e;
        alive = ground arith;
        same = ground arith;
        next = elim (Bool-cases (nat_eqb current expected_pid)) [
          | inl q ↦ inl (ground arith, ground arith, ground arith)
          | inr q ↦ inr (ground arith, ground arith, ground arith)
        ];
      }
      | inr (x, e) ↦ absurd (ground arith)
    ]

-- What the loop has read behind the records that it was given.
pub record Collected (reader : ProcessReader) (expected_pid rounds now : ℕ)
    (records : List ProcessRecord) (current : ℕ) (out : List ProcessRecord) : Type 0 where
  pub read : List ProcessRecord
  pub appended : out ≡ records ++ read
  pub chain : IsChain expected_pid current read
  pub reading : IsReading reader now read
  pub fits : length read ≤ rounds
  pub time : (collect_from reader expected_pid rounds now records current).0 ≡ now + length read

Collected-last :
    (reader : ProcessReader) (expected_pid rounds now : ℕ) (records : List ProcessRecord)
    (current : ℕ) (out : List ProcessRecord) (r : ProcessRecord)
    → reader now current ≡ ok r
    → r.identity.pid ≡ current
    → 0 < current
    → current ≡ expected_pid
    → out ≡ records ++ r ∷ []
    → (collect_from reader expected_pid (suc rounds) now records current).0 ≡ now + 1
    → Collected reader expected_pid (suc rounds) now records current out
unfolding IsChain IsReading
Collected-last reader expected_pid rounds now records current out r a s l q p t = record {
  read = r ∷ [];
  appended = p;
  chain = (s, q, l);
  reading = (ap (reader now) s ∙ a, tt);
  fits = omega arith;
  time = t;
}

Collected-more :
    (reader : ProcessReader) (expected_pid rounds now : ℕ) (records : List ProcessRecord)
    (current : ℕ) (out : List ProcessRecord) (r : ProcessRecord)
    → reader now current ≡ ok r
    → r.identity.pid ≡ current
    → 0 < current
    → current ≢ expected_pid
    → Collected reader expected_pid rounds (now + 1) (records ++ r ∷ []) r.parent_pid out
    → (collect_from reader expected_pid (suc rounds) now records current).0
      ≡ (collect_from reader expected_pid rounds (now + 1) (records ++ r ∷ []) r.parent_pid).0
    → Collected reader expected_pid (suc rounds) now records current out
unfolding IsReading
Collected-more reader expected_pid rounds now records current out r a s l q c t = record {
  read = r ∷ c.read;
  appended = c.appended ∙ append_assoc records (r ∷ []) c.read;
  chain = IsChain-step expected_pid current r c.read s q l c.chain;
  reading = (ap (reader now) s ∙ a, c.reading);
  fits = omega (arith, c.fits);
  time = omega (arith, t, c.time);
}

collect_from-Collected :
    (reader : ProcessReader) (expected_pid rounds now : ℕ) (records : List ProcessRecord)
    (current : ℕ) (out : List ProcessRecord)
    → (collect_from reader expected_pid rounds now records current).1 ≡ ok out
    → Collected reader expected_pid rounds now records current out
collect_from-Collected reader expected_pid zero now records current out h =
    unfold collect_from in cc
collect_from-Collected reader expected_pid (suc rounds) now records current out h =
    let step = round reader expected_pid rounds now records current out h in
    let r = step.process in
    elim step.next [
      | inl (q, p, t) ↦
          Collected-last reader expected_pid rounds now records current out r step.answered
            step.same step.alive q p t
      | inr (q, more, t) ↦
          Collected-more reader expected_pid rounds now records current out r step.answered
            step.same step.alive q
            (collect_from-Collected reader expected_pid rounds (now + 1) (records ++ r ∷ [])
              r.parent_pid out more)
            t
    ]

-- In a chain only the last record can have the expected process's number.
chain_ends :
    (expected : ProcessIdentity) (current : ℕ) (rs : List ProcessRecord) (r : ProcessRecord)
    → IsChain expected.pid current rs
    → In r rs
    → r.identity ≡ expected
    → (front : List ProcessRecord) × (rs ≡ front ++ r ∷ [])
unfolding IsChain
chain_ends expected current [] r c m e = elim m [ ]
chain_ends expected current (s ∷ []) r c (inl p) e = ([], ground arith)
chain_ends expected current (s ∷ []) r c (inr m) e = elim m [ ]
chain_ends expected current (s ∷ t ∷ rs) r c (inl p) e = absurd (
    ground
      (arith, ap (λ (i : ProcessIdentity). i.pid) e, ap (λ (i : ProcessRecord). i.identity.pid) p))
chain_ends expected current (s ∷ t ∷ rs) r c (inr m) e =
    let (front, p) = chain_ends expected s.parent_pid (t ∷ rs) r c.3 m e in
    (s ∷ front, ap (◌∷◌ s) p)

-- The peer descends from the expected process: one list of at most 32 records was read twice, the
-- second time with the reads that follow those of the first, and then no more was read; each record
-- is the parent of the one before it, none has the number 0, and they lead from the peer to a last
-- record that has the expected number, start time and user.
pub record IsDescendant (reader : ProcessReader) (now peer_pid : ℕ) (expected : ProcessIdentity)
    : Type 0 where
  pub front : List ProcessRecord
  pub last : ProcessRecord
  pub chain : IsChain expected.pid peer_pid (front ++ last ∷ [])
  pub ends : last.identity ≡ expected
  pub bounded : length (front ++ last ∷ []) ≤ max_ancestry_depth
  pub first_reading : IsReading reader now (front ++ last ∷ [])
  pub second_reading : IsReading reader (now + length (front ++ last ∷ [])) (front ++ last ∷ [])
  pub time :
      (validate_ancestry reader now peer_pid expected).0
      ≡ now + length (front ++ last ∷ []) + length (front ++ last ∷ [])

accepted_records :
    (reader : ProcessReader) (now peer_pid : ℕ) (expected : ProcessIdentity)
    → (validate_ancestry reader now peer_pid expected).1 ≡ ok tt
    → (records : List ProcessRecord) × ((collect_ancestry reader now peer_pid expected.pid).1
        ≡ ok records)
      × ((collect_ancestry reader
            (collect_ancestry reader now peer_pid expected.pid).0
            peer_pid
            expected.pid).1
          ≡ ok records)
      × ((validate_ancestry reader now peer_pid expected).0
          ≡ (collect_ancestry reader
              (collect_ancestry reader now peer_pid expected.pid).0
              peer_pid
              expected.pid).0)
      × (any (λ r. r.identity == expected) records ≡ true)
unfolding validate_ancestry
accepted_records reader now peer_pid expected h =
    let (later, first) = collect_ancestry reader now peer_pid expected.pid in
    elim (Result-cases first) [
      | inl (records, e) ↦
          elim (Result-cases (collect_ancestry reader later peer_pid expected.pid).1) [
            | inl (again, e') ↦
                let same = (list_beq_iff record_eq records again).0 (ground arith) in
                (records, e, rw same e', ground arith, ground arith)
            | inr (x, e') ↦ absurd (ground arith)
          ]
      | inr (x, e) ↦ absurd (ground arith)
    ]

-- An accepted peer descends from the expected process: two readings that follow each other, and in
-- which the processes may change, agree on a chain of at most 32 records from the peer to that
-- process, and nothing else is read.
pub validate_ancestry-IsDescendant :
    (reader : ProcessReader) (now peer_pid : ℕ) (expected : ProcessIdentity)
    → (validate_ancestry reader now peer_pid expected).1 ≡ ok tt
    → IsDescendant reader now peer_pid expected
unfolding collect_ancestry
validate_ancestry-IsDescendant reader now peer_pid expected h =
    let (records, e, e', same_time, found) = accepted_records reader now peer_pid expected h in
    let later = (collect_from reader expected.pid max_ancestry_depth now [] peer_pid).0 in
    let c =
      collect_from-Collected reader expected.pid max_ancestry_depth now [] peer_pid records e in
    let c' =
      collect_from-Collected reader expected.pid max_ancestry_depth later [] peer_pid records e' in
    let (r, m, q) = any-eq-true (λ r. r.identity == expected) records found in
    let same = (==_iff r.identity expected).0 q in
    let again : c'.read ≡ c.read = sym c'.appended ∙ c.appended in
    let m' : In r c.read = subst (In r) c.appended m in
    let (front, split) = chain_ends expected peer_pid c.read r c.chain m' same in
    record {
      front = front;
      last = r;
      chain = subst (IsChain expected.pid peer_pid) split c.chain;
      ends = same;
      bounded = subst (λ l. length l ≤ max_ancestry_depth) split c.fits;
      first_reading = subst (IsReading reader now) split c.reading;
      second_reading =
          subst (λ l. IsReading reader (now + length l) l) split
            (subst (λ t. IsReading reader t c.read) c.time
              (subst (IsReading reader later) again c'.reading));
      time =
          subst
            (λ l. (validate_ancestry reader now peer_pid expected).0 ≡ now + length l + length l)
            split (omega (arith, same_time, c.time, c'.time, ap length again));
    }
