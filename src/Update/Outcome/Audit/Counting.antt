-- ===== src/Update/Outcome/Audit/Counting.antt =====
-- About the loop over the lines in `read_audit` of src/update/outcome.rs.
use codex_autoapprover.Prelude.{
  ℕ, ◌+◌, ◌≤◌, ◌≡◌, refl, List, [], ◌∷◌, arith, Bytes, nat_eqb, if◌then◌else◌, ok, >>=-eq-ok,
}
use codex_autoapprover.Update.Outcome.{max_outcome_count, increment, record_hook_outcome}
use codex_autoapprover.Update.Outcome.Audit.{
  LineKind, attempt, invoked, request, allowed, emitted, other, classify, Reading, read_kind,
  read_lines,
}

abbrev tag : LineKind → ℕ
tag attempt = 0
tag invoked = 1
tag request = 2
tag allowed = 3
tag emitted = 4
tag other = 5

abbrev pub one : LineKind → LineKind → ℕ
one k j = if nat_eqb (tag k) (tag j) then 1 else 0

-- How many of the lines are of the kind.
unfoldable pub tally : LineKind → List Bytes → ℕ
tally k [] = 0
tally k (line ∷ rest) = one (classify line) k + tally k rest

-- What lines of given numbers add to a reading, and what they leave.
pub record Counted (n : LineKind → ℕ) (s t : Reading) : Type 0 where
  pub attempts : t.attempts ≡ s.attempts + n attempt
  pub entries : t.accumulator.counts.entry_count ≡ s.accumulator.counts.entry_count + n invoked
  pub requests :
      t.accumulator.counts.validated_request_count
      ≡ s.accumulator.counts.validated_request_count + n request
  pub allows : t.accumulator.counts.allow_count ≡ s.accumulator.counts.allow_count + n allowed
  pub emissions :
      t.accumulator.counts.broker_allow_unconfirmed_count
      ≡ s.accumulator.counts.broker_allow_unconfirmed_count + n emitted
  pub known : n other ≡ 0
  pub no_decisions : t.accumulator.counts.no_decision_count ≡ s.accumulator.counts.no_decision_count
  pub emitted_structures :
      t.accumulator.counts.structured_emission_count
      ≡ s.accumulator.counts.structured_emission_count
  pub stdout_errors :
      t.accumulator.counts.stdout_error_count ≡ s.accumulator.counts.stdout_error_count
  pub successes :
      t.accumulator.counts.successful_exchange_count
      ≡ s.accumulator.counts.successful_exchange_count
  pub rejections :
      t.accumulator.counts.compatibility_rejection_count
      ≡ s.accumulator.counts.compatibility_rejection_count
  pub transports :
      t.accumulator.counts.transport_failure_count ≡ s.accumulator.counts.transport_failure_count
  pub protocols :
      t.accumulator.counts.protocol_failure_count ≡ s.accumulator.counts.protocol_failure_count
  pub command : t.accumulator.command_outcome ≡ s.accumulator.command_outcome

-- The five counters that the lines increment are within the bound.
pub record Fits (s : Reading) : Type 0 where
  pub attempts_le : s.attempts ≤ max_outcome_count
  pub entries_le : s.accumulator.counts.entry_count ≤ max_outcome_count
  pub requests_le : s.accumulator.counts.validated_request_count ≤ max_outcome_count
  pub allows_le : s.accumulator.counts.allow_count ≤ max_outcome_count
  pub emissions_le : s.accumulator.counts.broker_allow_unconfirmed_count ≤ max_outcome_count

-- One line counts for its kind, and a line of no kind is refused.
read_kind-Counted : (k : LineKind) (s t : Reading) → read_kind s k ≡ ok t → Counted (one k) s t
unfolding read_kind increment record_hook_outcome
read_kind-Counted attempt s t h = ground arith
read_kind-Counted invoked s t h = ground arith
read_kind-Counted request s t h = ground arith
read_kind-Counted allowed s t h = ground arith
read_kind-Counted emitted s t h = ground arith
read_kind-Counted other s t h = cc

read_kind-Fits : (k : LineKind) (s t : Reading) → Fits s → read_kind s k ≡ ok t → Fits t
unfolding read_kind increment record_hook_outcome
read_kind-Fits attempt s t f h = ground arith
read_kind-Fits invoked s t f h = ground arith
read_kind-Fits request s t f h = ground arith
read_kind-Fits allowed s t f h = ground arith
read_kind-Fits emitted s t f h = ground arith
read_kind-Fits other s t f h = cc

Counted-trans :
    (m n : LineKind → ℕ) (s t u : Reading)
    → Counted m s t
    → Counted n t u
    → Counted (λ k. m k + n k) s u
Counted-trans m n s t u c d = ground arith

-- An accepted audit counts the lines of each kind exactly, touches no other counter, and has no
-- line of another kind.
pub read_lines-Counted :
    (lines : List Bytes) (s t : Reading)
    → read_lines s lines ≡ ok t
    → Counted (λ k. tally k lines) s t
unfolding read_lines tally
read_lines-Counted [] s t h = ground arith
read_lines-Counted (line ∷ rest) s t h =
    let (u, hu, ht) = >>=-eq-ok (read_kind s (classify line)) _ h in
    Counted-trans (one (classify line)) (λ k. tally k rest) s u t
      (read_kind-Counted (classify line) s u hu) (read_lines-Counted rest u t ht)

pub read_lines-Fits :
    (lines : List Bytes) (s t : Reading) → Fits s → read_lines s lines ≡ ok t → Fits t
unfolding read_lines
read_lines-Fits [] s t f h = ground arith
read_lines-Fits (line ∷ rest) s t f h =
    let (u, hu, ht) = >>=-eq-ok (read_kind s (classify line)) _ h in
    read_lines-Fits rest u t (read_kind-Fits (classify line) s u f hu) ht

-- Lines that are all known, and few enough of each kind, are accepted.
pub record Room (lines : List Bytes) (s : Reading) : Type 0 where
  pub attempts : s.attempts + tally attempt lines ≤ max_outcome_count
  pub entries : s.accumulator.counts.entry_count + tally invoked lines ≤ max_outcome_count
  pub requests :
      s.accumulator.counts.validated_request_count + tally request lines ≤ max_outcome_count
  pub allows : s.accumulator.counts.allow_count + tally allowed lines ≤ max_outcome_count
  pub emissions :
      s.accumulator.counts.broker_allow_unconfirmed_count + tally emitted lines ≤ max_outcome_count
  pub known : tally other lines ≡ 0

read_kind-Room :
    (k : LineKind) (line : Bytes) (rest : List Bytes) (s : Reading)
    → classify line ≡ k
    → Room (line ∷ rest) s
    → (t : Reading) × (read_kind s k ≡ ok t) × Room rest t
unfolding read_kind increment record_hook_outcome tally
read_kind-Room attempt line rest s e r =
    (record s { attempts = s.attempts + 1 }, ground arith, ground arith)
read_kind-Room invoked line rest s e r =
    let c = record (s.accumulator.counts) { entry_count = s.accumulator.counts.entry_count + 1 } in
    (record s { accumulator = record (s.accumulator) { counts = c } }, ground arith, ground arith)
read_kind-Room request line rest s e r =
    let c = record (s.accumulator.counts) {
      validated_request_count = s.accumulator.counts.validated_request_count + 1;
    } in
    (record s { accumulator = record (s.accumulator) { counts = c } }, ground arith, ground arith)
read_kind-Room allowed line rest s e r =
    let c = record (s.accumulator.counts) { allow_count = s.accumulator.counts.allow_count + 1 } in
    (record s { accumulator = record (s.accumulator) { counts = c } }, ground arith, ground arith)
read_kind-Room emitted line rest s e r =
    let c = record (s.accumulator.counts) {
      broker_allow_unconfirmed_count = s.accumulator.counts.broker_allow_unconfirmed_count + 1;
    } in
    (record s { accumulator = record (s.accumulator) { counts = c } }, ground arith, ground arith)
read_kind-Room other line rest s e r = absurd (ground arith)

pub read_lines_complete :
    (lines : List Bytes) (s : Reading) → Room lines s → (t : Reading) × (read_lines s lines ≡ ok t)
unfolding read_lines
read_lines_complete [] s r = (s, refl)
read_lines_complete (line ∷ rest) s r =
    let (u, hu, ru) = read_kind-Room (classify line) line rest s refl r in
    let (t, ht) = read_lines_complete rest u ru in (t, rw hu ht)
