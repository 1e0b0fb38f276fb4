-- ===== src/Update/Outcome/Audit/Verdict.antt =====
-- About the outcome that `read_audit` of src/update/outcome.rs leads to.
use codex_autoapprover.Prelude.{
  inl, inr, guard-eq-ok, leb→le, is_utf8, leb, guard, take, err, length, Result, ◌↔◌, lines-ne-nil,
  ◌⊎◌, true, >>=-eq-ok, lines, ℕ, zero, suc, ◌+◌, ◌-◌, ◌≤◌, ◌<◌, ◌≡◌, ◌≢◌, refl, List, [], ◌∷◌,
  arith, Bytes, ok, if◌then◌else◌, ltb,
}
use codex_autoapprover.Update.Outcome.{
  malformed, too_many_records, unavailable, max_audit_bytes, protocol_failure,
  broker_allow_unconfirmed, aggregate_hook_outcome, finish, SessionOutcomeAccumulator,
  no_observations, increment, record_hook_outcome, max_outcome_count,
}
use codex_autoapprover.Update.Outcome.Audit.{
  Metadata, AuditFile, read_audit, read_lines, is_consistent, read_contents, attempt, invoked,
  request, allowed, emitted, other, Reading, count_no_decisions, settle,
}
use codex_autoapprover.Update.Outcome.Audit.Counting.{
  read_lines_complete, read_lines-Fits, read_lines-Counted, tally, Counted, Fits,
}

-- A nonempty list of lines has a line of some kind.
some_kind :
    (ls : List Bytes)
    → ls ≢ []
    → 0
      < tally attempt ls
        + tally invoked ls
        + tally request ls
        + tally allowed ls
        + tally emitted ls
        + tally other ls
unfolding tally
some_kind [] h = absurd (h refl)
some_kind (line ∷ rest) h = ground arith

-- The loop of the missing decisions changes their counter alone, and has room for 64.
count_no_decisions_lem :
    (n : ℕ) (a : SessionOutcomeAccumulator)
    → a.counts.no_decision_count + n ≤ max_outcome_count
    → let c = record (a.counts) { no_decision_count = a.counts.no_decision_count + n } in
      count_no_decisions n a ≡ ok (record a { counts = c })
unfolding count_no_decisions increment
count_no_decisions_lem zero a h = ground arith
count_no_decisions_lem (suc n) a h =
    let c = record (a.counts) { no_decision_count = a.counts.no_decision_count + 1 } in
    ground (arith, count_no_decisions_lem n (record a { counts = c }))

-- The reading that the loop starts from.
abbrev pub start : Reading
start = record { attempts = 0; accumulator = no_observations }

-- The accumulator that a consistent reading is settled to.
unfoldable pub settled : Reading → SessionOutcomeAccumulator
settled s =
    let c = s.accumulator.counts in
    let missing = s.attempts - c.broker_allow_unconfirmed_count in
    record (s.accumulator) {
      counts = record c {
        no_decision_count = c.no_decision_count + missing;
        protocol_failure_count = c.protocol_failure_count + (if ltb 0 missing then 1 else 0);
      };
    }

settle_lem :
    (ls : List Bytes) (s : Reading)
    → Counted (λ k. tally k ls) start s
    → Fits s
    → settle s ≡ ok (settled s)
unfolding settle settled increment record_hook_outcome
settle_lem ls s c f = ground (
  arith,
  count_no_decisions_lem (s.attempts - s.accumulator.counts.broker_allow_unconfirmed_count)
      s.accumulator,
)

-- What is known of an accepted text.
pub record Accepted (text : Bytes) (a : SessionOutcomeAccumulator) : Type 0 where
  pub reading : Reading
  pub counted : Counted (λ k. tally k (lines text)) start reading
  pub fits : Fits reading
  pub consistent : is_consistent reading ≡ true
  pub result : a ≡ settled reading
  pub some_line : lines text ≢ []

start-Fits : Fits start
start-Fits = omega arith

pub read_contents-Accepted :
    (text : Bytes) (a : SessionOutcomeAccumulator) → read_contents text ≡ ok a → Accepted text a
unfolding read_contents
read_contents-Accepted [] a h = cc
read_contents-Accepted (b ∷ text) a h =
    let (s, hs, h') = >>=-eq-ok (read_lines start (lines (b ∷ text))) _ h in
    let counted = read_lines-Counted (lines (b ∷ text)) start s hs in
    let fits = read_lines-Fits (lines (b ∷ text)) start s start-Fits hs in
    let settled_s = settle_lem (lines (b ∷ text)) s counted fits in
    record {
      reading = s;
      counted = counted;
      fits = fits;
      consistent = ground arith;
      result = ground arith;
      some_line = lines-ne-nil b text;
    }

Accepted-verdict :
    (text : Bytes) (a : SessionOutcomeAccumulator)
    → Accepted text a
    → ((finish a).hook_outcome ≡ broker_allow_unconfirmed)
      ⊎ ((finish a).hook_outcome ≡ protocol_failure)
unfolding finish aggregate_hook_outcome settled is_consistent
Accepted-verdict text a h =
    ground (arith, some_kind (lines text) h.some_line, h.counted, h.fits, h.consistent, h.result)

Accepted-allow_iff :
    (text : Bytes) (a : SessionOutcomeAccumulator)
    → Accepted text a
    → ((finish a).hook_outcome ≡ broker_allow_unconfirmed)
      ↔ (tally emitted (lines text) ≡ tally attempt (lines text))
unfolding finish aggregate_hook_outcome settled is_consistent
Accepted-allow_iff text a h = (
  λ e. ground (arith, h.counted, h.fits, h.consistent, h.result),
  λ e.
      ground (arith, some_kind (lines text) h.some_line, h.counted, h.fits, h.consistent, h.result),
)

read_file :
    (m : Result (Unit {0}) Metadata) (c : Result (Unit {0}) Bytes) (a : SessionOutcomeAccumulator)
    → read_audit (ok (record { metadata = m; contents = c })) ≡ ok a
    → (text : Bytes) × (read_contents text ≡ ok a) × (length text ≤ max_audit_bytes)
unfolding read_audit
read_file (err e) c a h = cc
read_file (ok m) (err e) a h = absurd (ground arith)
read_file (ok m) (ok c) a h =
    let bytes = take (max_audit_bytes + 1) c in
    let (_, _, k1) = >>=-eq-ok (guard m.is_file unavailable) _ h in
    let (_, _, k2) = >>=-eq-ok (guard (leb m.len max_audit_bytes) too_many_records) _ k1 in
    let (_, fits, k3) =
      >>=-eq-ok (guard (leb (length bytes) max_audit_bytes) too_many_records) _ k2 in
    let (_, _, k4) = >>=-eq-ok (guard (is_utf8 bytes) malformed) _ k3 in
    (bytes, k4, leb→le _ _ (guard-eq-ok (leb (length bytes) max_audit_bytes) too_many_records fits))

-- The bytes that an accepted audit file was read from.
read_audit-contents :
    (file : Result (Unit {0}) AuditFile) (a : SessionOutcomeAccumulator)
    → read_audit file ≡ ok a
    → (text : Bytes) × (read_contents text ≡ ok a) × (length text ≤ max_audit_bytes)
unfolding read_audit
read_audit-contents (err e) a h = cc
read_audit-contents (ok f) a h = read_file f.metadata f.contents a h

-- Whatever the file holds, an accepted audit is reported as an unconfirmed broker answer or as a
-- protocol failure.
pub read_audit-verdict :
    (file : Result (Unit {0}) AuditFile) (a : SessionOutcomeAccumulator)
    → read_audit file ≡ ok a
    → ((finish a).hook_outcome ≡ broker_allow_unconfirmed)
      ⊎ ((finish a).hook_outcome ≡ protocol_failure)
read_audit-verdict file a h =
    let (text, e, _) = read_audit-contents file a h in
    Accepted-verdict text a (read_contents-Accepted text a e)

-- An accepted text is reported as answered by the broker exactly when it has as many lines of an
-- emitted answer as of a connection, and as a protocol failure exactly when it has not.
pub read_contents_allow_iff :
    (text : Bytes) (a : SessionOutcomeAccumulator)
    → read_contents text ≡ ok a
    → (((finish a).hook_outcome ≡ broker_allow_unconfirmed)
        ↔ (tally emitted (lines text) ≡ tally attempt (lines text)))
      × (((finish a).hook_outcome ≡ protocol_failure)
          ↔ (tally emitted (lines text) ≢ tally attempt (lines text)))
read_contents_allow_iff text a h =
    let accepted = read_contents-Accepted text a h in
    let allow = Accepted-allow_iff text a accepted in
    (
      allow,
      (
        λ failed same. let e = allow.1 same in cc,
        λ differs. elim (Accepted-verdict text a accepted) [
          | inl e ↦ absurd (differs (allow.0 e))
          | inr e ↦ e
        ],
      ),
    )

-- The texts that the reader accepts, told by the numbers of their lines alone.
pub record IsAudit (text : Bytes) : Type 0 where
  pub nonempty : text ≢ []
  pub known : tally other (lines text) ≡ 0
  pub attempts_fit : tally attempt (lines text) ≤ max_outcome_count
  pub entries_attempted : tally invoked (lines text) ≤ tally attempt (lines text)
  pub requests_entered : tally request (lines text) ≤ tally invoked (lines text)
  pub allows_requested : tally allowed (lines text) ≤ tally request (lines text)
  pub emissions_allowed : tally emitted (lines text) ≤ tally allowed (lines text)

Accepted-IsAudit : (text : Bytes) (a : SessionOutcomeAccumulator) → Accepted text a → IsAudit text
unfolding is_consistent
Accepted-IsAudit [] a h = absurd (h.some_line (unfold lines in refl))
Accepted-IsAudit (b ∷ text) a h = record {
  nonempty = λ e. cc;
  known = h.counted.known;
  attempts_fit = ground (arith, h.counted, h.fits);
  entries_attempted = ground (arith, h.counted, h.consistent);
  requests_entered = ground (arith, h.counted, h.consistent);
  allows_requested = ground (arith, h.counted, h.consistent);
  emissions_allowed = ground (arith, h.counted, h.consistent);
}

IsAudit-accepted :
    (text : Bytes) → IsAudit text → (a : SessionOutcomeAccumulator) × (read_contents text ≡ ok a)
unfolding read_contents is_consistent
IsAudit-accepted [] h = absurd (h.nonempty refl)
IsAudit-accepted (b ∷ text) h =
    let (s, hs) = read_lines_complete (lines (b ∷ text)) start (ground arith) in
    let counted = read_lines-Counted (lines (b ∷ text)) start s hs in
    let fits = read_lines-Fits (lines (b ∷ text)) start s start-Fits hs in
    (settled s, ground (arith, settle_lem (lines (b ∷ text)) s counted fits))

-- A text is accepted exactly when it is not empty, each of its lines is of a known kind, it has at
-- most 64 connections, and each kind has at most as many lines as the kind before it.
pub read_contents_iff :
    (text : Bytes) → ((a : SessionOutcomeAccumulator) × (read_contents text ≡ ok a)) ↔ IsAudit text
read_contents_iff text =
    (λ (a, h). Accepted-IsAudit text a (read_contents-Accepted text a h), IsAudit-accepted text)
