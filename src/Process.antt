-- ===== src/Process.antt =====
-- src/process/linux.rs: process identities, and the check that a peer descends from the expected
-- process. `/proc` is an argument: a reader answers each read by the time of the read, so that the
-- processes may change between any two reads.
pub mod Ancestry
pub mod Stat
use codex_autoapprover.Prelude.{
  ◌&&◌, ◌+◌, ◌++◌, ◌==◌, ◌>>◌, ◌>>=◌, Bool, Eq, List, Result, [], any, arith, if◌then◌else◌, err,
  guard, if◌then◌else◌, list_beq, nat_eqb, not, ok, suc, if◌then◌else◌, true, zero, ℕ, ◌↔◌, ◌∷◌,
  ◌≡◌, nat_eq, bytes_eq, option_eq,
}

abbrev pub max_ancestry_depth : ℕ
max_ancestry_depth = 32

pub record ProcessIdentity : Type 0 where
  pub pid : ℕ
  pub start_time : ℕ
  pub effective_uid : ℕ

pub record ProcessRecord : Type 0 where
  pub identity : ProcessIdentity
  pub parent_pid : ℕ

pub data ProcessError : Type 0 where
  unavailable_process : ProcessError
  malformed_process : ProcessError
  depth_exceeded : ProcessError
  process_loop : ProcessError
  not_descendant : ProcessError
  process_changed : ProcessError

unfoldable pub identity_beq : ProcessIdentity → ProcessIdentity → Bool
identity_beq a b =
    nat_eqb a.pid b.pid
    && nat_eqb a.start_time b.start_time
    && nat_eqb a.effective_uid b.effective_uid

pub identity_beq_iff : (a b : ProcessIdentity) → (identity_beq a b ≡ true) ↔ (a ≡ b)
unfolding identity_beq
identity_beq_iff a b = (λ h. ground arith, λ h. ground arith)

instance abbrev pub identity_eq : Eq ProcessIdentity
identity_eq = record { beq = identity_beq; beq_iff = identity_beq_iff }

unfoldable pub record_beq : ProcessRecord → ProcessRecord → Bool
record_beq a b = identity_beq a.identity b.identity && nat_eqb a.parent_pid b.parent_pid

pub record_beq_iff : (a b : ProcessRecord) → (record_beq a b ≡ true) ↔ (a ≡ b)
unfolding record_beq
record_beq_iff a b = (
  λ h. ground (arith, identity_beq_iff a.identity b.identity),
  λ h. ground (arith, identity_beq_iff a.identity b.identity),
)

instance abbrev pub record_eq : Eq ProcessRecord
record_eq = record { beq = record_beq; beq_iff = record_beq_iff }

-- The answer to the read at a time.
abbrev pub ProcessReader : Type 0
ProcessReader = ℕ → ℕ → Result ProcessError ProcessRecord

-- A reading returns the time behind its last read.
abbrev pub Timed : Type 0 → Type 0
Timed A = ℕ × Result ProcessError A

-- `current_process_identity`
unfoldable pub current_process_identity :
    ProcessReader → ℕ → ℕ → Result ProcessError ProcessIdentity
current_process_identity reader now pid = do
  first ← reader now pid
  second ← reader (now + 1) pid
  guard (first == second) process_changed
  ok first.identity

abbrev pub has_pid : ℕ → ProcessRecord → Bool
has_pid pid r = nat_eqb r.identity.pid pid

-- The loop of `collect_ancestry`, with the rounds that are left.
unfoldable pub collect_from :
    ProcessReader → ℕ → ℕ → ℕ → List ProcessRecord → ℕ → Timed (List ProcessRecord)
collect_from reader expected_pid zero now records current = (now, err depth_exceeded)
collect_from reader expected_pid (suc rounds) now records current =
    if nat_eqb current 0
    then (now, err not_descendant)
    else if any (has_pid current) records
    then (now, err process_loop)
    else elim (reader now current) [
      | err e ↦ (now + 1, err e)
      | ok r ↦
          let rest =
            collect_from reader expected_pid rounds (now + 1) (records ++ r ∷ []) r.parent_pid in
          if not (has_pid current r)
          then (now + 1, err malformed_process)
          else if has_pid expected_pid r
          then (now + 1, ok (records ++ r ∷ []))
          else if nat_eqb r.parent_pid 0
          then (now + 1, err not_descendant)
          else rest
    ]

unfoldable pub collect_ancestry : ProcessReader → ℕ → ℕ → ℕ → Timed (List ProcessRecord)
collect_ancestry reader now peer_pid expected_pid =
    collect_from reader expected_pid max_ancestry_depth now [] peer_pid

-- Two readings that agree, and the expected identity among them.
unfoldable pub validate_ancestry : ProcessReader → ℕ → ℕ → ProcessIdentity → Timed (Unit {0})
validate_ancestry reader now peer_pid expected =
    let (now', first) = collect_ancestry reader now peer_pid expected.pid in
    elim first [
      | err e ↦ (now', err e)
      | ok records ↦
          let (now'', second) = collect_ancestry reader now' peer_pid expected.pid in
          (
            now'',
            (do
              again ← second
              guard (list_beq record_beq records again) process_changed
              guard (any (λ r. r.identity == expected) records) not_descendant),
          )
    ]
