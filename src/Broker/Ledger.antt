-- ===== src/Broker/Ledger.antt =====
-- `RequestLedger` of src/broker/mod.rs, which remembers what it has allowed. Serialising and
-- hashing
-- an input is serde_json's and sha2's part: `digest` is the hexadecimal digest of the serialised
-- input, or none where serialisation fails.
pub mod Replay
use codex_autoapprover.Prelude.{
  ◌||◌, ◌&&◌, ◌==◌, Bool, Bytes, Eq, List, Option, [], arith, contains, if◌then◌else◌, false,
  if◌then◌else◌, is_nil, leb, length, nat_eqb, none, not, some, if◌then◌else◌, true, ℕ, ◌↔◌, ◌∷◌,
  ◌≡◌, nat_eq, bytes_eq, option_eq,
}
use codex_autoapprover.Protocol.{HookInput}

pub record RequestLedger : Type 0 where
  pub session : Option Bytes
  pub invocations : List (ℕ × ℕ)
  pub requests : List Bytes

-- `RequestLedger::default`
abbrev pub empty_ledger : RequestLedger
empty_ledger = record { session = none; invocations = []; requests = [] }

abbrev pub max_invocations : ℕ
max_invocations = 4096

pub record Request : Type 0 where
  pub input : HookInput
  pub pid : ℕ
  pub started : ℕ
  pub verification : Bool

-- The `HashSet` of invocations compares both numbers.
unfoldable pub invocation_beq : ℕ × ℕ → ℕ × ℕ → Bool
invocation_beq a b = nat_eqb a.0 b.0 && nat_eqb a.1 b.1

pub invocation_beq_iff : (a b : ℕ × ℕ) → (invocation_beq a b ≡ true) ↔ (a ≡ b)
unfolding invocation_beq
invocation_beq_iff a b = (λ h. ground arith, λ h. ground arith)

instance abbrev pub invocation_eq : Eq (ℕ × ℕ)
invocation_eq = record { beq = invocation_beq; beq_iff = invocation_beq_iff }

-- `input.session_id.as_ref().filter(|s| !s.is_empty())`
unfoldable pub session_of : HookInput → Option Bytes
session_of input = elim input.session_id [
  | none ↦ none
  | some s ↦ if is_nil s then none else some s
]

unfoldable pub is_other_session : Option Bytes → Bytes → Bool
is_other_session none session = false
is_other_session (some expected) session = not (expected == session)

module _ (digest : HookInput → Option Bytes) where
  -- `RequestLedger::consume`: the answer and the ledger that it leaves.
  unfoldable pub consume : RequestLedger → Request → Bool × RequestLedger
  unfolding session_of is_other_session
  consume ledger r = elim (session_of r.input) [
    | none ↦ (false, ledger)
    | some session ↦
        if is_other_session ledger.session session
          || leb max_invocations (length ledger.invocations)
          || (r.verification && not (is_nil ledger.invocations))
          || contains ledger.invocations (r.pid, r.started)
        then (false, ledger)
        else elim (digest r.input) [
          | none ↦ (false, ledger)
          | some d ↦ if contains ledger.requests d then (false, ledger) else (
            true,
            record {
              session = some session;
              invocations = (r.pid, r.started) ∷ ledger.invocations;
              requests = d ∷ ledger.requests;
            },
          )
        ]
  ]

  -- Any sequence of requests, one after the other under the broker's lock: the ledger, and the
  -- requests that were passed, the newest first.
  unfoldable pub serve_all :
      RequestLedger → List Request → List Request → RequestLedger × List Request
  unfolding consume
  serve_all ledger passed [] = (ledger, passed)
  serve_all ledger passed (r ∷ rs) =
      let (answer, next) = consume ledger r in
      serve_all next (if answer then r ∷ passed else passed) rs
