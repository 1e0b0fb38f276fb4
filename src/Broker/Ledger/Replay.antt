-- ===== src/Broker/Ledger/Replay.antt =====
-- About sequences of requests to `RequestLedger::consume` of src/broker/mod.rs.
use codex_autoapprover.Prelude.{
  if◌then◌else◌, if◌then◌else◌, subst, if◌then◌else◌, length-map, ==_iff, none, ◌||◌, ◌&&◌, ◌<◌,
  All, Bool, Bool-cases, Bytes, Distinct, Eq, In, List, Option, Option-cases, [], ap, arith,
  contains, contains_iff, false, inl, inr, is_nil, leb, length, map, not, refl, some, sym, true, ℕ,
  ◌∙◌, ◌∷◌, ◌≡◌, ◌≤◌, ◌⊎◌, ◌∷◌, ◌≡◌, nat_eq, bytes_eq, option_eq,
}
use codex_autoapprover.Protocol.{HookInput}
use mathlib.Core.Bool.{false≢true}
use codex_autoapprover.Broker.Ledger.{
  invocation_eq, Request, RequestLedger, consume, empty_ledger, is_other_session, max_invocations,
  serve_all, session_of,
}

abbrev pub invocation : Request → ℕ × ℕ
invocation r = (r.pid, r.started)

-- What holds of the ledger and of the requests that it has allowed, the newest first.
pub record IsReplayFree (digest : HookInput → Option Bytes) (ledger : RequestLedger)
    (passed : List Request) : Type 0 where
  pub invocations : ledger.invocations ≡ map invocation passed
  pub different_invocations : Distinct ledger.invocations
  pub requests : map some ledger.requests ≡ map (λ r. digest r.input) passed
  pub different_requests : Distinct ledger.requests
  pub bounded : length passed ≤ max_invocations
  pub one_session :
      All (λ r. (s : Bytes) × (session_of r.input ≡ some s) × (ledger.session ≡ some s)) passed

-- What `consume` has found when it allows.
pub record Allowed (digest : HookInput → Option Bytes) (ledger : RequestLedger) (r : Request)
    : Type 0 where
  pub session : Bytes
  pub d : Bytes
  pub bound_session : session_of r.input ≡ some session
  pub same_session : is_other_session ledger.session session ≡ false
  pub room : length ledger.invocations < max_invocations
  pub first : r.verification ≡ true → ledger.invocations ≡ []
  pub new_invocation : contains ledger.invocations (invocation r) ≡ false
  pub digested : digest r.input ≡ some d
  pub new_request : contains ledger.requests d ≡ false
  pub next : RequestLedger
  pub next_is : next ≡ record {
    session = some session;
    invocations = invocation r ∷ ledger.invocations;
    requests = d ∷ ledger.requests;
  }
  pub answer : consume digest ledger r ≡ (true, next)

-- A refusal leaves the ledger as it was.
pub consume_cases :
    (digest : HookInput → Option Bytes) (ledger : RequestLedger) (r : Request)
    → ◌≡◌ {A = Bool × RequestLedger} (consume digest ledger r) (false, ledger)
      ⊎ Allowed digest ledger r
unfolding consume
consume_cases digest ledger r = elim (Option-cases (session_of r.input)) [
  | inl n ↦ inl (ground arith)
  | inr (session, s) ↦
      elim (Bool-cases (
        is_other_session ledger.session session
        || leb max_invocations (length ledger.invocations)
        || (r.verification && not (is_nil ledger.invocations))
        || contains ledger.invocations (r.pid, r.started))) [
          | inl t ↦ inl (ground arith)
          | inr f ↦ elim (Option-cases (digest r.input)) [
            | inl n ↦ inl (ground arith)
            | inr (d, e) ↦ elim (Bool-cases (contains ledger.requests d)) [
              | inl t ↦ inl (ground arith)
              | inr g ↦ inr (record {
                session = session;
                d = d;
                bound_session = s;
                same_session = ground arith;
                room = ground arith;
                first = λ v. ground arith;
                new_invocation = ground arith;
                digested = e;
                new_request = g;
                next = record {
                  session = some session;
                  invocations = invocation r ∷ ledger.invocations;
                  requests = d ∷ ledger.requests;
                };
                next_is = refl;
                answer = ground arith;
              })
            ]
          ]
        ]
]

not_contained : {A : Type 0} ⦃e : Eq A⦄ (xs : List A) (a : A) → contains xs a ≡ false → ¬ In a xs
not_contained xs a f i = false≢true (sym f ∙ (contains_iff xs a).1 i)

same_session :
    (expected : Option Bytes) (session : Bytes) (passed : List Request)
    → is_other_session expected session ≡ false
    → All (λ r. (s : Bytes) × (session_of r.input ≡ some s) × (expected ≡ some s)) passed
    → All (λ r. (s : Bytes) × (session_of r.input ≡ some s) × (some session ≡ some s)) passed
unfolding is_other_session
same_session expected session [] o a = tt
same_session none session (r ∷ rs) o ((s, p, q), a) = cc
same_session (some e) session (r ∷ rs) o ((s, p, q), a) = (
  (s, p, (let k = (==_iff e session).0 (ground arith) in ap some (sym k) ∙ q)),
  same_session (some e) session rs o a,
)

IsReplayFree-allow :
    (digest : HookInput → Option Bytes) (ledger : RequestLedger) (passed : List Request)
    (r : Request)
    → IsReplayFree digest ledger passed
    → (a : Allowed digest ledger r) → IsReplayFree digest a.next (r ∷ passed)
IsReplayFree-allow digest ledger passed r i a =
    subst (λ x. IsReplayFree digest x (r ∷ passed)) (sym a.next_is)
      (record {
        invocations = ap (◌∷◌ (invocation r)) i.invocations;
        different_invocations = (
          not_contained ledger.invocations (invocation r) a.new_invocation,
          i.different_invocations,
        );
        requests = rw (sym a.digested, i.requests) refl;
        different_requests =
            (not_contained ledger.requests a.d a.new_request, i.different_requests);
        bounded = omega (arith, a.room, ap length i.invocations, length-map invocation passed);
        one_session = (
          (a.session, a.bound_session, refl),
          same_session ledger.session a.session passed a.same_session i.one_session,
        );
      })

-- One round of the sequence, by the answer to its request.
serve_all_step :
    (digest : HookInput → Option Bytes) (ledger : RequestLedger) (passed : List Request)
    (r : Request) (rs : List Request) (out : Bool × RequestLedger)
    → consume digest ledger r ≡ out
    → serve_all digest ledger passed (r ∷ rs)
      ≡ serve_all digest out.1 (if out.0 then r ∷ passed else passed) rs
unfolding serve_all
serve_all_step digest ledger passed r rs out e =
    ap (λ x. serve_all digest x.1 (if x.0 then r ∷ passed else passed) rs) e

abbrev Good : (HookInput → Option Bytes) → RequestLedger × List Request → Type 0
Good digest x = IsReplayFree digest x.0 x.1

serve_all-IsReplayFree_from :
    (digest : HookInput → Option Bytes) (ledger : RequestLedger) (passed requests : List Request)
    → IsReplayFree digest ledger passed
    → Good digest (serve_all digest ledger passed requests)
serve_all-IsReplayFree_from digest ledger passed [] i = unfold serve_all in i
serve_all-IsReplayFree_from digest ledger passed (r ∷ rs) i = elim (consume_cases digest ledger r) [
  | inl e ↦
      subst (Good digest) (sym (serve_all_step digest ledger passed r rs (false, ledger) e))
        (serve_all-IsReplayFree_from digest ledger passed rs i)
  | inr a ↦
      subst (Good digest) (sym (serve_all_step digest ledger passed r rs (true, a.next) a.answer)) (
        serve_all-IsReplayFree_from digest a.next (r ∷ passed) rs
          (IsReplayFree-allow digest ledger passed r i a))
]

-- Whatever requests a fresh ledger is asked in whatever order, the requests that it allows come
-- from
-- different invocations, have different digests and one session, and are at most 4096; and the
-- ledger lists exactly them.
pub serve_all-IsReplayFree :
    (digest : HookInput → Option Bytes) (requests : List Request)
    → IsReplayFree digest
        (serve_all digest empty_ledger [] requests).0
        (serve_all digest empty_ledger [] requests).1
serve_all-IsReplayFree digest requests =
    serve_all-IsReplayFree_from digest empty_ledger [] requests (record {
      invocations = refl;
      different_invocations = tt;
      requests = refl;
      different_requests = tt;
      bounded = omega arith;
      one_session = tt;
    })

abbrev Single : RequestLedger × List Request → Type 0
Single x = length x.1 ≤ 1

one_verification :
    (digest : HookInput → Option Bytes) (ledger : RequestLedger) (passed requests : List Request)
    → IsReplayFree digest ledger passed
    → length passed ≤ 1
    → All (λ r. r.verification ≡ true) requests
    → Single (serve_all digest ledger passed requests)
one_verification digest ledger passed [] i l v = unfold serve_all in l
one_verification digest ledger passed (r ∷ rs) i l v = elim (consume_cases digest ledger r) [
  | inl e ↦
      subst Single (sym (serve_all_step digest ledger passed r rs (false, ledger) e))
        (one_verification digest ledger passed rs i l v.1)
  | inr a ↦
      let none_yet : length passed ≡ 0 =
        omega
          (arith, ap length i.invocations, length-map invocation passed, ap length (a.first v.0)) in
      subst Single (sym (serve_all_step digest ledger passed r rs (true, a.next) a.answer)) (
        one_verification digest a.next (r ∷ passed) rs
          (IsReplayFree-allow digest ledger passed r i a) (omega (arith, none_yet)) v.1)
]

-- Of any sequence of verification requests to a fresh ledger, at most one is allowed.
pub verification-serve_all :
    (digest : HookInput → Option Bytes) (requests : List Request)
    → All (λ r. r.verification ≡ true) requests
    → length (serve_all digest empty_ledger [] requests).1 ≤ 1
unfolding serve_all
verification-serve_all digest requests v =
    one_verification digest empty_ledger [] requests (serve_all-IsReplayFree digest [])
      (omega arith) v
