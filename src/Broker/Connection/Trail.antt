-- ===== src/Broker/Connection/Trail.antt =====
-- What one connection of src/broker/linux.rs records before and behind an answer that allows.
-- The lines that a session with an audit has recorded.
use codex_autoapprover.Prelude.{
  false, append_assoc, if◌then◌else◌, if◌then◌else◌, sym, if◌then◌else◌, ◌∙◌, ◌++◌, Bool,
  Bool-cases, Bytes, In, In-append, List, Option, Option-cases, [], ap, arith, inl, inr, map, none,
  refl, some, true, ℕ, ◌∷◌, ◌≡◌,
}
use codex_autoapprover.Broker.Messages.{BrokerDecision, broker_allow, no_decision}
use codex_autoapprover.Broker.Connection.{not_audited, Effect, Peer, answered, audit, audited}
use codex_autoapprover.Broker.Verify.{SharedState}

unfoldable pub recorded : Option Bytes → List Bytes → List Effect
recorded none ls = []
recorded (some path) ls = map audited ls

pub recorded-append :
    (path : Option Bytes) (xs ys : List Bytes)
    → recorded path xs ++ recorded path ys ≡ recorded path (xs ++ ys)
unfolding recorded
recorded-append none xs ys = refl
recorded-append (some path) [] ys = refl
recorded-append (some path) (x ∷ xs) ys =
    ap (λ t. audited x ∷ t) (recorded-append (some path) xs ys)

pub audit-recorded :
    (shared : SharedState) (peer : Peer) (index : ℕ) (line : Bytes)
    → (audit shared peer index line).1 ≡ true
    → (audit shared peer index line).0 ≡ recorded shared.config.audit_path (line ∷ [])
unfolding audit recorded
audit-recorded shared peer index line h = elim (Option-cases shared.config.audit_path) [
  | inl e ↦ rw e refl
  | inr (path, e) ↦ rw e elim (Bool-cases (peer.appended index)) [
    | inl b ↦ ground arith
    | inr b ↦ absurd (ground arith)
  ]
]

-- No answer is among the effects of the audit.
unfoldable pub IsSilent : List Effect → Type 0
IsSilent xs = (d : BrokerDecision) (sent : Bool) → ¬ In (answered d sent) xs

pub audit-IsSilent :
    (shared : SharedState) (peer : Peer) (index : ℕ) (line : Bytes)
    → IsSilent (audit shared peer index line).0
unfolding audit IsSilent
audit-IsSilent shared peer index line d sent m = elim (Option-cases shared.config.audit_path) [
  | inl e ↦ ground arith
  | inr (path, e) ↦ elim (Bool-cases (peer.appended index)) [
    | inl b ↦ ground arith
    | inr b ↦ ground arith
  ]
]

pub In-behind :
    (xs ys : List Effect) (d : BrokerDecision) (sent : Bool)
    → IsSilent xs
    → In (answered d sent) (xs ++ ys)
    → In (answered d sent) ys
unfolding IsSilent
In-behind xs ys d sent silent m = elim (In-append (answered d sent) xs ys m) [
  | inl i ↦ absurd (silent d sent i)
  | inr i ↦ i
]

pub not_allow :
    (sent other : Bool) → ¬ Path Effect (answered broker_allow sent) (answered no_decision other)
not_allow sent other h = ground arith

-- What follows an answer: where there is an audit and the answer was sent, the line on it, which the
-- audit took or did not take.
unfoldable pub follow_up : Option Bytes → Bool → Bytes → Bool → List Effect
follow_up none taken line sent = []
follow_up (some path) taken line false = []
follow_up (some path) true line true = audited line ∷ []
follow_up (some path) false line true = not_audited line ∷ []

-- The effects are these recorded lines, the answer that allows, and what follows it.
unfoldable pub IsAllowTrail : Option Bytes → List Bytes → Bool → List Effect → List Effect → Type 0
IsAllowTrail path ls sent after effects =
    effects ≡ recorded path ls ++ answered broker_allow sent ∷ after

-- Recorded lines in front of a trail belong to it.
pub extend :
    (path : Option Bytes) (xs ys : List Bytes) (sent : Bool) (after front rest : List Effect)
    → front ≡ recorded path xs
    → IsAllowTrail path ys sent after rest
    → IsAllowTrail path (xs ++ ys) sent after (front ++ rest)
unfolding IsAllowTrail
extend path xs ys sent after front rest e f =
    ap (λ t. t ++ rest) e
    ∙ (ap (λ t. recorded path xs ++ t) f
        ∙ (sym (
              append_assoc (recorded path xs) (recorded path ys)
                (answered broker_allow sent ∷ after))
            ∙ ap (λ t. t ++ answered broker_allow sent ∷ after) (recorded-append path xs ys)))

pub no_answer-allow :
    (sent other : Bool) → ¬ In (answered broker_allow sent) (answered no_decision other ∷ [])
no_answer-allow sent other (inl p) = not_allow sent other p
no_answer-allow sent other (inr i) = elim i [ ]

pub audit-follow_up :
    (shared : SharedState) (peer : Peer) (index : ℕ) (line : Bytes)
    → (audit shared peer index line).0
      ≡ follow_up shared.config.audit_path (peer.appended index) line true
unfolding audit follow_up
audit-follow_up shared peer index line = elim (Option-cases shared.config.audit_path) [
  | inl e ↦ rw e refl
  | inr (path, e) ↦
      rw e elim (Bool-cases (peer.appended index)) [ inl b ↦ rw b refl | inr b ↦ rw b refl ]
]

pub allow_end :
    (path : Option Bytes) (taken sent w : Bool) (line : Bytes) (told : List Effect)
    → IsSilent told
    → told ≡ follow_up path taken line true
    → In (answered broker_allow sent) (answered broker_allow w ∷ (if w then told else []))
    → IsAllowTrail path [] sent
        (follow_up path taken line sent)
        (answered broker_allow w ∷ (if w then told else []))
unfolding IsAllowTrail recorded follow_up IsSilent
allow_end path taken sent true line told silent shape (inr i) = absurd (silent broker_allow sent i)
allow_end path taken sent false line told silent shape (inr i) = elim i [ ]
allow_end none taken true true line told silent shape (inl p) =
    ap (λ t. answered broker_allow true ∷ t) shape
allow_end (some path) taken true true line told silent shape (inl p) =
    ap (λ t. answered broker_allow true ∷ t) shape
allow_end path taken false true line told silent shape (inl p) = absurd (ground arith)
allow_end path taken true false line told silent shape (inl p) = absurd (ground arith)
allow_end none taken false false line told silent shape (inl p) = refl
allow_end (some path) taken false false line told silent shape (inl p) = refl
