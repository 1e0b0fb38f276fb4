-- ===== src/Broker/Connection/Answers.antt =====
-- About the answers of `handle_connection` of src/broker/linux.rs.
-- How an allowing answer came about.
use codex_autoapprover.Prelude.{
  ◌++◌, Bool, Bool-cases, Bytes, In, List, Option, Result, Result-cases, [], ap, err, false, inl,
  inr, none, ok, refl, some, subst, sym, true, ◌∙◌, ◌∷◌, ◌≡◌,
}
use codex_autoapprover.Broker.Messages.{
  BrokerRequest, broker_allow, max_broker_message_bytes, no_decision, parse_request,
}
use codex_autoapprover.Broker.Connection.{
  Effect, Library, Peer, answer_with, answered, attempt_append, audit, handle_connection,
  handle_frame, handle_peer, handle_read, handle_request, invoked_append, respond_allow,
}
use codex_autoapprover.Broker.Frames.{IoError, read_frame}
use codex_autoapprover.Broker.Connection.Trail.{
  In-behind, IsAllowTrail, IsSilent, audit-IsSilent, audit-recorded, extend,
}
use codex_autoapprover.Broker.Verify.Granted.{IsAuthorized}
use codex_autoapprover.Platform.{OperatingSystem}
use codex_autoapprover.Broker.Verify.{PeerCredentials, SharedState, verify_request}
use codex_autoapprover.Broker.Ledger.{RequestLedger}
use codex_autoapprover.Broker.Connection.Allowing.{
  allow_line_of, invoked_line_of, no_answer_allows, request_line_of, respond_allow-IsAllowTrail,
  told_of, trail_lines,
}
use codex_autoapprover.Audit.{attempt_line}
use codex_autoapprover.Arming.{valid_token}
use codex_autoapprover.Broker.Verify.Authorized.{verify_request-IsAuthorized}

pub record IsAnsweredAllow (os : OperatingSystem) (lib : Library) (shared : SharedState)
    (peer : Peer) (sent : Bool) (effects : List Effect) (left : Option RequestLedger) : Type 0 where
  pub credentials : PeerCredentials
  pub identified : peer.credentials ≡ some credentials
  pub frame : Bytes
  pub r : BrokerRequest
  pub received :
      (read_frame peer.clock peer.deadline max_broker_message_bytes peer.incoming).1 ≡ ok frame
  pub parsed : parse_request lib.deserialize lib.decode_request frame ≡ ok r
  pub authorized : IsAuthorized os lib.digest shared credentials r peer.around left
  pub trail :
      IsAllowTrail shared.config.audit_path
        (trail_lines os lib r.hook_input)
        sent
        (told_of os lib shared peer r.hook_input sent)
        effects

module _ (os : OperatingSystem) (lib : Library) where
  handle_request-unrecorded :
      (shared : SharedState) (peer : Peer) (credentials : PeerCredentials) (r : BrokerRequest)
      → (audit shared peer invoked_append (invoked_line_of os lib r.hook_input)).1 ≡ false
      → (handle_request os lib shared peer credentials r).0
        ≡ (audit shared peer invoked_append (invoked_line_of os lib r.hook_input)).0
          ++ answer_with os lib peer no_decision ∷ []
  unfolding handle_request
  handle_request-unrecorded shared peer credentials r a = rw a refl

  handle_request-no_answer_allows :
      (shared : SharedState) (peer : Peer) (credentials : PeerCredentials) (r : BrokerRequest)
      → (audit shared peer invoked_append (invoked_line_of os lib r.hook_input)).1 ≡ true
      → (verify_request os lib.digest shared credentials r peer.around).0 ≡ false
      → (handle_request os lib shared peer credentials r).0
        ≡ (audit shared peer invoked_append (invoked_line_of os lib r.hook_input)).0
          ++ answer_with os lib peer no_decision ∷ []
  unfolding handle_request
  handle_request-no_answer_allows shared peer credentials r a b = rw (a, b) refl

  handle_request-passed :
      (shared : SharedState) (peer : Peer) (credentials : PeerCredentials) (r : BrokerRequest)
      → (audit shared peer invoked_append (invoked_line_of os lib r.hook_input)).1 ≡ true
      → (verify_request os lib.digest shared credentials r peer.around).0 ≡ true
      → Path
          (List Effect × Option RequestLedger)
          (handle_request os lib shared peer credentials r)
          (
            (audit shared peer invoked_append (invoked_line_of os lib r.hook_input)).0
                ++ respond_allow os lib shared peer r.hook_input,
            (verify_request os lib.digest shared credentials r peer.around).1,
          )
  unfolding handle_request
  handle_request-passed shared peer credentials r a b = rw (a, b) refl

  handle_request-allow :
      (shared : SharedState) (peer : Peer) (credentials : PeerCredentials) (r : BrokerRequest)
      (sent : Bool)
      → valid_token (some shared.session_secret) ≡ true
      → In (answered broker_allow sent) (handle_request os lib shared peer credentials r).0
      → IsAuthorized os lib.digest shared credentials r peer.around
          (handle_request os lib shared peer credentials r).1
        × IsAllowTrail shared.config.audit_path
            (invoked_line_of os lib r.hook_input
              ∷ request_line_of os lib r.hook_input
              ∷ allow_line_of os lib r.hook_input
              ∷ [])
            sent
            (told_of os lib shared peer r.hook_input sent)
            (handle_request os lib shared peer credentials r).0
  handle_request-allow shared peer credentials r sent secret m =
      let silent =
        audit-IsSilent shared peer invoked_append (invoked_line_of os lib r.hook_input) in
      elim (Bool-cases (audit shared peer invoked_append (invoked_line_of os lib r.hook_input)).1) [
        | inr a ↦ absurd (
            no_answer_allows os lib peer sent (
              In-behind _ _ broker_allow sent silent (
                subst (In (answered broker_allow sent))
                  (handle_request-unrecorded shared peer credentials r a) m)))
        | inl a ↦
            elim (verify_request-IsAuthorized os lib.digest shared credentials r peer.around
              secret) [
                | inr denied ↦ absurd (
                    no_answer_allows os lib peer sent (
                      In-behind _ _ broker_allow sent silent (
                        subst (In (answered broker_allow sent))
                          (handle_request-no_answer_allows shared peer credentials r a
                            (ap (λ p. p.0) denied))
                          m)))
                | inl (granted, authorized) ↦
                    let this = handle_request-passed shared peer credentials r a granted in
                    let m' =
                      In-behind _ _ broker_allow sent silent
                        (subst (In (answered broker_allow sent)) (ap (λ p. p.0) this) m) in
                    (
                      subst (IsAuthorized os lib.digest shared credentials r peer.around)
                          (sym (ap (λ p. p.1) this)) authorized,
                      subst
                          (IsAllowTrail shared.config.audit_path
                            (invoked_line_of os lib r.hook_input
                              ∷ request_line_of os lib r.hook_input
                              ∷ allow_line_of os lib r.hook_input
                              ∷ [])
                            sent (told_of os lib shared peer r.hook_input sent))
                          (sym (ap (λ p. p.0) this))
                          (extend shared.config.audit_path
                            (invoked_line_of os lib r.hook_input ∷ [])
                            (request_line_of os lib r.hook_input
                              ∷ allow_line_of os lib r.hook_input
                              ∷ [])
                            sent _ _ _
                            (audit-recorded shared peer invoked_append
                              (invoked_line_of os lib r.hook_input) a)
                            (respond_allow-IsAllowTrail os lib shared peer r.hook_input sent m')),
                    )
              ]
      ]

  -- What the socket has delivered is a request.
  handle_read-allow :
      (shared : SharedState) (peer : Peer) (credentials : PeerCredentials) (sent : Bool)
      (read : Result IoError Bytes) (is_last : Bool)
      → In (answered broker_allow sent) (handle_read os lib shared peer credentials read is_last).0
      → (frame : Bytes) × (r : BrokerRequest) × (read ≡ ok frame)
        × (parse_request lib.deserialize lib.decode_request frame ≡ ok r)
        × Path
            (List Effect × Option RequestLedger)
            (handle_read os lib shared peer credentials read is_last)
            (handle_request os lib shared peer credentials r)
  unfolding handle_read
  handle_read-allow shared peer credentials sent (err e) is_last m = elim m [ ]
  handle_read-allow shared peer credentials sent (ok frame) false m =
      absurd (no_answer_allows os lib peer sent m)
  handle_read-allow shared peer credentials sent (ok frame) true m =
      elim (Result-cases (parse_request lib.deserialize lib.decode_request frame)) [
        | inr (x, p) ↦
            let denied : Path (List Effect × Option RequestLedger)
                (handle_read os lib shared peer credentials (ok frame) true)
                (answer_with os lib peer no_decision ∷ [], shared.ledger) =
              rw p refl in
            absurd (
              no_answer_allows os lib peer sent
                (subst (λ q. In (answered broker_allow sent) q.0) denied m))
        | inl (r, p) ↦ (frame, r, refl, p, rw p refl)
      ]

  handle_peer-allow :
      (shared : SharedState) (peer : Peer) (sent : Bool) (known : Option PeerCredentials)
      → peer.credentials ≡ known
      → valid_token (some shared.session_secret) ≡ true
      → In (answered broker_allow sent) (handle_peer os lib shared peer known).0
      → IsAnsweredAllow os lib shared peer sent
          (handle_peer os lib shared peer known).0
          (handle_peer os lib shared peer known).1
  unfolding handle_peer handle_frame IsSilent
  handle_peer-allow shared peer sent none e secret m = elim m [ ]
  handle_peer-allow shared peer sent (some credentials) e secret m =
      elim (Bool-cases (audit shared peer attempt_append attempt_line).1) [
        | inr a ↦
            let nothing : Path (List Effect × Option RequestLedger)
                (handle_peer os lib shared peer (some credentials))
                ((audit shared peer attempt_append attempt_line).0, shared.ledger) =
              rw a refl in
            absurd (
              audit-IsSilent shared peer attempt_append attempt_line broker_allow sent
                (subst (λ p. In (answered broker_allow sent) p.0) nothing m))
        | inl a ↦
            let this : Path (List Effect × Option RequestLedger)
                (handle_peer os lib shared peer (some credentials))
                (
                  (audit shared peer attempt_append attempt_line).0
                      ++ (handle_frame os lib shared peer credentials).0,
                  (handle_frame os lib shared peer credentials).1,
                ) =
              rw a refl in
            let m' =
              In-behind _ _ broker_allow sent
                (audit-IsSilent shared peer attempt_append attempt_line)
                (subst (λ p. In (answered broker_allow sent) p.0) this m) in
            let (frame, r, read, parsed, that) =
              handle_read-allow shared peer credentials sent _ _ m' in
            let (authorized, trail) =
              handle_request-allow shared peer credentials r sent secret
                (subst (λ p. In (answered broker_allow sent) p.0) that m') in
            record {
              credentials = credentials;
              identified = e;
              frame = frame;
              r = r;
              received = read;
              parsed = parsed;
              authorized =
                  subst (IsAuthorized os lib.digest shared credentials r peer.around)
                    (sym (ap (λ p. p.1) this ∙ ap (λ p. p.1) that)) authorized;
              trail =
                  subst
                    (IsAllowTrail shared.config.audit_path (trail_lines os lib r.hook_input) sent
                      (told_of os lib shared peer r.hook_input sent))
                    (sym (ap (λ p. p.0) this))
                    (extend shared.config.audit_path (attempt_line ∷ [])
                      (invoked_line_of os lib r.hook_input
                        ∷ request_line_of os lib r.hook_input
                        ∷ allow_line_of os lib r.hook_input
                        ∷ [])
                      sent _ _ _ (audit-recorded shared peer attempt_append attempt_line a)
                      (subst
                        (IsAllowTrail shared.config.audit_path
                          (invoked_line_of os lib r.hook_input
                            ∷ request_line_of os lib r.hook_input
                            ∷ allow_line_of os lib r.hook_input
                            ∷ [])
                          sent (told_of os lib shared peer r.hook_input sent))
                        (sym (ap (λ p. p.0) that)) trail));
            }
      ]

-- A connection answers that a request is allowed only if the request was read as one whole frame
-- and was authorized, whether or not the answer reaches the peer; and where the session has an
-- audit, the lines of the attempt, the invocation, the request and the allowance were all recorded
-- before the answer, in this order, an answer that was sent is followed by the line on the emission
-- of this very request, taken by the audit or not, and any other answer by nothing.
pub handle_connection-IsAnsweredAllow :
    (os : OperatingSystem) (lib : Library) (shared : SharedState) (peer : Peer) (sent : Bool)
    → valid_token (some shared.session_secret) ≡ true
    → In (answered broker_allow sent) (handle_connection os lib shared peer).0
    → IsAnsweredAllow os lib shared peer sent
        (handle_connection os lib shared peer).0
        (handle_connection os lib shared peer).1
unfolding handle_connection
handle_connection-IsAnsweredAllow os lib shared peer sent secret m =
    handle_peer-allow os lib shared peer sent peer.credentials refl secret m
