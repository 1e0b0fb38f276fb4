-- ===== src/Broker/Verify/Authorized.antt =====
-- About `verify_request` of src/broker/linux.rs.
-- Both outcomes of a request.
use codex_autoapprover.Prelude.{
  Bool, Bool-cases, Bytes, Option, Option-cases, and-eq-true, arith, if◌then◌else◌, false,
  if◌then◌else◌, inl, inr, not, ok, refl, some, subst, sym, if◌then◌else◌, true, ℕ, ◌≡◌, ◌⊎◌,
}
use codex_autoapprover.Broker.Messages.{BrokerRequest}
use codex_autoapprover.Protocol.{HookInput}
use codex_autoapprover.Broker.Verify.Granted.{
  IsAuthorized, IsAuthority-sound, consume_request_sound, is_allow-eq, is_trusted_sound,
  validate_peer_sound,
}
use codex_autoapprover.Process.Ancestry.{IsDescendant}
use codex_autoapprover.Platform.{OperatingSystem}
use codex_autoapprover.Broker.Verify.{
  PeerCredentials, SharedState, Surroundings, consume_request, context_of, passes, validate_peer,
  verify_for, verify_request,
}
use codex_autoapprover.Process.{ProcessIdentity, ProcessRecord}
use codex_autoapprover.Broker.Ledger.{RequestLedger, consume}
use codex_autoapprover.Decision.Rules.{decide_iff}
use codex_autoapprover.Decision.{is_none}
use codex_autoapprover.Arming.{valid_token}

abbrev Settled :
    OperatingSystem
    → (HookInput → Option Bytes)
    → SharedState
    → PeerCredentials
    → BrokerRequest
    → Surroundings
    → Bool × Option RequestLedger
    → Type 0
Settled os digest shared credentials r around out =
    ((out.0 ≡ true) × IsAuthorized os digest shared credentials r around out.1)
    ⊎ (out ≡ (false, shared.ledger))

-- What the tests have established, once the peer is known to be valid at the end.
passes-IsAuthorized :
    (os : OperatingSystem) (digest : HookInput → Option Bytes) (shared : SharedState)
    (credentials : PeerCredentials) (r : BrokerRequest) (around : Surroundings)
    (expected : ProcessIdentity) (now after : ℕ) (still_valid : Bool) (left : Option RequestLedger)
    (peer : ProcessRecord) (l next : RequestLedger)
    → shared.identity ≡ some expected
    → valid_token (some shared.session_secret) ≡ true
    → now ≡ (validate_peer around.reader 0 credentials.pid expected around.euid).0
    → after ≡ (validate_peer around.reader now credentials.pid expected around.euid).0
    → passes os digest shared credentials r around expected still_valid ≡ true
    → (still_valid ≡ true → IsDescendant around.reader now credentials.pid expected)
    → around.reader after credentials.pid ≡ ok peer
    → shared.ledger ≡ some l
    → consume digest l (record {
      input = r.hook_input;
      pid = peer.identity.pid;
      started = peer.identity.start_time;
      verification = is_none shared.config.admission;
    })
      ≡ (true, next)
    → left ≡ some next
    → IsAuthorized os digest shared credentials r around left
unfolding passes
passes-IsAuthorized os digest shared credentials r around expected now after still_valid left peer l
      next e secret first_end last_end c again read had reply is_left =
    let (c4, valid) = and-eq-true _ _ c in
    let (c3, lasts) = and-eq-true _ (not around.shut_last) c4 in
    let (c2, still) = and-eq-true _ _ c3 in
    let (c1, says) = and-eq-true _ _ c2 in
    let (trusted, may) = and-eq-true _ _ c1 in
    let (shut, user, token, same, expected_user, descends) =
      is_trusted_sound os digest shared credentials r around expected secret trusted in
    record {
      expected = expected;
      identified = e;
      open_first = shut;
      open_last = ground arith;
      same_user = user;
      expected_user = expected_user;
      token = token;
      same_secret = same;
      descends_first = descends;
      again = now;
      again_is = first_end;
      last = after;
      last_is = last_end;
      descends_again = again valid;
      authority =
          IsAuthority-sound os around shared.config expected.pid may still shared.config.admission
            refl;
      permitted =
          (decide_iff os around.manifest r.hook_input (context_of shared.config)).0
            (is_allow-eq _ says);
      consumed = (peer, l, next, read, had, reply, is_left);
    }

-- The last step, for any answers about the peer.
settled :
    (os : OperatingSystem) (digest : HookInput → Option Bytes) (shared : SharedState)
    (credentials : PeerCredentials) (r : BrokerRequest) (around : Surroundings)
    (expected : ProcessIdentity) (now after : ℕ) (still_valid : Bool)
    → shared.identity ≡ some expected
    → valid_token (some shared.session_secret) ≡ true
    → now ≡ (validate_peer around.reader 0 credentials.pid expected around.euid).0
    → after ≡ (validate_peer around.reader now credentials.pid expected around.euid).0
    → (still_valid ≡ true → IsDescendant around.reader now credentials.pid expected)
    → Settled os digest shared credentials r around (
        if passes os digest shared credentials r around expected still_valid
        then consume_request os digest shared.ledger
            (around.reader after credentials.pid)
            r.hook_input
            (is_none shared.config.admission)
        else (false, shared.ledger))
settled os digest shared credentials r around expected now after still_valid e secret first_end
      last_end again =
    elim (Bool-cases (passes os digest shared credentials r around expected still_valid)) [
      | inr c ↦ rw c (inr refl)
      | inl c ↦
          rw c
            (elim (consume_request_sound os digest shared.ledger
              (around.reader after credentials.pid) r.hook_input
              (is_none shared.config.admission)) [
                | inr refused ↦ inr refused
                | inl (passed, (peer, l, next, read, had, reply, left)) ↦ inl (
                  passed,
                  passes-IsAuthorized os digest shared credentials r around expected now after
                      still_valid _ peer l next e secret first_end last_end c again read had reply
                      left,
                )
              ])
    ]

verify_for-Settled :
    (os : OperatingSystem) (digest : HookInput → Option Bytes) (shared : SharedState)
    (credentials : PeerCredentials) (r : BrokerRequest) (around : Surroundings)
    (expected : ProcessIdentity)
    → shared.identity ≡ some expected
    → valid_token (some shared.session_secret) ≡ true
    → Settled os digest shared credentials r around
        (verify_for os digest shared credentials r around expected)
unfolding verify_for
verify_for-Settled os digest shared credentials r around expected e secret =
    let now = (validate_peer around.reader 0 credentials.pid expected around.euid).0 in
    settled os digest shared credentials r around expected now _ _ e secret refl refl (λ valid.
      (validate_peer_sound around.reader now credentials.pid expected around.euid valid).2)

-- A request is either refused, and the ledger stays as it was, or allowed after all of this: the
-- broker was not shutting down at either look; the peer is of the broker's user; the request
-- carries the session's own secret; the peer descended from the expected process of that user at
-- the beginning, and again in the readings that follow; the launch's admission was verified twice,
-- or the verifier's own command is expected; the decision procedure allows the input; and the
-- ledger consumed the request for the process that the peer was found to be in the last reading.
pub verify_request-IsAuthorized :
    (os : OperatingSystem) (digest : HookInput → Option Bytes) (shared : SharedState)
    (credentials : PeerCredentials) (r : BrokerRequest) (around : Surroundings)
    → valid_token (some shared.session_secret) ≡ true
    → ((verify_request os digest shared credentials r around).0 ≡ true
        × IsAuthorized os digest shared credentials r around
            (verify_request os digest shared credentials r around).1)
      ⊎ (verify_request os digest shared credentials r around ≡ (false, shared.ledger))
unfolding verify_request
verify_request-IsAuthorized os digest shared credentials r around secret =
    elim (Option-cases shared.identity) [
      | inl e ↦ inr (rw e refl)
      | inr (expected, e) ↦
          let this : verify_request os digest shared credentials r around
              ≡ verify_for os digest shared credentials r around expected =
            rw e refl in
          subst (Settled os digest shared credentials r around) (sym this)
            (verify_for-Settled os digest shared credentials r around expected e secret)
    ]
