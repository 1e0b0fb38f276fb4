-- ===== src/Broker/Verify/Granted.antt =====
-- What each test of `verify_request` in src/broker/linux.rs establishes.
-- The production launch checked its admission twice; the verifier expects its own command.
use codex_autoapprover.Prelude.{
  ==_iff, Option-cases, [], all, ap, inl, is_ascii_digit, is_lower_hex, ◌∷◌, nat_eq, bytes_eq,
  option_eq, ◌<◌, Bool, Bytes, Option, Result, arith, codes, err, false, inr, is_ok, is_ok-eq, none,
  ok, refl, some, true, ℕ, ◌≡◌, ◌⊎◌,
}
use codex_autoapprover.Admission.{Admission, verify_process}
use codex_autoapprover.Broker.Verify.{
  is_allow, is_trusted, peer_uid_matches, BrokerConfig, PeerCredentials, SharedState, Surroundings,
  consume_request, context_of, may_decide, still_admitted, validate_peer,
}
use codex_autoapprover.Broker.Messages.{BrokerRequest}
use codex_autoapprover.Protocol.{HookInput}
use codex_autoapprover.Decision.Rules.{IsAllowed}
use codex_autoapprover.Process.Ancestry.{IsDescendant, validate_ancestry-IsDescendant}
use codex_autoapprover.Platform.{OperatingSystem}
use codex_autoapprover.Process.{
  ProcessError, ProcessIdentity, ProcessReader, ProcessRecord, validate_ancestry,
}
use codex_autoapprover.Broker.Ledger.{RequestLedger, consume}
use codex_autoapprover.Decision.{Decision, allow, decline, is_none}
use codex_autoapprover.Compatibility.{is_verification_probe_command}
use codex_autoapprover.Arming.{valid_token}
use codex_autoapprover.Broker.Messages.Secrets.{are_bytes, constant_time_equal_iff}
use codex_autoapprover.Broker.Ledger.Replay.{consume_cases}

unfoldable pub IsAuthority :
    OperatingSystem → Surroundings → BrokerConfig → ℕ → Option Admission → Type 0
IsAuthority os around config pid (some a) =
    (verify_process around.first_reads a pid ≡ ok tt)
    × (verify_process around.last_reads a pid ≡ ok tt)
IsAuthority os around config pid none =
    (command : Bytes) × (config.expected_command ≡ some command)
    × (is_verification_probe_command os command ≡ true)
    × (config.expected_tool_name ≡ some (codes "Bash"))

-- What an allowed request has been through.
pub record IsAuthorized (os : OperatingSystem) (digest : HookInput → Option Bytes)
    (shared : SharedState) (credentials : PeerCredentials) (r : BrokerRequest)
    (around : Surroundings) (left : Option RequestLedger) : Type 0 where
  pub expected : ProcessIdentity
  pub identified : shared.identity ≡ some expected
  pub open_first : around.shut_first ≡ false
  pub open_last : around.shut_last ≡ false
  pub same_user : credentials.uid ≡ around.euid
  pub expected_user : expected.effective_uid ≡ around.euid
  pub token : valid_token (some r.session_secret) ≡ true
  pub same_secret : r.session_secret ≡ shared.session_secret
  pub descends_first : IsDescendant around.reader 0 credentials.pid expected
  pub again : ℕ
  pub again_is : again ≡ (validate_peer around.reader 0 credentials.pid expected around.euid).0
  pub descends_again : IsDescendant around.reader again credentials.pid expected
  pub authority : IsAuthority os around shared.config expected.pid shared.config.admission
  pub permitted : IsAllowed os around.manifest r.hook_input (context_of shared.config)
  pub last : ℕ
  pub last_is : last ≡ (validate_peer around.reader again credentials.pid expected around.euid).0
  pub consumed :
      (peer : ProcessRecord) × (l : RequestLedger) × (next : RequestLedger) × (around.reader last
          credentials.pid
        ≡ ok peer)
      × (shared.ledger ≡ some l)
      × (consume digest l (record {
        input = r.hook_input;
        pid = peer.identity.pid;
        started = peer.identity.start_time;
        verification = is_none shared.config.admission;
      })
          ≡ (true, next))
      × (left ≡ some next)

pub validate_peer_sound :
    (reader : ProcessReader) (now pid : ℕ) (expected : ProcessIdentity) (euid : ℕ)
    → (validate_peer reader now pid expected euid).1 ≡ true
    → (0 < pid) × (expected.effective_uid ≡ euid) × IsDescendant reader now pid expected
unfolding validate_peer
validate_peer_sound reader now pid expected euid h =
    let ok_path : is_ok (validate_ancestry reader now pid expected).1 ≡ true = ground arith in
    (
      ground arith,
      ground arith,
      validate_ancestry-IsDescendant reader now pid expected (is_ok-eq _ ok_path),
    )

pub IsAuthority-sound :
    (os : OperatingSystem) (around : Surroundings) (config : BrokerConfig) (pid : ℕ)
    → may_decide os around.first_reads config pid ≡ true
    → still_admitted around.last_reads config pid ≡ true
    → (o : Option Admission) → config.admission ≡ o
    → IsAuthority os around config pid o
unfolding may_decide still_admitted IsAuthority
IsAuthority-sound os around config pid h g (some a) e =
    (is_ok-eq _ (ground arith), is_ok-eq _ (ground arith))
IsAuthority-sound os around config pid h g none e = elim (Option-cases config.expected_command) [
  | inl c ↦ absurd (ground arith)
  | inr (command, c) ↦ (
    command,
    c,
    ground arith,
    (==_iff config.expected_tool_name (some (codes "Bash"))).0 (ground arith),
  )
]

pub consume_request_sound :
    (os : OperatingSystem) (digest : HookInput → Option Bytes) (ledger : Option RequestLedger)
    (answer : Result ProcessError ProcessRecord) (input : HookInput) (verification : Bool)
    → ((consume_request os digest ledger answer input verification).0 ≡ true
        × ((peer : ProcessRecord) × (l : RequestLedger) × (next : RequestLedger) × (answer
              ≡ ok peer)
            × (ledger ≡ some l)
            × (consume digest l (record {
              input = input;
              pid = peer.identity.pid;
              started = peer.identity.start_time;
              verification = verification;
            })
                ≡ (true, next))
            × ((consume_request os digest ledger answer input verification).1 ≡ some next)))
      ⊎ (consume_request os digest ledger answer input verification ≡ (false, ledger))
unfolding consume_request
consume_request_sound os digest ledger (err e) input verification = inr refl
consume_request_sound os digest none (ok peer) input verification = inr refl
consume_request_sound os digest (some l) (ok peer) input verification =
    elim (consume_cases digest l (record {
      input = input;
      pid = peer.identity.pid;
      started = peer.identity.start_time;
      verification = verification;
    })) [
      | inl same ↦ inr (ground arith)
      | inr a ↦ inl (
        ap (λ p. p.0) a.answer,
        (peer, l, a.next, refl, refl, a.answer, ap (λ p. some p.1) a.answer),
      )
    ]

pub is_lower_hex-byte : (digits : Bytes) → all is_lower_hex digits ≡ true → are_bytes digits ≡ true
unfolding is_lower_hex is_ascii_digit
is_lower_hex-byte [] h = refl
is_lower_hex-byte (b ∷ digits) h = ground (arith, is_lower_hex-byte digits)

pub valid_token-bytes : (token : Bytes) → valid_token (some token) ≡ true → are_bytes token ≡ true
unfolding valid_token
valid_token-bytes token h = is_lower_hex-byte token (ground arith)

pub is_trusted_sound :
    (os : OperatingSystem) (digest : HookInput → Option Bytes) (shared : SharedState)
    (credentials : PeerCredentials) (r : BrokerRequest) (around : Surroundings)
    (expected : ProcessIdentity)
    → valid_token (some shared.session_secret) ≡ true
    → is_trusted os digest shared credentials r around expected ≡ true
    → (around.shut_first ≡ false)
      × (credentials.uid ≡ around.euid)
      × (valid_token (some r.session_secret) ≡ true)
      × (r.session_secret ≡ shared.session_secret)
      × (expected.effective_uid ≡ around.euid)
      × IsDescendant around.reader 0 credentials.pid expected
unfolding is_trusted peer_uid_matches
is_trusted_sound os digest shared credentials r around expected secret h =
    let token : valid_token (some r.session_secret) ≡ true = ground arith in
    let peer =
      validate_peer_sound around.reader 0 credentials.pid expected around.euid (ground arith) in
    (
      ground arith,
      ground arith,
      token,
      (constant_time_equal_iff r.session_secret shared.session_secret (valid_token-bytes _ token)
            (valid_token-bytes _ secret)).0
          (ground arith),
      peer.1,
      peer.2,
    )

pub is_allow-eq : (d : Decision) → is_allow d ≡ true → d ≡ allow
is_allow-eq allow h = refl
is_allow-eq (decline reason) h = cc
