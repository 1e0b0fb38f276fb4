-- ===== src/Broker/Connection/Allowing.antt =====
-- About a request that `handle_connection` of src/broker/linux.rs allows: its lines and its answer.
use codex_autoapprover.Prelude.{
  ◌++◌, Bool, Bool-cases, Bytes, In, List, [], if◌then◌else◌, false, if◌then◌else◌, inl, inr, is_ok,
  refl, subst, sym, if◌then◌else◌, true, ◌∷◌, ◌≡◌,
}
use codex_autoapprover.Broker.Connection.{
  Effect, Library, Peer, allow_append, answer_with, answered, audit, emitted_append, request_append,
  respond_allow, write_response,
}
use codex_autoapprover.Protocol.{HookInput}
use codex_autoapprover.Broker.Connection.Trail.{
  In-behind, IsAllowTrail, allow_end, audit-IsSilent, audit-follow_up, audit-recorded, extend,
  follow_up, no_answer-allow,
}
use codex_autoapprover.Platform.{OperatingSystem}
use codex_autoapprover.Broker.Verify.{SharedState}
use codex_autoapprover.Audit.{
  allow_line, attempt_line, emitted_line, invoked_line, request_line, tool_or_unknown,
}
use codex_autoapprover.Broker.Messages.{broker_allow, no_decision}

module _ (os : OperatingSystem) (lib : Library) where
  -- The lines of a request, as the broker writes them.
  abbrev pub request_line_of : HookInput → Bytes
  request_line_of input =
      request_line lib.sha256 lib.to_vec input.tool_name input.hook_event_name input.tool_input

  abbrev pub allow_line_of : HookInput → Bytes
  allow_line_of input =
      allow_line lib.sha256 lib.to_vec (tool_or_unknown input.tool_name) input.tool_input

  abbrev pub emitted_line_of : HookInput → Bytes
  emitted_line_of input =
      emitted_line lib.sha256 lib.to_vec (tool_or_unknown input.tool_name) input.tool_input

  abbrev pub invoked_line_of : HookInput → Bytes
  invoked_line_of input = invoked_line lib.sha256 lib.to_vec input.tool_name input.hook_event_name

  abbrev pub trail_lines : HookInput → List Bytes
  trail_lines input =
      attempt_line ∷ invoked_line_of input ∷ request_line_of input ∷ allow_line_of input ∷ []

  -- What the audit is told behind the answer.
  abbrev pub told_of : SharedState → Peer → HookInput → Bool → List Effect
  told_of shared peer input sent =
      follow_up shared.config.audit_path (peer.appended emitted_append) (emitted_line_of input) sent

  -- The answer with what the audit is told about it.
  abbrev pub allowing : SharedState → Peer → HookInput → List Effect
  allowing shared peer input =
      answer_with os lib peer broker_allow
      ∷ (if is_ok (write_response os lib peer broker_allow).1
          then (audit shared peer emitted_append (emitted_line_of input)).0
          else [])

  pub allowing-IsAllowTrail :
      (shared : SharedState) (peer : Peer) (input : HookInput) (sent : Bool)
      → In (answered broker_allow sent) (allowing shared peer input)
      → IsAllowTrail shared.config.audit_path [] sent
          (told_of shared peer input sent)
          (allowing shared peer input)
  unfolding answer_with
  allowing-IsAllowTrail shared peer input sent m =
      allow_end shared.config.audit_path (peer.appended emitted_append) sent
        (is_ok (write_response os lib peer broker_allow).1) (emitted_line_of input) _
        (audit-IsSilent shared peer emitted_append (emitted_line_of input))
        (audit-follow_up shared peer emitted_append (emitted_line_of input)) m

  pub respond_allow-is :
      (shared : SharedState) (peer : Peer) (input : HookInput)
      → (audit shared peer request_append (request_line_of input)).1 ≡ true
      → (audit shared peer allow_append (allow_line_of input)).1 ≡ true
      → respond_allow os lib shared peer input
        ≡ (audit shared peer request_append (request_line_of input)).0
          ++ ((audit shared peer allow_append (allow_line_of input)).0
              ++ allowing shared peer input)
  unfolding respond_allow
  respond_allow-is shared peer input a b =
      elim (Bool-cases (is_ok (write_response os lib peer broker_allow).1)) [
        | inl w ↦ rw (a, b, w) refl
        | inr w ↦ rw (a, b, w) refl
      ]

  pub respond_allow-unrequested :
      (shared : SharedState) (peer : Peer) (input : HookInput)
      → (audit shared peer request_append (request_line_of input)).1 ≡ false
      → respond_allow os lib shared peer input
        ≡ (audit shared peer request_append (request_line_of input)).0
          ++ answer_with os lib peer no_decision ∷ []
  unfolding respond_allow
  respond_allow-unrequested shared peer input a = rw a refl

  pub respond_allow-unrecorded :
      (shared : SharedState) (peer : Peer) (input : HookInput)
      → (audit shared peer request_append (request_line_of input)).1 ≡ true
      → (audit shared peer allow_append (allow_line_of input)).1 ≡ false
      → respond_allow os lib shared peer input
        ≡ (audit shared peer request_append (request_line_of input)).0
          ++ ((audit shared peer allow_append (allow_line_of input)).0
              ++ answer_with os lib peer no_decision ∷ [])
  unfolding respond_allow
  respond_allow-unrecorded shared peer input a b = rw (a, b) refl

  pub no_answer_allows :
      (peer : Peer) (sent : Bool)
      → ¬ In (answered broker_allow sent) (answer_with os lib peer no_decision ∷ [])
  unfolding answer_with
  no_answer_allows peer sent m = no_answer-allow sent _ m

  pub respond_allow-IsAllowTrail :
      (shared : SharedState) (peer : Peer) (input : HookInput) (sent : Bool)
      → In (answered broker_allow sent) (respond_allow os lib shared peer input)
      → IsAllowTrail shared.config.audit_path
          (request_line_of input ∷ allow_line_of input ∷ [])
          sent
          (told_of shared peer input sent)
          (respond_allow os lib shared peer input)
  respond_allow-IsAllowTrail shared peer input sent m =
      elim (Bool-cases (audit shared peer request_append (request_line_of input)).1) [
        | inr a ↦ absurd (
            no_answer_allows peer sent (
              In-behind _ _ broker_allow sent
                (audit-IsSilent shared peer request_append (request_line_of input))
                (subst (In (answered broker_allow sent))
                  (respond_allow-unrequested shared peer input a) m)))
        | inl a ↦ elim (Bool-cases (audit shared peer allow_append (allow_line_of input)).1) [
          | inr b ↦ absurd (
              no_answer_allows peer sent (
                In-behind _ _ broker_allow sent
                  (audit-IsSilent shared peer allow_append (allow_line_of input))
                  (In-behind _ _ broker_allow sent
                    (audit-IsSilent shared peer request_append (request_line_of input))
                    (subst (In (answered broker_allow sent))
                      (respond_allow-unrecorded shared peer input a b) m))))
          | inl b ↦
              let this = respond_allow-is shared peer input a b in
              let m' =
                In-behind _ _ broker_allow sent
                  (audit-IsSilent shared peer allow_append (allow_line_of input))
                  (In-behind _ _ broker_allow sent
                    (audit-IsSilent shared peer request_append (request_line_of input))
                    (subst (In (answered broker_allow sent)) this m)) in
              subst
                (IsAllowTrail shared.config.audit_path
                  (request_line_of input ∷ allow_line_of input ∷ []) sent
                  (told_of shared peer input sent))
                (sym this)
                (extend shared.config.audit_path (request_line_of input ∷ [])
                  (allow_line_of input ∷ []) sent _ _ _
                  (audit-recorded shared peer request_append (request_line_of input) a)
                  (extend shared.config.audit_path (allow_line_of input ∷ []) [] sent _ _ _
                    (audit-recorded shared peer allow_append (allow_line_of input) b)
                    (allowing-IsAllowTrail shared peer input sent m')))
        ]
      ]
