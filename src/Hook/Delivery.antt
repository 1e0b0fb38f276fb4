-- ===== src/Hook/Delivery.antt =====
-- The answer of the broker as the hook reads it, in src/broker/linux.rs.
use codex_autoapprover.Prelude.{
  List, subst, ◌∷◌, arith, ◌&&◌, ◌==◌, Option, Result, ap, nat_eq, bytes_eq, option_eq, append-nil,
  bytes_beq, ltb, sym, ℕ, ◌∙◌, Bool, Bytes, [], codes, if◌then◌else◌, err, false, if◌then◌else◌,
  inl, inr, is_ok, ok, refl, some, if◌then◌else◌, true, ◌≡◌, ◌⊎◌,
}
use codex_autoapprover.Broker.Messages.{
  broker_protocol_version, BrokerDecision, broker_allow, decision_of, has_fields,
  max_broker_response_bytes, no_decision, parse_response, read_unique, response_fields, response_of,
}
use codex_autoapprover.Hook.{
  receive_from, Client, ClientLibrary, after_stage, protocol_failed, receive, require,
}
use codex_autoapprover.Protocol.{Event, Value, Fields, object, parse_unique_object}
use codex_autoapprover.Broker.Frames.{
  ReadAnswer, chunk, in_time, read_blocked, read_failed, read_interrupted, IoError, Outgoing,
  Incoming, ensure_no_trailing_data, read_frame,
}
use codex_autoapprover.Broker.Connection.{Peer, write_response, Library}
use codex_autoapprover.Broker.Frames.Flow.{bytes_of, is_flowing}
use codex_autoapprover.Platform.{OperatingSystem}
use codex_autoapprover.Broker.Frames.RoundTrip.{read_frame-write_frame}

abbrev pub decision_allows : BrokerDecision → Bool
decision_allows broker_allow = true
decision_allows no_decision = false

-- What serde_json does with a response: its text is one object with exactly the three fields, and
-- decoding that object gives the response again.
unfoldable pub IsFaithful : Library → ClientLibrary → BrokerDecision → Fields → Type 0
IsFaithful lib client d fields =
    (parse_unique_object client.deserialize (lib.serialize_response (response_of d))
      ≡ ok (object fields))
    × (has_fields response_fields fields ≡ true)
    × (client.decode_response (object fields) ≡ some (response_of d))

decision_of-decision_allows :
    (d : BrokerDecision) → decision_of (response_of d).decision ≡ ok (decision_allows d)
unfolding decision_of response_of codes bytes_beq
decision_of-decision_allows broker_allow = refl
decision_of-decision_allows no_decision = refl

read_unique-ok :
    (deserialize : Bytes → Option (Event × Bytes)) (bytes : Bytes) (tree : Value)
    → parse_unique_object deserialize bytes ≡ ok tree
    → read_unique deserialize bytes ≡ ok tree
unfolding read_unique
read_unique-ok deserialize bytes tree h = ground arith

is_supported :
    (d : BrokerDecision)
    → ((response_of d).protocol_version == broker_protocol_version
        && (response_of d).message_type == codes "decision")
      ≡ true
unfolding response_of codes bytes_beq
is_supported broker_allow = refl
is_supported no_decision = refl

parse_response-response_of :
    (lib : Library) (client : ClientLibrary) (d : BrokerDecision) (fields : Fields)
    → IsFaithful lib client d fields
    → parse_response client.deserialize client.decode_response
        (lib.serialize_response (response_of d))
      ≡ ok (decision_allows d)
unfolding IsFaithful parse_response
parse_response-response_of lib client d fields (p, f, e) =
    rw
      (
        read_unique-ok client.deserialize (lib.serialize_response (response_of d)) (object fields)
            p,
        f,
        e,
        is_supported d,
      )
      (decision_of-decision_allows d)

receive_from-ok :
    (client : ClientLibrary) (bytes : Bytes) (is_last b : Bool)
    → parse_response client.deserialize client.decode_response bytes ≡ ok b
    → (receive_from client (ok bytes) is_last).1 ≡ (if is_last then ok b else err protocol_failed)
unfolding receive_from after_stage require
receive_from-ok client bytes true b p = rw p refl
receive_from-ok client bytes false b p = refl

receive-of :
    (client : ClientLibrary) (c : Client) (s : Incoming) (bytes : Bytes) (b : Bool)
    → read_frame c.clock c.deadline max_broker_response_bytes c.incoming ≡ (s, ok bytes)
    → parse_response client.deserialize client.decode_response bytes ≡ ok b
    → (receive client c).1 ≡ (
        if is_ok (ensure_no_trailing_data c.clock c.deadline s).1
        then ok b
        else err protocol_failed)
unfolding receive after_stage require
receive-of client c s bytes b r p =
    ap
      (λ (out : Incoming × Result IoError Bytes).
        (receive_from client out.1 (is_ok (ensure_no_trailing_data c.clock c.deadline out.0).1)).1)
      r
    ∙ receive_from-ok client bytes (is_ok (ensure_no_trailing_data c.clock c.deadline s).1) b p

-- Nothing more is in the stream, or an interruption hides that.
nothing_left :
    (answers : List ReadAnswer)
    → is_flowing answers ≡ true
    → bytes_of answers ≡ []
    → (answers ≡ []) ⊎ ((rest : List ReadAnswer) × (answers ≡ read_interrupted ∷ rest))
unfolding is_flowing bytes_of
nothing_left [] f b = inl refl
nothing_left (chunk [] ∷ answers) f b = ground arith
nothing_left (chunk (c ∷ cs) ∷ answers) f b = ground arith
nothing_left (read_interrupted ∷ answers) f b = inr (answers, refl)
nothing_left (read_blocked ∷ answers) f b = ground arith
nothing_left (read_failed ∷ answers) f b = ground arith

at_end :
    (clock : ℕ → ℕ) (deadline tick : ℕ)
    → ltb (clock tick) deadline ≡ true
    → is_ok (ensure_no_trailing_data clock deadline (record { ticks = tick; answers = [] })).1
      ≡ true
unfolding ensure_no_trailing_data in_time
at_end clock deadline tick early = rw early refl

no_trailing :
    (clock : ℕ → ℕ) (deadline : ℕ) (s : Incoming)
    → ((t : ℕ) → ltb (clock t) deadline ≡ true)
    → s.answers ≡ []
    → is_ok (ensure_no_trailing_data clock deadline s).1 ≡ true
no_trailing clock deadline s early e =
    subst
      (λ a.
        is_ok (ensure_no_trailing_data clock deadline (record { ticks = s.ticks; answers = a })).1
        ≡ true)
      (sym e) (at_end clock deadline s.ticks (early s.ticks))

chosen : {A : Type 0} (b : Bool) (r x y : A) → r ≡ (if b then x else y) → b ≡ true → r ≡ x
chosen true r x y h e = h
chosen false r x y h e = cc

-- The last look at the stream met an interruption behind the frame.
abbrev pub IsInterrupted : Client → Type 0
IsInterrupted c =
    (left : Incoming) × (frame : Bytes) × (rest : List ReadAnswer) × (read_frame c.clock c.deadline
        max_broker_response_bytes c.incoming
      ≡ (left, ok frame))
    × (left.answers ≡ read_interrupted ∷ rest)

-- A decision that the broker has written is the decision that the hook reads, for any pieces and
-- interruptions in which its bytes arrive in time, where serde_json reads back what it writes. Only
-- an interruption of the last look at the stream, behind the whole frame, can hide it.
pub receive-write_response :
    (os : OperatingSystem) (lib : Library) (client : ClientLibrary) (peer : Peer) (c : Client)
    (d : BrokerDecision) (sent : Outgoing) (fields : Fields)
    → IsFaithful lib client d fields
    → peer.outgoing.sent ≡ []
    → write_response os lib peer d ≡ (sent, ok tt)
    → ((t : ℕ) → ltb (c.clock t) c.deadline ≡ true)
    → is_flowing c.incoming.answers ≡ true
    → bytes_of c.incoming.answers ≡ sent.sent
    → ((receive client c).1 ≡ ok (decision_allows d)) ⊎ IsInterrupted c
unfolding write_response
receive-write_response os lib client peer c d sent fields faithful fresh written early flows
      arrives =
    let (left, out, flowing, rest) =
      read_frame-write_frame peer.clock c.clock peer.deadline c.deadline max_broker_response_bytes
        early peer.flushed (lib.serialize_response (response_of d)) [] peer.outgoing sent c.incoming
        fresh written flows (arrives ∙ sym (append-nil sent.sent)) in
    let this =
      receive-of client c left _ (decision_allows d) out
        (parse_response-response_of lib client d fields faithful) in
    elim (nothing_left left.answers flowing rest) [
      | inl e ↦ inl (
          chosen (is_ok (ensure_no_trailing_data c.clock c.deadline left).1) _ _ _ this
            (no_trailing c.clock c.deadline left early e))
      | inr (more, e) ↦ inr (left, _, more, out, e)
    ]
