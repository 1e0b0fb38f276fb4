-- ===== src/Broker/Frames/RoundTrip.antt =====
-- A frame that one side of a socket writes and the other reads.
use codex_autoapprover.Prelude.State
use codex_autoapprover.Prelude.State.{◌>>◌}
use codex_autoapprover.Prelude.{
  drop-length, nat_eqb, take-length, length-append, false, sym, ◌∙◌, ◌||◌, guard, guard-eq-ok,
  is_nil, leb, not, append_assoc, ◌+◌, ◌++◌, ◌<◌, Bool, Bytes, List, [], ap, append-nil, arith,
  drop, length, ltb, ok, refl, suc, take, true, zero, ℕ, ◌∷◌, ◌≡◌, ◌≤◌,
}
use codex_autoapprover.Broker.Frames.Flow.{read_exact-Delivers, Delivers, bytes_of, is_flowing}
use codex_autoapprover.Broker.Frames.{
  IoError, read_exact, invalid_frame_length, socket_failed, Incoming, Outgoing, WriteAnswer,
  from_be_bytes, in_time, max_u32, read_exact_until, read_frame, taken, to_be_bytes, write_all,
  write_all_until, write_blocked, write_failed, write_frame, write_interrupted,
}

from_be_bytes-to_be_bytes : (n : ℕ) → n ≤ max_u32 → from_be_bytes (to_be_bytes n) ≡ n
unfolding from_be_bytes to_be_bytes
from_be_bytes-to_be_bytes n h = omega arith

take-drop : (n : ℕ) (xs : Bytes) → take n xs ++ drop n xs ≡ xs
take-drop zero xs = refl
take-drop (suc n) [] = refl
take-drop (suc n) (x ∷ xs) = ap (λ t. x ∷ t) (take-drop n xs)

not_nil-length : (bytes : Bytes) → is_nil bytes ≡ false → 0 < length bytes
not_nil-length [] h = cc
not_nil-length (b ∷ bs) h = ground arith

module _ (clock : ℕ → ℕ) (deadline : ℕ) where
  -- What a successful write has sent.
  write_all-sent :
      (answers : List WriteAnswer) (tick : ℕ) (sent bytes : Bytes) (s : Outgoing)
      → write_all clock deadline answers tick sent bytes ≡ (s, ok tt)
      → s.sent ≡ sent ++ bytes
  unfolding write_all in_time
  write_all-sent answers tick sent [] s h = ground (arith, append-nil sent)
  write_all-sent [] tick sent (b ∷ bs) s h = ground arith
  write_all-sent (taken n ∷ answers) tick sent (b ∷ bs) s h = ground (
    arith,
    write_all-sent answers (tick + 1) (sent ++ take n (b ∷ bs)) (drop n (b ∷ bs)) s,
    append_assoc sent (take n (b ∷ bs)) (drop n (b ∷ bs)),
    take-drop n (b ∷ bs),
  )
  write_all-sent (write_interrupted ∷ answers) tick sent (b ∷ bs) s h =
      ground (arith, write_all-sent answers (tick + 1) sent (b ∷ bs) s)
  write_all-sent (write_blocked ∷ answers) tick sent (b ∷ bs) s h = ground arith
  write_all-sent (write_failed ∷ answers) tick sent (b ∷ bs) s h = ground arith

  write_all_until-sent :
      (bytes : Bytes) (s t : Outgoing)
      → write_all_until clock deadline bytes s ≡ (t, ok tt)
      → t.sent ≡ s.sent ++ bytes
  unfolding write_all_until
  write_all_until-sent bytes s t h = write_all-sent s.answers s.ticks s.sent bytes t h

  pub write_frame-sent :
      (flushed : Bool) (bytes : Bytes) (maximum : ℕ) (s t : Outgoing)
      → write_frame clock deadline flushed bytes maximum s ≡ (t, ok tt)
      → (t.sent ≡ s.sent ++ (to_be_bytes (length bytes) ++ bytes))
        × (0 < length bytes)
        × (length bytes ≤ maximum)
        × (length bytes ≤ max_u32)
  unfolding write_frame write_all_until
  write_frame-sent flushed bytes maximum s t h =
      let open_guard =
        State.lift {S = Outgoing}
          (guard (not (is_nil bytes || ltb maximum (length bytes))) invalid_frame_length) in
      let width_guard =
        State.lift {S = Outgoing} (guard (leb (length bytes) max_u32) invalid_frame_length) in
      let header = write_all_until clock deadline (to_be_bytes (length bytes)) in
      let body = write_all_until clock deadline bytes in
      let flush = State.lift {S = Outgoing} (guard flushed socket_failed) in
      let (s1, first, h1) =
        State.>>-succeeds open_guard (width_guard >> (header >> (body >> flush))) s t tt h in
      let (s2, second, h2) = State.>>-succeeds width_guard (header >> (body >> flush)) s1 t tt h1 in
      let (s3, third, h3) = State.>>-succeeds header (body >> flush) s2 t tt h2 in
      let (s4, fourth, h4) = State.>>-succeeds body flush s3 t tt h3 in
      let passed = guard-eq-ok _ _ (ap (λ p. p.1) first) in
      let narrow = guard-eq-ok _ _ (ap (λ p. p.1) second) in
      let kept1 : s ≡ s1 = ap (λ p. p.0) first in
      let kept2 : s1 ≡ s2 = ap (λ p. p.0) second in
      let kept4 : s4 ≡ t = ap (λ p. p.0) h4 in
      let sent3 = write_all_until-sent (to_be_bytes (length bytes)) s2 s3 third in
      let sent4 = write_all_until-sent bytes s3 s4 fourth in
      (
        ap (λ u. u.sent) (sym kept4)
            ∙ (sent4
                ∙ (ap (λ z. z ++ bytes)
                      (sent3 ∙ ap (λ u. u.sent ++ to_be_bytes (length bytes)) (sym (kept1 ∙ kept2)))
                    ∙ append_assoc s.sent (to_be_bytes (length bytes)) bytes)),
        not_nil-length bytes (ground arith),
        ground arith,
        ground arith,
      )

  -- What `read_frame` does with the length.
  abbrev body_of : ℕ → ℕ → State.M Incoming IoError Bytes
  body_of maximum size =
      State.lift (guard (not (nat_eqb size 0 || ltb maximum size)) invalid_frame_length)
      >> read_exact_until clock deadline size

  body_of_sound :
      (maximum size : ℕ) (s : Incoming)
      → 0 < size
      → size ≤ maximum
      → body_of maximum size s ≡ read_exact clock deadline size s.ticks s.answers
  unfolding read_exact_until
  body_of_sound maximum size s some_bytes small = ground arith

  -- The four bytes, then the message.
  pub read_frame-Delivers :
      (early : (t : ℕ) → ltb (clock t) deadline ≡ true)
      → (maximum : ℕ) (bytes later : Bytes) (s : Incoming) → 0 < length bytes
      → length bytes ≤ maximum
      → length bytes ≤ max_u32
      → is_flowing s.answers ≡ true
      → bytes_of s.answers ≡ to_be_bytes (length bytes) ++ (bytes ++ later)
      → Delivers later bytes (read_frame clock deadline maximum s)
  unfolding read_frame read_exact_until to_be_bytes
  read_frame-Delivers early maximum bytes later s some_bytes small fits flows sent =
      let (s1, out1, flows1, left1) =
        read_exact-Delivers clock deadline early 4 s.ticks s.answers flows
          (rw sent (ground arith)) in
      let left = left1 ∙ ap (drop 4) sent in
      let header = out1 ∙ ap (λ w. (s1, ok (take 4 w))) sent in
      let (s2, out2, flows2, left2) =
        read_exact-Delivers clock deadline early (length bytes) s1.ticks s1.answers flows1
          (rw left (ground (arith, length-append bytes later))) in
      let decoded = from_be_bytes-to_be_bytes (length bytes) fits in
      let body : Bytes → State.M Incoming IoError Bytes = λ h. body_of maximum (from_be_bytes h) in
      (
        s2,
        State.>>=-continues (read_exact_until clock deadline 4) body s s1
              (to_be_bytes (length bytes)) header
            ∙ (ap (λ size. body_of maximum size s1) decoded
                ∙ (body_of_sound maximum (length bytes) s1 some_bytes small
                    ∙ (out2
                        ∙ ap (λ w. (s2, ok w))
                            (ap (take (length bytes)) left ∙ take-length bytes later)))),
        flows2,
        left2 ∙ (ap (drop (length bytes)) left ∙ drop-length bytes later),
      )

-- A frame that `write_frame_until` reports as written is read back as the same message, with what
-- follows it left in the stream: by any reader whose time is not up and that gets the bytes in any
-- pieces and with any interruptions, for every length up to the maximum and every clock of the
-- writer.
pub read_frame-write_frame :
    (write_clock read_clock : ℕ → ℕ) (write_deadline read_deadline maximum : ℕ)
    → ((t : ℕ) → ltb (read_clock t) read_deadline ≡ true)
    → (flushed : Bool) (bytes later : Bytes) (s t : Outgoing) (r : Incoming) → s.sent ≡ []
    → write_frame write_clock write_deadline flushed bytes maximum s ≡ (t, ok tt)
    → is_flowing r.answers ≡ true
    → bytes_of r.answers ≡ t.sent ++ later
    → Delivers later bytes (read_frame read_clock read_deadline maximum r)
read_frame-write_frame write_clock read_clock write_deadline read_deadline maximum early flushed
      bytes later s t r fresh written flows sent =
    let (gone, some_bytes, small, fits) =
      write_frame-sent write_clock write_deadline flushed bytes maximum s t written in
    read_frame-Delivers read_clock read_deadline early maximum bytes later r some_bytes small fits
      flows
      (sent
        ∙ (ap (λ z. z ++ later) (gone ∙ ap (λ z. z ++ (to_be_bytes (length bytes) ++ bytes)) fresh)
            ∙ append_assoc (to_be_bytes (length bytes)) bytes later))
