-- ===== src/Broker/Frames/Bounds.antt =====
-- How long a frame can be.
use codex_autoapprover.Prelude.State
use codex_autoapprover.Prelude.State.{◌>>◌}
use codex_autoapprover.Prelude.{
  ◌||◌, ◌+◌, ◌-◌, ◌<◌, Bytes, List, Result-cases, [], ap, arith, guard, guard-eq-ok, inl, inr,
  length, length-append, ltb, nat_eqb, not, ok, refl, suc, take, zero, ℕ, ◌∷◌, ◌≡◌, ◌≤◌,
}
use codex_autoapprover.Broker.Frames.{
  Incoming, ReadAnswer, chunk, from_be_bytes, in_time, invalid_frame_length, read_blocked,
  read_exact, read_exact_until, read_failed, read_frame, read_interrupted, remaining,
}

length-take : (n : ℕ) (xs : Bytes) → n ≤ length xs → length (take n xs) ≡ n
length-take zero xs h = refl
length-take (suc n) [] h = ground arith
length-take (suc n) (x ∷ xs) h = ground (arith, length-take n xs)

module _ (clock : ℕ → ℕ) (deadline : ℕ) where
  read_exact-length :
      (n tick : ℕ) (answers : List ReadAnswer) (s : Incoming) (bytes : Bytes)
      → read_exact clock deadline n tick answers ≡ (s, ok bytes)
      → length bytes ≡ n
  unfolding read_exact in_time remaining
  read_exact-length zero tick answers s bytes h = ground arith
  read_exact-length (suc n) tick [] s bytes h = ground arith
  read_exact-length (suc n) tick (chunk [] ∷ answers) s bytes h = ground arith
  read_exact-length (suc n) tick (chunk (b ∷ bs) ∷ answers) s bytes h =
      elim (Result-cases
        (read_exact clock deadline (suc n - length (b ∷ bs)) (tick + 1) answers).1) [
          | inl (more, e) ↦ ground (
            arith,
            length-take (suc n) (b ∷ bs),
            length-append (b ∷ bs) more,
            read_exact-length (suc n - length (b ∷ bs)) (tick + 1) answers
                (read_exact clock deadline (suc n - length (b ∷ bs)) (tick + 1) answers).0 more,
          )
          | inr (x, e) ↦ ground (arith, length-take (suc n) (b ∷ bs))
        ]
  read_exact-length (suc n) tick (read_interrupted ∷ answers) s bytes h =
      ground (arith, read_exact-length (suc n) (tick + 1) answers s bytes)
  read_exact-length (suc n) tick (read_blocked ∷ answers) s bytes h = ground arith
  read_exact-length (suc n) tick (read_failed ∷ answers) s bytes h = ground arith

-- Whatever the socket answers and whenever the time is up, a frame that `read_frame_until` accepts
-- has at least one byte and at most the maximum.
pub read_frame-bounds :
    (clock : ℕ → ℕ) (deadline maximum : ℕ) (s t : Incoming) (bytes : Bytes)
    → read_frame clock deadline maximum s ≡ (t, ok bytes)
    → (0 < length bytes) × (length bytes ≤ maximum)
unfolding read_frame read_exact_until
read_frame-bounds clock deadline maximum s t bytes h =
    let (u, header, first, h1) =
      State.>>=-succeeds (read_exact_until clock deadline 4)
        (λ header.
          State.lift (
            guard (not (nat_eqb (from_be_bytes header) 0 || ltb maximum (from_be_bytes header)))
              invalid_frame_length)
          >> read_exact_until clock deadline (from_be_bytes header))
        s t bytes h in
    let (v, second, h2) =
      State.>>-succeeds
        (State.lift {S = Incoming} (
          guard (not (nat_eqb (from_be_bytes header) 0 || ltb maximum (from_be_bytes header)))
            invalid_frame_length))
        (read_exact_until clock deadline (from_be_bytes header)) u t bytes h1 in
    let size =
      read_exact-length clock deadline (from_be_bytes header) v.ticks v.answers t bytes h2 in
    let passed = guard-eq-ok _ _ (ap (λ p. p.1) second) in ground arith
