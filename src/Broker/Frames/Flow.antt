-- ===== src/Broker/Frames/Flow.antt =====
-- A stream that is slow and in pieces, but neither fails nor ends early.
-- The bytes that a script of answers still delivers.
use codex_autoapprover.Prelude.{
  ap, drop-append_long, drop-append_short, sym, take-append_long, take-append_short, ◌∙◌, ◌-◌,
  Bool-cases, inl, inr, length-append, ◌&&◌, ◌+◌, ◌++◌, Bool, Bytes, List, Result, [], arith, drop,
  false, is_nil, length, ltb, not, ok, refl, suc, take, true, zero, ℕ, ◌∷◌, ◌≡◌, ◌≤◌,
}
use codex_autoapprover.Broker.Frames.{
  Incoming, IoError, ReadAnswer, chunk, in_time, put_back, read_blocked, read_exact, read_failed,
  read_interrupted, remaining,
}

unfoldable pub bytes_of : List ReadAnswer → Bytes
bytes_of [] = []
bytes_of (chunk bs ∷ answers) = bs ++ bytes_of answers
bytes_of (read_interrupted ∷ answers) = bytes_of answers
bytes_of (read_blocked ∷ answers) = bytes_of answers
bytes_of (read_failed ∷ answers) = bytes_of answers

-- Every answer is a piece of at least a byte, or an interruption.
unfoldable pub is_flowing : List ReadAnswer → Bool
is_flowing [] = true
is_flowing (chunk bs ∷ answers) = not (is_nil bs) && is_flowing answers
is_flowing (read_interrupted ∷ answers) = is_flowing answers
is_flowing (read_blocked ∷ answers) = false
is_flowing (read_failed ∷ answers) = false

-- The side that is left has delivered `bytes` and still delivers `later`.
abbrev pub Delivers : Bytes → Bytes → Incoming × Result IoError Bytes → Type 0
Delivers later bytes out =
    (s : Incoming) × (out ≡ (s, ok bytes))
    × (is_flowing s.answers ≡ true)
    × (bytes_of s.answers ≡ later)

put_back-bytes_of :
    (bs : Bytes) (answers : List ReadAnswer)
    → bytes_of (put_back bs answers) ≡ bs ++ bytes_of answers
unfolding bytes_of
put_back-bytes_of [] answers = refl
put_back-bytes_of (b ∷ bs) answers = refl

put_back-is_flowing :
    (bs : Bytes) (answers : List ReadAnswer)
    → is_flowing answers ≡ true
    → is_flowing (put_back bs answers) ≡ true
unfolding is_flowing
put_back-is_flowing [] answers h = h
put_back-is_flowing (b ∷ bs) answers h = ground arith

module _ (clock : ℕ → ℕ) (deadline : ℕ) (early : (t : ℕ) → ltb (clock t) deadline ≡ true) where
  pub in_time-early : {A : Type 0} (t : ℕ) (r : Result IoError A) → in_time clock deadline t r ≡ r
  unfolding in_time
  in_time-early t r = rw (early t) refl

  -- A chunk that is shorter than what is missing.
  read_exact-short :
      (n tick b : ℕ) (bs : Bytes) (answers : List ReadAnswer)
      → ltb (length (b ∷ bs)) (suc n) ≡ true
      → Delivers
          (drop (suc n - length (b ∷ bs)) (bytes_of answers))
          (take (suc n - length (b ∷ bs)) (bytes_of answers))
          (read_exact clock deadline (suc n - length (b ∷ bs)) (tick + 1) answers)
      → Delivers
          (drop (suc n) ((b ∷ bs) ++ bytes_of answers))
          (take (suc n) ((b ∷ bs) ++ bytes_of answers))
          (read_exact clock deadline (suc n) tick (chunk (b ∷ bs) ∷ answers))
  unfolding read_exact
  read_exact-short n tick b bs answers e (s, out, flows, left) =
      rw (early tick, e, out)
        (
          s,
          ap (λ t. (s, ok t))
              (sym (take-append_long (suc n) (b ∷ bs) (bytes_of answers) (ground arith))),
          flows,
          left ∙ sym (drop-append_long (suc n) (b ∷ bs) (bytes_of answers) (ground arith)),
        )

  -- A chunk that covers it.
  read_exact-long :
      (n tick b : ℕ) (bs : Bytes) (answers : List ReadAnswer)
      → ltb (length (b ∷ bs)) (suc n) ≡ false
      → is_flowing answers ≡ true
      → Delivers
          (drop (suc n) ((b ∷ bs) ++ bytes_of answers))
          (take (suc n) ((b ∷ bs) ++ bytes_of answers))
          (read_exact clock deadline (suc n) tick (chunk (b ∷ bs) ∷ answers))
  unfolding read_exact remaining
  read_exact-long n tick b bs answers e flows =
      rw (early tick, e, early (tick + 1))
        (
          record { ticks = tick + 2; answers = put_back (drop (suc n) (b ∷ bs)) answers },
          ap
              (λ t. (
                record { ticks = tick + 2; answers = put_back (drop (suc n) (b ∷ bs)) answers },
                ok t,
              ))
              (sym (take-append_short (suc n) (b ∷ bs) (bytes_of answers) (ground arith))),
          put_back-is_flowing (drop (suc n) (b ∷ bs)) answers flows,
          put_back-bytes_of (drop (suc n) (b ∷ bs)) answers
              ∙ sym (drop-append_short (suc n) (b ∷ bs) (bytes_of answers) (ground arith)),
        )

  pub read_exact-Delivers :
      (n tick : ℕ) (answers : List ReadAnswer)
      → is_flowing answers ≡ true
      → n ≤ length (bytes_of answers)
      → Delivers
          (drop n (bytes_of answers))
          (take n (bytes_of answers))
          (read_exact clock deadline n tick answers)
  unfolding read_exact bytes_of is_flowing remaining
  read_exact-Delivers zero tick answers f h = (
    record { ticks = tick + 1; answers = answers },
    rw (in_time-early {A = Bytes} tick (ok [])) refl,
    f,
    refl,
  )
  read_exact-Delivers (suc n) tick [] f h = ground arith
  read_exact-Delivers (suc n) tick (chunk [] ∷ answers) f h = ground arith
  read_exact-Delivers (suc n) tick (chunk (b ∷ bs) ∷ answers) f h =
      elim (Bool-cases (ltb (length (b ∷ bs)) (suc n))) [
        | inl e ↦ read_exact-short n tick b bs answers e (
            read_exact-Delivers (suc n - length (b ∷ bs)) (tick + 1) answers (ground arith)
              (ground (arith, length-append (b ∷ bs) (bytes_of answers))))
        | inr e ↦ read_exact-long n tick b bs answers e (ground arith)
      ]
  read_exact-Delivers (suc n) tick (read_interrupted ∷ answers) f h =
      rw (early tick) (read_exact-Delivers (suc n) (tick + 1) answers f h)
  read_exact-Delivers (suc n) tick (read_blocked ∷ answers) f h = ground arith
  read_exact-Delivers (suc n) tick (read_failed ∷ answers) f h = ground arith
