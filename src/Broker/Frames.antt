-- ===== src/Broker/Frames.antt =====
-- The frames of src/broker/linux.rs: a length in four bytes, then the message. What the socket
-- answers to each call is an argument, as is the clock, by the number of times that it is asked.
mod Bounds
pub mod Flow
pub mod RoundTrip
use codex_autoapprover.Prelude.State
use codex_autoapprover.Prelude.State.{◌>>=◌, ◌>>◌}
use codex_autoapprover.Prelude.{
  ◌||◌, ◌%◌, ◌*◌, ◌+◌, ◌++◌, ◌-◌, ◌/◌, Bool, Bytes, List, Result, [], ◌^◌, drop, if◌then◌else◌, err,
  guard, if◌then◌else◌, is_nil, leb, length, ltb, nat_eqb, not, ok, suc, take, if◌then◌else◌, zero,
  ℕ, ◌∷◌,
}

-- The answers of `read`: some bytes (none at the end of the stream), or an error by its kind.
pub data ReadAnswer : Type 0 where
  chunk : Bytes → ReadAnswer
  read_interrupted : ReadAnswer
  read_blocked : ReadAnswer
  read_failed : ReadAnswer

-- The answers of `write`: the number of bytes that were taken, or an error by its kind.
pub data WriteAnswer : Type 0 where
  taken : ℕ → WriteAnswer
  write_interrupted : WriteAnswer
  write_blocked : WriteAnswer
  write_failed : WriteAnswer

pub data IoError : Type 0 where
  invalid_frame_length : IoError
  incomplete_frame : IoError
  decision_timed_out : IoError
  trailing_broker_data : IoError
  wrote_nothing : IoError
  socket_failed : IoError

-- The side of a socket that is read: how often the clock was asked, and the answers to come. A
-- stream without a further answer is at its end.
pub record Incoming : Type 0 where
  pub ticks : ℕ
  pub answers : List ReadAnswer

-- The side that is written, with what was sent. A script without a further answer has failed.
pub record Outgoing : Type 0 where
  pub ticks : ℕ
  pub answers : List WriteAnswer
  pub sent : Bytes

abbrev pub max_u32 : ℕ
max_u32 = 2 ^ 32 - 1

-- `to_be_bytes` and `from_be_bytes` of a `u32`.
unfoldable pub to_be_bytes : ℕ → Bytes
to_be_bytes n = n / 16777216 % 256 ∷ n / 65536 % 256 ∷ n / 256 % 256 ∷ n % 256 ∷ []

unfoldable pub from_be_bytes : Bytes → ℕ
from_be_bytes (a ∷ b ∷ c ∷ d ∷ []) = ((a * 256 + b) * 256 + c) * 256 + d
from_be_bytes _ = 0

-- What is left of a chunk is the next answer.
abbrev pub put_back : Bytes → List ReadAnswer → List ReadAnswer
put_back [] answers = answers
put_back (b ∷ bs) answers = chunk (b ∷ bs) ∷ answers

module _ (clock : ℕ → ℕ) (deadline : ℕ) where
  -- `remaining`, for the clock's answer number `tick`.
  unfoldable pub remaining : ℕ → Result IoError (Unit {0})
  remaining tick = guard (ltb (clock tick) deadline) decision_timed_out

  -- `remaining(deadline)?;` in front of a result.
  unfoldable pub in_time : {A : Type 0} → ℕ → Result IoError A → Result IoError A
  in_time tick result = if ltb (clock tick) deadline then result else err decision_timed_out

  -- `read_exact_until`: `need` bytes are missing.
  unfoldable pub read_exact : ℕ → ℕ → List ReadAnswer → Incoming × Result IoError Bytes
  unfolding remaining
  read_exact zero tick answers =
      (record { ticks = tick + 1; answers = answers }, in_time tick (ok []))
  read_exact (suc n) tick [] =
      (record { ticks = tick + 1; answers = [] }, in_time tick (err incomplete_frame))
  read_exact (suc n) tick (chunk [] ∷ answers) =
      (record { ticks = tick + 1; answers = answers }, in_time tick (err incomplete_frame))
  read_exact (suc n) tick (chunk (b ∷ bs) ∷ answers) =
      let size = length (b ∷ bs) in
      let (later, rest) = read_exact (suc n - size) (tick + 1) answers in
      if not (ltb (clock tick) deadline)
      then (record { ticks = tick + 1; answers = chunk (b ∷ bs) ∷ answers }, err decision_timed_out)
      else if ltb size (suc n)
      then (later, elim rest [ ok more ↦ ok ((b ∷ bs) ++ more) | err e ↦ err e ])
      else (
        record { ticks = tick + 2; answers = put_back (drop (suc n) (b ∷ bs)) answers },
        elim (remaining (tick + 1)) [ ok _ ↦ ok (take (suc n) (b ∷ bs)) | err e ↦ err e ],
      )
  read_exact (suc n) tick (read_interrupted ∷ answers) =
      let rest = read_exact (suc n) (tick + 1) answers in
      if not (ltb (clock tick) deadline)
      then (record { ticks = tick + 1; answers = answers }, err decision_timed_out)
      else rest
  read_exact (suc n) tick (read_blocked ∷ answers) =
      (record { ticks = tick + 1; answers = answers }, err decision_timed_out)
  read_exact (suc n) tick (read_failed ∷ answers) =
      (record { ticks = tick + 1; answers = answers }, in_time tick (err socket_failed))

  unfoldable pub read_exact_until : ℕ → State.M Incoming IoError Bytes
  unfolding read_exact
  read_exact_until need s = read_exact need s.ticks s.answers

  -- `read_frame_until`
  unfoldable pub read_frame : ℕ → State.M Incoming IoError Bytes
  unfolding read_exact_until
  read_frame maximum = do
    header ← read_exact_until 4
    let size = from_be_bytes header
    State.lift (guard (not (nat_eqb size 0 || ltb maximum size)) invalid_frame_length)
    read_exact_until size

  -- `ensure_no_trailing_data`: one read of one byte.
  unfoldable pub ensure_no_trailing_data : State.M Incoming IoError (Unit {0})
  ensure_no_trailing_data s = (
    record { ticks = s.ticks + 1; answers = drop 1 s.answers },
    in_time s.ticks (first s.answers),
  )
    where
      first : List ReadAnswer → Result IoError (Unit {0})
      first [] = ok tt
      first (chunk [] ∷ answers) = ok tt
      first (chunk (b ∷ bs) ∷ answers) = err trailing_broker_data
      first (read_interrupted ∷ answers) = err socket_failed
      first (read_blocked ∷ answers) = err socket_failed
      first (read_failed ∷ answers) = err socket_failed

  -- `write_all_until`: `bytes` are left to send, `sent` is what is gone.
  unfoldable pub write_all :
      List WriteAnswer → ℕ → Bytes → Bytes → Outgoing × Result IoError (Unit {0})
  write_all answers tick sent [] = (record { ticks = tick; answers = answers; sent = sent }, ok tt)
  write_all [] tick sent (b ∷ bs) =
      (record { ticks = tick + 1; answers = []; sent = sent }, in_time tick (err socket_failed))
  write_all (taken n ∷ answers) tick sent (b ∷ bs) =
      let rest = write_all answers (tick + 1) (sent ++ take n (b ∷ bs)) (drop n (b ∷ bs)) in
      if not (ltb (clock tick) deadline)
      then (record { ticks = tick + 1; answers = answers; sent = sent }, err decision_timed_out)
      else if nat_eqb n 0
      then (record { ticks = tick + 1; answers = answers; sent = sent }, err wrote_nothing)
      else rest
  write_all (write_interrupted ∷ answers) tick sent (b ∷ bs) =
      let rest = write_all answers (tick + 1) sent (b ∷ bs) in
      if not (ltb (clock tick) deadline)
      then (record { ticks = tick + 1; answers = answers; sent = sent }, err decision_timed_out)
      else rest
  write_all (write_blocked ∷ answers) tick sent (b ∷ bs) =
      (record { ticks = tick + 1; answers = answers; sent = sent }, err decision_timed_out)
  write_all (write_failed ∷ answers) tick sent (b ∷ bs) = (
    record { ticks = tick + 1; answers = answers; sent = sent },
    in_time tick (err socket_failed),
  )

  unfoldable pub write_all_until : Bytes → State.M Outgoing IoError (Unit {0})
  unfolding write_all
  write_all_until bytes s = write_all s.answers s.ticks s.sent bytes

  -- `write_frame_until`; `flushed` is the answer of `flush`.
  unfoldable pub write_frame : Bool → Bytes → ℕ → State.M Outgoing IoError (Unit {0})
  unfolding write_all_until
  write_frame flushed bytes maximum = do
    State.lift (guard (not (is_nil bytes || ltb maximum (length bytes))) invalid_frame_length)
    State.lift (guard (leb (length bytes) max_u32) invalid_frame_length)
    write_all_until (to_be_bytes (length bytes))
    write_all_until bytes
    State.lift (guard flushed socket_failed)
