-- ===== src/Broker/Serve/Bounds.antt =====
-- About the counter of connections in src/broker/linux.rs.
-- While the loop is on its way to a new worker there is room for it.
use codex_autoapprover.Prelude.{
  subst, sym, ◌≢◌, ◌+◌, Bool, if◌then◌else◌, false, if◌then◌else◌, if◌then◌else◌, true, ◌-◌, ◌<◌,
  arith, leb, refl, ℕ, ◌≡◌, ◌≤◌,
}
use codex_autoapprover.Broker.Serve.{
  started, and_then, AcceptAnswer, LoopPoint, ServerState, Step, Steps, accept_failed, accepted_one,
  accepting, ends, here, left_loop, looking, loop, loop_from, loop_step, max_active_connections,
  stop_accepting, stops, stream, taking_back, testing, worker_ends, would_block,
}

abbrev IsRoom : LoopPoint → ℕ → Type 0
IsRoom testing n = Unit
IsRoom looking n = Unit
IsRoom accepting n = n < max_active_connections
IsRoom accepted_one n = n < max_active_connections
IsRoom taking_back n = ⊥
IsRoom left_loop n = Unit

pub record IsBounded (s : ServerState) : Type 0 where
  pub counted : s.active ≡ s.running
  pub bounded : s.running ≤ max_active_connections
  pub room : IsRoom s.point s.active

-- Both branches of a test.
if_holds :
    (P : ServerState → Type 0) (b : Bool) (s t : ServerState)
    → (b ≡ true → P s)
    → (b ≡ false → P t)
    → P (if b then s else t)
if_holds P true s t f g = f refl
if_holds P false s t f g = g refl

loop_from-IsBounded :
    (a : AcceptAnswer) (p : LoopPoint) (s : ServerState)
    → IsBounded s
    → IsRoom p s.active
    → IsBounded (loop_from a p s)
unfolding loop_from
loop_from-IsBounded a testing s b r =
    if_holds IsBounded s.shutdown _ _
      (λ d. record { counted = b.counted; bounded = b.bounded; room = tt })
      (λ d. record { counted = b.counted; bounded = b.bounded; room = tt })
loop_from-IsBounded a looking s b r =
    if_holds IsBounded (leb max_active_connections s.active) _ _
      (λ f. record { counted = b.counted; bounded = b.bounded; room = tt })
      (λ f. record { counted = b.counted; bounded = b.bounded; room = ground arith })
loop_from-IsBounded stream accepting s b r = record {
  counted = b.counted;
  bounded = b.bounded;
  room = r;
}
loop_from-IsBounded would_block accepting s b r = record {
  counted = b.counted;
  bounded = b.bounded;
  room = tt;
}
loop_from-IsBounded accept_failed accepting s b r = record {
  counted = b.counted;
  bounded = b.bounded;
  room = tt;
}
loop_from-IsBounded a accepted_one s b r =
    if_holds IsBounded (leb max_active_connections s.active) _ _ (λ f. absurd (ground arith))
      (λ f. record {
        counted = ground (arith, b.counted);
        bounded = ground (arith, b.counted);
        room = tt;
      })
loop_from-IsBounded a taking_back s b r = elim r [ ]
loop_from-IsBounded a left_loop s b r = b

IsRoom-less : (p : LoopPoint) (n : ℕ) → IsRoom p n → IsRoom p (n - 1)
IsRoom-less testing n r = tt
IsRoom-less looking n r = tt
IsRoom-less accepting n r = omega arith
IsRoom-less accepted_one n r = omega arith
IsRoom-less taking_back n r = r
IsRoom-less left_loop n r = tt

Step-IsBounded : {s t : ServerState} → Step s t → IsBounded s → IsBounded t
unfolding loop_step stop_accepting worker_ends
Step-IsBounded (loop a s) b = loop_from-IsBounded a s.point s b b.room
Step-IsBounded (ends s some_running) b = record {
  counted = ground (arith, b.counted);
  bounded = ground (arith, b.bounded);
  room = IsRoom-less s.point s.active b.room;
}
Step-IsBounded (stops s) b = record { counted = b.counted; bounded = b.bounded; room = b.room }

Steps-IsBounded : {s t : ServerState} → IsBounded s → Steps s t → IsBounded t
Steps-IsBounded b here = b
Steps-IsBounded b (and_then steps step) = Step-IsBounded step (Steps-IsBounded b steps)

-- The connection that the loop is about to take, if it is past its test of the flag.
abbrev pending : LoopPoint → ℕ
pending testing = 0
pending looking = 1
pending accepting = 1
pending accepted_one = 1
pending taking_back = 0
pending left_loop = 0

-- Once the flag is set, the workers and the pending connection do not become more.
abbrev IsClosing : ℕ → ServerState → Type 0
IsClosing n s = (s.shutdown ≡ true) × (s.running + pending s.point ≤ n)

loop_from-IsClosing :
    (n : ℕ) (a : AcceptAnswer) (p : LoopPoint) (s : ServerState)
    → s.point ≡ p
    → s.shutdown ≡ true
    → s.running + pending p ≤ n
    → IsClosing n (loop_from a p s)
unfolding loop_from
loop_from-IsClosing n a testing s q d h =
    if_holds (IsClosing n) s.shutdown _ _ (λ e. (d, h)) (λ e. absurd (ground arith))
loop_from-IsClosing n a looking s q d h =
    if_holds (IsClosing n) (leb max_active_connections s.active) _ _ (λ e. (d, omega arith))
      (λ e. (d, h))
loop_from-IsClosing n stream accepting s q d h = (d, h)
loop_from-IsClosing n would_block accepting s q d h = (d, omega arith)
loop_from-IsClosing n accept_failed accepting s q d h = (d, omega arith)
loop_from-IsClosing n a accepted_one s q d h =
    if_holds (IsClosing n) (leb max_active_connections s.active) _ _ (λ f. (d, omega arith))
      (λ f. (d, omega arith))
loop_from-IsClosing n a taking_back s q d h = (d, h)
loop_from-IsClosing n a left_loop s q d h = (d, subst (λ z. s.running + pending z ≤ n) (sym q) h)

Step-IsClosing : {s t : ServerState} (n : ℕ) → Step s t → IsClosing n s → IsClosing n t
unfolding loop_step stop_accepting worker_ends
Step-IsClosing n (loop a s) c = loop_from-IsClosing n a s.point s refl c.0 c.1
Step-IsClosing n (ends s some_running) c = (c.0, omega (arith, c.1))
Step-IsClosing n (stops s) c = (refl, c.1)

Steps-IsClosing : {s t : ServerState} (n : ℕ) → IsClosing n s → Steps s t → IsClosing n t
Steps-IsClosing n c here = c
Steps-IsClosing n c (and_then steps step) = Step-IsClosing n step (Steps-IsClosing n c steps)

-- In every interleaving of the loop, the workers and the requests to stop, the counter is the
-- number of workers, at most 16 of them run at a time, and the loop never has to take an addition
-- back; and once the flag is set, at most one more worker runs than at that time, however the loop
-- goes on.
pub serve-IsBounded :
    (s : ServerState)
    → Steps started s
    → (s.active ≡ s.running)
      × (s.running ≤ max_active_connections)
      × (s.point ≢ taking_back)
      × (s.shutdown ≡ true → (t : ServerState) → Steps s t → t.running ≤ s.running + 1)
serve-IsBounded s reached =
    let b =
      Steps-IsBounded (record { counted = refl; bounded = ground arith; room = tt }) reached in
    (
      b.counted,
      b.bounded,
      λ e. subst (λ p. IsRoom p s.active) e b.room,
      λ d t later. omega (arith, (Steps-IsClosing (s.running + 1) (d, closing s) later).1),
    )
  where
    closing : (s : ServerState) → s.running + pending s.point ≤ s.running + 1
    closing s = at_most s.point
      where
        at_most : (p : LoopPoint) → s.running + pending p ≤ s.running + 1
        at_most testing = omega arith
        at_most looking = omega arith
        at_most accepting = omega arith
        at_most accepted_one = omega arith
        at_most taking_back = omega arith
        at_most left_loop = omega arith
