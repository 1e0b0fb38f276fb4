-- ===== src/Broker/Serve.antt =====
-- The accepting loop of `serve` in src/broker/linux.rs beside its worker threads and the calls of
-- `stop_accepting` and `shutdown`: each atomic access is one step, in any interleaving.
pub mod Bounds
use codex_autoapprover.Prelude.{
  ◌+◌, ◌-◌, ◌<◌, Bool, [], if◌then◌else◌, false, if◌then◌else◌, leb, if◌then◌else◌, true, ℕ,
}

abbrev pub max_active_connections : ℕ
max_active_connections = 16

-- Where the loop is: in front of its test of the flag, in front of its look at the counter, in
-- front of `accept`, with a stream that it has accepted, behind a `fetch_add` that it takes back, or
-- behind the loop.
pub data LoopPoint : Type 0 where
  testing : LoopPoint
  looking : LoopPoint
  accepting : LoopPoint
  accepted_one : LoopPoint
  taking_back : LoopPoint
  left_loop : LoopPoint

-- `running` counts the workers that have not yet subtracted themselves.
pub record ServerState : Type 0 where
  pub active : ℕ
  pub running : ℕ
  pub shutdown : Bool
  pub point : LoopPoint

abbrev pub started : ServerState
started = record { active = 0; running = 0; shutdown = false; point = testing }

-- The loop's own step, with what `accept` answers.
pub data AcceptAnswer : Type 0 where
  stream : AcceptAnswer
  would_block : AcceptAnswer
  accept_failed : AcceptAnswer

unfoldable pub loop_from : AcceptAnswer → LoopPoint → ServerState → ServerState
loop_from answer testing s =
    if s.shutdown then record s { point = left_loop } else record s { point = looking }
loop_from answer looking s =
    if leb max_active_connections s.active
    then record s { point = testing }
    else record s { point = accepting }
loop_from stream accepting s = record s { point = accepted_one }
loop_from would_block accepting s = record s { point = testing }
loop_from accept_failed accepting s = record s { point = left_loop }
loop_from answer accepted_one s =
    if leb max_active_connections s.active
    then record s { active = s.active + 1; point = taking_back }
    else record s { active = s.active + 1; running = s.running + 1; point = testing }
loop_from answer taking_back s = record s { active = s.active - 1; point = testing }
loop_from answer left_loop s = s

unfoldable pub loop_step : AcceptAnswer → ServerState → ServerState
unfolding loop_from
loop_step answer s = loop_from answer s.point s

-- A worker's `fetch_sub` behind its connection.
unfoldable pub worker_ends : ServerState → ServerState
worker_ends s = record s { active = s.active - 1; running = s.running - 1 }

-- `self.shared.shutdown.store(true, …)`
unfoldable pub stop_accepting : ServerState → ServerState
stop_accepting s = record s { shutdown = true }

-- One access, by any thread.
pub data Step : ServerState → ServerState → Type 0 where
  loop : (answer : AcceptAnswer) (s : ServerState) → Step s (loop_step answer s)
  ends : (s : ServerState) → 0 < s.running → Step s (worker_ends s)
  stops : (s : ServerState) → Step s (stop_accepting s)

-- Any number of steps.
pub data Steps (s : ServerState) : ServerState → Type 0 where
  here : Steps s s
  and_then : {t u : ServerState} → Steps s t → Step t u → Steps s u
