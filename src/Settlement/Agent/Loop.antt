-- ===== src/Settlement/Agent/Loop.antt =====
-- packages/settlement/src/agent.ts: the timer, its cycles and the calls of runOnce as a state machine.
-- runOnce is public and apps/api/src/app.ts calls it for POST /agent/run; it does not look at #running.
use pakta.Base.{
  ℕ, ◌+◌, ◌-◌, ◌≤◌, Bool, true, false, ◌≡◌, refl, arith, if◌then◌else◌, Bool-cases, inl, inr,
}

-- Whether there is a timer, the `#running` flag, and the cycles that have begun and not ended: those
-- of the timer's ticks, and those of direct calls of `runOnce`.
pub record AgentLoop : Type 0 where
  pub timer : Bool
  pub running : Bool
  pub ticking : ℕ
  pub called : ℕ

abbrev pub initial : AgentLoop
initial = record { timer = false; running = false; ticking = 0; called = 0 }

-- `tick`, up to the first `await`: it returns at once while a cycle is running.
unfoldable pub tick : AgentLoop → AgentLoop
tick s = if s.running then s else record s { running = true; ticking = s.ticking + 1 }

-- The `finally` of a tick, once its cycle has returned or thrown.
unfoldable pub finish_tick : AgentLoop → AgentLoop
finish_tick s = record s { running = false; ticking = s.ticking - 1 }

unfoldable pub start : AgentLoop → AgentLoop
start s = if s.timer then s else tick (record s { timer = true })

unfoldable pub stop : AgentLoop → AgentLoop
stop s = record s { timer = false }

-- A direct call of `runOnce` begins, and ends.
unfoldable pub call_run_once : AgentLoop → AgentLoop
call_run_once s = record s { called = s.called + 1 }

unfoldable pub finish_run_once : AgentLoop → AgentLoop
finish_run_once s = record s { called = s.called - 1 }

-- What may happen next: a call of `start` or `stop`, the timer's interval, the end of a tick's
-- cycle, and the beginning and the end of a direct call.
pub data Step (s : AgentLoop) : AgentLoop → Type 0 where
  starts : Step s (start s)
  stops : Step s (stop s)
  fires : s.timer ≡ true → Step s (tick s)
  finishes : 1 ≤ s.ticking → Step s (finish_tick s)
  calls : Step s (call_run_once s)
  returns : 1 ≤ s.called → Step s (finish_run_once s)

pub data Reachable : AgentLoop → Type 0 where
  begins : Reachable initial
  goes_on : {s t : AgentLoop} → Reachable s → Step s t → Reachable t

-- The flag says whether a tick's cycle is in flight.
abbrev pub cycles_of : Bool → ℕ
cycles_of true = 1
cycles_of false = 0

tick-flag :
    (s : AgentLoop)
    → s.ticking ≡ cycles_of s.running
    → (tick s).ticking ≡ cycles_of (tick s).running
unfolding tick
tick-flag s h = ground arith

Step-flag :
    (s t : AgentLoop) → Step s t → s.ticking ≡ cycles_of s.running → t.ticking ≡ cycles_of t.running
unfolding start stop finish_tick call_run_once finish_run_once
Step-flag s _ starts h = elim (Bool-cases s.timer) [
  | inl on ↦ rw (on, start) h
  | inr off ↦ rw (off, start) (tick-flag (record s { timer = true }) h)
]
Step-flag s _ stops h = h
Step-flag s _ (fires on) h = tick-flag s h
Step-flag s _ (finishes some_cycle) h = ground arith
Step-flag s _ calls h = h
Step-flag s _ (returns some_call) h = h

Reachable-flag : (s : AgentLoop) → Reachable s → s.ticking ≡ cycles_of s.running
Reachable-flag s begins = refl
Reachable-flag s (goes_on {s = r} before step) = Step-flag r s step (Reachable-flag r before)

-- However the agent is started and stopped, whenever its timer fires, and whoever calls runOnce in
-- between: at most one cycle of the timer's ticks is in flight, and one is just when the flag says so.
-- Nothing is said of the cycles of direct calls, which the flag does not hold back.
pub one_tick : (s : AgentLoop) → Reachable s → (s.ticking ≤ 1) × (s.ticking ≡ cycles_of s.running)
one_tick s h =
    let flag = Reachable-flag s h in
    elim (Bool-cases s.running) [ inl on ↦ (ground arith, flag) | inr off ↦ (ground arith, flag) ]

-- A direct call overlaps the cycle of a tick: after a start and a call both are in flight.
pub two_cycles : (s : AgentLoop) × Reachable s × (s.ticking ≡ 1) × (s.called ≡ 1)
unfolding start tick call_run_once
two_cycles = (call_run_once (start initial), goes_on (goes_on begins starts) calls, refl, refl)
