-- ===== src/Completion.antt =====
-- kernel/completion.c: each region under the lock of the wait queue is one operation. A task is a
-- number.
pub mod Covered
pub mod Ready
mod Tests
use nuvix.Prelude.{
  ℕ, zero, suc, ◌+◌, ◌-◌, ◌*◌, ◌/◌, ◌%◌, ◌^◌, ◌≤◌, ◌<◌, min, max, ◌≡◌, refl, sym, ap, ◌∙◌, fun_ext,
  ◌≢◌, ◌↔◌, ◌⊎◌, inl, inr, Bool, true, false, ◌&&◌, ◌||◌, not, Option, none, some, List, [], ◌∷◌,
  ◌++◌, arith, ltb, leb, ◌==◌, if◌then◌else◌, ltb→lt, ltb-false, lt→ltb, leb→le, ==_iff, Bool-cases,
  Option-cases, length, get_elem?, get_or, set, take, drop, All, keep_if, length-append, length-set,
  length-take, get_or-set_self, get_or-set_ne,
}
use nuvix.Errno.{Errno, Result, ok, err, erestartsys, etimedout}
use nuvix.Signal.{State, State, uninterruptible}
use nuvix.Wait.{
  empty_queue, Attempt, ready, failed, parked, WaitQueue, prepare_to_wait, finish_wait, wake_up_one,
  wake_up_all, sched_wake,
}

pub record Completion : Type 0 where
  pub done : ℕ
  pub wait : WaitQueue

-- UINT32_MAX
abbrev pub forever : ℕ
forever = 4294967295

abbrev pub init : (ℕ → State) → Completion
init f = record { done = 0; wait = empty_queue f }

unfoldable pub reinit : Completion → Completion
reinit c = record c { done = 0 }

unfoldable pub take_completion : Completion → Bool × Completion
take_completion c =
    if c.done == 0
    then (false, c)
    else if c.done == forever
    then (true, c)
    else (true, record c { done = c.done - 1 })

unfoldable pub complete : Completion → Completion
complete c = record {
  done = if c.done == forever then c.done else (c.done + 1) % 2 ^ 32;
  wait = wake_up_one c.wait;
}

unfoldable pub complete_all : Completion → Completion
complete_all c = record { done = forever; wait = wake_up_all c.wait }

-- A round of `wait_for_completion_state`: the caller is the task `t`, which is to sleep in the state `s`,
-- and `pending` is the result of `signal_pending_state`.
unfoldable pub wait_round :
    Completion → (t : ℕ) → (s : State) → (pending : Bool) → Attempt × Completion
unfolding take_completion
wait_round c t s pending =
    let left : Completion = record c { wait = finish_wait c.wait t } in
    let (took, rest) = take_completion left in
    if took
    then (ready, rest)
    else if pending
    then (failed erestartsys, left)
    else (parked, record left { wait = prepare_to_wait left.wait t s })

-- A round of `wait_for_completion_until` at the time `now`: `armed` tells whether the timer was started
-- in an earlier round, and `start` is the result of `timer_start`.
unfoldable pub until_round :
    Completion
    → (t now deadline : ℕ) → (armed : Bool) → (start : Result (Unit {0}))
    → Attempt × Bool × Completion
unfolding take_completion
until_round c t now deadline armed start =
    let left : Completion = record c { wait = finish_wait c.wait t } in
    let (took, rest) = take_completion left in
    let parks : Attempt × Bool × Completion =
      (parked, true, record left { wait = prepare_to_wait left.wait t uninterruptible }) in
    if took
    then (ready, armed, rest)
    else if leb deadline now
    then (failed etimedout, armed, left)
    else if armed
    then parks
    else elim start [ ok _ ↦ parks | err e ↦ (failed e, false, left) ]

unfoldable pub timed_out : Completion → ℕ → Completion
timed_out c t = record c { wait = record c.wait { state = (sched_wake c.wait.state t).1 } }

unfoldable pub try_wait : Completion → Bool × Completion
try_wait c = take_completion c
