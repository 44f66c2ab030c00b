-- ===== src/Sched/Run.antt =====
-- kernel/sched.c: what the current task does with the run queue: sleep, switch, exit; and the tick.
use nuvix.Prelude.{
  ℕ, ◌+◌, ◌%◌, ◌^◌, Bool, true, false, ◌&&◌, ◌||◌, not, Option, none, some, leb, ◌==◌,
  if◌then◌else◌, length,
}
use mathlib.Core.Option
use nuvix.Prelude.Pow.{sub32}
use nuvix.Signal.{State, runnable, interruptible, stopped, zombie, killable}
use nuvix.Wait.{sleeps}
use nuvix.Sched.{Rq, Outside, put, is_runnable, enqueue_task, pick_next_task}

-- The states a task may sleep in by `sched_set_sleep_locked`.
unfoldable pub set_sleep : Rq → State → Option Rq
set_sleep q s =
    if not (q.curr == q.idle) && sleeps s
    then some record q { state = put q.state q.curr s }
    else none

-- `signal_pending_state` of the current task.
abbrev pub signal_pending_state : State → Outside → Bool
signal_pending_state interruptible o = o.sigpending
signal_pending_state killable o = o.kill_pending
signal_pending_state s o = false

abbrev pub new_deadline : Outside → ℕ
new_deadline o = (o.now + o.quantum_ticks) % 2 ^ 64

abbrev pub same_mm : Option ℕ → Option ℕ → Bool
same_mm none none = true
same_mm (some m) (some n) = m == n
same_mm a b = false

-- `sched_prepare_switch_locked` from the choice of the next task on.
unfoldable pub take_over : Rq → Outside → Rq
unfolding pick_next_task
take_over q o =
    let picked = pick_next_task record q { need_resched = put q.need_resched q.curr false } in
    let next = picked.0 in
    let r = picked.1 in
    let same = same_mm (r.mm next) r.active_mm in
    record r {
      prev_mm = if same then r.prev_mm else r.active_mm;
      active_mm = if same then r.active_mm else r.mm next;
      curr = next;
      quantum_deadline = new_deadline o;
      on_cpu = put r.on_cpu next true;
    }

-- `sched_prepare_switch_locked`: whether another task runs now, and the queue.
unfoldable pub prepare_switch : Rq → (rotate : Bool) → Outside → Option Rq
unfolding enqueue_task take_over
prepare_switch q rotate o =
    let prev = q.curr in
    let state = if signal_pending_state (q.state prev) o then runnable else q.state prev in
    let r : Rq = record q { state = put q.state prev state } in
    let due = rotate || r.need_resched prev in
    if not (is_runnable state)
    then some (take_over record r { nr_runnable = sub32 r.nr_runnable 1 } o)
    else if length r.ready == 0
    then some record r {
      quantum_deadline = if not (prev == r.idle) && due then new_deadline o else r.quantum_deadline;
      need_resched = put r.need_resched prev false;
    }
    else if prev == r.idle
    then some (take_over r o)
    else if not due
    then some r
    else Option.map (λ r'. take_over r' o) (enqueue_task r prev)

-- `sched_finish_switch_locked`: the address space whose reference is to be dropped, and the queue.
unfoldable pub finish_switch : Rq → (prev : ℕ) → Option (Option ℕ × Rq)
finish_switch q prev =
    if prev == q.curr
    then none
    else some (q.prev_mm, record q { on_cpu = put q.on_cpu prev false; prev_mm = none })

-- `sched_switch` after `sched_prepare_switch_locked`, for the task `prev` that ran before.
abbrev pub switch_from : (prev : ℕ) → Option Rq → Option (Option ℕ × Rq)
switch_from prev none = none
switch_from prev (some q) = if prev == q.curr then some (none, q) else finish_switch q prev

-- The `Assert`s of CONFIG_DEBUG_CONTEXT, on interrupts and the preemption count, are not modelled.
unfoldable pub sched_switch : Rq → (rotate : Bool) → Outside → Option (Option ℕ × Rq)
unfolding prepare_switch finish_switch
sched_switch q rotate o = switch_from q.curr (prepare_switch q rotate o)

-- `sched_exit`, whose task never runs again; `detached` says that it has given up what it held.
unfoldable pub sched_exit : Rq → (detached : Bool) → Outside → Option (Option ℕ × Rq)
unfolding prepare_switch finish_switch
sched_exit q detached o =
    if q.curr == q.idle || not detached
    then none
    else switch_from q.curr (prepare_switch record q { state = put q.state q.curr zombie } false o)

-- `sched_stop` up to `sched_park`, by the flag TF_STOPPENDING of the current task.
unfoldable pub mark_stopped : Rq → (stoppending : Bool) → Rq
mark_stopped q stoppending =
    if stoppending then record q { state = put q.state q.curr stopped } else q

unfoldable pub sched_tick : Rq → Outside → Rq
sched_tick q o =
    if not (q.curr == q.idle) && leb q.quantum_deadline o.now
    then (if not (length q.ready == 0)
        then record q { need_resched = put q.need_resched q.curr true }
        else record q { quantum_deadline = new_deadline o })
    else q

unfoldable pub sched_irq_exit : Rq → (preempt_count : ℕ) → Outside → Option (Option ℕ × Rq)
unfolding sched_switch
sched_irq_exit q preempt_count o =
    let switched = sched_switch q false o in
    if not (preempt_count == 0) || not (q.need_resched q.curr) then some (none, q) else switched

-- mm/mm.c, `switch_mm`: the address space whose processor reference is to be dropped, and the queue.
unfoldable pub switch_mm : Rq → (mm : ℕ) → Option ℕ × Rq
switch_mm q m = (q.active_mm, record q { mm = put q.mm q.curr (some m); active_mm = some m })
