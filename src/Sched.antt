-- ===== src/Sched.antt =====
-- kernel/sched.c: the run queue of a processor, with the fields of its tasks that the queue owns. A
-- task belongs to one processor from its publication on; before, it is new.
pub mod Run
pub mod Loose
pub mod Sound
pub mod Leave
pub mod Keeps
pub mod Switch
pub mod Steps
pub mod Select
mod Tests
use nuvix.Prelude.{
  ℕ, zero, suc, ◌+◌, ◌-◌, ◌*◌, ◌/◌, ◌%◌, ◌^◌, ◌≤◌, ◌<◌, min, max, ◌≡◌, refl, sym, ap, ◌∙◌, fun_ext,
  ◌≢◌, ◌↔◌, ◌⊎◌, inl, inr, Bool, true, false, ◌&&◌, ◌||◌, not, Option, none, some, List, [], ◌∷◌,
  ◌++◌, arith, ltb, leb, ◌==◌, if◌then◌else◌, ltb→lt, ltb-false, lt→ltb, leb→le, ==_iff, Bool-cases,
  Option-cases, length, get_elem?, get_or, set, take, drop, All, keep_if, length-append, length-set,
  length-take, get_or-set_self, get_or-set_ne,
}
use mathlib.Core.Option
use nuvix.Prelude.Pow.{add32, sub32}
use nuvix.Signal.{
  State, new, runnable, interruptible, uninterruptible, stopped, zombie, killable, wakes_on,
  is_stopped,
}
use nuvix.Wait.{sleeps}

-- `mm` gives the address space of each task.
pub record Rq : Type 0 where
  pub curr : ℕ
  pub idle : ℕ
  pub ready : List ℕ
  pub nr_runnable : ℕ
  pub quantum_deadline : ℕ
  pub active_mm : Option ℕ
  pub prev_mm : Option ℕ
  pub state : ℕ → State
  pub on_rq : ℕ → Bool
  pub on_cpu : ℕ → Bool
  pub need_resched : ℕ → Bool
  pub mm : ℕ → Option ℕ

-- What a switch reads from outside: the time, the quantum, and the pending signals of the task.
pub record Outside : Type 0 where
  pub now : ℕ
  pub quantum_ticks : ℕ
  pub sigpending : Bool
  pub kill_pending : Bool

abbrev pub put {ℓ} : {A : Type ℓ} → (ℕ → A) → ℕ → A → ℕ → A
put f t a i = if i == t then a else f i

abbrev pub is_runnable : State → Bool
is_runnable runnable = true
is_runnable s = false

abbrev pub is_new : State → Bool
is_new new = true
is_new s = false

-- `sched_init`, `sched_init_idle` and the bring-up of the processor, whose idle task runs.
abbrev pub init : (idle : ℕ) → (ℕ → Option ℕ) → Rq
init idle mm = record {
  curr = idle;
  idle = idle;
  ready = [];
  nr_runnable = 0;
  quantum_deadline = 0;
  active_mm = none;
  prev_mm = none;
  state = put (λ _. new) idle runnable;
  on_rq = λ _. false;
  on_cpu = λ i. i == idle;
  need_resched = λ _. false;
  mm = mm;
}

unfoldable pub enqueue_task : Rq → ℕ → Option Rq
enqueue_task q t =
    if q.on_rq t || t == q.idle
    then none
    else some record q {
      ready = q.ready ++ t ∷ [];
      on_rq = put q.on_rq t true;
      need_resched = if q.curr == q.idle then put q.need_resched q.curr true else q.need_resched;
    }

-- The next task, and the queue without it.
unfoldable pub pick_next_task : Rq → ℕ × Rq
pick_next_task q = elim q.ready [
  | [] ↦ (q.idle, q)
  | t ∷ ts ↦ (t, record q { ready = ts; on_rq = put q.on_rq t false })
]

-- The end of `sched_publish` and of `wake_task`, after `enqueue_task`: with the new load, and whether
-- a processor that is idle and not the caller's own is to be notified.
abbrev pub admit : (remote : Bool) → Option Rq → Option (Bool × Rq)
admit remote o =
    Option.map
      (λ (q : Rq). (q.curr == q.idle && remote, record q { nr_runnable = add32 q.nr_runnable 1 })) o

-- `sched_publish` on the selected processor.
unfoldable pub sched_publish : Rq → ℕ → (remote : Bool) → Option (Bool × Rq)
unfolding enqueue_task
sched_publish q t remote =
    if not (is_new (q.state t))
    then none
    else admit remote (enqueue_task record q { state = put q.state t runnable } t)

-- `wake_task`: whether the task woke, whether to notify, and the queue.
unfoldable pub wake_task : Rq → ℕ → (State → Bool) → (remote : Bool) → Option (Bool × (Bool × Rq))
unfolding enqueue_task
wake_task q t states remote =
    let woken : Rq = record q { state = put q.state t runnable } in
    if not (states (q.state t))
    then some (false, (false, q))
    else if q.on_cpu t
    then some (true, (false, woken))
    else Option.map (λ r. (true, r)) (admit remote (enqueue_task woken t))

abbrev pub is_interruptible : State → Bool
is_interruptible interruptible = true
is_interruptible s = false

-- The four calls of `wake_task`.
pub data Wakeup : Type 0 where
  by_wake : Wakeup
  by_wake_interruptible : Wakeup
  by_wake_signal : ℕ → Wakeup
  by_resume : Wakeup

abbrev pub woken_states : Wakeup → State → Bool
woken_states by_wake s = sleeps s
woken_states by_wake_interruptible s = is_interruptible s
woken_states (by_wake_signal sig) s = wakes_on sig s
woken_states by_resume s = is_stopped s
