-- ===== src/Sched/Steps.antt =====
-- kernel/sched.c: every run of the operations on a run queue keeps the invariant.
use mathlib.Core.Path.{subst}
use nuvix.Prelude.{
  ℕ, ◌≡◌, ◌≢◌, Bool, true, Option, some, arith, ◌==◌, sym, ◌||◌, ◌∙◌, inl, Bool-cases, ◌⊎◌, inr,
  false, ap, refl,
}
use nuvix.Signal.{new, interruptible, uninterruptible, killable, stopped, zombie, State, runnable}
use nuvix.Sched.Switch.{sched_switch-IsSound}
use nuvix.Sched.{
  by_wake, by_wake_interruptible, by_wake_signal, by_resume, Rq, Outside, Wakeup, init,
  sched_publish, wake_task, woken_states, interruptible, uninterruptible, killable, by_wake_signal,
  stopped,
}
use nuvix.Sched.Run.{
  set_sleep, mark_stopped, sched_switch, sched_exit, sched_tick, sched_irq_exit, switch_mm,
}
use nuvix.Sched.Sound.{IsSound, wake_task-some, woken, sched_publish-IsSound}
use nuvix.Sched.Keeps.{
  init-IsSound, mark_stopped-IsSound, outcome, sched_exit-IsSound, sched_irq_exit-IsSound,
  sched_tick-IsSound, set_sleep-IsSound, switch_mm-IsSound, wake_task-IsSound,
  woken_states-runnable,
}

-- The steps of a processor's queue: those of its current task, of its interrupts, and of other tasks.
pub data Step (q q' : Rq) : Type 0 where
  publish : (t : ℕ) (remote b : Bool) → sched_publish q t remote ≡ some (b, q') → Step q q'
  wake :
      (w : Wakeup) (t : ℕ) (remote b c : Bool)
      → wake_task q t (woken_states w) remote ≡ some (b, (c, q'))
      → Step q q'
  sleep : (s : State) → set_sleep q s ≡ some q' → Step q q'
  stop : (stoppending : Bool) → (q.curr ≢ q.idle) → q' ≡ mark_stopped q stoppending → Step q q'
  switch :
      (rotate : Bool) (o : Outside) (m : Option ℕ)
      → sched_switch q rotate o ≡ some (m, q')
      → Step q q'
  exit :
      (detached : Bool) (o : Outside) (m : Option ℕ)
      → sched_exit q detached o ≡ some (m, q')
      → Step q q'
  tick : (o : Outside) → q' ≡ sched_tick q o → Step q q'
  irq_exit :
      (preempt_count : ℕ) (o : Outside) (m : Option ℕ)
      → sched_irq_exit q preempt_count o ≡ some (m, q')
      → Step q q'
  new_space : (m : ℕ) → q' ≡ (switch_mm q m).1 → Step q q'

-- From the queue of a processor that was brought up.
pub data Reach : Rq → Type 0 where
  begin : (idle : ℕ) (mm : ℕ → Option ℕ) → Reach (init idle mm)
  step : {q q' : Rq} → Reach q → Step q q' → Reach q'

step-IsSound : (q q' : Rq) → IsSound q → Step q q' → IsSound q'
step-IsSound q q' v (publish t remote b e) = sched_publish-IsSound q t remote b q' v e
step-IsSound q q' v (wake w t remote b c e) =
    let (b', c', r, f, s) = wake_task-IsSound w q t remote v in
    let same : some (b', (c', r)) ≡ some (b, (c, q')) = sym f ∙ e in
    subst IsSound (ground (arith, same)) s
step-IsSound q q' v (sleep s e) = set_sleep-IsSound q s q' v e
step-IsSound q q' v (stop b apart e) = rw e (mark_stopped-IsSound q b apart v)
step-IsSound q q' v (switch rotate o m e) =
    outcome q (sched_switch q rotate o) (sched_switch-IsSound q rotate o v) m q' e
step-IsSound q q' v (exit d o m e) = sched_exit-IsSound q d o m q' v e
step-IsSound q q' v (tick o e) = rw e (sched_tick-IsSound q o v)
step-IsSound q q' v (irq_exit p o m e) = sched_irq_exit-IsSound q p o m q' v e
step-IsSound q q' v (new_space m e) = rw e (switch_mm-IsSound q m v)

-- In every run of the operations on the queue of a processor, by its own tasks and by others, the
-- list holds just the tasks with `on_rq`, each once; they are runnable and do not run; a runnable task
-- is listed, runs, or is the idle task; and the load is the number of the listed tasks and the current
-- one, if it is not the idle task.
pub Reach-IsSound : {q : Rq} → Reach q → IsSound q
Reach-IsSound (begin idle mm) = init-IsSound idle mm
Reach-IsSound (step {q} {q'} r s) = step-IsSound q q' (Reach-IsSound r) s

-- The states from which each kind of wake-up wakes a task.
abbrev pub Wakes : Wakeup → State → Type 0
Wakes by_wake s = (s ≡ interruptible) ⊎ ((s ≡ uninterruptible) ⊎ (s ≡ killable))
Wakes by_wake_interruptible s = s ≡ interruptible
Wakes (by_wake_signal sig) s = (s ≡ interruptible) ⊎ ((s ≡ killable) × (sig ≡ 9))
Wakes by_resume s = s ≡ stopped

woken_from : (w : Wakeup) (s : State) → Wakes w s → woken_states w s ≡ true
woken_from by_wake s (inl e) = ap (woken_states by_wake) e
woken_from by_wake s (inr (inl e)) = ap (woken_states by_wake) e
woken_from by_wake s (inr (inr e)) = ap (woken_states by_wake) e
woken_from by_wake_interruptible s e = ap (woken_states by_wake_interruptible) e
woken_from (by_wake_signal sig) s (inl e) = ap (woken_states (by_wake_signal sig)) e
woken_from (by_wake_signal sig) s (inr (e, k)) =
    ap (woken_states (by_wake_signal sig)) e ∙ ground (arith, k)
woken_from by_resume s e = ap (woken_states by_resume) e

woken_Wakes : (w : Wakeup) (s : State) → woken_states w s ≡ true → Wakes w s
woken_Wakes by_wake interruptible h = inl refl
woken_Wakes by_wake uninterruptible h = inr (inl refl)
woken_Wakes by_wake killable h = inr (inr refl)
woken_Wakes by_wake new h = ground (arith, h)
woken_Wakes by_wake runnable h = ground (arith, h)
woken_Wakes by_wake stopped h = ground (arith, h)
woken_Wakes by_wake zombie h = ground (arith, h)
woken_Wakes by_wake_interruptible interruptible h = refl
woken_Wakes by_wake_interruptible uninterruptible h = ground (arith, h)
woken_Wakes by_wake_interruptible killable h = ground (arith, h)
woken_Wakes by_wake_interruptible new h = ground (arith, h)
woken_Wakes by_wake_interruptible runnable h = ground (arith, h)
woken_Wakes by_wake_interruptible stopped h = ground (arith, h)
woken_Wakes by_wake_interruptible zombie h = ground (arith, h)
woken_Wakes (by_wake_signal sig) interruptible h = inl refl
woken_Wakes (by_wake_signal sig) killable h = inr (refl, ground (arith, h))
woken_Wakes (by_wake_signal sig) uninterruptible h = ground (arith, h)
woken_Wakes (by_wake_signal sig) new h = ground (arith, h)
woken_Wakes (by_wake_signal sig) runnable h = ground (arith, h)
woken_Wakes (by_wake_signal sig) stopped h = ground (arith, h)
woken_Wakes (by_wake_signal sig) zombie h = ground (arith, h)
woken_Wakes by_resume stopped h = refl
woken_Wakes by_resume interruptible h = ground (arith, h)
woken_Wakes by_resume uninterruptible h = ground (arith, h)
woken_Wakes by_resume killable h = ground (arith, h)
woken_Wakes by_resume new h = ground (arith, h)
woken_Wakes by_resume runnable h = ground (arith, h)
woken_Wakes by_resume zombie h = ground (arith, h)

-- A wake-up of a task: it is runnable, and listed or running; or the wake-up was not for its state.
abbrev pub Awakes : Wakeup → Rq → ℕ → Option (Bool × (Bool × Rq)) → Type 0
Awakes w q t o =
    (Wakes w (q.state t)
      × (c : Bool) × (q' : Rq) × (o ≡ some (true, (c, q')))
      × (q'.state t ≡ runnable)
      × ((q'.on_rq t || t == q'.curr) ≡ true))
    ⊎ ((Wakes w (q.state t) → ⊥) × (o ≡ some (false, (false, q))))

-- After any run of the operations, each kind of wake-up of any task passes the tests that the model
-- has (`enqueue_task` finds no listed and no idle task), and so does a switch. A task in a state
-- that the wake-up is for is then runnable, and it is in the list or runs; on any other task the
-- wake-up fails and changes nothing.
pub wake_task-runs :
    {q : Rq}
    → Reach q
    → (w : Wakeup) (t : ℕ) (remote rotate : Bool) (o : Outside)
    → Awakes w q t (wake_task q t (woken_states w) remote)
      × ((m : Option ℕ) × (q' : Rq) × (sched_switch q rotate o ≡ some (m, q')))
wake_task-runs {q} r w t remote rotate o =
    let v = Reach-IsSound r in
    let e = wake_task-some q t (woken_states w) remote v (woken_states-runnable w) in
    let (m, q', f, s) = sched_switch-IsSound q rotate o v in
    (
      elim (Bool-cases (woken_states w (q.state t))) [
        | inl h ↦ inl (
          woken_Wakes w (q.state t) h,
          (woken q t remote).0,
          (woken q t remote).1,
          (rw h at e),
          ground arith,
          ground (arith, v.runs t),
        )
        | inr h ↦ inr (λ k. absurd (ground (arith, h, woken_from w (q.state t) k)), (rw h at e))
      ],
      (m, q', f),
    )
