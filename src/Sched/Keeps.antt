-- ===== src/Sched/Keeps.antt =====
-- kernel/sched.c: each operation on a run queue keeps the invariant.
use mathlib.Core.Path.{subst}
use nuvix.Prelude.{
  ℕ, ◌≡◌, refl, ap, ◌≢◌, inl, inr, Bool, true, false, Option, some, arith, ◌==◌, Bool-cases, sym,
  not, ◌||◌, none, ◌∙◌, ◌&&◌, leb, length,
}
use nuvix.Signal.{State, new, runnable}
use nuvix.Sched.Switch.{sched_switch-IsSound}
use nuvix.Sched.{
  Rq, Outside, Wakeup, put, init, wake_task, woken_states, by_wake, by_wake_interruptible,
  by_wake_signal, by_resume, stopped, zombie, sleeps,
}
use nuvix.Sched.Run.{
  set_sleep, mark_stopped, sched_switch, sched_exit, sched_tick, sched_irq_exit, switch_mm,
  new_deadline,
}
use nuvix.Sched.Sound.{IsSound, wake_task-some, woken, woken-IsSound}

pub init-IsSound : (idle : ℕ) (mm : ℕ → Option ℕ) → IsSound (init idle mm)
init-IsSound idle mm = record {
  once = λ t. refl;
  runs = λ t. refl;
  waiting = λ t e. absurd (ground (arith, e));
  kept = λ t e. ground (arith, e);
  idle_ready = ground arith;
  unstarted = λ t e. ground (arith, e);
  load = ground arith;
  handed = refl;
}

-- The current task takes a state in which it does not run on.
pub marked-IsSound :
    (q : Rq) (s : State)
    → IsSound q
    → (q.curr == q.idle) ≡ false
    → (s ≡ new → ⊥)
    → IsSound (record q { state = put q.state q.curr s })
marked-IsSound q s v apart h = record {
  once = v.once;
  runs = v.runs;
  waiting = λ u k. ground (arith, v.waiting u, k);
  kept = λ u k. ground (arith, v.kept u, k);
  idle_ready = ground (arith, v.idle_ready, apart);
  unstarted = λ u k. ground (arith, v.unstarted u, k, h);
  load = v.load;
  handed = v.handed;
}

pub timed-IsSound :
    (q : Rq) (d : ℕ) (f : ℕ → Bool)
    → IsSound q
    → IsSound (record q { quantum_deadline = d; need_resched = f })
timed-IsSound q d f v = record {
  once = v.once;
  runs = v.runs;
  waiting = v.waiting;
  kept = v.kept;
  idle_ready = v.idle_ready;
  unstarted = v.unstarted;
  load = v.load;
  handed = v.handed;
}

-- No wake-up takes a runnable task.
pub woken_states-runnable : (w : Wakeup) → woken_states w runnable ≡ false
woken_states-runnable by_wake = refl
woken_states-runnable by_wake_interruptible = refl
woken_states-runnable (by_wake_signal sig) = refl
woken_states-runnable by_resume = refl

pub awake_apart : (w : Wakeup) (s : State) → woken_states w s ≡ true → s ≡ runnable → ⊥
awake_apart w s h e = absurd (ground (arith, ap (woken_states w) e, h, woken_states-runnable w))

-- From a sound queue a wake-up never halts, and the queue is sound again.
pub wake_task-IsSound :
    (w : Wakeup) (q : Rq) (t : ℕ) (remote : Bool)
    → IsSound q
    → (b c : Bool) × (q' : Rq) × (wake_task q t (woken_states w) remote ≡ some (b, (c, q')))
      × IsSound q'
wake_task-IsSound w q t remote v =
    let e = wake_task-some q t (woken_states w) remote v (woken_states-runnable w) in
    elim (Bool-cases (woken_states w (q.state t))) [
      | inl h ↦ (
        true,
        (woken q t remote).0,
        (woken q t remote).1,
        (rw h at e),
        woken-IsSound q t remote v (awake_apart w (q.state t) h),
      )
      | inr h ↦ (false, false, q, (rw h at e), v)
    ]

pub outcome :
    {A : Type 0} (q : Rq) (o : Option (A × Rq))
    → (m : A) × (r : Rq) × (o ≡ some (m, r)) × IsSound r
    → (m : A) (q' : Rq) → o ≡ some (m, q')
    → IsSound q'
outcome q o (m, r, e, v) n q' f =
    let same : some (m, r) ≡ some (n, q') = sym e ∙ f in subst IsSound (ground (arith, same)) v

pub set_sleep-IsSound :
    (q : Rq) (s : State) (q' : Rq) → IsSound q → set_sleep q s ≡ some q' → IsSound q'
unfolding set_sleep
set_sleep-IsSound q s q' v e = elim (Bool-cases (not (q.curr == q.idle) && sleeps s)) [
  | inl h ↦
      let same : some (record q { state = put q.state q.curr s }) ≡ some q' = rw h at e in
      subst IsSound (ground (arith, same))
        (marked-IsSound q s v (ground (arith, h)) (λ k. absurd (ground (arith, h, ap sleeps k))))
  | inr h ↦ absurd (ground (arith, e, h))
]

pub sched_exit-IsSound :
    (q : Rq) (detached : Bool) (o : Outside) (m : Option ℕ) (q' : Rq)
    → IsSound q
    → sched_exit q detached o ≡ some (m, q')
    → IsSound q'
unfolding sched_exit sched_switch
sched_exit-IsSound q detached o m q' v e = elim (Bool-cases (q.curr == q.idle || not detached)) [
  | inl h ↦ absurd (ground (arith, e, h))
  | inr h ↦
      let r : Rq = record q { state = put q.state q.curr zombie } in
      let w : IsSound r =
        marked-IsSound q zombie v (ground (arith, h)) (λ k. absurd (ground (arith, k))) in
      outcome r (sched_switch r false o) (sched_switch-IsSound r false o w) m q' (rw h at e)
]

pub sched_irq_exit-IsSound :
    (q : Rq) (p : ℕ) (o : Outside) (m : Option ℕ) (q' : Rq)
    → IsSound q
    → sched_irq_exit q p o ≡ some (m, q')
    → IsSound q'
unfolding sched_irq_exit
sched_irq_exit-IsSound q p o m q' v e =
    elim (Bool-cases (not (p == 0) || not (q.need_resched q.curr))) [
      | inl h ↦
          let same : some (none, q) ≡ some (m, q') = rw h at e in
          subst IsSound (ground (arith, same)) v
      | inr h ↦
          outcome q (sched_switch q false o) (sched_switch-IsSound q false o v) m q' (rw h at e)
    ]

pub sched_tick-IsSound : (q : Rq) (o : Outside) → IsSound q → IsSound (sched_tick q o)
unfolding sched_tick
sched_tick-IsSound q o v =
    elim (Bool-cases (not (q.curr == q.idle) && leb q.quantum_deadline o.now)) [
      | inr h ↦ rw h v
      | inl h ↦ rw h (elim (Bool-cases (not (length q.ready == 0))) [
        | inl k ↦ rw k (timed-IsSound q q.quantum_deadline (put q.need_resched q.curr true) v)
        | inr k ↦ rw k (timed-IsSound q (new_deadline o) q.need_resched v)
      ])
    ]

pub mark_stopped-IsSound :
    (q : Rq) (b : Bool) → (q.curr ≢ q.idle) → IsSound q → IsSound (mark_stopped q b)
unfolding mark_stopped
mark_stopped-IsSound q false apart v = v
mark_stopped-IsSound q true apart v =
    marked-IsSound q stopped v (ground (arith, apart)) (λ k. absurd (ground (arith, k)))

pub switch_mm-IsSound : (q : Rq) (m : ℕ) → IsSound q → IsSound (switch_mm q m).1
unfolding switch_mm
switch_mm-IsSound q m v = record {
  once = v.once;
  runs = v.runs;
  waiting = v.waiting;
  kept = v.kept;
  idle_ready = v.idle_ready;
  unstarted = v.unstarted;
  load = v.load;
  handed = v.handed;
}
