-- ===== src/Sched/Tests.antt =====
-- Runs of kernel/sched.c, and its theorems at concrete inputs: the idle task 0 and the tasks 1 and 2.
use nuvix.Prelude.{
  ℕ, ◌+◌, ◌%◌, ◌<◌, ◌≡◌, refl, true, false, Option, none, some, [], ◌∷◌, arith, ◌==◌, if◌then◌else◌,
  ◌^◌, ◌≤◌,
}
use nuvix.Signal.{interruptible}
use nuvix.Sched.{Rq, Outside, init, sched_publish, wake_task, woken_states, by_wake}
use nuvix.Sched.Run.{set_sleep, sched_switch, sched_tick}
use nuvix.Sched.Select.{select_cpu, select_cpu-least}
use nuvix.Sched.Sound.{IsSound}
use nuvix.Sched.Switch.{sched_switch-rotates}
use nuvix.Sched.Steps.{
  Reach, Reach-IsSound, wake_task-runs, begin, step, publish, sleep, switch, Awakes,
}

abbrev outside : Outside
outside = record { now = 1000; quantum_ticks = 50; sigpending = false; kill_pending = false }

abbrev start : Rq
start = init 0 (λ i. if i == 0 then none else some i)

abbrev result {ℓ} : {A : Type ℓ} → Rq → Option (A × Rq) → Rq
result q none = q
result q (some (m, q')) = q'

abbrev published : Rq
unfolding sched_publish
published = result start (sched_publish start 1 true)

abbrev both : Rq
unfolding sched_publish
both = result published (sched_publish published 2 false)

idle_notified : sched_publish start 1 true ≡ some (true, published)
unfolding sched_publish
idle_notified = refl

both_listed : both.ready ≡ 1 ∷ 2 ∷ []
unfolding sched_publish
both_listed = refl

abbrev one_runs : Rq
unfolding sched_switch
one_runs = result both (sched_switch both false outside)

one_runs_now :
    (one_runs.curr ≡ 1)
    × (one_runs.ready ≡ 2 ∷ [])
    × (one_runs.quantum_deadline ≡ 1050)
    × (one_runs.nr_runnable ≡ 2)
unfolding sched_switch sched_publish
one_runs_now = (refl, refl, refl, refl)

-- The quantum is over.
late_tick : (sched_tick one_runs record outside { now = 1050 }).need_resched 1 ≡ true
unfolding sched_switch sched_publish sched_tick
late_tick = refl

abbrev asleep : Rq
unfolding sched_switch
asleep = result one_runs (
    sched_switch record one_runs { state = λ i. if i == 1 then interruptible else one_runs.state i }
      false outside)

two_runs_now : (asleep.curr ≡ 2) × (asleep.ready ≡ []) × (asleep.nr_runnable ≡ 1)
unfolding sched_switch sched_publish
two_runs_now = (refl, refl, refl)

least_loaded : select_cpu (λ c. if c == 2 then 1 else 3) 4 1 ≡ (2, 3)
unfolding select_cpu
least_loaded = refl

select_cpu-least_example :
    ((select_cpu (λ c. if c == 2 then 1 else 3) 4 1).0 < 4)
    × ((select_cpu (λ c. if c == 2 then 1 else 3) 4 1).1
        ≡ ((select_cpu (λ c. if c == 2 then 1 else 3) 4 1).0 + 1) % 4)
    × ((c : ℕ)
        → c < 4
        → ((if (select_cpu (λ c. if c == 2 then 1 else 3) 4 1).0 == 2 then 1 else 3) + 2 ^ 31)
            % 2 ^ 32
          ≤ ((if c == 2 then 1 else 3) + 2 ^ 31) % 2 ^ 32)
select_cpu-least_example = select_cpu-least (λ c. if c == 2 then 1 else 3) 4 1 (omega arith)

one-Reach : Reach one_runs
unfolding sched_switch sched_publish
one-Reach =
    step
      (step (step (begin 0 (λ i. if i == 0 then none else some i)) (publish 1 true true refl))
        (publish 2 false false refl))
      (switch false outside none refl)

asleep-Reach : Reach asleep
unfolding sched_switch sched_publish set_sleep
asleep-Reach = step (step one-Reach (sleep interruptible refl)) (switch false outside (some 1) refl)

Reach-IsSound_example : IsSound asleep
Reach-IsSound_example = Reach-IsSound asleep-Reach

wake_task-runs_example :
    Awakes by_wake asleep 1 (wake_task asleep 1 (woken_states by_wake) false)
    × ((m : Option ℕ) × (q' : Rq) × (sched_switch asleep true outside ≡ some (m, q')))
unfolding sched_switch sched_publish
wake_task-runs_example = wake_task-runs asleep-Reach by_wake 1 false true outside

sched_switch-rotates_example :
    (m : Option ℕ) × (q' : Rq) × (sched_switch one_runs true outside ≡ some (m, q'))
    × (q'.curr ≡ 2)
    × (q'.ready ≡ 1 ∷ [])
    × (q'.state ≡ one_runs.state)
unfolding sched_switch sched_publish
sched_switch-rotates_example =
    sched_switch-rotates one_runs true outside 2 [] (Reach-IsSound one-Reach) (omega arith) refl
      refl refl
