-- ===== src/Sched/Switch.antt =====
-- kernel/sched.c: a switch keeps the invariant of a run queue, and never halts.
use nuvix.Prelude.{
  ℕ, ◌≡◌, refl, ap, inl, inr, Bool, true, false, ◌||◌, Option, none, some, List, [], ◌∷◌, arith,
  ◌==◌, if◌then◌else◌, ==_iff, Bool-cases, length, ◌++◌, not, ◌&&◌, ◌≢◌, fun_ext,
}
use nuvix.Signal.{runnable}
use nuvix.Sched.Loose.{IsLoose, arrived, dropped, List-cases, to_head}
use nuvix.Sched.{Rq, Outside, put, State, is_runnable, sub32}
use nuvix.Sched.Run.{take_over, new_deadline, signal_pending_state, prepare_switch, sched_switch}
use nuvix.Sched.Sound.{IsSound, revived, revived-IsSound}
use nuvix.Sched.Leave.{
  Leaves, head_apart, idle-IsLoose, leave_head, leave_idle, parked-IsLoose, requeued,
  requeued-IsLoose, running,
}

-- The state of the current task, after a signal that may wake it.
abbrev pub state_now : Rq → Outside → State
state_now q o = if signal_pending_state (q.state q.curr) o then runnable else q.state q.curr

runnable-is_runnable : (s : State) → is_runnable s ≡ true → s ≡ runnable
runnable-is_runnable s e = ground (arith, e)

-- The idle task does not give up the processor.
asleep_apart :
    (q : Rq) (o : Outside)
    → IsSound q
    → is_runnable (state_now q o) ≡ false
    → (q.curr == q.idle) ≡ false
asleep_apart q o v h = elim (Bool-cases (q.curr == q.idle)) [
  | inl k ↦
      let idle : q.state q.curr ≡ runnable = rw ((==_iff q.curr q.idle).0 k) v.idle_ready in
      absurd (ground (arith, h, idle))
  | inr k ↦ k
]

pub park-Leaves :
    (q : Rq) (rotate : Bool) (o : Outside)
    → IsSound q
    → is_runnable (state_now q o) ≡ false
    → Leaves q.curr (prepare_switch q rotate o)
unfolding prepare_switch
park-Leaves q rotate o v h =
    let apart = asleep_apart q o v h in
    let r : Rq = record q {
      state = put q.state q.curr (state_now q o);
      nr_runnable = sub32 q.nr_runnable 1;
    } in
    let loose : IsLoose r = parked-IsLoose q (state_now q o) v h apart in
    rw h (elim (List-cases q.ready) [
      | inl e ↦ leave_idle r o loose e (ground (arith, apart))
      | inr (t, ts, e) ↦ leave_head r o loose t ts e (head_apart q t ts v e)
    ])

-- The current task goes on; its quantum and its flag may change.
stay-IsSound :
    (q : Rq)
    → IsSound q
    → (d : ℕ) (f : ℕ → Bool)
    → IsSound (record (running q) { quantum_deadline = d; need_resched = f })
stay-IsSound q v d f =
    let w : IsSound (revived q q.curr) = revived-IsSound q q.curr v (ground arith) in
    record {
      once = w.once;
      runs = w.runs;
      waiting = w.waiting;
      kept = w.kept;
      idle_ready = w.idle_ready;
      unstarted = w.unstarted;
      load = w.load;
      handed = w.handed;
    }

stay-Leaves :
    (q : Rq)
    → IsSound q
    → (d : ℕ) (f : ℕ → Bool)
    → Leaves q.curr (some (record (running q) { quantum_deadline = d; need_resched = f }))
stay-Leaves q v d f =
    let same : (q.curr == q.curr) ≡ true = ground arith in
    (
      none,
      record (running q) { quantum_deadline = d; need_resched = f },
      rw same refl,
      stay-IsSound q v d f,
    )

unlisted : (q : Rq) → IsSound q → q.on_rq q.curr ≡ false
unlisted q v = elim (Bool-cases (q.on_rq q.curr)) [
  | inl e ↦ absurd (ground (arith, (v.waiting q.curr e).1))
  | inr e ↦ e
]

rotate-Leaves :
    (q : Rq) (o : Outside)
    → IsSound q
    → (q.curr == q.idle) ≡ false
    → (t : ℕ) (ts : List ℕ) → q.ready ≡ t ∷ ts
    → Leaves q.curr (some (take_over (requeued q) o))
rotate-Leaves q o v h t ts e =
    leave_head (requeued q) o (requeued-IsLoose q v h) t (ts ++ q.curr ∷ []) (rw e refl)
      (head_apart q t ts v e)

run-Leaves :
    (q : Rq) (rotate : Bool) (o : Outside)
    → IsSound q
    → state_now q o ≡ runnable
    → Leaves q.curr (prepare_switch q rotate o)
unfolding prepare_switch
run-Leaves q rotate o v h = rw h (elim (List-cases q.ready) [
  | inl e ↦
      let none_ready : (length q.ready == 0) ≡ true = rw e (ground arith) in
      rw none_ready (
        stay-Leaves q v
          (if not (q.curr == q.idle) && (rotate || q.need_resched q.curr)
            then new_deadline o
            else q.quantum_deadline)
          (put q.need_resched q.curr false))
  | inr (t, ts, e) ↦
      let some_ready : (length q.ready == 0) ≡ false = rw e (ground arith) in
      rw some_ready (elim (Bool-cases (q.curr == q.idle)) [
        | inl k ↦
            rw k (leave_head (running q) o (idle-IsLoose q v k) t ts e (head_apart q t ts v e))
        | inr k ↦
            rw (k, unlisted q v)
              (elim (Bool-cases (rotate || q.need_resched q.curr)) [
                | inl due ↦ rw due (rotate-Leaves q o v k t ts e)
                | inr due ↦ rw due (stay-Leaves q v q.quantum_deadline q.need_resched)
              ])
      ])
])

-- From a sound queue a switch never halts, and the queue is sound again.
pub sched_switch-IsSound :
    (q : Rq) (rotate : Bool) (o : Outside)
    → IsSound q
    → (m : Option ℕ) × (q' : Rq) × (sched_switch q rotate o ≡ some (m, q')) × IsSound q'
unfolding sched_switch
sched_switch-IsSound q rotate o v = elim (Bool-cases (is_runnable (state_now q o))) [
  | inl h ↦ run-Leaves q rotate o v (runnable-is_runnable (state_now q o) h)
  | inr h ↦ park-Leaves q rotate o v h
]

-- From a sound queue with a ready task, whose current task is runnable, is not the idle task, and is to
-- give way by a yield or by need_resched, `sched_switch` does not halt: the first ready task runs
-- now, the current one goes to the end of the list, and no task's state changes.
pub sched_switch-rotates :
    (q : Rq) (rotate : Bool) (o : Outside) (t : ℕ) (ts : List ℕ)
    → IsSound q
    → (q.curr ≢ q.idle)
    → q.state q.curr ≡ runnable
    → (rotate || q.need_resched q.curr) ≡ true
    → q.ready ≡ t ∷ ts
    → (m : Option ℕ) × (q' : Rq) × (sched_switch q rotate o ≡ some (m, q'))
      × (q'.curr ≡ t)
      × (q'.ready ≡ ts ++ q.curr ∷ [])
      × (q'.state ≡ q.state)
unfolding sched_switch prepare_switch
sched_switch-rotates q rotate o t ts v apart h due e =
    let k : (q.curr == q.idle) ≡ false = ground (arith, apart) in
    let some_ready : (length q.ready == 0) ≡ false = rw e (ground arith) in
    let loose = requeued-IsLoose q v k in
    let order : q.ready ++ q.curr ∷ [] ≡ t ∷ (ts ++ q.curr ∷ []) = rw e refl in
    (
      dropped (requeued q) t,
      arrived (requeued q) o t (ts ++ q.curr ∷ []) (put (requeued q).on_rq t false),
      rw (h, some_ready, k, unlisted q v, due)
          (to_head (requeued q) o loose t (ts ++ q.curr ∷ []) order (head_apart q t ts v e)),
      refl,
      refl,
      fun_ext (λ u. ground (arith, h, ap q.state)),
    )
