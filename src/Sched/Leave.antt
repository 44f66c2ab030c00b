-- ===== src/Sched/Leave.antt =====
-- kernel/sched.c: the ways in which a task gives up the processor.
use nuvix.Prelude.{
  times-append, times, ℕ, ◌≡◌, true, false, Option, some, List, [], ◌∷◌, arith, ◌==◌, if◌then◌else◌,
  ◌++◌, length-append, times,
}
use nuvix.Signal.{runnable}
use nuvix.Sched.Loose.{IsLoose, arrived, dropped, to_idle, to_head, idle-IsSound, head-IsSound}
use nuvix.Sched.{Rq, Outside, put, State, is_runnable, sub32}
use nuvix.Sched.Run.{switch_from, take_over}
use nuvix.Sched.Sound.{IsSound}

-- A switch from a queue whose current task is given up.
abbrev pub Leaves : (prev : ℕ) → Option Rq → Type 0
Leaves prev r = (m : Option ℕ) × (q' : Rq) × (switch_from prev r ≡ some (m, q')) × IsSound q'

pub leave_idle :
    (q : Rq) (o : Outside)
    → IsLoose q
    → q.ready ≡ []
    → (q.idle == q.curr) ≡ false
    → Leaves q.curr (some (take_over q o))
leave_idle q o v e h =
    (dropped q q.idle, arrived q o q.idle [] q.on_rq, to_idle q o v e h, idle-IsSound q o v e h)

pub leave_head :
    (q : Rq) (o : Outside)
    → IsLoose q
    → (t : ℕ) (ts : List ℕ) → q.ready ≡ t ∷ ts
    → (t == q.curr) ≡ false
    → Leaves q.curr (some (take_over q o))
leave_head q o v t ts e h = (
  dropped q t,
  arrived q o t ts (put q.on_rq t false),
  to_head q o v t ts e h,
  head-IsSound q o v t ts e h,
)

-- The first in the list does not run.
pub head_apart :
    (q : Rq) (t : ℕ) (ts : List ℕ) → IsSound q → q.ready ≡ t ∷ ts → (t == q.curr) ≡ false
head_apart q t ts v e =
    let once : times t (t ∷ ts) ≡ (if q.on_rq t then 1 else 0) = rw e at (v.once t) in
    let listed : q.on_rq t ≡ true = ground (arith, once) in (v.waiting t listed).1

pub parked-IsLoose :
    (q : Rq) (s : State)
    → IsSound q
    → is_runnable s ≡ false
    → (q.curr == q.idle) ≡ false
    → IsLoose (record q { state = put q.state q.curr s; nr_runnable = sub32 q.nr_runnable 1 })
parked-IsLoose q s v h apart = record {
  once = v.once;
  runs = v.runs;
  waiting = λ u k. ground (arith, v.waiting u, k);
  kept = λ u k. ground (arith, v.kept u, k, h);
  idle_ready = ground (arith, v.idle_ready, apart);
  load = ground (arith, v.load, apart);
  handed = v.handed;
}

abbrev pub running : Rq → Rq
running q = record q { state = put q.state q.curr runnable }

pub idle-IsLoose : (q : Rq) → IsSound q → (q.curr == q.idle) ≡ true → IsLoose (running q)
idle-IsLoose q v h = record {
  once = v.once;
  runs = v.runs;
  waiting = λ u k. ground (arith, v.waiting u, k);
  kept = λ u k. ground (arith, v.kept u, k, h);
  idle_ready = ground (arith, v.idle_ready);
  load = ground (arith, v.load, h);
  handed = v.handed;
}

abbrev pub requeued : Rq → Rq
requeued q = record q {
  state = put q.state q.curr runnable;
  ready = q.ready ++ q.curr ∷ [];
  on_rq = put q.on_rq q.curr true;
}

pub requeued-IsLoose : (q : Rq) → IsSound q → (q.curr == q.idle) ≡ false → IsLoose (requeued q)
requeued-IsLoose q v h = record {
  once = λ u. ground (arith, times-append u q.curr q.ready, v.once u, v.waiting q.curr);
  runs = v.runs;
  waiting = λ u k. ground (arith, v.waiting u, k, h);
  kept = λ u k. ground (arith, v.kept u, k, h);
  idle_ready = ground (arith, v.idle_ready);
  load = ground (arith, length-append {0} q.ready (q.curr ∷ []), v.load, h);
  handed = v.handed;
}
