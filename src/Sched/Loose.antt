-- ===== src/Sched/Loose.antt =====
-- kernel/sched.c: the queue of a task that gives up the processor, and the next task taking over.
use nuvix.Prelude.{
  times, ℕ, ◌%◌, ◌^◌, ◌<◌, ◌≡◌, refl, ap, ◌⊎◌, inl, inr, Bool, true, false, ◌||◌, Option, none,
  some, List, [], ◌∷◌, arith, ◌==◌, if◌then◌else◌, ==_iff, Bool-cases, length,
}
use nuvix.Signal.{new, runnable}
use nuvix.Sched.{Rq, Outside, put, pick_next_task}
use nuvix.Sched.Run.{finish_switch, switch_from, take_over, same_mm, new_deadline}
use nuvix.Sched.Sound.{IsSound}

-- The queue when its current task is given up: as if the task did not run.
pub record IsLoose (q : Rq) : Type 0 where
  pub once : (t : ℕ) → times t q.ready ≡ (if q.on_rq t then 1 else 0)
  pub runs : (t : ℕ) → q.on_cpu t ≡ (t == q.curr)
  pub waiting : (t : ℕ) → q.on_rq t ≡ true → (q.state t ≡ runnable) × ((t == q.idle) ≡ false)
  pub kept : (t : ℕ) → q.state t ≡ runnable → (q.on_rq t || t == q.idle) ≡ true
  pub idle_ready : q.state q.idle ≡ runnable
  pub load : q.nr_runnable ≡ length q.ready % 2 ^ 32
  pub handed : q.prev_mm ≡ none

-- The queue after the switch to `next`, with the others still listed.
abbrev pub arrived : Rq → Outside → (next : ℕ) → (rest : List ℕ) → (ℕ → Bool) → Rq
arrived q o next rest listed = record q {
  ready = rest;
  on_rq = listed;
  need_resched = put q.need_resched q.curr false;
  prev_mm = none;
  active_mm = if same_mm (q.mm next) q.active_mm then q.active_mm else q.mm next;
  curr = next;
  quantum_deadline = new_deadline o;
  on_cpu = put (put q.on_cpu next true) q.curr false;
}

abbrev pub dropped : Rq → (next : ℕ) → Option ℕ
dropped q next = if same_mm (q.mm next) q.active_mm then q.prev_mm else q.active_mm

pub List-cases {ℓ} :
    {A : Type ℓ} (xs : List A) → (xs ≡ []) ⊎ ((x : A) × (ys : List A) × (xs ≡ x ∷ ys))
List-cases [] = inl refl
List-cases (x ∷ ys) = inr (x, ys, refl)

times-head : (t : ℕ) (ts : List ℕ) → 0 < times t (t ∷ ts)
times-head t ts = ground arith

module _ (q : Rq) (o : Outside) (v : IsLoose q) where
  pub to_idle :
      q.ready ≡ []
      → (q.idle == q.curr) ≡ false
      → switch_from q.curr (some (take_over q o))
        ≡ some (dropped q q.idle, arrived q o q.idle [] q.on_rq)
  unfolding take_over pick_next_task finish_switch
  to_idle e h = rw e (ground (arith, h))

  pub to_head :
      (t : ℕ) (ts : List ℕ)
      → q.ready ≡ t ∷ ts
      → (t == q.curr) ≡ false
      → switch_from q.curr (some (take_over q o))
        ≡ some (dropped q t, arrived q o t ts (put q.on_rq t false))
  unfolding take_over pick_next_task finish_switch
  to_head t ts e h = rw e (ground (arith, h))

  started : (u t : ℕ) → q.state t ≡ runnable → q.state u ≡ new → (u == t) ≡ false
  started u t h e = elim (Bool-cases (u == t)) [
    | inl k ↦ absurd (ground (arith, h, e, ap q.state ((==_iff u t).0 k)))
    | inr k ↦ k
  ]

  pub idle-IsSound :
      q.ready ≡ [] → (q.idle == q.curr) ≡ false → IsSound (arrived q o q.idle [] q.on_rq)
  idle-IsSound e h =
      let once : (u : ℕ) → times u [] ≡ (if q.on_rq u then 1 else 0) = λ u. rw e at (v.once u) in
      let same : (q.idle == q.idle) ≡ true = ground arith in
      record {
        once = once;
        runs = λ u. ground (arith, v.runs u, h);
        waiting = λ u k. ground (arith, v.waiting u, k);
        kept = λ u k. ground (arith, v.kept u, k);
        idle_ready = v.idle_ready;
        unstarted = λ u k. started u q.idle v.idle_ready k;
        load = rw same (ground (arith, v.load, ap (λ ts. length ts) e));
        handed = refl;
      }

  pub head-IsSound :
      (t : ℕ) (ts : List ℕ)
      → q.ready ≡ t ∷ ts
      → (t == q.curr) ≡ false
      → IsSound (arrived q o t ts (put q.on_rq t false))
  head-IsSound t ts e h =
      let once : (u : ℕ) → times u (t ∷ ts) ≡ (if q.on_rq u then 1 else 0) =
        λ u. rw e at (v.once u) in
      let listed : q.on_rq t ≡ true = ground (arith, once t) in
      let ready = v.waiting t listed in
      record {
        once = λ u. ground (arith, once u, listed);
        runs = λ u. ground (arith, v.runs u, h);
        waiting = λ u k. ground (arith, v.waiting u, k);
        kept = λ u k. ground (arith, v.kept u, k);
        idle_ready = v.idle_ready;
        unstarted = λ u k. started u t (ready.0) k;
        load = ground (arith, v.load, ap (λ xs. length xs) e, ready.1);
        handed = refl;
      }
