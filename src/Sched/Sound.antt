-- ===== src/Sched/Sound.antt =====
-- kernel/sched.c: the invariant of a run queue, and that the operations which list a task keep it.
use mathlib.Core.Path.{subst}
use nuvix.Prelude.{
  ℕ, ◌+◌, ◌%◌, ◌^◌, ◌≡◌, true, false, ◌||◌, none, [], ◌∷◌, ◌++◌, arith, ◌==◌, if◌then◌else◌, length,
  length-append, Bool-cases, Bool, inl, some, ◌&&◌, inr, ==_iff, sym, ap, ◌∙◌, refl, times,
  times-append,
}
use nuvix.Prelude.Pow.{add32}
use nuvix.Signal.{new, runnable}
use nuvix.Sched.{Rq, put, State, sched_publish, wake_task, is_new, enqueue_task}

-- The list has just the tasks with `on_rq`, each once. They are runnable and do not run. A runnable task
-- runs or is in the list, unless it is the idle task, which is always runnable.
pub record IsSound (q : Rq) : Type 0 where
  pub once : (t : ℕ) → times t q.ready ≡ (if q.on_rq t then 1 else 0)
  pub runs : (t : ℕ) → q.on_cpu t ≡ (t == q.curr)
  pub waiting :
      (t : ℕ)
      → q.on_rq t ≡ true
      → (q.state t ≡ runnable) × ((t == q.curr) ≡ false) × ((t == q.idle) ≡ false)
  pub kept : (t : ℕ) → q.state t ≡ runnable → (q.on_rq t || t == q.curr || t == q.idle) ≡ true
  pub idle_ready : q.state q.idle ≡ runnable
  pub unstarted : (t : ℕ) → q.state t ≡ new → (t == q.curr) ≡ false
  pub load : q.nr_runnable ≡ (length q.ready + (if q.curr == q.idle then 0 else 1)) % 2 ^ 32
  pub handed : q.prev_mm ≡ none

-- A task that neither runs nor is listed is admitted.
abbrev pub admitted : Rq → ℕ → Rq
admitted q t = record q {
  state = put q.state t runnable;
  ready = q.ready ++ t ∷ [];
  on_rq = put q.on_rq t true;
  need_resched = if q.curr == q.idle then put q.need_resched q.curr true else q.need_resched;
  nr_runnable = add32 q.nr_runnable 1;
}

pub admitted-IsSound :
    (q : Rq) (t : ℕ)
    → IsSound q
    → q.on_rq t ≡ false
    → (t == q.curr) ≡ false
    → (t == q.idle) ≡ false
    → IsSound (admitted q t)
admitted-IsSound q t v h hc hi = record {
  once = λ u. ground (arith, times-append u t q.ready, v.once u, h);
  runs = v.runs;
  waiting = λ u e. ground (arith, v.waiting u, e, hc, hi);
  kept = λ u e. ground (arith, v.kept u, e);
  idle_ready = ground (arith, v.idle_ready);
  unstarted = λ u e. ground (arith, v.unstarted u, e);
  load = ground (arith, length-append {0} q.ready (t ∷ []), v.load);
  handed = v.handed;
}

new-is_new : (s : State) → is_new s ≡ true → s ≡ new
new-is_new s e = ground (arith, e)

-- A task in a state that is not runnable is not listed.
unlisted : (q : Rq) (t : ℕ) → IsSound q → (q.state t ≡ runnable → ⊥) → q.on_rq t ≡ false
unlisted q t v h = elim (Bool-cases (q.on_rq t)) [
  | inl e ↦ absurd (h ((v.waiting t e).0))
  | inr e ↦ e
]

not_idle : (q : Rq) (t : ℕ) → IsSound q → (q.state t ≡ runnable → ⊥) → (t == q.idle) ≡ false
not_idle q t v h = elim (Bool-cases (t == q.idle)) [
  | inl e ↦ absurd (h (rw ((==_iff t q.idle).0 e) v.idle_ready))
  | inr e ↦ e
]

new-runnable : (s : State) → s ≡ new → s ≡ runnable → ⊥
new-runnable s e k = cc

pub sched_publish-some :
    (q : Rq) (t : ℕ) (remote : Bool)
    → IsSound q
    → q.state t ≡ new
    → sched_publish q t remote ≡ some (q.curr == q.idle && remote, admitted q t)
unfolding sched_publish enqueue_task
sched_publish-some q t remote v e =
    let not_runnable = new-runnable (q.state t) e in
    rw (e, unlisted q t v not_runnable, not_idle q t v not_runnable) refl

pub sched_publish-IsSound :
    (q : Rq) (t : ℕ) (remote : Bool) (b : Bool) (q' : Rq)
    → IsSound q
    → sched_publish q t remote ≡ some (b, q')
    → IsSound q'
unfolding sched_publish
sched_publish-IsSound q t remote b q' v e = elim (Bool-cases (is_new (q.state t))) [
  | inl h ↦
      let n = new-is_new (q.state t) h in
      let not_runnable = new-runnable (q.state t) n in
      let at : some (q.curr == q.idle && remote, admitted q t) ≡ some (b, q') =
        sym (sched_publish-some q t remote v n) ∙ e in
      subst IsSound (ground (arith, at)) (
        admitted-IsSound q t v (unlisted q t v not_runnable) (v.unstarted t n)
          (not_idle q t v not_runnable))
  | inr h ↦ absurd (ground (arith, e, h))
]

abbrev pub revived : Rq → ℕ → Rq
revived q t = record q { state = put q.state t runnable }

pub revived-IsSound : (q : Rq) (t : ℕ) → IsSound q → (t == q.curr) ≡ true → IsSound (revived q t)
revived-IsSound q t v h = record {
  once = v.once;
  runs = v.runs;
  waiting = λ u e. ground (arith, v.waiting u, e, h);
  kept = λ u e. ground (arith, v.kept u, e, h);
  idle_ready = ground (arith, v.idle_ready);
  unstarted = λ u e. ground (arith, v.unstarted u, e);
  load = v.load;
  handed = v.handed;
}

-- What a wake-up does to a task whose state is among the given ones.
abbrev pub woken : Rq → ℕ → (remote : Bool) → Bool × Rq
woken q t remote =
    if q.on_cpu t then (false, revived q t) else (q.curr == q.idle && remote, admitted q t)

pub wake_task-some :
    (q : Rq) (t : ℕ) (states : State → Bool) (remote : Bool)
    → IsSound q
    → states runnable ≡ false
    → wake_task q t states remote
      ≡ some (if states (q.state t) then (true, woken q t remote) else (false, (false, q)))
unfolding wake_task enqueue_task
wake_task-some q t states remote v s = elim (Bool-cases (states (q.state t))) [
  | inl h ↦
      let not_runnable : (q.state t ≡ runnable → ⊥) =
        λ e. absurd (ground (arith, ap states e, h, s)) in
      elim (Bool-cases (q.on_cpu t)) [
        | inl k ↦ rw (h, k) refl
        | inr k ↦ rw (h, k, unlisted q t v not_runnable, not_idle q t v not_runnable) refl
      ]
  | inr h ↦ rw h refl
]

pub woken-IsSound :
    (q : Rq) (t : ℕ) (remote : Bool)
    → IsSound q
    → (q.state t ≡ runnable → ⊥)
    → IsSound (woken q t remote).1
woken-IsSound q t remote v not_runnable = elim (Bool-cases (q.on_cpu t)) [
  | inl k ↦ rw k (revived-IsSound q t v (ground (arith, v.runs t, k)))
  | inr k ↦ rw k (
      admitted-IsSound q t v (unlisted q t v not_runnable) (ground (arith, v.runs t, k))
        (not_idle q t v not_runnable))
]
