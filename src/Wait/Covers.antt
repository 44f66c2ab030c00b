-- ===== src/Wait/Covers.antt =====
-- A queue of kernel/wait.c in which enough waiters are awake for a number of chances.
use nuvix.Prelude.{
  refl, ℕ, suc, ◌≤◌, min, ◌≡◌, inl, inr, false, [], ◌∷◌, arith, Bool-cases, length, length-append,
}
use nuvix.Signal.{State}
use nuvix.Wait.{
  WaitQueue, sleeps, set_state, sched_wake, listed, unlist, prepare_to_wait, finish_wait,
  wake_up_one, wake_up_all,
}
use nuvix.Wait.Count.{
  awake, Wakes, sched_wake-Wakes, awake-Wakes, wake_first-awake, wake_each-awake, unlist-awake,
  awake_elsewhere, unlist-length,
}

-- For each of `n` chances there is a waiter that is awake to take it, or all waiters are awake.
abbrev pub Covers : ℕ → WaitQueue → Type 0
Covers n q = min n (length q.waiters) ≤ awake q.state q.waiters

pub Covers-zero : (q : WaitQueue) → Covers 0 q
Covers-zero q = omega arith

pub Covers-less : (m n : ℕ) (q : WaitQueue) → m ≤ n → Covers n q → Covers m q
Covers-less m n q h c = omega (arith, h, c)

pub Covers-Wakes :
    (n : ℕ) (q : WaitQueue) (g : ℕ → State)
    → Wakes q.state g
    → Covers n q
    → Covers n (record q { state = g })
Covers-Wakes n q g h c = omega (arith, c, awake-Wakes q.state g q.waiters h)

pub wake_up_one-Covers : (n : ℕ) (q : WaitQueue) → Covers n q → Covers (suc n) (wake_up_one q)
unfolding wake_up_one
wake_up_one-Covers n q c = omega (arith, c, wake_first-awake q.state q.waiters)

pub wake_up_all-Covers : (n : ℕ) (q : WaitQueue) → Covers n (wake_up_all q)
unfolding wake_up_all
wake_up_all-Covers n q = omega (arith, wake_each-awake q.state q.waiters)

-- A task that runs leaves the queue: one chance is enough for it.
pub finish_wait-Covers :
    (n : ℕ) (q : WaitQueue) (t : ℕ)
    → sleeps (q.state t) ≡ false
    → Covers (suc n) q
    → Covers n (finish_wait q t)
unfolding finish_wait
finish_wait-Covers n q t e c = elim (Bool-cases (listed t q.waiters)) [
  | inr h ↦ rw h (omega (arith, c))
  | inl h ↦
      let gone = unlist-awake q.state t q.waiters h e in
      let wakes =
        awake-Wakes q.state (sched_wake q.state t).1 (unlist t q.waiters)
          (sched_wake-Wakes q.state t) in
      rw h (omega (arith, c, gone.0, gone.1, wakes))
]

pub finish_wait-length :
    (q : WaitQueue) (t : ℕ) → length (finish_wait q t).waiters ≤ length q.waiters
unfolding finish_wait
finish_wait-length q t = elim (Bool-cases (listed t q.waiters)) [
  | inl h ↦ rw h (unlist-length t q.waiters)
  | inr h ↦ rw h (omega arith)
]

-- As many chances as waiters, all awake: a task that runs leaves the queue.
pub finish_wait-all :
    (n : ℕ) (q : WaitQueue) (t : ℕ)
    → sleeps (q.state t) ≡ false
    → length q.waiters ≤ n
    → Covers n q
    → Covers n (finish_wait q t)
unfolding finish_wait
finish_wait-all n q t e l c = elim (Bool-cases (listed t q.waiters)) [
  | inr h ↦ rw h c
  | inl h ↦
      let gone = unlist-awake q.state t q.waiters h e in
      let wakes =
        awake-Wakes q.state (sched_wake q.state t).1 (unlist t q.waiters)
          (sched_wake-Wakes q.state t) in
      rw h (omega (arith, c, l, gone.0, gone.1, wakes))
]

pub set_state-Covers :
    (n : ℕ) (q : WaitQueue) (t : ℕ) (s : State)
    → listed t q.waiters ≡ false
    → Covers n q
    → Covers n (record q { state = set_state q.state t s })
set_state-Covers n q t s e c = omega (arith, c, awake_elsewhere q.state t s q.waiters e)

pub prepare_to_wait-length :
    (q : WaitQueue) (t : ℕ) (s : State)
    → length (prepare_to_wait q t s).waiters ≤ suc (length q.waiters)
unfolding prepare_to_wait
prepare_to_wait-length q t s = elim (Bool-cases (listed t q.waiters)) [
  | inl h ↦ rw h (omega arith)
  | inr h ↦ rw h (omega (arith, length-append q.waiters (t ∷ [])))
]

pub wake_up_one-waiters : (q : WaitQueue) → (wake_up_one q).waiters ≡ q.waiters
unfolding wake_up_one
wake_up_one-waiters q = refl

pub wake_up_all-waiters : (q : WaitQueue) → (wake_up_all q).waiters ≡ q.waiters
unfolding wake_up_all
wake_up_all-waiters q = refl
