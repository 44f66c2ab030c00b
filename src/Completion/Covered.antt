-- ===== src/Completion/Covered.antt =====
-- Runs of a completion of kernel/completion.c, and that no completion is lost: there are as many
-- awake waiters as completions to take.
use nuvix.Prelude.{
  ℕ, suc, ◌-◌, ◌≤◌, ◌<◌, ◌≡◌, refl, sym, ◌∙◌, ◌⊎◌, inl, inr, Bool, true, false, [], arith, leb,
  ◌==◌, ==_iff, Bool-cases, length,
}
use mathlib.Core.Path.{subst}
use nuvix.Errno.{Result, Result-cases}
use nuvix.Signal.{State, uninterruptible, wake_task}
use nuvix.Wait.{WaitQueue, sleeps, set_state, listed, prepare_to_wait, finish_wait, wake_up_one}
use nuvix.Wait.Count.{sched_wake-Wakes, wake_task-Wakes}
use nuvix.Wait.Covers.{
  Covers, Covers-less, Covers-Wakes, wake_up_one-Covers, wake_up_all-Covers, finish_wait-Covers,
  finish_wait-all, set_state-Covers, prepare_to_wait-length, wake_up_one-waiters,
  wake_up_all-waiters, finish_wait-length,
}
use nuvix.Completion.{
  init, Completion, forever, reinit, take_completion, complete, complete_all, wait_round,
  until_round, timed_out, try_wait,
}

abbrev with_state : Completion → (ℕ → State) → Completion
with_state c f = record c { wait = record c.wait { state = f } }

-- A round is run by a task that is awake, and there are fewer than UINT32_MAX tasks. A signal or
-- another event may wake any task, and a task outside the queue changes its state as it likes.
-- A completion is used again when nobody waits for it.
pub data Step (c : Completion) : Completion → Type 0 where
  completes : Step c (complete c)
  completes_all : Step c (complete_all c)
  tries : Step c (try_wait c).1
  waits :
      (t : ℕ) (s : State) (pending : Bool)
      → sleeps (c.wait.state t) ≡ false
      → length c.wait.waiters < forever
      → Step c (wait_round c t s pending).1
  waits_until :
      (t now deadline : ℕ) (armed : Bool) (start : Result (Unit {0}))
      → sleeps (c.wait.state t) ≡ false
      → length c.wait.waiters < forever
      → Step c (until_round c t now deadline armed start).2
  times_out : (t : ℕ) → Step c (timed_out c t)
  wakes :
      (t : ℕ) (states : State → Bool)
      → Step c (with_state c (set_state c.wait.state t (wake_task states (c.wait.state t))))
  goes_on :
      (t : ℕ) (s : State)
      → listed t c.wait.waiters ≡ false
      → Step c (with_state c (set_state c.wait.state t s))
  reused : c.wait.waiters ≡ [] → Step c (reinit c)

pub data Reach : Completion → Type 0 where
  fresh : (f : ℕ → State) → Reach (init f)
  later : {c d : Completion} → Reach c → Step c d → Reach d

abbrev pub IsCovered : Completion → Type 0
IsCovered c = Covers c.done c.wait × (length c.wait.waiters ≤ forever) × (c.done ≤ forever)

-- One less to take, or the same if there is no end of them.
abbrev pub Less : ℕ → ℕ → Type 0
Less n d = ((n ≡ forever) × (d ≡ forever)) ⊎ (n ≡ suc d)

pub take_completion-cases :
    (c : Completion)
    → ((c.done ≡ 0) × (take_completion c ≡ (false, c)))
      ⊎ ((d : ℕ) × (take_completion c ≡ (true, record c { done = d })) × Less c.done d)
unfolding take_completion
take_completion-cases c = elim (Bool-cases (c.done == 0)) [
  | inl h ↦ inl ((==_iff c.done 0).0 h, rw h refl)
  | inr h ↦ elim (Bool-cases (c.done == forever)) [
    | inl k ↦
        inr (c.done, rw (h, k) refl, inl ((==_iff c.done forever).0 k, (==_iff c.done forever).0 k))
    | inr k ↦ inr (c.done - 1, rw (h, k) refl, inr (ground arith))
  ]
]

none_left :
    (d : ℕ) (q : WaitQueue)
    → d ≡ 0
    → length q.waiters ≤ forever
    → Covers d q × (length q.waiters ≤ forever) × (d ≤ forever)
none_left d q e l = (omega (arith, e), l, omega (arith, e))

-- A caller that runs leaves the queue and takes a completion.
taken-Covers :
    (c : Completion) (t d : ℕ)
    → IsCovered c
    → sleeps (c.wait.state t) ≡ false
    → Less c.done d
    → Covers d (finish_wait c.wait t)
taken-Covers c t d (k, l, m) e (inl (n, n')) =
    subst (λ x. Covers x (finish_wait c.wait t)) (n ∙ sym n')
      (finish_wait-all c.done c.wait t e (omega (arith, l, n)) k)
taken-Covers c t d (k, l, m) e (inr n) =
    finish_wait-Covers d c.wait t e (subst (λ x. Covers x c.wait) n k)

Less-bound : (n d : ℕ) → Less n d → n ≤ forever → d ≤ forever
Less-bound n d (inl (e, e')) h = omega (arith, e')
Less-bound n d (inr e) h = omega (arith, e, h)

Less-down : (n d : ℕ) → Less n d → d ≤ n
Less-down n d (inl (e, e')) = omega (arith, e, e')
Less-down n d (inr e) = omega (arith, e)

complete-IsCovered : (c : Completion) → IsCovered c → IsCovered (complete c)
unfolding complete
complete-IsCovered c (k, l, m) =
    let more : Covers (suc c.done) (wake_up_one c.wait) = wake_up_one-Covers c.done c.wait k in
    let bound : length (wake_up_one c.wait).waiters ≤ forever = rw (wake_up_one-waiters c.wait) l in
    elim (Bool-cases (c.done == forever)) [
      | inl h ↦ rw h (omega (arith, more), bound, m)
      | inr h ↦
          let below : c.done < forever = ground (arith, h, m) in
          rw h (omega (arith, more, below), bound, omega (arith, below))
    ]

wait_round-IsCovered :
    (c : Completion) (t : ℕ) (s : State) (pending : Bool)
    → sleeps (c.wait.state t) ≡ false
    → length c.wait.waiters < forever
    → IsCovered c
    → IsCovered (wait_round c t s pending).1
unfolding wait_round
wait_round-IsCovered c t s pending e room (k, l, m) =
    let q = finish_wait c.wait t in
    let left : Completion = record c { wait = q } in
    let short = finish_wait-length c.wait t in
    elim (take_completion-cases left) [
      | inr (d, took, less) ↦
          rw took (
            taken-Covers c t d (k, l, m) e less,
            omega (arith, short, l),
            Less-bound c.done d less m,
          )
      | inl (empty, took) ↦ elim (Bool-cases pending) [
        | inl p ↦ rw (took, p) (none_left c.done q empty (omega (arith, short, l)))
        | inr p ↦
            rw (took, p)
              (none_left c.done (prepare_to_wait q t s) empty
                (omega (arith, short, room, prepare_to_wait-length q t s)))
      ]
    ]

until_round-IsCovered :
    (c : Completion) (t now deadline : ℕ) (armed : Bool) (start : Result (Unit {0}))
    → sleeps (c.wait.state t) ≡ false
    → length c.wait.waiters < forever
    → IsCovered c
    → IsCovered (until_round c t now deadline armed start).2
unfolding until_round
until_round-IsCovered c t now deadline armed start e room (k, l, m) =
    let q = finish_wait c.wait t in
    let left : Completion = record c { wait = q } in
    let short = finish_wait-length c.wait t in
    elim (take_completion-cases left) [
      | inr (d, took, less) ↦
          rw took (
            taken-Covers c t d (k, l, m) e less,
            omega (arith, short, l),
            Less-bound c.done d less m,
          )
      | inl (empty, took) ↦
          let stays = none_left c.done q empty (omega (arith, short, l)) in
          let parks =
            none_left c.done (prepare_to_wait q t uninterruptible) empty
              (omega (arith, short, room, prepare_to_wait-length q t uninterruptible)) in
          elim (Bool-cases (leb deadline now)) [
            | inl p ↦ rw (took, p) stays
            | inr p ↦ elim (Bool-cases armed) [
              | inl a ↦ rw (took, p, a) parks
              | inr a ↦ elim (Result-cases start) [
                | inl (x, r) ↦ rw (took, p, a, r) stays
                | inr (x, r) ↦ rw (took, p, a, r) parks
              ]
            ]
          ]
    ]

try_wait-IsCovered : (c : Completion) → IsCovered c → IsCovered (try_wait c).1
unfolding try_wait
try_wait-IsCovered c (k, l, m) = elim (take_completion-cases c) [
  | inl (empty, took) ↦ rw took (k, l, m)
  | inr (d, took, less) ↦
      rw took
        (Covers-less d c.done c.wait (Less-down c.done d less) k, l, Less-bound c.done d less m)
]

complete_all-IsCovered : (c : Completion) → IsCovered c → IsCovered (complete_all c)
unfolding complete_all
complete_all-IsCovered c h =
    (wake_up_all-Covers forever c.wait, rw (wake_up_all-waiters c.wait) h.1, omega arith)

timed_out-IsCovered : (c : Completion) (t : ℕ) → IsCovered c → IsCovered (timed_out c t)
unfolding timed_out
timed_out-IsCovered c t h =
    (Covers-Wakes c.done c.wait _ (sched_wake-Wakes c.wait.state t) h.0, h.1, h.2)

reinit-IsCovered : (c : Completion) → c.wait.waiters ≡ [] → IsCovered (reinit c)
unfolding reinit
reinit-IsCovered c e = none_left 0 c.wait refl (rw e (omega arith))

Step-IsCovered : {c d : Completion} → Step c d → IsCovered c → IsCovered d
Step-IsCovered {c} completes h = complete-IsCovered c h
Step-IsCovered {c} completes_all h = complete_all-IsCovered c h
Step-IsCovered {c} tries h = try_wait-IsCovered c h
Step-IsCovered {c} (waits t s p e room) h = wait_round-IsCovered c t s p e room h
Step-IsCovered {c} (waits_until t now deadline armed start e room) h =
    until_round-IsCovered c t now deadline armed start e room h
Step-IsCovered {c} (times_out t) h = timed_out-IsCovered c t h
Step-IsCovered {c} (wakes t states) h =
    (Covers-Wakes c.done c.wait _ (wake_task-Wakes c.wait.state t states) h.0, h.1, h.2)
Step-IsCovered {c} (goes_on t s e) h = (set_state-Covers c.done c.wait t s e h.0, h.1, h.2)
Step-IsCovered {c} (reused e) h = reinit-IsCovered c e

-- In every run of a completion with its waiters, fewer than UINT32_MAX whenever another one comes,
-- callers with a deadline, time-outs, signals and tasks that sleep elsewhere: of the waiters in the queue at least as many are awake as there are
-- completions to take, or all of them are; and neither number exceeds UINT32_MAX.
pub Reach-IsCovered : {c : Completion} → Reach c → IsCovered c
Reach-IsCovered (fresh f) = (omega arith, omega arith, omega arith)
Reach-IsCovered (later r s) = Step-IsCovered s (Reach-IsCovered r)
