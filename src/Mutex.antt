-- ===== src/Mutex.antt =====
-- kernel/mutex.c: each region under the lock of the wait queue is one operation. A task is a number.
pub mod Safe
mod Tests
use nuvix.Prelude.{
  ℕ, zero, suc, ◌+◌, ◌-◌, ◌*◌, ◌/◌, ◌%◌, ◌^◌, ◌≤◌, ◌<◌, min, max, ◌≡◌, refl, sym, ap, ◌∙◌, fun_ext,
  ◌≢◌, ◌↔◌, ◌⊎◌, inl, inr, Bool, true, false, ◌&&◌, ◌||◌, not, Option, none, some, List, [], ◌∷◌,
  ◌++◌, arith, ltb, leb, ◌==◌, if◌then◌else◌, ltb→lt, ltb-false, lt→ltb, leb→le, ==_iff, Bool-cases,
  Option-cases, length, get_elem?, get_or, set, take, drop, All, keep_if, length-append, length-set,
  length-take, get_or-set_self, get_or-set_ne,
}
use nuvix.Errno.{Errno, Errno, eintr}
use nuvix.Signal.{State}
use nuvix.Wait.{
  empty_queue, Attempt, ready, failed, parked, WaitQueue, prepare_to_wait, finish_wait, wake_up_one,
}

pub record Mutex : Type 0 where
  pub owner : Option ℕ
  pub wait : WaitQueue

abbrev pub init : (ℕ → State) → Mutex
init f = record { owner = none; wait = empty_queue f }

-- A round of the loop of `mutex_lock_state`: the caller is the task `t`, which is to sleep in the state
-- `s`, and `pending` is the result of `signal_pending_state`.
unfoldable pub lock_round : Mutex → (t : ℕ) → (s : State) → (pending : Bool) → Attempt × Mutex
lock_round m t s pending =
    let wait = finish_wait m.wait t in
    elim m.owner [
      | none ↦ (ready, record { owner = some t; wait = wait })
      | some u ↦
          if pending
          then (failed eintr, record m { wait = wait })
          else (parked, record m { wait = prepare_to_wait wait t s })
    ]

unfoldable pub trylock : Mutex → ℕ → Bool × Mutex
trylock m t = elim m.owner [ none ↦ (true, record m { owner = some t }) | some u ↦ (false, m) ]

unfoldable pub unlock : Mutex → Mutex
unlock m = record { owner = none; wait = wake_up_one m.wait }
