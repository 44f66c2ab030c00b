-- ===== src/Wait.antt =====
-- kernel/wait.c: the queue of the tasks that wait for a condition, with the task states that
-- `sched_wake` and `sched_set_sleep_locked` of kernel/sched.c change. Each task has one entry.
pub mod Count
pub mod Covers
mod Tests
use nuvix.Prelude.{
  ℕ, zero, suc, ◌+◌, ◌-◌, ◌*◌, ◌/◌, ◌%◌, ◌^◌, ◌≤◌, ◌<◌, min, max, ◌≡◌, refl, sym, ap, ◌∙◌, fun_ext,
  ◌≢◌, ◌↔◌, ◌⊎◌, inl, inr, Bool, true, false, ◌&&◌, ◌||◌, not, Option, none, some, List, [], ◌∷◌,
  ◌++◌, arith, ltb, leb, ◌==◌, if◌then◌else◌, ltb→lt, ltb-false, lt→ltb, leb→le, ==_iff, Bool-cases,
  Option-cases, length, get_elem?, get_or, set, take, drop, All, keep_if, length-append, length-set,
  length-take, get_or-set_self, get_or-set_ne,
}
use nuvix.Errno.{Errno, erestartsys}
use nuvix.Signal.{
  State, new, runnable, interruptible, uninterruptible, stopped, zombie, killable, wake_task,
}

pub record WaitQueue : Type 0 where
  pub waiters : List ℕ
  pub state : ℕ → State

abbrev pub empty_queue : (ℕ → State) → WaitQueue
empty_queue f = record { waiters = []; state = f }

-- TASK_NORMAL and TASK_KILLABLE
abbrev pub sleeps : State → Bool
sleeps interruptible = true
sleeps uninterruptible = true
sleeps killable = true
sleeps s = false

abbrev pub set_state : (ℕ → State) → ℕ → State → ℕ → State
set_state f t s i = if i == t then s else f i

-- `sched_wake`: was the task asleep, and the states after it.
abbrev pub sched_wake : (ℕ → State) → ℕ → Bool × (ℕ → State)
sched_wake f t = (sleeps (f t), set_state f t (wake_task sleeps (f t)))

unfoldable pub listed : ℕ → List ℕ → Bool
listed t [] = false
listed t (w ∷ ws) = if w == t then true else listed t ws

-- `list_del_init` of the entry of a task.
unfoldable pub unlist : ℕ → List ℕ → List ℕ
unlist t [] = []
unlist t (w ∷ ws) = if w == t then ws else w ∷ unlist t ws

unfoldable pub prepare_to_wait : WaitQueue → ℕ → State → WaitQueue
unfolding listed
prepare_to_wait q t s = record q {
  waiters = if listed t q.waiters then q.waiters else q.waiters ++ t ∷ [];
  state = set_state q.state t s;
}

unfoldable pub finish_wait : WaitQueue → ℕ → WaitQueue
unfolding listed unlist
finish_wait q t =
    if not (listed t q.waiters)
    then q
    else record q { waiters = unlist t q.waiters; state = (sched_wake q.state t).1 }

unfoldable pub wake_first : (ℕ → State) → List ℕ → ℕ → State
wake_first f [] = f
wake_first f (w ∷ ws) = let (woke, g) = sched_wake f w in if woke then g else wake_first g ws

unfoldable pub wake_up_one : WaitQueue → WaitQueue
unfolding wake_first
wake_up_one q = record q { state = wake_first q.state q.waiters }

unfoldable pub wake_each : (ℕ → State) → List ℕ → ℕ → State
wake_each f [] = f
wake_each f (w ∷ ws) = wake_each (sched_wake f w).1 ws

unfoldable pub wake_up_all : WaitQueue → WaitQueue
unfolding wake_each
wake_up_all q = record q { state = wake_each q.state q.waiters }

-- What a round of a waiting loop does with the caller.
pub data Attempt : Type 0 where
  ready : Attempt
  failed : Errno → Attempt
  parked : Attempt

-- A round of `__wait_event`: the caller is the task `t`, which is to sleep in the state `s`, and `pending`
-- is the result of `signal_pending_state`.
unfoldable pub event_round :
    WaitQueue → (t : ℕ) → (s : State) → (condition pending : Bool) → Attempt × WaitQueue
unfolding finish_wait prepare_to_wait
event_round q t s condition pending =
    let left = finish_wait q t in
    if condition
    then (ready, left)
    else if pending
    then (failed erestartsys, left)
    else (parked, prepare_to_wait left t s)
