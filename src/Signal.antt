-- ===== src/Signal.antt =====
-- kernel/signal.c and include/nuvix/signal.h: the signals of a task. A `sigset_t` is a word of the bitmaps, so `&`, `|`
-- and `~` are pointwise. Each region under `signal_lock` is one step.
pub mod Receive
pub mod Syscall
pub mod Inv
pub mod Action
pub mod Send
pub mod Effect
pub mod Get
pub mod Rounds
pub mod Total
pub mod Deliver
mod Runs
mod Tests
use nuvix.Prelude.{
  ℕ, zero, suc, ◌+◌, ◌-◌, ◌*◌, ◌/◌, ◌%◌, ◌^◌, ◌≤◌, ◌<◌, min, max, ◌≡◌, refl, sym, ap, ◌∙◌, fun_ext,
  ◌≢◌, ◌↔◌, ◌⊎◌, inl, inr, Bool, true, false, ◌&&◌, ◌||◌, not, Option, none, some, List, [], ◌∷◌,
  ◌++◌, arith, ltb, leb, ◌==◌, if◌then◌else◌, ltb→lt, ltb-false, lt→ltb, leb→le, ==_iff, Bool-cases,
  Option-cases, length, get_elem?, get_or, set, take, drop, All, keep_if, length-append, length-set,
  length-take, get_or-set_self, get_or-set_ne,
}
use Prim.Native.Nat.{bit_and}
use nuvix.Prelude.Int.{ℤ, pos}
use nuvix.Bitmap.{Word, nonzero, find_first_bit}

abbrev pub sig_kill : ℕ
sig_kill = 9

abbrev pub sig_chld : ℕ
sig_chld = 17

abbrev pub sig_cont : ℕ
sig_cont = 18

abbrev pub sig_stop : ℕ
sig_stop = 19

abbrev pub sig_tstp : ℕ
sig_tstp = 20

abbrev pub sig_ttin : ℕ
sig_ttin = 21

abbrev pub sig_ttou : ℕ
sig_ttou = 22

abbrev pub sig_urg : ℕ
sig_urg = 23

abbrev pub sig_winch : ℕ
sig_winch = 28

abbrev pub sig_max : ℕ
sig_max = 31

abbrev pub sa_nodefer : ℕ
sa_nodefer = 0x40000000

abbrev pub sa_resethand : ℕ
sa_resethand = 0x80000000

abbrev pub sig_dfl : ℕ
sig_dfl = 0

abbrev pub sig_ign : ℕ
sig_ign = 1

-- `1UL << (sig - 1)`, for `sig` from 1 on.
abbrev pub sigmask : ℕ → Word
sigmask sig i = i == sig - 1

abbrev pub stop_mask : Word
stop_mask i = sigmask sig_stop i || sigmask sig_tstp i || sigmask sig_ttin i || sigmask sig_ttou i

abbrev pub unblock_mask : Word
unblock_mask i = sigmask sig_kill i || sigmask sig_stop i

abbrev pub ignored_mask : Word
ignored_mask i =
    sigmask sig_chld i || sigmask sig_cont i || sigmask sig_urg i || sigmask sig_winch i

-- `!!(w & sigmask(sig))`
unfoldable pub has : Word → ℕ → Bool
has w sig = nonzero (λ i. w i && sigmask sig i)

-- `fields` holds the words of the union.
pub record Siginfo : Type 0 where
  pub signo : ℕ
  pub code : ℤ
  pub fields : List ℕ

pub record Sigaction : Type 0 where
  pub handler : ℕ
  pub flags : ℕ
  pub mask : Word

pub data State : Type 0 where
  new : State
  runnable : State
  interruptible : State
  uninterruptible : State
  stopped : State
  zombie : State
  killable : State

-- The fields of `struct task` that signals use: `pending` and `queue` are the set and the list of
-- `pending`, and the last three are the flags TF_SIGPENDING, TF_STOPPENDING and TF_SIGSUSPEND.
pub record Task : Type 0 where
  pub blocked : Word
  pub saved : Word
  pub pending : Word
  pub queue : List Siginfo
  pub actions : ℕ → Sigaction
  pub state : State
  pub sigpending : Bool
  pub stoppending : Bool
  pub sigsuspend : Bool

unfoldable pub signal_ignored : Sigaction → ℕ → Bool
signal_ignored action sig =
    action.handler == sig_ign || action.handler == sig_dfl && has ignored_mask sig

-- The signals that are pending and not blocked.
abbrev pub deliverable : Task → Word
deliverable t i = t.pending i && not (t.blocked i)

unfoldable pub recalc_sigpending : Task → Task
recalc_sigpending t = record t { sigpending = nonzero (deliverable t) }

abbrev pub default_action : Sigaction
default_action = record { handler = sig_dfl; flags = 0; mask = λ _. false }

unfoldable pub signal_task_init : Task → Task
signal_task_init t = record t {
  queue = [];
  pending = λ _. false;
  blocked = λ _. false;
  actions = λ i. if ltb i sig_max then default_action else t.actions i;
}

unfoldable pub signal_task_free : Task → Task
signal_task_free t = record t { queue = []; pending = λ _. false }

unfoldable pub flush_signals_locked : Task → Word → Task
flush_signals_locked t mask = record t {
  queue = keep_if (λ q. not (has mask q.signo)) t.queue;
  pending = λ i. t.pending i && not (mask i);
}

-- kernel/sched.c: the state that `wake_task` leaves; the run queue is not part of the model.
abbrev pub wake_task : (State → Bool) → State → State
wake_task states s = if states s then runnable else s

abbrev pub is_stopped : State → Bool
is_stopped stopped = true
is_stopped s = false

abbrev pub wakes_on : ℕ → State → Bool
wakes_on sig interruptible = true
wakes_on sig killable = sig == sig_kill
wakes_on sig s = false

-- `sched_resume`
abbrev pub sched_resume : State → State
sched_resume s = wake_task is_stopped s

-- `sched_wake_signal`
abbrev pub sched_wake_signal : ℕ → State → State
sched_wake_signal sig s = wake_task (wakes_on sig) s

-- The stop signals and SIGCONT drop each other.
unfoldable pub cancel : Task → ℕ → Task
cancel t sig =
    let flushed =
      if has stop_mask sig
      then flush_signals_locked t (sigmask sig_cont)
      else if sig == sig_cont
      then flush_signals_locked t stop_mask
      else t in
    record flushed {
      stoppending = if sig == sig_cont || sig == sig_kill then false else flushed.stoppending;
    }

-- A signal that is not pending is recorded unless it is ignored; `room` says whether `kmalloc` gave
-- an entry for the list.
unfoldable pub enlist : Bool → Task → Siginfo → Task
enlist room t info =
    let sig = info.signo in
    if not (has t.pending sig)
      && (has t.blocked sig || not (signal_ignored (t.actions (sig - 1)) sig))
    then record t {
      queue = if room then t.queue ++ info ∷ [] else t.queue;
      pending = λ i. t.pending i || sigmask sig i;
    }
    else t

unfoldable pub send_signal : (room : Bool) → Task → Siginfo → Task
send_signal room t info =
    let sig = info.signo in
    let recorded = recalc_sigpending (enlist room (cancel t sig) info) in
    let resumed =
      if sig == sig_cont || sig == sig_kill then sched_resume recorded.state else recorded.state in
    if sig == 0 then t else record recorded {
      state = if recorded.sigpending then sched_wake_signal sig resumed else resumed;
    }
