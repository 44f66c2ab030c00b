-- ===== src/Signal/Runs.antt =====
-- The life of a task as the calls of kernel/signal.c see it: signals that come, rounds of
-- `get_signal`, and the system calls on its own signals.
use nuvix.Prelude.{ℕ, ◌≤◌, ◌≡◌, sym, Bool, false, Option, none}
use mathlib.Core.Path.{subst}
use nuvix.Bitmap.{Word}
use nuvix.Signal.{Siginfo, Sigaction, Task, send_signal, signal_task_init}
use nuvix.Signal.Receive.{
  Ksignal, Round, nothing, waits, exits, stops, again, delivers, get_round, signal_delivered,
  signal_clone, clone_signals,
}
use nuvix.Signal.Syscall.{sys_rt_sigprocmask, sys_rt_sigaction, sys_rt_sigsuspend, restore_mask}
use nuvix.Signal.Inv.{
  IsValid, signal_task_init-IsValid, sys_rt_sigprocmask-IsValid, restore_mask-IsValid,
  sys_rt_sigsuspend-IsValid,
}
use nuvix.Signal.Action.{sys_rt_sigaction-IsValid, signal_clone-IsValid, clone_signals-IsValid}
use nuvix.Signal.Send.{send_signal-IsValid}
use nuvix.Signal.Rounds.{Outcome, get_round-Outcome}
use nuvix.Signal.Deliver.{signal_delivered-IsValid}

abbrev task_of : Round → Task
task_of (nothing t) = t
task_of (waits t) = t
task_of (exits sig t) = t
task_of (stops t) = t
task_of (again t) = t
task_of (delivers k t) = t

-- The task's own steps and those of others on it. `takes` is a round of `get_signal` without an
-- exception, `handles` one that calls a handler, with `signal_delivered`; `execs` is the end of `execve`,
-- and `forks` goes on with a new child.
pub data Step (t : Task) : Task → Type 0 where
  sends : (room : Bool) (info : Siginfo) → info.signo ≤ 31 → Step t (send_signal room t info)
  takes : Step t (task_of (get_round none t))
  handles :
      (k : Ksignal) (u : Task) → get_round none t ≡ delivers k u → Step t (signal_delivered k u)
  masks :
      (how : ℕ) (mask : Option (Option Word)) (oldset : Option Bool) (size : ℕ)
      → Step t (sys_rt_sigprocmask how mask oldset size t).1
  acts :
      (sig : ℕ) (act : Option (Option Sigaction)) (oldact : Option Bool) (size : ℕ)
      → Step t (sys_rt_sigaction sig act oldact size t).1
  suspends : (mask : Option Word) (size : ℕ) → Step t (sys_rt_sigsuspend mask size t).1
  returns : (w : Word) → Step t (restore_mask w t)
  execs : Step t (signal_clone t)
  forks :
      (child : Task) → child.sigpending ≡ false → Step t (clone_signals t (signal_task_init child))

pub data Reach : Task → Type 0 where
  fresh : (t : Task) → t.sigpending ≡ false → Reach (signal_task_init t)
  later : {t u : Task} → Reach t → Step t u → Reach u

taken-IsValid : (t : Task) (r : Round) → IsValid t → Outcome t r → IsValid (task_of r)
taken-IsValid t (nothing u) v o = subst IsValid (sym o.0) v
taken-IsValid t (waits u) v o = subst IsValid (sym o.0) v
taken-IsValid t (exits sig u) v o = o.0.valid
taken-IsValid t (stops u) v o = o.1.valid
taken-IsValid t (again u) v o = o.1.valid
taken-IsValid t (delivers k u) v o = o.0.valid

pub Step-IsValid : {t u : Task} → Step t u → IsValid t → IsValid u
Step-IsValid (sends room info high) v = send_signal-IsValid room info high v
Step-IsValid {t} takes v = taken-IsValid t (get_round none t) v (get_round-Outcome t v)
Step-IsValid {t} (handles k u e) v = signal_delivered-IsValid t k u v e
Step-IsValid {t} (masks how mask oldset size) v =
    sys_rt_sigprocmask-IsValid t v how mask oldset size
Step-IsValid {t} (acts sig act oldact size) v = sys_rt_sigaction-IsValid t v sig act oldact size
Step-IsValid {t} (suspends mask size) v = sys_rt_sigsuspend-IsValid t v mask size
Step-IsValid {t} (returns w) v = restore_mask-IsValid t v w
Step-IsValid {t} execs v = signal_clone-IsValid t v
Step-IsValid {t} (forks child e) v = clone_signals-IsValid t v child e

-- In every life of a task that begins with `signal_task_init` without the pending flag and goes
-- on with signals up to 31, rounds of `get_signal` and handled signals, both without an exception,
-- the system calls `rt_sigprocmask`, `rt_sigaction` and `rt_sigsuspend` on every path, returns from
-- handlers, the reset of its actions by `execve`, and `clone`, which goes on with a new child without
-- the pending flag: each entry of the list is of a pending
-- signal and no signal has two, SIGKILL and SIGSTOP are neither blocked nor handled, no action's
-- mask blocks them, and the pending flag says whether a signal is deliverable.
pub Reach-IsValid : {t : Task} → Reach t → IsValid t
Reach-IsValid (fresh t e) = signal_task_init-IsValid t e
Reach-IsValid (later r s) = Step-IsValid s (Reach-IsValid r)
