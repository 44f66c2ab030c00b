-- ===== src/Signal/Receive.antt =====
-- How a task takes a signal: `dequeue_signal_locked`, `get_signal`, `signal_delivered` and `signal_clone` of
-- kernel/signal.c, and the copy of the mask and the actions to a child in kernel/task.c.
use nuvix.Prelude.{
  ℕ, zero, suc, ◌+◌, ◌-◌, Bool, true, false, ◌&&◌, ◌||◌, not, Option, none, some, List, [], ◌∷◌,
  ltb, ◌==◌, if◌then◌else◌,
}
use Prim.Native.Nat.{bit_and}
use nuvix.Prelude.Int.{pos}
use nuvix.Bitmap.{Word, nonzero, find_first_bit}
use nuvix.Signal.{
  sig_kill, sig_max, sa_nodefer, sa_resethand, sig_dfl, sig_ign, sigmask, stop_mask, ignored_mask,
  has, Siginfo, Sigaction, Task, deliverable, recalc_sigpending, stopped,
}

-- The first entry for the signal, and the others.
unfoldable pub take_entry : ℕ → List Siginfo → Option Siginfo × List Siginfo
take_entry sig [] = (none, [])
take_entry sig (q ∷ qs) =
    let (found, rest) = take_entry sig qs in
    if q.signo == sig then (some q, qs) else (found, q ∷ rest)

abbrev pub user_info : ℕ → Siginfo
user_info sig = record { signo = sig; code = pos 0; fields = [] }

abbrev pub info_or : ℕ → Option Siginfo → Siginfo
info_or sig none = user_info sig
info_or sig (some q) = q

unfoldable pub dequeue_signal_locked : Task → ℕ → Siginfo × Task
unfolding take_entry
dequeue_signal_locked t sig =
    let (found, rest) = take_entry sig t.queue in
    (
      info_or sig found,
      record t { pending = λ i. t.pending i && not (sigmask sig i); queue = rest },
    )

pub record Ksignal : Type 0 where
  pub info : Siginfo
  pub action : Sigaction
  pub oldmask : Word

-- How a round of `get_signal` ends. `waits` is `wait_for_signal` of a task in sigsuspend, `stops` is
-- `sched_stop`, and both go on with the next round when the task runs again.
pub data Round : Type 0 where
  nothing : Task → Round
  waits : Task → Round
  exits : ℕ → Task → Round
  stops : Task → Round
  again : Task → Round
  delivers : Ksignal → Task → Round

-- The signal to deliver: SIGKILL first, else the lowest.
unfoldable pub choose : Word → ℕ
choose pending =
    if has pending sig_kill then sig_kill else find_first_bit (λ _. pending) sig_max + 1

-- `sched_stop` parks the task; it is stopped only if no SIGCONT came in between.
abbrev pub sched_stop : Task → Task
sched_stop t = if t.stoppending then record t { stoppending = false; state = stopped } else t

unfoldable pub signal_default : ℕ → Task → Round
signal_default sig t =
    if has ignored_mask sig
    then again t
    else if has stop_mask sig
    then stops (sched_stop t)
    else exits sig t

-- The end of a round, after `signal_lock` is released.
unfoldable pub finish : (fatal : Bool) → ℕ → Ksignal → Task → Round
finish fatal sig k t =
    if fatal
    then exits sig t
    else if k.action.handler == sig_ign
    then again t
    else if k.action.handler == sig_dfl
    then signal_default sig t
    else delivers k t

-- What a round does with the signal that it took: `fault` says that the signal is an exception's.
unfoldable pub act_on : (fault : Bool) → ℕ → Siginfo → Task → Round
act_on fault sig info t =
    let action = t.actions (sig - 1) in
    let oldmask = if t.sigsuspend then t.saved else t.blocked in
    let fatal =
      fault && (has t.blocked sig || action.handler == sig_dfl || action.handler == sig_ign) in
    let reset =
      not fatal
      && not (action.handler == sig_dfl)
      && not (action.handler == sig_ign)
      && not (bit_and action.flags sa_resethand == 0) in
    let halted = action.handler == sig_dfl && has stop_mask sig in
    finish fatal sig (record { info = info; action = action; oldmask = oldmask })
      (recalc_sigpending (record t {
        actions =
            λ i. if reset && i == sig - 1 then record action { handler = sig_dfl } else t.actions i;
        stoppending = if halted then true else t.stoppending;
      }))

unfoldable pub get_round : Option Siginfo → Task → Round
get_round (some fault) t =
    let (info, t') = dequeue_signal_locked t fault.signo in
    if has t.pending fault.signo
    then act_on true fault.signo info t'
    else act_on true fault.signo fault t
get_round none t =
    let sig = choose (deliverable t) in
    let (info, t') = dequeue_signal_locked t sig in
    if nonzero (deliverable t)
    then act_on false sig info t'
    else if t.sigsuspend
    then waits t
    else nothing t

-- The rounds of `get_signal` up to the one that ends it or in which the task sleeps; `none` when the
-- fuel runs out.
unfoldable pub run_rounds : (fuel : ℕ) → Option Siginfo → Task → Option Round
run_rounds zero fault t = none
run_rounds (suc n) fault t = elim (get_round fault t) [
  | again t' ↦ run_rounds n fault t'
  | nothing t' ↦ some (nothing t')
  | waits t' ↦ some (waits t')
  | exits sig t' ↦ some (exits sig t')
  | stops t' ↦ some (stops t')
  | delivers k t' ↦ some (delivers k t')
]

-- A task that sleeps in `get_signal` goes on with its rounds when it runs again. `resumed` gives, for
-- each of its sleeps, what the others have made of the task by then; a sleep after the last of
-- these is the result. `fuel` is for the rounds between two sleeps.
unfoldable pub get_signal :
    (fuel : ℕ) → (resumed : List (Task → Task)) → Option Siginfo → Task → Option Round
unfolding run_rounds
get_signal n [] fault t = run_rounds n fault t
get_signal n (f ∷ fs) fault t = elim (run_rounds n fault t) [
  | none ↦ none
  | some (waits t') ↦ get_signal n fs fault (f t')
  | some (stops t') ↦ get_signal n fs fault (f t')
  | some (again t') ↦ some (again t')
  | some (nothing t') ↦ some (nothing t')
  | some (exits sig t') ↦ some (exits sig t')
  | some (delivers k t') ↦ some (delivers k t')
]

-- kernel/task.c: what `sys_clone` copies to its child.
unfoldable pub clone_signals : (current child : Task) → Task
clone_signals current child = record child {
  blocked = current.blocked;
  actions = λ i. if ltb i sig_max then current.actions i else child.actions i;
}

unfoldable pub signal_delivered : Ksignal → Task → Task
signal_delivered k t = recalc_sigpending (record t {
  sigsuspend = false;
  blocked = λ i.
      t.blocked i
      || k.action.mask i
      || bit_and k.action.flags sa_nodefer == 0 && sigmask k.info.signo i;
})

unfoldable pub signal_clone : Task → Task
signal_clone t = record t {
  actions = λ i.
      if ltb i sig_max
      then record {
        handler = if (t.actions i).handler == sig_ign then sig_ign else sig_dfl;
        flags = 0;
        mask = λ _. false;
      }
      else t.actions i;
}
