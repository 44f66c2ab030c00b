-- ===== src/Signal/Tests.antt =====
-- The theorems on signals at a task with SIGUSR1 and SIGCHLD pending, the first one handled with
-- SA_RESETHAND and the second one ignored by default.
use nuvix.Prelude.{
  ◌≡◌, refl, true, false, ◌&&◌, ◌||◌, not, none, some, [], ◌∷◌, arith, ◌==◌, if◌then◌else◌, ◌≢◌,
  List,
}
use nuvix.Prelude.Int.{pos}
use nuvix.Bitmap.{nonzero, find_first_bit, find_next_bit, test_bit}
use nuvix.Signal.{
  signal_task_init, Siginfo, Sigaction, Task, interruptible, default_action, has, recalc_sigpending,
  send_signal, killable, stopped,
}
use nuvix.Signal.Receive.{
  Ksignal, Round, delivers, dequeue_signal_locked, choose, act_on, finish, take_entry, get_round,
  get_signal,
}
use nuvix.Signal.Syscall.{sys_rt_sigprocmask}
use nuvix.Signal.Inv.{IsValid}
use nuvix.Signal.Effect.{send_signal-wakes}
use nuvix.Signal.Rounds.{Outcome, get_round-Outcome}
use nuvix.Signal.Send.{send_signal-IsValid}
use nuvix.Signal.Total.{get_signal_total, Finished}
use nuvix.Signal.Runs.{fresh, later, sends, masks, Reach-IsValid}
use nuvix.Signal.Deliver.{dequeue-send_signal}

abbrev usr1 : Siginfo
usr1 = record { signo = 10; code = pos 0; fields = 5 ∷ 0 ∷ [] }

abbrev cont : Siginfo
cont = record { signo = 18; code = pos 0; fields = 5 ∷ 0 ∷ [] }

abbrev handled : Sigaction
handled = record { handler = 4096; flags = 0x80000000; mask = λ i. i == 4 }

abbrev task : Task
task = record {
  blocked = λ i. i == 20;
  saved = λ _. false;
  pending = λ i. i == 9 || i == 16;
  queue = usr1 ∷ [];
  actions = λ i. if i == 9 then handled else default_action;
  state = interruptible;
  sigpending = true;
  stoppending = false;
  sigsuspend = false;
}

task-IsValid : IsValid task
unfolding nonzero
task-IsValid = record {
  range = λ i h. ground (arith, h);
  listed = ((omega arith, refl), tt);
  single = (tt, tt);
  unblocked = (refl, refl);
  masks = λ i lt. ground arith;
  kill = refl;
  stop = refl;
  flag = refl;
}

abbrev first : Ksignal
first = record { info = usr1; action = handled; oldmask = λ i. i == 20 }

abbrev after : Task
after = record task {
  pending = λ i. (i == 9 || i == 16) && not (i == 9);
  queue = [];
  actions = λ i.
      if i == 9 then record handled { handler = 0 } else if i == 9 then handled else default_action;
}

first_round : get_round none task ≡ delivers first after
unfolding get_round choose act_on finish dequeue_signal_locked recalc_sigpending take_entry nonzero
    has find_first_bit find_next_bit test_bit
first_round = refl

send_signal-wakes_example :
    let t' = send_signal true task cont in
    (nonzero (λ i. t'.pending i && not (t'.blocked i)) ≡ true
      → (t'.state ≢ interruptible) × (cont.signo ≡ 9 → t'.state ≢ killable))
    × ((18 == 18 || 18 == 9) ≡ true → (t'.state ≢ stopped) × (t'.stoppending ≡ false))
send_signal-wakes_example = send_signal-wakes true task cont (omega arith)

get_round-Outcome_example : Outcome task (get_round none task)
get_round-Outcome_example = get_round-Outcome task task-IsValid

-- A task in sigsuspend that a signal comes to.
abbrev suspended : Task
suspended = record task { pending = λ i. false; queue = []; sigpending = false; sigsuspend = true }

suspended-IsValid : IsValid suspended
unfolding nonzero
suspended-IsValid = record {
  range = λ i h. ground (arith, h);
  listed = tt;
  single = tt;
  unblocked = (refl, refl);
  masks = λ i lt. ground arith;
  kill = refl;
  stop = refl;
  flag = refl;
}

abbrev sent : List (Task → Task)
sent = (λ t. send_signal true t usr1) ∷ []

get_signal_total_example :
    (r : Round) × (get_signal 32 sent none suspended ≡ some r) × Finished sent suspended r
get_signal_total_example =
    get_signal_total sent suspended (λ t v. send_signal-IsValid true usr1 (omega arith) v, tt)
      suspended-IsValid

abbrev usr2 : Siginfo
usr2 = record { signo = 21; code = pos 0; fields = 7 ∷ [] }

dequeue-send_signal_example : (dequeue_signal_locked (send_signal true task usr2) 21).0 ≡ usr2
unfolding has nonzero
dequeue-send_signal_example =
    dequeue-send_signal task usr2 task-IsValid (omega arith) (omega arith) refl refl

abbrev blank : Task
blank = record task { sigpending = false }

abbrev signalled : Task
signalled = send_signal true (signal_task_init blank) usr1

Reach-IsValid_example :
    IsValid (sys_rt_sigprocmask 2 (some (some (λ _. true))) (some true) 8 signalled).1
Reach-IsValid_example = Reach-IsValid (
    later (later (fresh blank refl) (sends true usr1 (omega arith)))
      (masks 2 (some (some (λ _. true))) (some true) 8))
