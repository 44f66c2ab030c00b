-- ===== src/Wait/Tests.antt =====
-- Runs of the queue of kernel/wait.c.
use nuvix.Prelude.{◌≡◌, refl, true, false, [], ◌∷◌, ltb, if◌then◌else◌}
use nuvix.Errno.{erestartsys}
use nuvix.Signal.{runnable, interruptible, uninterruptible}
use nuvix.Wait.{
  WaitQueue, failed, listed, unlist, finish_wait, wake_first, wake_up_one, wake_each, wake_up_all,
  event_round, sleeps,
}

-- The first is awake already; the two behind it sleep.
abbrev line : WaitQueue
line = record {
  waiters = 1 ∷ 2 ∷ 3 ∷ [];
  state = λ i. if ltb i 2 then runnable else uninterruptible;
}

-- The task that is awake is passed over.
next_woken :
    (sleeps ((wake_up_one line).state 2) ≡ false) × (sleeps ((wake_up_one line).state 3) ≡ true)
unfolding wake_up_one wake_first
next_woken = (refl, refl)

all_woken : sleeps ((wake_up_all line).state 3) ≡ false
unfolding wake_up_all wake_each
all_woken = refl

signal_first :
    event_round line 1 interruptible false true ≡ (failed erestartsys, finish_wait line 1)
unfolding event_round
signal_first = refl

gone : (finish_wait line 2).waiters ≡ 1 ∷ 3 ∷ []
unfolding finish_wait listed unlist
gone = refl
