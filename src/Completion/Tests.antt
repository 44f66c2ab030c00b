-- ===== src/Completion/Tests.antt =====
-- A waiter and a completion of kernel/completion.c.
use nuvix.Prelude.{◌≡◌, refl, true, false, [], ◌∷◌, arith}
use nuvix.Errno.{ok, etimedout}
use nuvix.Signal.{runnable, uninterruptible}
use nuvix.Wait.{failed, listed, sleeps, prepare_to_wait, finish_wait, unlist}
use nuvix.Completion.{init, Completion, complete, wait_round, until_round, take_completion}
use nuvix.Completion.Covered.{IsCovered, fresh, later, completes, waits, Reach-IsCovered}

abbrev at_first : Completion
at_first = init (λ _. runnable)

abbrev waiting : Completion
waiting = (wait_round at_first 5 uninterruptible false).1

sleeps_first : (waiting.wait.waiters ≡ 5 ∷ []) × (sleeps (waiting.wait.state 5) ≡ true)
unfolding wait_round take_completion listed unlist prepare_to_wait finish_wait
sleeps_first = (refl, refl)

too_late : (until_round at_first 5 10 10 false (ok tt)).0 ≡ failed etimedout
unfolding until_round take_completion
too_late = refl

Reach-IsCovered_example : IsCovered (complete waiting)
Reach-IsCovered_example = Reach-IsCovered (
    later (later (fresh (λ _. runnable)) (waits 5 uninterruptible false refl (omega arith)))
      completes)
