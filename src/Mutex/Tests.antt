-- ===== src/Mutex/Tests.antt =====
-- Two tasks and a mutex of kernel/mutex.c.
use nuvix.Prelude.{◌≡◌, refl, true, false, [], ◌∷◌}
use nuvix.Signal.{runnable, uninterruptible}
use nuvix.Wait.{listed, sleeps, prepare_to_wait, finish_wait, wake_up_one, wake_first, unlist}
use nuvix.Mutex.{init, lock_round, unlock}
use nuvix.Mutex.Safe.{Locking, IsSafe, fresh, later, locks, unlocks, locks_by, Reach-IsSafe}

abbrev at_rest : Locking
at_rest = record { mutex = init (λ _. runnable); holders = [] }

abbrev one_has : Locking
one_has = locks_by at_rest 1 uninterruptible false

abbrev two_waits : Locking
two_waits = locks_by one_has 2 uninterruptible false

abbrev handed : Locking
handed = record { mutex = unlock two_waits.mutex; holders = unlist 1 two_waits.holders }

waits_in_line :
    (two_waits.mutex.wait.waiters ≡ 2 ∷ []) × (sleeps (two_waits.mutex.wait.state 2) ≡ true)
unfolding lock_round listed unlist prepare_to_wait finish_wait
waits_in_line = (refl, refl)

woken : (handed.holders ≡ []) × (sleeps (handed.mutex.wait.state 2) ≡ false)
unfolding lock_round unlock listed unlist prepare_to_wait finish_wait wake_up_one wake_first
woken = (refl, refl)

Reach-IsSafe_example : IsSafe handed
unfolding lock_round listed finish_wait
Reach-IsSafe_example = Reach-IsSafe (
    later
      (later (later (fresh (λ _. runnable)) (locks 1 uninterruptible false refl))
        (locks 2 uninterruptible false refl))
      (unlocks 1 refl))
