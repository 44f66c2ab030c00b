-- ===== src/Timer/Tests.antt =====
-- Three timers of kernel/timer.c.
use nuvix.Prelude.{◌≡◌, refl, false, none, some, arith, ◌==◌, if◌then◌else◌}
use nuvix.Errno.{err, ebusy}
use nuvix.Rbtree.{leaf, node}
use nuvix.Rbtree.Erase.{rb_erase, rb_erase_fixup}
use nuvix.Rbtree.Walk.{rb_next, climb_next}
use nuvix.Timer.{
  Timer, Timers, idle, queued, running, draining, timer_start, tick_round, remove_timer, locate,
  timer_cancel, with_state,
}
use nuvix.Timer.Queue.{IsQueue, Started, timer_start-Started}

abbrev late : Timer
late = record { id = 7; deadline = 20; sequence = 0 }

abbrev one_queued : Timers
one_queued = record {
  root = node false leaf late leaf;
  first = some late;
  next_sequence = 1;
  state = λ i. if i == 7 then queued else idle;
}

one_queued-IsQueue : IsQueue one_queued
one_queued-IsQueue = record {
  balanced = ((tt, tt, refl), refl);
  ordered = (tt, tt);
  leads = refl;
  older = (omega arith, tt);
}

twice : timer_start one_queued 7 5 ≡ some (err ebusy, one_queued)
unfolding timer_start
twice = refl

not_due : tick_round one_queued 19 ≡ some (none, one_queued)
unfolding tick_round
not_due = refl

due :
    tick_round one_queued 20
    ≡ some (
      some late,
      record one_queued {
        root = leaf;
        first = none;
        state = λ i. if i == 7 then running else one_queued.state i;
      },
    )
unfolding tick_round remove_timer locate rb_erase rb_erase_fixup rb_next climb_next
due = refl

still_running :
    timer_cancel (with_state one_queued 7 running) 7
    ≡ some (err ebusy, with_state (with_state one_queued 7 running) 7 draining)
unfolding timer_cancel
still_running = refl

timer_start-Started_example : Started one_queued 8 20 (timer_start one_queued 8 20)
timer_start-Started_example = timer_start-Started one_queued 8 20 (omega arith) one_queued-IsQueue
