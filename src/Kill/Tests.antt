-- ===== src/Kill/Tests.antt =====
-- Runs of the calls that find no task, and the invariant at two tasks with no signals.
use nuvix.Prelude.{◌≡◌, refl, true, false, some, [], ◌∷◌, arith, ◌==◌}
use nuvix.Prelude.Int.{pos, negsuc}
use nuvix.Errno.{err, einval, esrch}
use nuvix.Bitmap.{nonzero}
use nuvix.Signal.{Task, interruptible, default_action}
use nuvix.Kill.Inv.{AllValid}
use nuvix.Kill.{Tasks, sys_kill, sys_tgkill, kill_by}

no_group : (ts : Tasks) → (sys_kill ts 1 (negsuc 40000) (pos 9)).0 ≡ err esrch
unfolding sys_kill kill_by
no_group ts = refl

no_signal : (ts : Tasks) → sys_tgkill ts 1 (pos 4) (pos 5) (pos 32) ≡ (err einval, ts)
unfolding sys_tgkill
no_signal ts = refl

abbrev quiet : Task
quiet = record {
  blocked = λ _. false;
  saved = λ _. false;
  pending = λ _. false;
  queue = [];
  actions = λ _. default_action;
  state = interruptible;
  sigpending = false;
  stoppending = false;
  sigsuspend = false;
}

abbrev two : Tasks
two = record {
  task = λ _. quiet;
  by_tgid = λ n. some n;
  by_tid = λ n. some n;
  tgid = λ i. i;
  group = λ _. some (4 ∷ 5 ∷ []);
  others = 4 ∷ 5 ∷ [];
  room = λ i. i == 4;
  array = true;
}

two-AllValid : AllValid two
unfolding nonzero
two-AllValid = record {
  each = λ i. record {
    range = λ j h. ground (arith, h);
    listed = tt;
    single = tt;
    unblocked = (refl, refl);
    masks = λ j lt. (refl, refl);
    kill = refl;
    stop = refl;
    flag = refl;
  };
}
