-- ===== src/Kill.antt =====
-- Signals to other tasks: `sys_kill`, `sys_tkill` and `sys_tgkill` of kernel/signal.c, and the broadcasts of
-- kernel/pid.c. The lookups of kernel/pid.c are functions here; a call holds its references to the
-- end, so no task goes away in between.
pub mod Inv
mod Tests
use nuvix.Prelude.{
  ℕ, zero, suc, ◌+◌, ◌-◌, ◌*◌, ◌/◌, ◌%◌, ◌^◌, ◌≤◌, ◌<◌, min, max, ◌≡◌, refl, sym, ap, ◌∙◌, fun_ext,
  ◌≢◌, ◌↔◌, ◌⊎◌, inl, inr, Bool, true, false, ◌&&◌, ◌||◌, not, Option, none, some, List, [], ◌∷◌,
  ◌++◌, arith, ltb, leb, ◌==◌, if◌then◌else◌, ltb→lt, ltb-false, lt→ltb, leb→le, ==_iff, Bool-cases,
  Option-cases, length, get_elem?, get_or, set, take, drop, All, keep_if, length-append, length-set,
  length-take, get_or-set_self, get_or-set_ne,
}
use nuvix.Prelude.Int.{ℤ, pos, negsuc}
use nuvix.Errno.{Result, ok, err, esrch, enomem, einval}
use nuvix.Signal.{Siginfo, Task, sig_max, send_signal}

abbrev pub pid_max : ℕ
pid_max = 32768

-- `group` gives the members of a process group, of the caller's for 0, and `others` the tasks that
-- `broadcast_task_locked` gives, in the order of the tables. `room` says whether `kmalloc` gives an
-- entry for a task, and `array` whether it gives the array of tasks.
pub record Tasks : Type 0 where
  pub task : ℕ → Task
  pub by_tgid : ℕ → Option ℕ
  pub by_tid : ℕ → Option ℕ
  pub tgid : ℕ → ℕ
  pub group : ℕ → Option (List ℕ)
  pub others : List ℕ
  pub room : ℕ → Bool
  pub array : Bool

unfoldable pub send_to : Tasks → Siginfo → ℕ → Tasks
send_to ts info i = record ts {
  task = λ j. if i == j then send_signal (ts.room i) (ts.task i) info else ts.task j;
}

-- `send_signal` always returns 0, so one task is enough for success.
unfoldable pub signal_tasks : Tasks → Siginfo → List ℕ → Result (Unit {0}) × Tasks
signal_tasks ts info [] = (err esrch, ts)
signal_tasks ts info (i ∷ is) = (ok tt, (signal_tasks (send_to ts info i) info is).1)

-- What both broadcasts do with the tasks that they found.
unfoldable pub signal_found : Tasks → Siginfo → List ℕ → Result (Unit {0}) × Tasks
unfolding signal_tasks
signal_found ts info found =
    if length found == 0
    then (err esrch, ts)
    else if info.signo == 0
    then (ok tt, ts)
    else if not ts.array
    then (err enomem, ts)
    else signal_tasks ts info found

unfoldable pub broadcast_signal : Tasks → Siginfo → Result (Unit {0}) × Tasks
broadcast_signal ts info = signal_found ts info ts.others

unfoldable pub send_group_signal : Tasks → (pgid : ℕ) → Siginfo → Result (Unit {0}) × Tasks
send_group_signal ts pgid info = elim (ts.group pgid) [
  | none ↦ (err esrch, ts)
  | some members ↦ signal_found ts info members
]

-- The end of the three calls: the task that was looked up.
abbrev pub send_one : Tasks → Siginfo → Option ℕ → Result (Unit {0}) × Tasks
send_one ts info none = (err esrch, ts)
send_one ts info (some i) = (ok tt, send_to ts info i)

-- The switch of `sys_kill` on the sign of `pid`.
unfoldable pub kill_by : Tasks → Siginfo → (pid : ℤ) → Result (Unit {0}) × Tasks
kill_by ts info (pos zero) = send_group_signal ts 0 info
kill_by ts info (pos (suc n)) = send_one ts info (ts.by_tgid (suc n))
kill_by ts info (negsuc zero) = broadcast_signal ts info
kill_by ts info (negsuc (suc n)) =
    if ltb pid_max (n + 2) then (err esrch, ts) else send_group_signal ts (n + 2) info

abbrev pub signo_ok : ℤ → Bool
signo_ok (pos n) = leb n sig_max
signo_ok (negsuc n) = false

abbrev pub signo_of : ℤ → ℕ
signo_of (pos n) = n
signo_of (negsuc n) = 0

-- The fields are `si_pid` and `si_uid`.
abbrev pub kill_info : (code : ℤ) → (signo me : ℕ) → Siginfo
kill_info code signo me = record { signo = signo; code = code; fields = me ∷ 0 ∷ [] }

-- `me` is the caller's process.
unfoldable pub sys_kill : Tasks → (me : ℕ) → (pid sig : ℤ) → Result (Unit {0}) × Tasks
sys_kill ts me pid sig =
    if signo_ok sig then kill_by ts (kill_info (pos 0) (signo_of sig) me) pid else (err einval, ts)

-- SI_TKILL is -6.
unfoldable pub sys_tkill : Tasks → (me : ℕ) → (tid sig : ℤ) → Result (Unit {0}) × Tasks
sys_tkill ts me (negsuc n) sig = (err einval, ts)
sys_tkill ts me (pos tid) sig =
    if tid == 0 || not (signo_ok sig)
    then (err einval, ts)
    else send_one ts (kill_info (negsuc 5) (signo_of sig) me) (ts.by_tid tid)

-- Only a task of the process `tgid`.
abbrev pub in_group : Tasks → ℕ → Option ℕ → Option ℕ
in_group ts tgid none = none
in_group ts tgid (some i) = if ts.tgid i == tgid then some i else none

unfoldable pub sys_tgkill : Tasks → (me : ℕ) → (tgid tid sig : ℤ) → Result (Unit {0}) × Tasks
sys_tgkill ts me (negsuc n) tid sig = (err einval, ts)
sys_tgkill ts me (pos tgid) (negsuc n) sig = (err einval, ts)
sys_tgkill ts me (pos tgid) (pos tid) sig =
    if tgid == 0 || tid == 0 || not (signo_ok sig)
    then (err einval, ts)
    else send_one ts (kill_info (negsuc 5) (signo_of sig) me) (in_group ts tgid (ts.by_tid tid))
