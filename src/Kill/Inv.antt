-- ===== src/Kill/Inv.antt =====
-- No signal call breaks the invariant of any task.
use nuvix.Prelude.{
  ℕ, zero, suc, ◌+◌, ◌≤◌, ◌≡◌, inl, inr, Bool, true, false, not, Option, none, some, List, [], ◌∷◌,
  arith, ltb, ◌==◌, if◌then◌else◌, Bool-cases, Option-cases, length,
}
use nuvix.Prelude.Int.{ℤ, pos, negsuc}
use nuvix.Errno.{err, enomem}
use nuvix.Signal.{Siginfo}
use nuvix.Signal.Inv.{IsValid}
use nuvix.Signal.Send.{send_signal-IsValid}
use nuvix.Kill.{
  Tasks, send_to, signal_tasks, signal_found, broadcast_signal, send_group_signal, send_one,
  kill_by, signo_ok, signo_of, kill_info, sys_kill,
}

-- Every task is valid.
pub record AllValid (ts : Tasks) : Type 0 where
  pub each : (i : ℕ) → IsValid (ts.task i)

module _ (info : Siginfo) (high : info.signo ≤ 31) where
  send_to-AllValid : (ts : Tasks) (i : ℕ) → AllValid ts → AllValid (send_to ts info i)
  unfolding send_to
  send_to-AllValid ts i v = record {
    each = λ j. elim (Bool-cases (i == j)) [
      | inl here ↦ rw here (send_signal-IsValid (ts.room i) info high (v.each i))
      | inr other ↦ rw other (v.each j)
    ];
  }

  signal_tasks-AllValid :
      (is : List ℕ) (ts : Tasks) → AllValid ts → AllValid (signal_tasks ts info is).1
  unfolding signal_tasks
  signal_tasks-AllValid [] ts v = v
  signal_tasks-AllValid (i ∷ is) ts v =
      signal_tasks-AllValid is (send_to ts info i) (send_to-AllValid ts i v)

  signal_found-AllValid :
      (ts : Tasks) (is : List ℕ) → AllValid ts → AllValid (signal_found ts info is).1
  unfolding signal_found
  signal_found-AllValid ts is v = elim (Bool-cases (length is == 0)) [
    | inl empty ↦ rw empty v
    | inr some_task ↦ elim (Bool-cases (info.signo == 0)) [
      | inl probe ↦ rw (some_task, probe) v
      | inr sends ↦ rw (some_task, sends) (on_array ts.array)
    ]
  ]
    where
      on_array :
          (b : Bool) → AllValid (if not b then (err enomem, ts) else signal_tasks ts info is).1
      on_array true = signal_tasks-AllValid is ts v
      on_array false = v

  send_group-AllValid :
      (ts : Tasks) (pgid : ℕ) → AllValid ts → AllValid (send_group_signal ts pgid info).1
  unfolding send_group_signal
  send_group-AllValid ts pgid v = elim (Option-cases (ts.group pgid)) [
    | inl missing ↦ rw (missing, send_group_signal) v
    | inr (members, e) ↦ rw (e, send_group_signal) (signal_found-AllValid ts members v)
  ]

  send_one-AllValid : (ts : Tasks) (o : Option ℕ) → AllValid ts → AllValid (send_one ts info o).1
  send_one-AllValid ts none v = v
  send_one-AllValid ts (some i) v = send_to-AllValid ts i v

  kill_by-AllValid : (ts : Tasks) (pid : ℤ) → AllValid ts → AllValid (kill_by ts info pid).1
  unfolding kill_by broadcast_signal
  kill_by-AllValid ts (pos zero) v = send_group-AllValid ts 0 v
  kill_by-AllValid ts (pos (suc n)) v = send_one-AllValid ts (ts.by_tgid (suc n)) v
  kill_by-AllValid ts (negsuc zero) v = signal_found-AllValid ts ts.others v
  kill_by-AllValid ts (negsuc (suc n)) v = elim (Bool-cases (ltb 32768 (n + 2))) [
    | inl beyond ↦ rw beyond v
    | inr inside ↦ rw inside (send_group-AllValid ts (n + 2) v)
  ]

signo_bound : (sig : ℤ) → signo_ok sig ≡ true → signo_of sig ≤ 31
signo_bound (pos n) h = ground (arith, h)
signo_bound (negsuc n) h = omega arith

-- `sys_kill` keeps every task's signals valid, for all values of `pid` and `sig`, whichever tasks it
-- reaches and wherever the kernel runs out of memory.
pub sys_kill-AllValid :
    (ts : Tasks) (me : ℕ) (pid sig : ℤ) → AllValid ts → AllValid (sys_kill ts me pid sig).1
unfolding sys_kill
sys_kill-AllValid ts me pid sig v = elim (Bool-cases (signo_ok sig)) [
  | inl good ↦
      rw good
        (kill_by-AllValid (kill_info (pos 0) (signo_of sig) me) (signo_bound sig good) ts pid v)
  | inr bad ↦ rw bad v
]
