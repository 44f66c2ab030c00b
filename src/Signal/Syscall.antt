-- ===== src/Signal/Syscall.antt =====
-- The system calls of kernel/signal.c on the task's own signals, and the mask that `sys_rt_sigreturn`
-- (arch/riscv/signal.c) restores. A pointer argument that is read is `none` for NULL, else what
-- `copy_from_user` gives; one that is written is `none` for NULL, else whether `copy_to_user` works.
-- The value of a result is what was written.
use nuvix.Prelude.{
  ℕ, ◌-◌, Bool, true, false, ◌&&◌, ◌||◌, not, Option, none, some, leb, ◌==◌, if◌then◌else◌, set,
}
use nuvix.Errno.{Result, ok, err, einval, efault, eintr}
use nuvix.Bitmap.{Word}
use nuvix.Signal.{
  Sigaction, Task, sig_kill, sig_stop, sig_max, unblock_mask, sigmask, signal_ignored,
  recalc_sigpending, flush_signals_locked,
}

abbrev pub sigset_size : ℕ
sigset_size = 8

-- `set & ~SIG_UNBLOCKMASK`
abbrev pub maskable : Word → Word
maskable set i = set i && not (unblock_mask i)

-- The `switch` of `sys_rt_sigprocmask`.
unfoldable pub change_mask : (how : ℕ) → Word → Word → Option Word
change_mask how set blocked =
    if how == 0
    then some (λ i. blocked i || set i)
    else if how == 1
    then some (λ i. blocked i && not (set i))
    else if how == 2
    then some set
    else none

-- The end of a call that copies `old` out.
abbrev pub copy_out {ℓ} : {A : Type ℓ} → Option Bool → A → Task → Result (Option A) × Task
copy_out none old t = (ok none, t)
copy_out (some true) old t = (ok (some old), t)
copy_out (some false) old t = (err efault, t)

unfoldable pub sys_rt_sigprocmask :
    (how : ℕ) (set : Option (Option Word)) (oldset : Option Bool) (size : ℕ)
    → Task
    → Result (Option Word) × Task
unfolding change_mask
sys_rt_sigprocmask how none oldset size t =
    if not (size == sigset_size) then (err einval, t) else copy_out oldset t.blocked t
sys_rt_sigprocmask how (some none) oldset size t =
    if not (size == sigset_size) then (err einval, t) else (err efault, t)
sys_rt_sigprocmask how (some (some set)) oldset size t =
    if not (size == sigset_size)
    then (err einval, t)
    else elim (change_mask how (maskable set) t.blocked) [
      | none ↦ (err einval, t)
      | some blocked ↦
          copy_out oldset t.blocked (recalc_sigpending (record t { blocked = blocked }))
    ]

-- What `sys_rt_sigaction` does under the lock.
unfoldable pub set_action : ℕ → Sigaction → Task → Task
set_action sig act t =
    let new = record act { mask = maskable act.mask } in
    let t' = record t { actions = λ i. if i == sig - 1 then new else t.actions i } in
    recalc_sigpending (if signal_ignored new sig then flush_signals_locked t' (sigmask sig) else t')

unfoldable pub sys_rt_sigaction :
    (sig : ℕ) (act : Option (Option Sigaction)) (oldact : Option Bool) (size : ℕ)
    → Task
    → Result (Option Sigaction) × Task
unfolding set_action
sys_rt_sigaction sig none oldact size t =
    if not (size == sigset_size) || sig == 0 || not (leb sig sig_max)
    then (err einval, t)
    else copy_out oldact (t.actions (sig - 1)) t
sys_rt_sigaction sig (some act) oldact size t =
    if not (size == sigset_size) || sig == 0 || not (leb sig sig_max)
    then (err einval, t)
    else if sig == sig_kill || sig == sig_stop
    then (err einval, t)
    else elim act [
      | none ↦ (err efault, t)
      | some new ↦ copy_out oldact (t.actions (sig - 1)) (set_action sig new t)
    ]

-- The task then sleeps in `wait_for_signal`; the call's result is EINTR.
unfoldable pub sys_rt_sigsuspend : Option Word → (size : ℕ) → Task → Result (Unit {0}) × Task
sys_rt_sigsuspend none size t =
    if not (size == sigset_size) then (err einval, t) else (err efault, t)
sys_rt_sigsuspend (some set) size t = if not (size == sigset_size) then (err einval, t) else (
  err eintr,
  recalc_sigpending (record t { saved = t.blocked; blocked = maskable set; sigsuspend = true }),
)

-- The set whose first `size` bytes are copied out.
unfoldable pub sys_rt_sigpending : (writable : Bool) (size : ℕ) → Task → Result Word
sys_rt_sigpending writable size t =
    if not (leb size sigset_size)
    then err einval
    else if writable
    then ok (λ i. t.pending i && t.blocked i)
    else err efault

unfoldable pub restore_mask : Word → Task → Task
restore_mask set t = recalc_sigpending (record t { blocked = maskable set })
