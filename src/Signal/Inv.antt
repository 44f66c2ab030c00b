-- ===== src/Signal/Inv.antt =====
-- The invariant of a task's signals: the set of pending signals agrees with the list, SIGKILL and
-- SIGSTOP are never blocked, masked or handled, and the flag says whether a signal is deliverable.
use mathlib.Core.Path.{subst}
use nuvix.Prelude.{
  ℕ, ◌-◌, ◌<◌, ◌≡◌, refl, sym, ◌∙◌, ◌≢◌, inl, inr, Bool, true, false, ◌&&◌, not, Option, none, some,
  List, [], ◌∷◌, arith, ltb, ◌==◌, if◌then◌else◌, Bool-cases, Option-cases, drop, All, keep_if,
  All-keep_if,
}
use nuvix.Bitmap.{Word, nonzero, any_below_mask}
use nuvix.Signal.{
  Siginfo, Task, has, deliverable, recalc_sigpending, signal_task_init, flush_signals_locked,
}
use nuvix.Signal.Syscall.{
  maskable, sys_rt_sigprocmask, sys_rt_sigsuspend, restore_mask, change_mask, copy_out,
}

-- An entry of the list is for a pending signal.
abbrev pub Listed : Word → Siginfo → Type 0
Listed pending q = (0 < q.signo) × (pending (q.signo - 1) ≡ true)

-- No signal has two entries.
abbrev pub Single : List Siginfo → Type 0
Single [] = Unit
Single (q ∷ qs) = All (λ r. r.signo ≢ q.signo) qs × Single qs

-- Neither SIGKILL nor SIGSTOP is in the set.
abbrev pub Spares : Word → Type 0
Spares w = (w 8 ≡ false) × (w 18 ≡ false)

-- A predicate of the value, if there is one.
abbrev IfSome : (Word → Type 0) → Option Word → Type 0
IfSome P none = Unit
IfSome P (some w) = P w

pub record IsValid (t : Task) : Type 0 where
  pub range : (i : ℕ) → t.pending i ≡ true → i < 31
  pub listed : All (Listed t.pending) t.queue
  pub single : Single t.queue
  pub unblocked : Spares t.blocked
  pub masks : (i : ℕ) → i < 31 → Spares (t.actions i).mask
  pub kill : (t.actions 8).handler ≡ 0
  pub stop : (t.actions 18).handler ≡ 0
  pub flag : t.sigpending ≡ nonzero (deliverable t)

pub has_lem : (w : Word) (sig : ℕ) → has w sig ≡ (if ltb (sig - 1) 64 then w (sig - 1) else false)
unfolding has nonzero
has_lem w sig = any_below_mask 64 (sig - 1) w

pub has-low : (w : Word) (sig : ℕ) → sig - 1 < 31 → has w sig ≡ w (sig - 1)
has-low w sig h = has_lem w sig ∙ ground arith

pub Spares-maskable : (w : Word) → Spares (maskable w)
Spares-maskable w = ground arith

pub recalc-IsValid :
    (t : Task)
    → ((i : ℕ) → t.pending i ≡ true → i < 31)
    → All (Listed t.pending) t.queue
    → Single t.queue
    → Spares t.blocked
    → ((i : ℕ) → i < 31 → Spares (t.actions i).mask)
    → (t.actions 8).handler ≡ 0
    → (t.actions 18).handler ≡ 0
    → IsValid (recalc_sigpending t)
unfolding recalc_sigpending
recalc-IsValid t r l s u m k h = record {
  range = r;
  listed = l;
  single = s;
  unblocked = u;
  masks = m;
  kill = k;
  stop = h;
  flag = refl;
}

-- A task's signals are valid from the start, with SIGPENDING clear.
pub signal_task_init-IsValid : (t : Task) → t.sigpending ≡ false → IsValid (signal_task_init t)
unfolding signal_task_init nonzero
signal_task_init-IsValid t e = record {
  range = λ i h. ground (arith, h);
  listed = tt;
  single = tt;
  unblocked = (refl, refl);
  masks = λ i lt. ground arith;
  kill = refl;
  stop = refl;
  flag = e;
}

Single-keep_if : (p : Siginfo → Bool) (qs : List Siginfo) → Single qs → Single (keep_if p qs)
Single-keep_if p [] s = tt
Single-keep_if p (q ∷ qs) s = elim (Bool-cases (p q)) [
  | inl pass ↦ rw pass (All-keep_if (λ r. r.signo ≢ q.signo) p qs s.0, Single-keep_if p qs s.1)
  | inr drop ↦ rw drop (Single-keep_if p qs s.1)
]

module _ (t : Task) (v : IsValid t) where
  flush_kept :
      (mask : Word) (qs : List Siginfo)
      → All (Listed t.pending) qs
      → All (Listed (λ i. t.pending i && not (mask i))) (keep_if (λ q. not (has mask q.signo)) qs)
  flush_kept mask [] h = tt
  flush_kept mask (q ∷ qs) h = elim (Bool-cases (has mask q.signo)) [
    | inl gone ↦ rw gone (flush_kept mask qs h.1)
    | inr kept ↦
        let low : q.signo - 1 < 31 = v.range (q.signo - 1) h.0.1 in
        let out : mask (q.signo - 1) ≡ false = sym (has-low mask q.signo low) ∙ kept in
        rw kept ((h.0.0, rw (h.0.1, out) refl), flush_kept mask qs h.1)
  ]

  pub flush-IsValid : (mask : Word) → IsValid (recalc_sigpending (flush_signals_locked t mask))
  unfolding flush_signals_locked
  flush-IsValid mask =
      recalc-IsValid _ (λ i h. v.range i (ground (arith, h))) (flush_kept mask t.queue v.listed)
        (Single-keep_if _ t.queue v.single) v.unblocked v.masks v.kill v.stop

  pub refresh-IsValid : IsValid (recalc_sigpending t)
  refresh-IsValid = recalc-IsValid _ v.range v.listed v.single v.unblocked v.masks v.kill v.stop

  pub remask-IsValid :
      (w : Word) → Spares w → IsValid (recalc_sigpending (record t { blocked = w }))
  remask-IsValid w s = recalc-IsValid _ v.range v.listed v.single s v.masks v.kill v.stop

  -- `sys_rt_sigsuspend` keeps the invariant on every path: whatever set is given, SIGKILL and SIGSTOP
  -- stay unblocked while the task waits.
  pub sys_rt_sigsuspend-IsValid :
      (mask : Option Word) (size : ℕ) → IsValid (sys_rt_sigsuspend mask size t).1
  unfolding sys_rt_sigsuspend
  sys_rt_sigsuspend-IsValid none size = elim (Bool-cases (size == 8)) [
    | inl good ↦ rw good v
    | inr bad ↦ rw bad v
  ]
  sys_rt_sigsuspend-IsValid (some w) size = elim (Bool-cases (size == 8)) [
    | inl good ↦
        rw good
          (recalc-IsValid _ v.range v.listed v.single (Spares-maskable w) v.masks v.kill v.stop)
    | inr bad ↦ rw bad v
  ]

  -- The mask that `sys_rt_sigreturn` restores keeps the invariant: whatever set the frame on the user
  -- stack holds, SIGKILL and SIGSTOP stay unblocked.
  pub restore_mask-IsValid : (w : Word) → IsValid (restore_mask w t)
  unfolding restore_mask
  restore_mask-IsValid w = remask-IsValid (maskable w) (Spares-maskable w)

  pub copy_out-IsValid :
      {A : Type 0} (out : Option Bool) (old : A) (t' : Task)
      → IsValid t'
      → IsValid (copy_out out old t').1
  copy_out-IsValid none old t' w = w
  copy_out-IsValid (some true) old t' w = w
  copy_out-IsValid (some false) old t' w = w

  change_mask-Spares : (how : ℕ) (w : Word) → IfSome Spares (change_mask how (maskable w) t.blocked)
  unfolding change_mask
  change_mask-Spares how w = elim (Bool-cases (how == 0)) [
    | inl block ↦ rw block (ground (arith, v.unblocked))
    | inr other ↦ elim (Bool-cases (how == 1)) [
      | inl unblock ↦ rw (other, unblock) (ground (arith, v.unblocked))
      | inr rest ↦ elim (Bool-cases (how == 2)) [
        | inl assign ↦ rw (other, rest, assign) (Spares-maskable w)
        | inr unknown ↦ rw (other, rest, unknown) tt
      ]
    ]
  ]

  -- `sys_rt_sigprocmask` keeps the invariant on every path, the failing ones too: no `how` and no set
  -- can block SIGKILL or SIGSTOP, and the pending flag follows the new mask.
  pub sys_rt_sigprocmask-IsValid :
      (how : ℕ) (mask : Option (Option Word)) (oldset : Option Bool) (size : ℕ)
      → IsValid (sys_rt_sigprocmask how mask oldset size t).1
  unfolding sys_rt_sigprocmask
  sys_rt_sigprocmask-IsValid how none oldset size = elim (Bool-cases (size == 8)) [
    | inl good ↦ rw good (copy_out-IsValid oldset t.blocked t v)
    | inr bad ↦ rw bad v
  ]
  sys_rt_sigprocmask-IsValid how (some none) oldset size = elim (Bool-cases (size == 8)) [
    | inl good ↦ rw good v
    | inr bad ↦ rw bad v
  ]
  sys_rt_sigprocmask-IsValid how (some (some w)) oldset size = elim (Bool-cases (size == 8)) [
    | inl good ↦ elim (Option-cases (change_mask how (maskable w) t.blocked)) [
      | inl invalid ↦ rw (good, invalid) v
      | inr (w', e) ↦
          rw (good, e)
            (copy_out-IsValid oldset t.blocked _
              (remask-IsValid w' (subst (IfSome Spares) e (change_mask-Spares how w))))
    ]
    | inr bad ↦ rw bad v
  ]
