-- ===== src/Signal/Action.antt =====
-- The calls that change the actions keep the invariant.
use nuvix.Prelude.{
  ℕ, ◌-◌, ◌<◌, ◌≡◌, ◌≢◌, inl, inr, Bool, true, false, ◌||◌, not, Option, none, some, arith, leb,
  ◌==◌, if◌then◌else◌, Bool-cases, ltb,
}
use nuvix.Signal.{Sigaction, Task, signal_ignored, sigmask, signal_task_init}
use nuvix.Bitmap.{nonzero}
use nuvix.Signal.Receive.{signal_clone, clone_signals}
use nuvix.Signal.Syscall.{maskable, set_action, sys_rt_sigaction}
use nuvix.Signal.Inv.{
  IsValid, Spares, Spares-maskable, flush-IsValid, refresh-IsValid, copy_out-IsValid,
}

module _ (t : Task) (v : IsValid t) where
  assign-IsValid :
      (sig : ℕ) (new : Sigaction)
      → 0 < sig
      → sig ≢ 9
      → sig ≢ 19
      → Spares new.mask
      → IsValid (record t { actions = λ i. if i == sig - 1 then new else t.actions i })
  assign-IsValid sig new pos not_kill not_stop s = record {
    range = v.range;
    listed = v.listed;
    single = v.single;
    unblocked = v.unblocked;
    masks = λ i lt. elim (Bool-cases (i == sig - 1)) [
      | inl here ↦ rw here s
      | inr other ↦ rw other (v.masks i lt)
    ];
    kill = let other : (8 == sig - 1) ≡ false = ground (arith, not_kill) in rw other v.kill;
    stop = let other : (18 == sig - 1) ≡ false = ground (arith, not_stop) in rw other v.stop;
    flag = v.flag;
  }

  set_action-IsValid :
      (sig : ℕ) (act : Sigaction) → 0 < sig → sig ≢ 9 → sig ≢ 19 → IsValid (set_action sig act t)
  unfolding set_action
  set_action-IsValid sig act pos not_kill not_stop =
      let new : Sigaction = record act { mask = maskable act.mask } in
      let w = assign-IsValid sig new pos not_kill not_stop (Spares-maskable act.mask) in
      elim (Bool-cases (signal_ignored new sig)) [
        | inl ignored ↦ rw ignored (flush-IsValid _ w (sigmask sig))
        | inr handled ↦ rw handled (refresh-IsValid _ w)
      ]

  -- `sys_rt_sigaction` keeps the invariant for all arguments and on every path: the actions of SIGKILL
  -- and SIGSTOP stay the default, no action's mask holds either, and the list still agrees with the
  -- pending set after a flush.
  pub sys_rt_sigaction-IsValid :
      (sig : ℕ) (act : Option (Option Sigaction)) (oldact : Option Bool) (size : ℕ)
      → IsValid (sys_rt_sigaction sig act oldact size t).1
  unfolding sys_rt_sigaction
  sys_rt_sigaction-IsValid sig act oldact size =
      elim (Bool-cases (not (size == 8) || sig == 0 || not (leb sig 31))) [
        | inl bad ↦ refused act bad
        | inr good ↦ in_range act good
      ]
    where
      refused :
          (act : Option (Option Sigaction))
          → (not (size == 8) || sig == 0 || not (leb sig 31)) ≡ true
          → IsValid (sys_rt_sigaction sig act oldact size t).1
      refused none bad = rw bad v
      refused (some a) bad = rw bad v

      in_range :
          (act : Option (Option Sigaction))
          → (not (size == 8) || sig == 0 || not (leb sig 31)) ≡ false
          → IsValid (sys_rt_sigaction sig act oldact size t).1
      in_range none good = rw good (copy_out-IsValid _ v oldact (t.actions (sig - 1)) t v)
      in_range (some none) good = elim (Bool-cases (sig == 9 || sig == 19)) [
        | inl fixed ↦ rw (good, fixed) v
        | inr free ↦ rw (good, free) v
      ]
      in_range (some (some new)) good = elim (Bool-cases (sig == 9 || sig == 19)) [
        | inl fixed ↦ rw (good, fixed) v
        | inr free ↦
            let w =
              set_action-IsValid sig new (ground (arith, good)) (ground (arith, free))
                (ground (arith, free)) in
            rw (good, free) (copy_out-IsValid _ v oldact (t.actions (sig - 1)) _ w)
      ]

  -- A child begins with a sound copy.
  pub clone_signals-IsValid :
      (child : Task) → child.sigpending ≡ false → IsValid (clone_signals t (signal_task_init child))
  unfolding clone_signals signal_task_init nonzero
  clone_signals-IsValid child e = record {
    range = λ i h. ground (arith, h);
    listed = tt;
    single = tt;
    unblocked = v.unblocked;
    masks = λ i lt. sound i lt;
    kill = v.kill;
    stop = v.stop;
    flag = e;
  }
    where
      sound : (i : ℕ) → i < 31 → Spares ((clone_signals t (signal_task_init child)).actions i).mask
      sound i lt = elim (Bool-cases (ltb i 31)) [
        | inl h ↦ rw h (v.masks i lt)
        | inr h ↦ absurd (ground (arith, h, lt))
      ]

  -- `signal_clone`, which resets the actions, keeps the invariant.
  pub signal_clone-IsValid : IsValid (signal_clone t)
  unfolding signal_clone
  signal_clone-IsValid = record {
    range = v.range;
    listed = v.listed;
    single = v.single;
    unblocked = v.unblocked;
    masks = λ i lt. ground arith;
    kill = ground (arith, v.kill);
    stop = ground (arith, v.stop);
    flag = v.flag;
  }
