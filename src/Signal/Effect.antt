-- ===== src/Signal/Effect.antt =====
-- What `send_signal` does to the pending signals and to the state of the task.
use mathlib.Core.Path.{subst}
use nuvix.Prelude.{
  ℕ, ◌-◌, ◌≤◌, ◌<◌, ◌≡◌, refl, sym, ap, ◌∙◌, inl, inr, Bool, true, false, ◌&&◌, ◌||◌, not, arith,
  ◌==◌, if◌then◌else◌, ==_iff, Bool-cases, ◌≢◌,
}
use nuvix.Bitmap.{Word, nonzero}
use nuvix.Signal.{
  Siginfo, Task, State, runnable, has, sigmask, stop_mask, sig_cont, is_stopped, wakes_on,
  wake_task, sched_resume, signal_ignored, recalc_sigpending, flush_signals_locked, cancel, enlist,
  send_signal, deliverable, stopped, interruptible, killable,
}
use nuvix.Signal.Inv.{has-low}

-- The signals that a signal cancels.
unfoldable pub cancelled : ℕ → Word
cancelled sig =
    if has stop_mask sig then sigmask sig_cont else if sig == sig_cont then stop_mask else λ _.
    false

-- Is the signal recorded once it is known not to be pending?
abbrev pub wanted : Task → ℕ → Bool
wanted t sig = has t.blocked sig || not (signal_ignored (t.actions (sig - 1)) sig)

woken_out : (f : State → Bool) (s : State) → f runnable ≡ false → f (wake_task f s) ≡ false
woken_out f s h = elim (Bool-cases (f s)) [ inl hit ↦ rw hit h | inr miss ↦ rw miss miss ]

wake-stopped :
    (f : State → Bool) (s : State) → is_stopped s ≡ false → is_stopped (wake_task f s) ≡ false
wake-stopped f s h = elim (Bool-cases (f s)) [ inl hit ↦ rw hit refl | inr miss ↦ rw miss h ]

not_stopped : (s : State) → is_stopped s ≡ false → s ≢ stopped
not_stopped s h e =
    let bad : true ≡ false = subst (λ x. is_stopped x ≡ false) e h in ground (arith, bad)

if_wake :
    (b : Bool) (f : State → Bool) (s : State)
    → is_stopped s ≡ false
    → is_stopped (if b then wake_task f s else s) ≡ false
if_wake true f s h = wake-stopped f s h
if_wake false f s h = h

enlist-stoppending :
    (room : Bool) (t : Task) (info : Siginfo) → (enlist room t info).stoppending ≡ t.stoppending
unfolding enlist
enlist-stoppending room t info = ground arith

cancel-stoppending :
    (t : Task) (sig : ℕ) → (sig == 18 || sig == 9) ≡ true → (cancel t sig).stoppending ≡ false
unfolding cancel
cancel-stoppending t sig h = rw h refl

not_interruptible : (sig : ℕ) (s : State) → wakes_on sig s ≡ false → s ≢ interruptible
not_interruptible sig s h e =
    let bad : true ≡ false = subst (λ x. wakes_on sig x ≡ false) e h in ground (arith, bad)

not_killable : (sig : ℕ) (s : State) → sig ≡ 9 → wakes_on sig s ≡ false → s ≢ killable
not_killable sig s k h e =
    let bad : (sig == 9) ≡ false = subst (λ x. wakes_on sig x ≡ false) e h in ground (arith, bad, k)

-- No wake-up is lost: after `send_signal` of a number above zero, a task with a signal that is pending
-- and not blocked is not in an interruptible sleep, nor in a killable one if the signal was SIGKILL;
-- and one that was sent SIGKILL or SIGCONT is not stopped and is not about to stop.
pub send_signal-wakes :
    (room : Bool) (t : Task) (info : Siginfo)
    → 0 < info.signo
    → let t' = send_signal room t info in
      (nonzero (λ i. t'.pending i && not (t'.blocked i)) ≡ true
        → (t'.state ≢ interruptible) × (info.signo ≡ 9 → t'.state ≢ killable))
      × ((info.signo == 18 || info.signo == 9) ≡ true
          → (t'.state ≢ stopped) × (t'.stoppending ≡ false))
unfolding send_signal recalc_sigpending
send_signal-wakes room t info pos =
    let nz : (info.signo == 0) ≡ false = ground arith in
    let e : Task = enlist room (cancel t info.signo) info in
    let up = woken_out is_stopped e.state refl in
    rw nz (
      (λ d. rw d (
        not_interruptible info.signo _ (woken_out (wakes_on info.signo) _ refl),
        λ k. not_killable info.signo _ k (woken_out (wakes_on info.signo) _ refl),
      )),
      (λ k. rw k (
        not_stopped _
            (if_wake (nonzero (deliverable e)) (wakes_on info.signo) (sched_resume e.state) up),
        enlist-stoppending room (cancel t info.signo) info ∙ cancel-stoppending t info.signo k,
      )),
    )

pub cancel-pending :
    (t : Task) (sig i : ℕ) → (cancel t sig).pending i ≡ (t.pending i && not (cancelled sig i))
unfolding cancel flush_signals_locked cancelled
cancel-pending t sig i = ground arith

pub cancel-blocked : (t : Task) (sig : ℕ) → (cancel t sig).blocked ≡ t.blocked
unfolding cancel flush_signals_locked
cancel-blocked t sig = ground arith

pub cancel-actions : (t : Task) (sig : ℕ) → (cancel t sig).actions ≡ t.actions
unfolding cancel flush_signals_locked
cancel-actions t sig = ground arith

enlist-pending :
    (room : Bool) (t : Task) (info : Siginfo) (i : ℕ)
    → 0 < info.signo
    → info.signo ≤ 31
    → (enlist room t info).pending i ≡ (t.pending i || wanted t info.signo && sigmask info.signo i)
unfolding enlist
enlist-pending room t info i pos high = elim (Bool-cases (i == info.signo - 1)) [
  | inr other ↦ rw other (ground arith)
  | inl here ↦
      let e : i ≡ info.signo - 1 = (==_iff i (info.signo - 1)).0 here in
      let h : has t.pending info.signo ≡ t.pending i =
        has-low t.pending info.signo (omega arith) ∙ ap t.pending (sym e) in
      rw (here, h) (ground arith)
]

-- After `send_signal` the pending signals are the old ones less those that the new one cancels
-- (SIGCONT cancels the stop signals, and each of these cancels SIGCONT), with the new one added
-- unless it is ignored and not blocked.
pub send_signal-pending :
    (room : Bool) (t : Task) (info : Siginfo) (i : ℕ)
    → 0 < info.signo
    → info.signo ≤ 31
    → (send_signal room t info).pending i
      ≡ (t.pending i && not (cancelled info.signo i) || wanted t info.signo && sigmask info.signo i)
unfolding send_signal recalc_sigpending
send_signal-pending room t info i pos high =
    let nz : (info.signo == 0) ≡ false = ground arith in
    rw nz (
      enlist-pending room (cancel t info.signo) info i pos high
      ∙ rw (cancel-pending t info.signo i, cancel-blocked t info.signo, cancel-actions t info.signo)
          refl)
