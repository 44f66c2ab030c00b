-- ===== src/Signal/Send.antt =====
-- `send_signal` keeps the invariant.
use nuvix.Prelude.{
  ℕ, ◌-◌, ◌≤◌, ◌<◌, ◌≡◌, refl, sym, ◌∙◌, ◌⊎◌, inl, inr, Bool, true, false, ◌&&◌, ◌||◌, not, List,
  [], ◌∷◌, ◌++◌, arith, ◌==◌, if◌then◌else◌, Bool-cases, All, All-map,
}
use nuvix.Bitmap.{Word}
use nuvix.Signal.{
  Siginfo, Task, State, has, sigmask, stop_mask, sig_cont, signal_ignored, recalc_sigpending,
  flush_signals_locked, cancel, enlist, send_signal,
}
use nuvix.Signal.Inv.{
  IsValid, Listed, Single, has-low, recalc-IsValid, flush-IsValid, refresh-IsValid,
}

-- A task of which all but the flag is valid.
abbrev Sound : Task → Type 0
Sound t = IsValid (recalc_sigpending t)

unstop-Sound : (t : Task) (b : Bool) → Sound t → Sound (record t { stoppending = b })
unfolding recalc_sigpending
unstop-Sound t b v =
    recalc-IsValid (record t { stoppending = b }) v.range v.listed v.single v.unblocked v.masks
      v.kill v.stop

pub cancel-Sound : (t : Task) (sig : ℕ) → IsValid t → Sound (cancel t sig)
unfolding cancel
cancel-Sound t sig v =
    unstop-Sound _ _ (flushed (Bool-cases (has stop_mask sig)) (Bool-cases (sig == 18)))
  where
    flushed :
        (has stop_mask sig ≡ true) ⊎ (has stop_mask sig ≡ false)
        → ((sig == 18) ≡ true) ⊎ ((sig == 18) ≡ false)
        → Sound (
            if has stop_mask sig
            then flush_signals_locked t (sigmask sig_cont)
            else if sig == sig_cont
            then flush_signals_locked t stop_mask
            else t)
    flushed (inl stops) c = rw stops (flush-IsValid t v (sigmask sig_cont))
    flushed (inr other) (inl cont) = rw (other, cont) (flush-IsValid t v stop_mask)
    flushed (inr other) (inr rest) = rw (other, rest) (refresh-IsValid t v)

-- The entries stay listed when more signals are pending.
grow_pending :
    (p p' : Word) (qs : List Siginfo)
    → ((i : ℕ) → p i ≡ true → p' i ≡ true)
    → All (Listed p) qs
    → All (Listed p') qs
grow_pending p p' qs h a = All-map (Listed p) (Listed p') qs (λ q l. (l.0, h _ l.1)) a

All-append {ℓ κ} :
    {A : Type ℓ} (P : A → Type κ) (xs : List A) (x : A) → All P xs → P x → All P (xs ++ x ∷ [])
All-append P [] x a p = (p, tt)
All-append P (y ∷ ys) x a p = (a.0, All-append P ys x a.1 p)

Single-append :
    (p : Word) (qs : List Siginfo) (q : Siginfo)
    → All (Listed p) qs
    → 0 < q.signo
    → p (q.signo - 1) ≡ false
    → Single qs
    → Single (qs ++ q ∷ [])
Single-append p [] q l pos free s = (tt, tt)
Single-append p (r ∷ rs) q l pos free s = (
  All-append _ rs q s.0 (λ e. ground (arith, e, l.0, free, pos)),
  Single-append p rs q l.1 pos free s.1,
)

enlist-Sound :
    (room : Bool) (t : Task) (info : Siginfo)
    → 0 < info.signo
    → info.signo ≤ 31
    → Sound t
    → Sound (enlist room t info)
unfolding enlist recalc_sigpending
enlist-Sound room t info pos high v =
    elim (Bool-cases (
      not (has t.pending info.signo)
      && (has t.blocked info.signo
          || not (signal_ignored (t.actions (info.signo - 1)) info.signo)))) [
            | inr no_change ↦ rw no_change v
            | inl add ↦
                let free : t.pending (info.signo - 1) ≡ false =
                  sym (has-low t.pending info.signo (omega arith)) ∙ ground (arith, add) in
                let more : Task = record t {
                  queue = if room then t.queue ++ info ∷ [] else t.queue;
                  pending = λ i. t.pending i || sigmask info.signo i;
                } in
                rw add (
                  recalc-IsValid more (λ i h. in_range i (Bool-cases (i == info.signo - 1)) h)
                    (listed room) (single room free) v.unblocked v.masks v.kill v.stop)
          ]
  where
    in_range :
        (i : ℕ)
        → ((i == info.signo - 1) ≡ true) ⊎ ((i == info.signo - 1) ≡ false)
        → (t.pending i || i == info.signo - 1) ≡ true
        → i < 31
    in_range i (inl here) h = ground (arith, here)
    in_range i (inr other) h = v.range i (ground (arith, h, other))

    grown :
        (qs : List Siginfo)
        → All (Listed t.pending) qs
        → All (Listed (λ i. t.pending i || sigmask info.signo i)) qs
    grown qs l =
        grow_pending t.pending (λ i. t.pending i || sigmask info.signo i) qs (λ i h. rw h refl) l

    listed :
        (room : Bool)
        → All
            (Listed (λ i. t.pending i || sigmask info.signo i))
            (if room then t.queue ++ info ∷ [] else t.queue)
    listed false = grown t.queue v.listed
    listed true = All-append _ t.queue info (grown t.queue v.listed) (pos, ground arith)

    single :
        (room : Bool)
        → t.pending (info.signo - 1) ≡ false
        → Single (if room then t.queue ++ info ∷ [] else t.queue)
    single false free = v.single
    single true free = Single-append t.pending t.queue info v.listed pos free v.single

state-IsValid : (t : Task) (s : State) → IsValid t → IsValid (record t { state = s })
state-IsValid t s v = record {
  range = v.range;
  listed = v.listed;
  single = v.single;
  unblocked = v.unblocked;
  masks = v.masks;
  kill = v.kill;
  stop = v.stop;
  flag = v.flag;
}

-- `send_signal` keeps the invariant of a valid task for every signal number up to 31, whether there
-- is room for an entry of the list or not: the list has at most one entry for each signal, only
-- for pending ones, and the pending flag says whether a signal is deliverable.
pub send_signal-IsValid :
    (room : Bool) {t : Task} (info : Siginfo)
    → info.signo ≤ 31
    → IsValid t
    → IsValid (send_signal room t info)
unfolding send_signal
send_signal-IsValid room {t} info high v = elim (Bool-cases (info.signo == 0)) [
  | inl zero_sig ↦ rw zero_sig v
  | inr some_sig ↦
      let sound =
        enlist-Sound room (cancel t info.signo) info (ground (arith, some_sig)) high
          (cancel-Sound t info.signo v) in
      rw some_sig (state-IsValid _ _ sound)
]
