-- ===== src/Signal/Deliver.antt =====
-- What a delivered signal carries, and the mask while its handler runs.
use mathlib.Core.Path.{subst}
use nuvix.Prelude.{
  ℕ, ◌-◌, ◌≤◌, ◌<◌, ◌≡◌, refl, sym, ap, ◌∙◌, ◌≢◌, true, false, none, some, List, [], ◌∷◌, ◌++◌,
  arith, ◌==◌, All, All-map,
}
use nuvix.Bitmap.{Word}
use nuvix.Signal.{Siginfo, Sigaction, Task, has, recalc_sigpending, cancel, enlist, send_signal}
use nuvix.Signal.Receive.{
  Ksignal, delivers, take_entry, dequeue_signal_locked, get_round, signal_delivered,
}
use nuvix.Signal.Inv.{IsValid, Listed, Spares, has-low, recalc-IsValid}
use nuvix.Signal.Send.{cancel-Sound}
use nuvix.Signal.Effect.{wanted, cancel-pending, cancel-blocked, cancel-actions}
use nuvix.Signal.Rounds.{Outcome, get_round-Outcome}

delivered-Spares :
    (t : Task) (k : Ksignal) (t' : Task)
    → IsValid t
    → Outcome t (delivers k t')
    → Spares k.action.mask × (k.info.signo ≢ 9) × (k.info.signo ≢ 19)
delivered-Spares t k t' v (took, a, ne, _, _) =
    let low = took.chosen.low in
    let high = took.chosen.high in
    let h = ap (λ (a : Sigaction). a.handler) a in
    (
      subst (λ (a : Sigaction). Spares a.mask) (sym a) (v.masks (k.info.signo - 1) (omega arith)),
      (λ e. ne (h ∙ ap (λ s. (t.actions (s - 1)).handler) e ∙ v.kill)),
      (λ e. ne (h ∙ ap (λ s. (t.actions (s - 1)).handler) e ∙ v.stop)),
    )

-- Once `signal_delivered` has blocked the mask of the action and, without SA_NODEFER, the signal
-- itself, for a signal that `get_signal` delivers, the invariant still holds: no handler can block
-- SIGKILL or SIGSTOP.
pub signal_delivered-IsValid :
    (t : Task) (k : Ksignal) (t' : Task)
    → IsValid t
    → get_round none t ≡ delivers k t'
    → IsValid (signal_delivered k t')
unfolding signal_delivered
signal_delivered-IsValid t k t' v e =
    let o : Outcome t (delivers k t') = subst (Outcome t) e (get_round-Outcome t v) in
    let w = o.0.valid in
    let (s, not_kill, not_stop) = delivered-Spares t k t' v o in
    let low = o.0.chosen.low in
    let kill : (8 == k.info.signo - 1) ≡ false = ground (arith, low, not_kill) in
    let stop : (18 == k.info.signo - 1) ≡ false = ground (arith, low, not_stop) in
    recalc-IsValid _ w.range w.listed w.single
      (rw (w.unblocked.0, s.0, kill) (ground arith), rw (w.unblocked.1, s.1, stop) (ground arith))
      w.masks w.kill w.stop

take_entry-append :
    (sig : ℕ) (qs : List Siginfo) (q : Siginfo)
    → All (λ r. r.signo ≢ sig) qs
    → q.signo ≡ sig
    → (take_entry sig (qs ++ q ∷ [])).0 ≡ some q
unfolding take_entry
take_entry-append sig [] q n e =
    let here : (q.signo == sig) ≡ true = ground (arith, e) in rw here refl
take_entry-append sig (r ∷ rs) q n e =
    let other : (r.signo == sig) ≡ false = ground (arith, n.0) in
    rw other (take_entry-append sig rs q n.1 e)

absent :
    (p : Word) (sig : ℕ) (qs : List Siginfo)
    → p (sig - 1) ≡ false
    → All (Listed p) qs
    → All (λ r. r.signo ≢ sig) qs
absent p sig qs free l =
    All-map (Listed p) (λ r. r.signo ≢ sig) qs
      (λ r l e. ground (arith, sym l.1 ∙ ap (λ s. p (s - 1)) e ∙ free)) l

-- A signal that was not pending and is not ignored, or is blocked, is taken back with just what it
-- was sent with, when there was room to record it.
pub dequeue-send_signal :
    (t : Task) (info : Siginfo)
    → IsValid t
    → 0 < info.signo
    → info.signo ≤ 31
    → t.pending (info.signo - 1) ≡ false
    → wanted t info.signo ≡ true
    → (dequeue_signal_locked (send_signal true t info) info.signo).0 ≡ info
unfolding send_signal enlist dequeue_signal_locked recalc_sigpending
dequeue-send_signal t info v pos high free want =
    let nz : (info.signo == 0) ≡ false = ground arith in
    let c : Task = cancel t info.signo in
    let c_free : c.pending (info.signo - 1) ≡ false =
      cancel-pending t info.signo (info.signo - 1) ∙ rw free refl in
    let c_has : has c.pending info.signo ≡ false =
      has-low c.pending info.signo (omega arith) ∙ c_free in
    let c_want : wanted c info.signo ≡ true =
      rw (cancel-blocked t info.signo, cancel-actions t info.signo) want in
    let l = (cancel-Sound t info.signo v).listed in
    let out =
      take_entry-append info.signo c.queue info (absent c.pending info.signo c.queue c_free l)
        refl in
    rw (nz, c_has, c_want, out) refl
