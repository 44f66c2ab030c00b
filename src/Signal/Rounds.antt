-- ===== src/Signal/Rounds.antt =====
-- What a round of `get_signal` does with the signal that it takes.
use mathlib.Core.Path.{subst}
use nuvix.Prelude.{
  ℕ, ◌-◌, ◌<◌, ◌≡◌, refl, sym, ap, ◌∙◌, ◌≢◌, ◌⊎◌, inl, inr, Bool, true, false, ◌&&◌, not, none,
  List, [], ◌∷◌, arith, ◌==◌, if◌then◌else◌, ==_iff, Bool-cases, All, All-map,
}
use nuvix.Bitmap.{Word, nonzero}
use nuvix.Signal.{
  Siginfo, Sigaction, stopped, Task, has, sigmask, stop_mask, ignored_mask, recalc_sigpending,
  deliverable, signal_ignored,
}
use nuvix.Signal.Receive.{
  Ksignal, Round, nothing, waits, exits, stops, again, delivers, take_entry, info_or,
  dequeue_signal_locked, finish, act_on, get_round, signal_default,
}
use nuvix.Signal.Inv.{IsValid, Listed, Single, Spares}
use nuvix.Signal.Get.{IsChosen, choose-IsChosen}

-- The task after the signal was taken from it.
pub record Took (t : Task) (sig : ℕ) (t' : Task) : Type 0 where
  pub valid : IsValid t'
  pub chosen : IsChosen (deliverable t) sig
  pub pending : t'.pending ≡ (λ i. t.pending i && not (sigmask sig i))
  pub blocked : t'.blocked ≡ t.blocked

-- What a round that ends in a given way means. Without a deliverable signal nothing changes. Else
-- the chosen signal is taken: an ignored one is dropped, the default action stops or ends the
-- task, and a handler is called with the mask to restore.
abbrev pub Outcome : Task → Round → Type 0
Outcome t (nothing t') = (t' ≡ t) × (t.sigsuspend ≡ false) × (nonzero (deliverable t) ≡ false)
Outcome t (waits t') = (t' ≡ t) × (t.sigsuspend ≡ true) × (nonzero (deliverable t) ≡ false)
Outcome t (exits sig t') =
    Took t sig t'
    × ((t.actions (sig - 1)).handler ≡ 0)
    × (has ignored_mask sig ≡ false)
    × (has stop_mask sig ≡ false)
Outcome t (stops t') =
    (sig : ℕ) × Took t sig t'
    × ((t.actions (sig - 1)).handler ≡ 0)
    × (has stop_mask sig ≡ true)
    × (t'.state ≡ stopped)
Outcome t (again t') = (sig : ℕ) × Took t sig t' × (signal_ignored (t.actions (sig - 1)) sig ≡ true)
Outcome t (delivers k t') =
    Took t k.info.signo t'
    × (k.action ≡ t.actions (k.info.signo - 1))
    × (k.action.handler ≢ 0)
    × (k.action.handler ≢ 1)
    × (k.oldmask ≡ (if t.sigsuspend then t.saved else t.blocked))

module _ {κ} (P : Siginfo → Type κ) (sig : ℕ) where
  take_entry-All : (qs : List Siginfo) → All P qs → All P (take_entry sig qs).1
  unfolding take_entry
  take_entry-All [] h = tt
  take_entry-All (q ∷ qs) h = elim (Bool-cases (q.signo == sig)) [
    | inl here ↦ rw here h.1
    | inr other ↦ rw other (h.0, take_entry-All qs h.1)
  ]

take_entry-Single :
    (sig : ℕ) (qs : List Siginfo)
    → Single qs
    → Single (take_entry sig qs).1 × All (λ r. r.signo ≢ sig) (take_entry sig qs).1
unfolding take_entry
take_entry-Single sig [] s = (tt, tt)
take_entry-Single sig (q ∷ qs) s = elim (Bool-cases (q.signo == sig)) [
  | inl here ↦
      let e : q.signo ≡ sig = (==_iff q.signo sig).0 here in
      rw here (s.1, All-map _ _ qs (λ r ne e'. ne (e' ∙ sym e)) s.0)
  | inr other ↦
      let rest = take_entry-Single sig qs s.1 in
      rw other ((take_entry-All _ sig qs s.0, rest.0), ((λ e. ground (arith, e, other)), rest.1))
]

take_entry-signo : (sig : ℕ) (qs : List Siginfo) → (info_or sig (take_entry sig qs).0).signo ≡ sig
unfolding take_entry
take_entry-signo sig [] = refl
take_entry-signo sig (q ∷ qs) = elim (Bool-cases (q.signo == sig)) [
  | inl here ↦ rw here ((==_iff q.signo sig).0 here)
  | inr other ↦ rw other (take_entry-signo sig qs)
]

entries_stay :
    (p : Word) (sig : ℕ) (qs : List Siginfo)
    → 0 < sig
    → All (Listed p) qs
    → All (λ r. r.signo ≢ sig) qs
    → All (Listed (λ i. p i && not (sigmask sig i))) qs
entries_stay p sig [] pos l n = tt
entries_stay p sig (q ∷ qs) pos l n =
    let low : 0 < q.signo = l.0.0 in
    let ne : q.signo ≢ sig = n.0 in
    let other : (q.signo - 1 == sig - 1) ≡ false = ground (arith, low, pos, ne) in
    ((low, rw (l.0.1, other) refl), entries_stay p sig qs pos l.1 n.1)

-- The task with the chosen signal taken, its action reset or not, and a stop due or not.
abbrev acted : Task → ℕ → Bool → Bool → Task
acted t sig reset stop =
    let t' = (dequeue_signal_locked t sig).1 in
    recalc_sigpending (record t' {
      actions = λ i.
          if reset && i == sig - 1
          then record (t.actions (sig - 1)) { handler = 0 }
          else t.actions i;
      stoppending = stop;
    })

module _ (t : Task) (v : IsValid t) (sig : ℕ) (c : IsChosen (deliverable t) sig) where
  acted-Took : (reset stop : Bool) → Took t sig (acted t sig reset stop)
  unfolding dequeue_signal_locked recalc_sigpending
  acted-Took reset stop =
      let s = take_entry-Single sig t.queue v.single in
      let l = take_entry-All (Listed t.pending) sig t.queue v.listed in
      record {
        valid = record {
          range = λ i h. v.range i (ground (arith, h));
          listed = entries_stay t.pending sig _ c.low l s.1;
          single = s.0;
          unblocked = v.unblocked;
          masks = λ i lt. spared i lt (Bool-cases (reset && i == sig - 1));
          kill = dfl 8 v.kill (Bool-cases (reset && 8 == sig - 1));
          stop = dfl 18 v.stop (Bool-cases (reset && 18 == sig - 1));
          flag = refl;
        };
        chosen = c;
        pending = refl;
        blocked = refl;
      }
    where
      spared :
          (i : ℕ)
          → i < 31
          → ((reset && i == sig - 1) ≡ true) ⊎ ((reset && i == sig - 1) ≡ false)
          → Spares
              (if reset && i == sig - 1
                then record (t.actions (sig - 1)) { handler = 0 }
                else t.actions i).mask
      spared i lt (inl b) = rw b (v.masks (sig - 1) (omega (arith, c.low, c.high)))
      spared i lt (inr b) = rw b (v.masks i lt)

      dfl :
          (i : ℕ)
          → (t.actions i).handler ≡ 0
          → ((reset && i == sig - 1) ≡ true) ⊎ ((reset && i == sig - 1) ≡ false)
          → (if reset && i == sig - 1
              then record (t.actions (sig - 1)) { handler = 0 }
              else t.actions i).handler
            ≡ 0
      dfl i h (inl b) = rw b refl
      dfl i h (inr b) = rw b h

  stop-Took :
      (t' : Task) → Took t sig t' → Took t sig (record t' { stoppending = false; state = stopped })
  stop-Took t' k = record {
    valid = record {
      range = k.valid.range;
      listed = k.valid.listed;
      single = k.valid.single;
      unblocked = k.valid.unblocked;
      masks = k.valid.masks;
      kill = k.valid.kill;
      stop = k.valid.stop;
      flag = k.valid.flag;
    };
    chosen = c;
    pending = k.pending;
    blocked = k.blocked;
  }

  finish-Outcome :
      (k : Ksignal) (t' : Task)
      → k.info.signo ≡ sig
      → k.action ≡ t.actions (sig - 1)
      → k.oldmask ≡ (if t.sigsuspend then t.saved else t.blocked)
      → ((k.action.handler == 0 && has stop_mask sig) ≡ true → t'.stoppending ≡ true)
      → Took t sig t'
      → Outcome t (finish false sig k t')
  unfolding finish signal_default signal_ignored
  finish-Outcome k t' e a o stop_due took =
      let h = ap (λ (a : Sigaction). a.handler) a in
      elim (Bool-cases (k.action.handler == 1)) [
        | inl ign ↦ rw ign (sig, took, rw (← h, ign) refl)
        | inr not_ign ↦ elim (Bool-cases (k.action.handler == 0)) [
          | inr handled ↦
              rw (not_ign, handled)
                (
                  subst (λ s. Took t s t') (sym e) took,
                  a ∙ ap (λ s. t.actions (s - 1)) (sym e),
                  (λ z. ground (arith, z, handled)),
                  (λ z. ground (arith, z, not_ign)),
                  o,
                )
          | inl dfl ↦
              let zero_handler : (t.actions (sig - 1)).handler ≡ 0 = sym h ∙ (==_iff _ 0).0 dfl in
              elim (Bool-cases (has ignored_mask sig)) [
                | inl ignored ↦
                    rw (not_ign, dfl, ignored) (sig, took, rw (zero_handler, ignored) refl)
                | inr acts ↦ elim (Bool-cases (has stop_mask sig)) [
                  | inl halts ↦
                      rw (not_ign, dfl, acts, halts, stop_due (rw (dfl, halts) refl))
                        (sig, stop-Took t' took, zero_handler, halts, refl)
                  | inr kills ↦ rw (not_ign, dfl, acts, kills) (took, zero_handler, acts, kills)
                ]
              ]
        ]
      ]

  act_on-Outcome :
      (info : Siginfo)
      → info.signo ≡ sig
      → Outcome t (act_on false sig info (dequeue_signal_locked t sig).1)
  unfolding act_on dequeue_signal_locked
  act_on-Outcome info e =
      finish-Outcome _ _ e refl refl (λ h. unfold recalc_sigpending in rw h refl) (acted-Took _ _)

dequeue-signo : (t : Task) (sig : ℕ) → (dequeue_signal_locked t sig).0.signo ≡ sig
unfolding dequeue_signal_locked
dequeue-signo t sig = take_entry-signo sig t.queue

idle :
    (t : Task)
    → nonzero (deliverable t) ≡ false
    → (b : Bool) → t.sigsuspend ≡ b
    → Outcome t (if b then waits t else nothing t)
idle t h true e = (refl, e, h)
idle t h false e = (refl, e, h)

-- What a round of `get_signal` that no exception caused does: without a deliverable signal it
-- changes nothing and the task goes on or, in sigsuspend, waits; else the signal that it takes is
-- SIGKILL if that is deliverable and the lowest deliverable one if not, and it is dropped only if
-- it is ignored, stops or ends the task only by default, and otherwise goes to its handler with the
-- mask to restore. The invariant holds afterwards in each case.
pub get_round-Outcome : (t : Task) → IsValid t → Outcome t (get_round none t)
unfolding get_round
get_round-Outcome t v = elim (Bool-cases (nonzero (deliverable t))) [
  | inl some_signal ↦
      let c = choose-IsChosen (deliverable t) (λ i h. v.range i (ground (arith, h))) some_signal in
      rw some_signal (act_on-Outcome t v _ c _ (dequeue-signo t _))
  | inr no_signal ↦ rw no_signal (idle t no_signal t.sigsuspend refl)
]
