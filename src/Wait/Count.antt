-- ===== src/Wait/Count.antt =====
-- How many of the waiters of kernel/wait.c are awake, and what the operations do to that number.
use nuvix.Prelude.{
  ℕ, suc, ◌+◌, ◌≤◌, min, ◌≡◌, refl, sym, ap, ◌∙◌, inl, inr, true, false, List, [], ◌∷◌, arith, ◌==◌,
  if◌then◌else◌, ==_iff, Bool-cases, length, Bool,
}
use mathlib.Core.Path.{subst}
use nuvix.Signal.{
  State, new, runnable, interruptible, uninterruptible, stopped, zombie, killable, wake_task,
}
use nuvix.Wait.{sleeps, set_state, sched_wake, listed, unlist, wake_first, wake_each}

abbrev pub awake : (ℕ → State) → List ℕ → ℕ
awake f [] = 0
awake f (w ∷ ws) = (if sleeps (f w) then 0 else 1) + awake f ws

pub awake-length : (f : ℕ → State) (ws : List ℕ) → awake f ws ≤ length ws
awake-length f [] = omega arith
awake-length f (w ∷ ws) = ground (arith, awake-length f ws)

-- Whoever is awake stays awake.
abbrev pub Wakes : (ℕ → State) → (ℕ → State) → Type 0
Wakes f g = (i : ℕ) → sleeps (f i) ≡ false → sleeps (g i) ≡ false

woken : (s : State) → sleeps (wake_task sleeps s) ≡ false
woken new = refl
woken runnable = refl
woken interruptible = refl
woken uninterruptible = refl
woken stopped = refl
woken zombie = refl
woken killable = refl

sched_wake-woken : (f : ℕ → State) (t : ℕ) → sleeps ((sched_wake f t).1 t) ≡ false
sched_wake-woken f t = rw ((==_iff t t).1 refl) (woken (f t))

pub sched_wake-Wakes : (f : ℕ → State) (t : ℕ) → Wakes f (sched_wake f t).1
sched_wake-Wakes f t i e = elim (Bool-cases (i == t)) [
  | inl h ↦ rw h (woken (f t))
  | inr h ↦ rw h e
]

woken_by :
    (states : State → Bool) (s : State) → sleeps s ≡ false → sleeps (wake_task states s) ≡ false
woken_by states s e = elim (Bool-cases (states s)) [ inl h ↦ rw h refl | inr h ↦ rw h e ]

pub wake_task-Wakes :
    (f : ℕ → State) (t : ℕ) (states : State → Bool)
    → Wakes f (set_state f t (wake_task states (f t)))
wake_task-Wakes f t states i e = elim (Bool-cases (i == t)) [
  | inl h ↦ rw h (woken_by states (f t) (subst (λ j. sleeps (f j) ≡ false) ((==_iff i t).0 h) e))
  | inr h ↦ rw h e
]

pub awake-Wakes : (f g : ℕ → State) (ws : List ℕ) → Wakes f g → awake f ws ≤ awake g ws
awake-Wakes f g [] h = omega arith
awake-Wakes f g (w ∷ ws) h =
    let rest = awake-Wakes f g ws h in
    elim (Bool-cases (sleeps (f w))) [
      | inl k ↦ rw k (ground (arith, rest))
      | inr k ↦ rw (k, h w k) (omega (arith, rest))
    ]

-- The first waiter sleeps and is woken, or it is passed over.
wake_first_woken :
    (f : ℕ → State) (w : ℕ) (ws : List ℕ)
    → sleeps (f w) ≡ true
    → wake_first f (w ∷ ws) ≡ (sched_wake f w).1
unfolding wake_first
wake_first_woken f w ws e =
    ap (λ b. if b then (sched_wake f w).1 else wake_first (sched_wake f w).1 ws) e

wake_first_passed :
    (f : ℕ → State) (w : ℕ) (ws : List ℕ)
    → sleeps (f w) ≡ false
    → wake_first f (w ∷ ws) ≡ wake_first (sched_wake f w).1 ws
unfolding wake_first
wake_first_passed f w ws e =
    ap (λ b. if b then (sched_wake f w).1 else wake_first (sched_wake f w).1 ws) e

pub wake_first-Wakes : (f : ℕ → State) (ws : List ℕ) → Wakes f (wake_first f ws)
unfolding wake_first
wake_first-Wakes f [] i e = e
wake_first-Wakes f (w ∷ ws) i e =
    let once = sched_wake-Wakes f w i e in
    elim (Bool-cases (sleeps (f w))) [
      | inl h ↦ subst (λ g. sleeps (g i) ≡ false) (sym (wake_first_woken f w ws h)) once
      | inr h ↦
          subst (λ g. sleeps (g i) ≡ false) (sym (wake_first_passed f w ws h))
            (wake_first-Wakes (sched_wake f w).1 ws i once)
    ]

pub wake_each-Wakes : (f : ℕ → State) (ws : List ℕ) → Wakes f (wake_each f ws)
unfolding wake_each
wake_each-Wakes f [] i e = e
wake_each-Wakes f (w ∷ ws) i e = wake_each-Wakes (sched_wake f w).1 ws i (sched_wake-Wakes f w i e)

awake_head :
    (f : ℕ → State) (w : ℕ) (ws : List ℕ)
    → sleeps (f w) ≡ false
    → awake f (w ∷ ws) ≡ suc (awake f ws)
awake_head f w ws e = rw e (omega arith)

asleep_head :
    (f : ℕ → State) (w : ℕ) (ws : List ℕ) → sleeps (f w) ≡ true → awake f (w ∷ ws) ≡ awake f ws
asleep_head f w ws e = rw e (omega arith)

-- One more waiter is awake, or all are.
pub wake_first-awake :
    (f : ℕ → State) (ws : List ℕ) → min (suc (awake f ws)) (length ws) ≤ awake (wake_first f ws) ws
unfolding wake_first
wake_first-awake f [] = omega arith
wake_first-awake f (w ∷ ws) =
    let g : ℕ → State = (sched_wake f w).1 in
    let more = awake-Wakes f g ws (sched_wake-Wakes f w) in
    elim (Bool-cases (sleeps (f w))) [
      | inl h ↦
          subst (λ k. min (suc (awake f (w ∷ ws))) (length (w ∷ ws)) ≤ awake k (w ∷ ws))
            (sym (wake_first_woken f w ws h))
            (omega (arith, more, asleep_head f w ws h, awake_head g w ws (sched_wake-woken f w)))
      | inr h ↦
          subst (λ k. min (suc (awake f (w ∷ ws))) (length (w ∷ ws)) ≤ awake k (w ∷ ws))
            (sym (wake_first_passed f w ws h))
            (omega (
              arith,
              more,
              awake_head f w ws h,
              wake_first-awake g ws,
              awake_head (wake_first g ws) w ws (wake_first-Wakes g ws w (sched_wake-woken f w)),
            ))
    ]

pub wake_each-awake : (f : ℕ → State) (ws : List ℕ) → awake (wake_each f ws) ws ≡ length ws
unfolding wake_each
wake_each-awake f [] = refl
wake_each-awake f (w ∷ ws) =
    let g : ℕ → State = (sched_wake f w).1 in
    awake_head (wake_each g ws) w ws (wake_each-Wakes g ws w (sched_wake-woken f w))
    ∙ ap suc (wake_each-awake g ws)

pub unlist-length : (t : ℕ) (ws : List ℕ) → length (unlist t ws) ≤ length ws
unfolding unlist
unlist-length t [] = omega arith
unlist-length t (w ∷ ws) = elim (Bool-cases (w == t)) [
  | inl h ↦ rw h (omega arith)
  | inr h ↦ rw h (omega (arith, unlist-length t ws))
]

-- The entry of an awake task goes.
pub unlist-awake :
    (f : ℕ → State) (t : ℕ) (ws : List ℕ)
    → listed t ws ≡ true
    → sleeps (f t) ≡ false
    → (awake f ws ≡ suc (awake f (unlist t ws))) × (length ws ≡ suc (length (unlist t ws)))
unfolding listed unlist
unlist-awake f t [] e k = ground (arith, e)
unlist-awake f t (w ∷ ws) e k = elim (Bool-cases (w == t)) [
  | inl h ↦
      let same : sleeps (f w) ≡ false =
        subst (λ i. sleeps (f i) ≡ false) (sym ((==_iff w t).0 h)) k in
      rw h (awake_head f w ws same, refl)
  | inr h ↦
      let rest =
        unlist-awake f t ws (subst (λ b. (if b then true else listed t ws) ≡ true) h e) k in
      rw h (ap (λ n. (if sleeps (f w) then 0 else 1) + n) rest.0 ∙ omega arith, ap suc rest.1)
]

-- The state of a task that is not in the list.
pub awake_elsewhere :
    (f : ℕ → State) (t : ℕ) (s : State) (ws : List ℕ)
    → listed t ws ≡ false
    → awake (set_state f t s) ws ≡ awake f ws
unfolding listed
awake_elsewhere f t s [] e = refl
awake_elsewhere f t s (w ∷ ws) e = elim (Bool-cases (w == t)) [
  | inl h ↦ ground (arith, subst (λ b. (if b then true else listed t ws) ≡ false) h e)
  | inr h ↦ rw h (
      ap (λ n. (if sleeps (f w) then 0 else 1) + n)
        (awake_elsewhere f t s ws (subst (λ b. (if b then true else listed t ws) ≡ false) h e)))
]
