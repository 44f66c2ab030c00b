-- ===== src/Mutex/Safe.antt =====
-- Runs of a mutex of kernel/mutex.c with the tasks whose call has returned with it: mutual exclusion,
-- and no lost wake-up.
use nuvix.Prelude.{
  ℕ, ◌≡◌, refl, ap, ◌∙◌, inl, inr, Bool, true, false, Option, none, some, List, [], ◌∷◌, arith,
  ◌==◌, if◌then◌else◌, Bool-cases, Option-cases,
}
use mathlib.Core.Path.{subst}
use nuvix.Signal.{State, wake_task}
use nuvix.Wait.{Attempt, ready, WaitQueue, sleeps, set_state, listed, unlist}
use nuvix.Wait.Count.{wake_task-Wakes}
use nuvix.Wait.Covers.{Covers, Covers-zero, Covers-Wakes, wake_up_one-Covers, set_state-Covers}
use nuvix.Mutex.{init, Mutex, lock_round, trylock, unlock}

pub record Locking : Type 0 where
  pub mutex : Mutex
  pub holders : List ℕ

abbrev holds_after : Attempt → ℕ → List ℕ → List ℕ
holds_after ready t ts = t ∷ ts
holds_after a t ts = ts

abbrev pub locks_by : Locking → (t : ℕ) → (s : State) → (pending : Bool) → Locking
locks_by l t s pending =
    let (a, m) = lock_round l.mutex t s pending in
    record { mutex = m; holders = holds_after a t l.holders }

abbrev pub tries_by : Locking → ℕ → Locking
tries_by l t =
    let (took, m) = trylock l.mutex t in
    record { mutex = m; holders = if took then t ∷ l.holders else l.holders }

abbrev with_state : Locking → (ℕ → State) → Locking
with_state l f = record l { mutex = record l.mutex { wait = record l.mutex.wait { state = f } } }

-- A round is run by a task that is awake, and only a holder unlocks. A signal or another event may
-- wake any task, and a task outside the queue changes its state as it likes.
pub data Step (l : Locking) : Locking → Type 0 where
  locks :
      (t : ℕ) (s : State) (pending : Bool)
      → sleeps (l.mutex.wait.state t) ≡ false
      → Step l (locks_by l t s pending)
  tries : (t : ℕ) → Step l (tries_by l t)
  unlocks :
      (t : ℕ)
      → listed t l.holders ≡ true
      → Step l (record { mutex = unlock l.mutex; holders = unlist t l.holders })
  wakes :
      (t : ℕ) (states : State → Bool)
      → Step l
          (with_state l (set_state l.mutex.wait.state t (wake_task states (l.mutex.wait.state t))))
  goes_on :
      (t : ℕ) (s : State)
      → listed t l.mutex.wait.waiters ≡ false
      → Step l (with_state l (set_state l.mutex.wait.state t s))

pub data Reach : Locking → Type 0 where
  fresh : (f : ℕ → State) → Reach (record { mutex = init f; holders = [] })
  later : {l k : Locking} → Reach l → Step l k → Reach k

abbrev pub held : Option ℕ → List ℕ
held none = []
held (some t) = t ∷ []

-- The holder is the owner, and a free mutex with waiters has one that is awake to take it.
abbrev pub IsSafe : Locking → Type 0
IsSafe l = (l.holders ≡ held l.mutex.owner) × (l.mutex.owner ≡ none → Covers 1 l.mutex.wait)

-- An owned mutex asks nothing of its waiters.
busy : (u : ℕ) (q : WaitQueue) → some u ≡ none → Covers 1 q
busy u q e = ground (arith, e)

owned :
    (l : Locking) (o : Option ℕ)
    → l.holders ≡ held l.mutex.owner
    → l.mutex.owner ≡ o
    → l.holders ≡ held o
owned l o same e = same ∙ ap held e

locks-IsSafe :
    (l : Locking) (t : ℕ) (s : State) (pending : Bool) → IsSafe l → IsSafe (locks_by l t s pending)
unfolding lock_round
locks-IsSafe l t s pending (same, k) = elim (Option-cases l.mutex.owner) [
  | inl free ↦ rw free (ap (λ ts. t ∷ ts) (owned l none same free), busy t _)
  | inr (u, taken) ↦ elim (Bool-cases pending) [
    | inl p ↦ rw (taken, p) (owned l (some u) same taken, busy u _)
    | inr p ↦ rw (taken, p) (owned l (some u) same taken, busy u _)
  ]
]

tries-IsSafe : (l : Locking) (t : ℕ) → IsSafe l → IsSafe (tries_by l t)
unfolding trylock
tries-IsSafe l t (same, k) = elim (Option-cases l.mutex.owner) [
  | inl free ↦ rw free (ap (λ ts. t ∷ ts) (owned l none same free), busy t _)
  | inr (u, taken) ↦ rw taken (owned l (some u) same taken, busy u _)
]

released : (t : ℕ) (o : Option ℕ) → listed t (held o) ≡ true → unlist t (held o) ≡ []
unfolding listed unlist
released t none e = ground (arith, e)
released t (some u) e = elim (Bool-cases (u == t)) [
  | inl h ↦ rw h refl
  | inr h ↦ ground (arith, subst (λ b. (if b then true else false) ≡ true) h e)
]

unlocks-IsSafe :
    (l : Locking) (t : ℕ)
    → listed t l.holders ≡ true
    → IsSafe l
    → IsSafe (record { mutex = unlock l.mutex; holders = unlist t l.holders })
unfolding unlock
unlocks-IsSafe l t e (same, k) = (
  ap (unlist t) same ∙ released t l.mutex.owner (subst (λ ts. listed t ts ≡ true) same e),
  (λ _. wake_up_one-Covers 0 l.mutex.wait (Covers-zero l.mutex.wait)),
)

Step-IsSafe : {l k : Locking} → Step l k → IsSafe l → IsSafe k
Step-IsSafe {l} (locks t s p e) h = locks-IsSafe l t s p h
Step-IsSafe {l} (tries t) h = tries-IsSafe l t h
Step-IsSafe {l} (unlocks t e) h = unlocks-IsSafe l t e h
Step-IsSafe {l} (wakes t states) h = (
  h.0,
  (λ e. Covers-Wakes 1 l.mutex.wait _ (wake_task-Wakes l.mutex.wait.state t states) (h.1 e)),
)
Step-IsSafe {l} (goes_on t s e) h =
    (h.0, (λ free. set_state-Covers 1 l.mutex.wait t s e (h.1 free)))

-- In every run of tasks that lock, try, unlock, are woken and sleep elsewhere: the tasks whose call
-- returned with the mutex and that have not unlocked it are none if there is no owner and the
-- owner alone otherwise; and a free mutex with waiters has a waiter that is awake to take it.
pub Reach-IsSafe : {l : Locking} → Reach l → IsSafe l
Reach-IsSafe (fresh f) = (refl, (λ _. omega arith))
Reach-IsSafe (later r s) = Step-IsSafe s (Reach-IsSafe r)
