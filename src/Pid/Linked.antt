-- ===== src/Pid/Linked.antt =====
-- kernel/pid.c: the invariant of the links, kept by linking, unlinking and moving a task.
use nuvix.Prelude.{
  ℕ, ◌-◌, ◌<◌, ◌≡◌, refl, inl, inr, true, false, ◌&&◌, some, List, [], ◌∷◌, arith, ◌==◌,
  if◌then◌else◌, Bool-cases, times, ◌∙◌,
}
use nuvix.Wait.{unlist}
use nuvix.Pid.{Pids, put_at, same, put, refcount_inc}
use nuvix.Pid.Link.{no_tasks, busy, attach, detach, unhash_unused, moved}

-- A list of an identifier holds just the tasks that are linked to it, each once, and the hash table
-- just the identifiers that have a task.
pub record IsLinked (s : Pids) : Type 0 where
  pub listed :
      (k t p : ℕ)
      → times t (s.tasks k p) ≡ (if s.linked k t && same (s.pids k t) (some p) then 1 else 0)
  pub covers : (p : ℕ) → busy s p ≡ true → s.hashed p ≡ true
  pub tight : (p : ℕ) → s.hashed p ≡ true → busy s p ≡ true
  pub typed : (k t : ℕ) → s.linked k t ≡ true → k < 4

-- The same up to an identifier that may have lost its last task.
pub record IsLinkedBut (q : ℕ) (s : Pids) : Type 0 where
  pub listed :
      (k t p : ℕ)
      → times t (s.tasks k p) ≡ (if s.linked k t && same (s.pids k t) (some p) then 1 else 0)
  pub covers : (p : ℕ) → busy s p ≡ true → s.hashed p ≡ true
  pub tight : (p : ℕ) → (p == q) ≡ false → s.hashed p ≡ true → busy s p ≡ true
  pub typed : (k t : ℕ) → s.linked k t ≡ true → k < 4

times-unlist :
    (t u : ℕ) (ws : List ℕ) → times u (unlist t ws) ≡ times u ws - (if u == t then 1 else 0)
unfolding unlist
times-unlist t u [] = ground arith
times-unlist t u (w ∷ ws) = ground (arith, times-unlist t u ws)

unlist-no_tasks : (t : ℕ) (ws : List ℕ) → no_tasks (unlist t ws) ≡ false → no_tasks ws ≡ false
unfolding unlist
unlist-no_tasks t [] e = e
unlist-no_tasks t (w ∷ ws) e = refl

pub detach-IsLinkedBut :
    (s : Pids) (t k p : ℕ)
    → IsLinked s
    → s.linked k t ≡ true
    → s.pids k t ≡ some p
    → IsLinkedBut p (detach s t k p)
unfolding detach
detach-IsLinkedBut s t k p v h e = record {
  listed = λ l u q. ground (arith, v.listed l u q, times-unlist t u (s.tasks k p), h, e);
  covers = λ q b. v.covers q (ground (arith, b, unlist-no_tasks t (s.tasks k p)));
  tight = λ q ne b. ground (arith, v.tight q b, ne);
  typed = λ l u b. ground (arith, v.typed l u, b);
}

pub attach-IsLinkedBut :
    (old : ℕ) (s : Pids) (t k p : ℕ)
    → IsLinkedBut old s
    → s.linked k t ≡ false
    → s.hashed p ≡ true
    → k < 4
    → IsLinkedBut old (attach record s { pids = put_at s.pids k t (some p) } t k p)
unfolding attach
attach-IsLinkedBut old s t k p v h e lt = record {
  listed = λ l u q. ground (arith, v.listed l u q, h);
  covers = λ q b. ground (arith, v.covers q, b, e);
  tight = λ q ne b. ground (arith, v.tight q ne b, lt);
  typed = λ l u b. ground (arith, v.typed l u, b, lt);
}

pub unhash_unused-IsLinked : (s : Pids) (p : ℕ) → IsLinkedBut p s → IsLinked (unhash_unused s p)
unfolding unhash_unused
unhash_unused-IsLinked s p v = elim (Bool-cases (busy s p)) [
  | inl h ↦ rw h record {
    listed = v.listed;
    covers = v.covers;
    tight = λ q b. ground (arith, v.tight q, b, h);
    typed = v.typed;
  }
  | inr h ↦ rw h record {
    listed = v.listed;
    covers = λ q b. ground (arith, v.covers q b, b, h);
    tight = λ q b. ground (arith, v.tight q, b, h);
    typed = v.typed;
  }
]

pub counted-IsLinkedBut :
    (q : ℕ) (s : Pids) (f : ℕ → ℕ) → IsLinkedBut q s → IsLinkedBut q (record s { refcount = f })
counted-IsLinkedBut q s f v = record {
  listed = v.listed;
  covers = v.covers;
  tight = v.tight;
  typed = v.typed;
}

pub counted-IsLinked : (s : Pids) (f : ℕ → ℕ) → IsLinked s → IsLinked (record s { refcount = f })
counted-IsLinked s f v = record {
  listed = v.listed;
  covers = v.covers;
  tight = v.tight;
  typed = v.typed;
}

-- A task that is published: its identifier is put into the table before.
pub publish_one-IsLinked :
    (s : Pids) (t k p : ℕ)
    → IsLinked s
    → s.linked k t ≡ false
    → s.pids k t ≡ some p
    → k < 4
    → IsLinked (attach record s { hashed = put s.hashed p true } t k p)
unfolding attach
publish_one-IsLinked s t k p v h e lt = record {
  listed = λ l u q. ground (arith, v.listed l u q, h, e);
  covers = λ q b. ground (arith, v.covers q, b);
  tight = λ q b. ground (arith, v.tight q, b, lt);
  typed = λ l u b. ground (arith, v.typed l u, b, lt);
}

detach-linked : (s : Pids) (t k p : ℕ) → (detach s t k p).linked k t ≡ false
unfolding detach
detach-linked s t k p = ground arith

times-no_tasks : (t : ℕ) (ws : List ℕ) → times t ws ≡ 1 → no_tasks ws ≡ false
times-no_tasks t [] e = absurd (omega (arith, e))
times-no_tasks t (w ∷ ws) e = refl

-- A task that moves to an identifier of the table.
pub moved-IsLinked :
    (s : Pids) (t k old p : ℕ)
    → IsLinked s
    → s.linked k t ≡ true
    → s.pids k t ≡ some old
    → s.hashed p ≡ true
    → IsLinked (moved s t k old p)
unfolding detach attach unhash_unused
moved-IsLinked s t k old p v h e b =
    let off = detach-IsLinkedBut s t k old v h e in
    let d = detach s t k old in
    let taken : Pids = refcount_inc d p in
    let on =
      attach-IsLinkedBut old taken t k p (counted-IsLinkedBut old d taken.refcount off)
        (detach-linked s t k old) b (v.typed k t h) in
    let a = attach record taken { pids = put_at taken.pids k t (some p) } t k p in
    counted-IsLinked (unhash_unused a old) (moved s t k old p).refcount
      (unhash_unused-IsLinked a old on)

-- An identifier with a task is in the table.
pub linked-hashed :
    (s : Pids) (k t p : ℕ)
    → IsLinked s
    → s.linked k t ≡ true
    → s.pids k t ≡ some p
    → s.hashed p ≡ true
linked-hashed s k t p v h e =
    let one : times t (s.tasks k p) ≡ 1 = v.listed k t p ∙ rw (h, e) (ground arith) in
    let some_task : no_tasks (s.tasks k p) ≡ false = times-no_tasks t (s.tasks k p) one in
    v.covers p (ground (arith, some_task, v.typed k t h))

-- What a move does to the identifiers and the links.
pub moved-pids :
    (s : Pids) (t k old p l u : ℕ) → (moved s t k old p).pids l u ≡ put_at s.pids k t (some p) l u
unfolding detach attach unhash_unused
moved-pids s t k old p l u = ground arith

pub moved-linked :
    (s : Pids) (t k old p l u : ℕ)
    → s.linked k t ≡ true
    → (moved s t k old p).linked l u ≡ s.linked l u
unfolding detach attach unhash_unused
moved-linked s t k old p l u h = ground (arith, h)
