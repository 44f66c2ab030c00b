-- ===== src/Pid/Groups.antt =====
-- kernel/pid.c: the loops that publish a task, take it back, and move the members of a process.
use mathlib.Core.Path.{subst}
use nuvix.Prelude.{
  ℕ, zero, suc, ◌+◌, ◌≤◌, ◌≡◌, ◌∙◌, inl, inr, true, some, arith, Bool-cases, Option-cases,
}
use nuvix.Pid.{Pids, put, put_at, tid}
use nuvix.Pid.Link.{
  no_tasks, attach, detach, unhash_unused, moved, change_pid, publish_from, pid_publish,
  unpublish_from, pid_unpublish,
}
use nuvix.Pid.Linked.{
  IsLinked, detach-IsLinkedBut, unhash_unused-IsLinked, publish_one-IsLinked, moved-IsLinked,
  linked-hashed, moved-pids, moved-linked,
}

publish_from-IsLinked :
    (n : ℕ) (s : Pids) (t k : ℕ) (s' : Pids)
    → IsLinked s
    → k + n ≤ 4
    → publish_from n s t k ≡ some s'
    → IsLinked s'
unfolding publish_from
publish_from-IsLinked zero s t k s' v le e = subst IsLinked (ground (arith, e)) v
publish_from-IsLinked (suc n) s t k s' v le e = elim (Option-cases (s.pids k t)) [
  | inl h ↦ absurd (ground (arith, (rw (publish_from, h) at e)))
  | inr (p, h) ↦ elim (Bool-cases (s.linked k t)) [
    | inl l ↦ absurd (ground (arith, (rw (publish_from, h, l) at e)))
    | inr l ↦
        publish_from-IsLinked n (attach record s { hashed = put s.hashed p true } t k p) t (k + 1)
          s' (publish_one-IsLinked s t k p v l h (omega (arith, le))) (omega (arith, le))
          (rw (publish_from, h, l) at e)
  ]
]

pub pid_publish-IsLinked :
    (s : Pids) (t : ℕ) (s' : Pids) → IsLinked s → pid_publish s t ≡ some s' → IsLinked s'
unfolding pid_publish
pid_publish-IsLinked s t s' v e = elim (Option-cases (s.parent t)) [
  | inl h ↦ subst IsLinked (ground (arith, (rw (pid_publish, h) at e))) v
  | inr (u, h) ↦ elim (Option-cases (s.pids tid t)) [
    | inl g ↦ absurd (ground (arith, (rw (pid_publish, h, g) at e)))
    | inr (p, g) ↦ elim (Bool-cases (no_tasks (s.tasks tid p))) [
      | inl l ↦ publish_from-IsLinked 4 s t tid s' v (omega arith) (rw (pid_publish, h, g, l) at e)
      | inr l ↦ absurd (ground (arith, (rw (pid_publish, h, g, l) at e)))
    ]
  ]
]

unpublish_from-IsLinked :
    (n : ℕ) (s : Pids) (t k : ℕ) (s' : Pids)
    → IsLinked s
    → unpublish_from n s t k ≡ some s'
    → IsLinked s'
unfolding unpublish_from
unpublish_from-IsLinked zero s t k s' v e = subst IsLinked (ground (arith, e)) v
unpublish_from-IsLinked (suc n) s t k s' v e = elim (Option-cases (s.pids k t)) [
  | inl h ↦ absurd (ground (arith, (rw (unpublish_from, h) at e)))
  | inr (p, h) ↦ elim (Bool-cases (s.linked k t)) [
    | inl l ↦
        unpublish_from-IsLinked n (unhash_unused (detach s t k p) p) t (k + 1) s'
          (unhash_unused-IsLinked (detach s t k p) p (detach-IsLinkedBut s t k p v l h))
          (rw (unpublish_from, h, l) at e)
    | inr l ↦ absurd (ground (arith, (rw (unpublish_from, h, l) at e)))
  ]
]

pub pid_unpublish-IsLinked :
    (s : Pids) (t : ℕ) (s' : Pids) → IsLinked s → pid_unpublish s t ≡ some s' → IsLinked s'
unfolding pid_unpublish
pid_unpublish-IsLinked s t s' v e = unpublish_from-IsLinked 4 s t tid s' v e

-- What a change of identifier leaves: the task has the new one, and all else is as before.
pub record IsMove (s : Pids) (t k p : ℕ) (s' : Pids) : Type 0 where
  pub valid : IsLinked s'
  pub pids : (l u : ℕ) → s'.pids l u ≡ put_at s.pids k t (some p) l u
  pub links : (l u : ℕ) → s'.linked l u ≡ s.linked l u
  pub table : s'.hashed p ≡ true

pub change_pid-IsMove :
    (s : Pids) (t k p : ℕ) (s' : Pids)
    → IsLinked s
    → s.hashed p ≡ true
    → change_pid s t k p ≡ some s'
    → IsMove s t k p s'
unfolding change_pid
change_pid-IsMove s t k p s' v b e = elim (Option-cases (s.pids k t)) [
  | inl h ↦ absurd (ground (arith, (rw (change_pid, h) at e)))
  | inr (old, h) ↦ elim (Bool-cases (s.linked k t)) [
    | inl l ↦
        let same : moved s t k old p ≡ s' = ground (arith, (rw (change_pid, h, l) at e)) in
        let w = moved-IsLinked s t k old p v l h b in
        let here : (moved s t k old p).pids k t ≡ some p =
          moved-pids s t k old p k t ∙ ground arith in
        subst (IsMove s t k p) same record {
          valid = w;
          pids = moved-pids s t k old p;
          links = λ m u. moved-linked s t k old p m u l;
          table =
              linked-hashed (moved s t k old p) k t p w (moved-linked s t k old p k t l ∙ l) here;
        }
    | inr l ↦ absurd (ground (arith, (rw (change_pid, h, l) at e)))
  ]
]
