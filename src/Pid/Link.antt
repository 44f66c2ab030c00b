-- ===== src/Pid/Link.antt =====
-- kernel/pid.c: the links between tasks and identifiers.
use nuvix.Prelude.{
  ℕ, zero, suc, ◌+◌, Bool, true, false, ◌&&◌, not, Option, none, some, List, [], ◌∷◌, if◌then◌else◌,
}
use nuvix.Fdtable.Refs.{dec}
use nuvix.Wait.{unlist}
use nuvix.Pid.{Pids, put, put_at, refcount_inc, tid, tgid, pgid, sid}

abbrev pub no_tasks : List ℕ → Bool
no_tasks [] = true
no_tasks (t ∷ ts) = false

abbrev pub busy : Pids → ℕ → Bool
busy s p = not (
    no_tasks (s.tasks tid p)
    && no_tasks (s.tasks tgid p)
    && no_tasks (s.tasks pgid p)
    && no_tasks (s.tasks sid p))

-- `hlist_add_head` of the link of a task.
unfoldable pub attach : Pids → (task type pid : ℕ) → Pids
attach s t k p = record s {
  tasks = put_at s.tasks k p (t ∷ s.tasks k p);
  linked = put_at s.linked k t true;
}

-- `hlist_del` of the link.
unfoldable pub detach : Pids → (task type pid : ℕ) → Pids
detach s t k p = record s {
  tasks = put_at s.tasks k p (unlist t (s.tasks k p));
  linked = put_at s.linked k t false;
}

unfoldable pub unhash_unused : Pids → ℕ → Pids
unhash_unused s p = if busy s p then s else record s { hashed = put s.hashed p false }

-- The rounds of the loop of `pid_publish` from a type on.
unfoldable pub publish_from : (rounds : ℕ) → Pids → (task type : ℕ) → Option Pids
unfolding attach
publish_from zero s t k = some s
publish_from (suc n) s t k = elim (s.pids k t) [
  | none ↦ none
  | some p ↦
      let rest =
        publish_from n (attach record s { hashed = put s.hashed p true } t k p) t (k + 1) in
      if s.linked k t then none else rest
]

unfoldable pub pid_publish : Pids → (task : ℕ) → Option Pids
unfolding publish_from
pid_publish s t = elim (s.parent t) [
  | none ↦ some s
  | some u ↦ elim (s.pids tid t) [
    | none ↦ none
    | some p ↦ if no_tasks (s.tasks tid p) then publish_from 4 s t tid else none
  ]
]

unfoldable pub unpublish_from : (rounds : ℕ) → Pids → (task type : ℕ) → Option Pids
unfolding detach unhash_unused
unpublish_from zero s t k = some s
unpublish_from (suc n) s t k = elim (s.pids k t) [
  | none ↦ none
  | some p ↦
      let rest = unpublish_from n (unhash_unused (detach s t k p) p) t (k + 1) in
      if s.linked k t then rest else none
]

unfoldable pub pid_unpublish : Pids → (task : ℕ) → Option Pids
unfolding unpublish_from
pid_unpublish s t = unpublish_from 4 s t tid

abbrev pub pid_reparent : Pids → (task : ℕ) → Option ℕ → Pids
pid_reparent s t u = record s { parent = put s.parent t u }

-- `change_pid` of a task whose identifier of that type is `old`.
abbrev pub moved : Pids → (task type old pid : ℕ) → Pids
unfolding detach attach unhash_unused
moved s t k old p =
    let taken : Pids = refcount_inc (detach s t k old) p in
    let a = attach record taken { pids = put_at taken.pids k t (some p) } t k p in
    let b = unhash_unused a old in record b { refcount = put b.refcount old (dec (b.refcount old)) }

unfoldable pub change_pid : Pids → (task type pid : ℕ) → Option Pids
unfolding moved
change_pid s t k p = elim (s.pids k t) [
  | none ↦ none
  | some old ↦ if s.linked k t then some (moved s t k old p) else none
]
