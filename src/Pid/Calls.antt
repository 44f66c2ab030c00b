-- ===== src/Pid/Calls.antt =====
-- kernel/pid.c: `sys_setpgid` as a whole.
use mathlib.Core.Path.{subst}
use nuvix.Prelude.{
  ℕ, ◌≡◌, refl, ◌⊎◌, inl, inr, Bool, true, Option, none, some, arith, ◌==◌, Bool-cases,
  Option-cases, ap, sym,
}
use nuvix.Prelude.Int.{ℤ, pos, negsuc}
use nuvix.Errno.{Result, ok, err, Errno, einval, esrch, Result-cases}
use nuvix.Pid.{Pids, pid_task, then_do, tid, tgid, pgid, refcount_inc, pid_put, same}
use nuvix.Pid.Linked.{IsLinked}
use nuvix.Pid.Permit.{MayJoin, may_join-MayJoin}
use nuvix.Pid.Session.{
  regroup, join, sys_setpgid, find_signed, is_negative, asked_process, asked_group, may_join,
  regroup,
}
use nuvix.Pid.Joins.{IsRegroup, regroup-IsRegroup, pid_put-some, pid_put-IsRegroup}
use nuvix.Pid.Linked.{counted-IsLinked}

-- The end of `sys_setpgid`, for a group that is in the table.
join-Gives :
    (s : Pids) (t p : ℕ) (s' : Pids)
    → IsLinked s
    → s.hashed p ≡ true
    → join s t (some p) ≡ some s'
    → ((s.pids pgid t ≡ some p) × (s'.pids ≡ s.pids) × IsLinked s')
      ⊎ ((g : ℕ) × (s.pids tgid t ≡ some g) × IsRegroup s (λ l. l == pgid) (s.tasks tgid g) p s')
unfolding join
join-Gives s t p s' v b e = elim (Option-cases (s.pids pgid t)) [
  | inl h ↦ absurd (ground (arith, (rw (join, h) at e)))
  | inr (old, h) ↦
      let held : Pids = refcount_inc s old in
      let w : IsLinked held = counted-IsLinked s held.refcount v in
      elim (Bool-cases (old == p)) [
        | inl k ↦
            let put_old : pid_put held old ≡ some s' = rw (join, h, k) at e in
            let (f, map, same) = pid_put-some held old s' put_old in
            inl (
              ground (arith, h, k),
              ap (λ (r : Pids). r.pids) same,
              subst IsLinked (sym same)
                  record { listed = w.listed; covers = w.covers; tight = w.tight; typed = w.typed },
            )
        | inr k ↦ elim (Option-cases (s.pids tgid t)) [
          | inl g ↦ absurd (ground (arith, (rw (join, h, k, g) at e)))
          | inr (g, m) ↦ elim (Option-cases (regroup held (s.tasks tgid g) p)) [
            | inl n ↦ absurd (ground (arith, (rw (join, h, k, m, n) at e)))
            | inr (s1, n) ↦
                let put_old : pid_put s1 old ≡ some s' = rw (join, h, k, m, n) at e in
                let moved = regroup-IsRegroup held (s.tasks tgid g) p s1 w b n in
                let from : IsRegroup s (λ l. l == pgid) (s.tasks tgid g) p s1 = record {
                  valid = moved.valid;
                  pids = moved.pids;
                } in
                inr (
                  g,
                  m,
                  pid_put-IsRegroup s (λ l. l == pgid) (s.tasks tgid g) p old s1 s' from put_old,
                )
          ]
        ]
      ]
]

find_signed-hashed : (s : Pids) (z : ℤ) (p : ℕ) → find_signed s z ≡ some p → s.hashed p ≡ true
find_signed-hashed s (pos n) p e = elim (Bool-cases (s.hashed n)) [
  | inl h ↦
      let same : some n ≡ some p = rw h at e in
      subst (λ q. s.hashed q ≡ true) (ground (arith, same)) h
  | inr h ↦ absurd (ground (arith, e, h))
]
find_signed-hashed s (negsuc n) p e = absurd (ground (arith, e))

-- What a call returns and leaves: an error changes nothing; on success the task that was asked for may
-- join the group, and all members of its process move to the group, or no identifier changes, as
-- the task had the group.
unfoldable pub Joined :
    (s : Pids) (me : ℕ) (nr group : ℤ) (f : ℕ → Bool) → Result (Unit {0}) → Pids → Type 0
Joined s me nr group f (err e) s' = s' ≡ s
Joined s me nr group f (ok u) s' =
    (t : ℕ) × (p : ℕ) × (pid_task s (find_signed s (asked_process s me nr)) tid ≡ some t)
    × (find_signed s (asked_group s me nr group) ≡ some p)
    × MayJoin s me t p (f t)
    × (((s.pids pgid t ≡ some p) × (s'.pids ≡ s.pids) × IsLinked s')
        ⊎ ((g : ℕ) × (s.pids tgid t ≡ some g) × IsRegroup s (λ l. l == pgid) (s.tasks tgid g) p s'))

abbrev done : Result (Unit {0}) → Pids → Option (Result (Unit {0}) × Pids)
done r s = some (r, s)

abbrev SomeJoined :
    (s : Pids) (me : ℕ) (nr group : ℤ) (f : ℕ → Bool) → Option (Result (Unit {0}) × Pids) → Type 0
SomeJoined s me nr group f none = Unit
SomeJoined s me nr group f (some (r, s')) = Joined s me nr group f r s'

-- A call with an error, from what it computes to.
failed :
    (s : Pids) (me : ℕ) (nr group : ℤ) (f : ℕ → Bool) (e : Errno) (r : Result (Unit {0}))
    (s' : Pids)
    → done (err e) s ≡ done r s'
    → Joined s me nr group f r s'
unfolding Joined
failed s me nr group f e r s' out =
    let same_state : s ≡ s = refl in subst (SomeJoined s me nr group f) out same_state

join-none : (s : Pids) (t : ℕ) → join s t none ≡ none
unfolding join
join-none s t = ground arith

-- A call whose tests pass.
joined :
    (s : Pids) (me : ℕ) (nr group : ℤ) (f : ℕ → Bool) (t : ℕ) (r : Result (Unit {0})) (s' : Pids)
    → IsLinked s
    → pid_task s (find_signed s (asked_process s me nr)) tid ≡ some t
    → may_join s me t (find_signed s (asked_group s me nr group)) (f t) ≡ ok tt
    → then_do (join s t (find_signed s (asked_group s me nr group))) (λ s1. done (ok tt) s1)
      ≡ done r s'
    → Joined s me nr group f r s'
unfolding Joined
joined s me nr group f t r s' v k m e =
    elim (Option-cases (find_signed s (asked_group s me nr group))) [
      | inl h ↦ absurd (ground (arith, (rw h at e), join-none s t))
      | inr (p, h) ↦
          let rest : then_do (join s t (some p)) (λ s1. done (ok tt) s1) ≡ done r s' = rw h at e in
          elim (Option-cases (join s t (some p))) [
            | inl g ↦ absurd (ground (arith, rest, g))
            | inr (s1, g) ↦
                let out : done (ok tt) s1 ≡ done r s' = rw g at rest in
                let b = find_signed-hashed s (asked_group s me nr group) p h in
                subst (SomeJoined s me nr group f) out (
                  t,
                  p,
                  k,
                  h,
                  may_join-MayJoin s me t p (f t)
                      (subst (λ o. may_join s me t o (f t) ≡ ok tt) h m),
                  join-Gives s t p s1 v b g,
                )
          ]
    ]

-- On sound links, when `setpgid` does not halt on a failed `Assert`, it fails and changes nothing, or:
-- the task that was asked for leads its process and no session; it is the caller, or a child of it
-- in the same session that has not called `execve`; and the group is the process's own, or its
-- first member is in the session of the task. Then either the task has the group already and no
-- identifier changes, or all members of its process get the group and the other tasks and the other
-- identifiers are as before. The links stay sound.
pub sys_setpgid-Joined :
    (s : Pids) (me : ℕ) (nr group : ℤ) (f : ℕ → Bool) (r : Result (Unit {0})) (s' : Pids)
    → IsLinked s
    → sys_setpgid s me nr group f ≡ some (r, s')
    → Joined s me nr group f r s'
unfolding sys_setpgid Joined
sys_setpgid-Joined s me nr group f r s' v e =
    elim (Bool-cases (is_negative (asked_group s me nr group))) [
      | inl h ↦ failed s me nr group f einval r s' (rw (sys_setpgid, h) at e)
      | inr h ↦ elim (Option-cases (pid_task s (find_signed s (asked_process s me nr)) tid)) [
        | inl k ↦ failed s me nr group f esrch r s' (rw (sys_setpgid, h, k) at e)
        | inr (t, k) ↦
            elim (Result-cases
              (may_join s me t (find_signed s (asked_group s me nr group)) (f t))) [
                | inl (x, m) ↦ failed s me nr group f x r s' (rw (sys_setpgid, h, k, m) at e)
                | inr (u, m) ↦ joined s me nr group f t r s' v k m (rw (sys_setpgid, h, k, m) at e)
              ]
      ]
    ]
