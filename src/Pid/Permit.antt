-- ===== src/Pid/Permit.antt =====
-- kernel/pid.c: what the tests of `sys_setpgid` on the task and the group mean.
use nuvix.Prelude.{
  ℕ, ◌≡◌, refl, ◌⊎◌, inl, inr, Bool, true, Option, some, arith, ◌==◌, Bool-cases, Option-cases,
  if◌then◌else◌, not, ◌≢◌, false, ==_iff, ◌&&◌,
}
use nuvix.Errno.{Result, ok, err, Errno, einval, esrch, Result-cases, eperm}
use nuvix.Pid.{Pids, pid_task, tid, tgid, pgid, sid, not, false, same, ==_iff}
use nuvix.Pid.Session.{may_join, other_task, group_in_session}
use nuvix.Pid.Joins.{same-false, same-true, same-false}

-- The conditions of `setpgid` for the task and the group.
pub record MayJoin (s : Pids) (me t p : ℕ) (forknoexec : Bool) : Type 0 where
  pub leads_process : s.pids tid t ≡ s.pids tgid t
  pub own_or_child :
      (t ≡ me) ⊎ ((s.parent t ≡ some me) × (s.pids sid t ≡ s.pids sid me) × (forknoexec ≡ true))
  pub leads_no_session : s.pids sid t ≢ s.pids tgid t
  pub in_session :
      (some p ≡ s.pids tgid t)
      ⊎ ((m : ℕ) × (pid_task s (some p) pgid ≡ some m) × (s.pids sid m ≡ s.pids sid t))

-- A test of `may_join` that did not fail.
passed :
    (b : Bool) (x : Errno) (r : Result (Unit {0}))
    → (if b then err x else r) ≡ ok tt
    → (b ≡ false) × (r ≡ ok tt)
passed true x r e = ground (arith, e)
passed false x r e = (refl, e)

not-false : (b : Bool) → not b ≡ false → b ≡ true
not-false true h = refl
not-false false h = ground (arith, h)

other_task-ok :
    (s : Pids) (me t : ℕ) (f : Bool)
    → other_task s me t f ≡ ok tt
    → (s.parent t ≡ some me) × (s.pids sid t ≡ s.pids sid me) × (f ≡ true)
other_task-ok s me t f e =
    let (child, e1) = passed (not (same (s.parent t) (some me))) esrch _ e in
    let (session, e2) = passed (not (same (s.pids sid t) (s.pids sid me))) eperm _ e1 in
    (
      same-true (s.parent t) (some me) (not-false _ child),
      same-true (s.pids sid t) (s.pids sid me) (not-false _ session),
      elim (Bool-cases f) [ inl h ↦ h | inr h ↦ absurd (ground (arith, e2, h)) ],
    )

group_in_session-member :
    (s : Pids) (t : ℕ) (pgrp : Option ℕ)
    → group_in_session s t pgrp ≡ true
    → (m : ℕ) × (pid_task s pgrp pgid ≡ some m) × (s.pids sid m ≡ s.pids sid t)
group_in_session-member s t pgrp e = elim (Option-cases (pid_task s pgrp pgid)) [
  | inl h ↦ absurd (ground (arith, (rw (group_in_session, h) at e)))
  | inr (m, h) ↦ (m, h, same-true (s.pids sid m) (s.pids sid t) (rw (group_in_session, h) at e))
]

-- The tests after those on the task that was asked for.
abbrev rest_of : Pids → (t p : ℕ) → Result (Unit {0})
rest_of s t p =
    if same (s.pids sid t) (s.pids tgid t)
    then err eperm
    else if not (same (some p) (s.pids tgid t)) && not (group_in_session s t (some p))
    then err eperm
    else ok tt

own_or_other :
    (s : Pids) (me t p : ℕ) (f : Bool)
    → (if t == me
        then rest_of s t p
        else elim (other_task s me t f) [ err e ↦ err e | ok u ↦ rest_of s t p ])
      ≡ ok tt
    → ((t ≡ me) ⊎ ((s.parent t ≡ some me) × (s.pids sid t ≡ s.pids sid me) × (f ≡ true)))
      × (rest_of s t p ≡ ok tt)
own_or_other s me t p f e = elim (Bool-cases (t == me)) [
  | inl h ↦ (inl ((==_iff t me).0 h), (rw h at e))
  | inr h ↦ elim (Result-cases (other_task s me t f)) [
    | inl (x, k) ↦ absurd (ground (arith, (rw (h, k) at e)))
    | inr (u, k) ↦ (inr (other_task-ok s me t f k), (rw (h, k) at e))
  ]
]

pub may_join-MayJoin :
    (s : Pids) (me t p : ℕ) (f : Bool) → may_join s me t (some p) f ≡ ok tt → MayJoin s me t p f
may_join-MayJoin s me t p f e =
    let (process, e1) = passed (not (same (s.pids tid t) (s.pids tgid t))) einval _ e in
    let (own, e2) = own_or_other s me t p f e1 in
    let (leads, e3) = passed (same (s.pids sid t) (s.pids tgid t)) eperm _ e2 in
    let (found, e4) =
      passed (not (same (some p) (s.pids tgid t)) && not (group_in_session s t (some p))) eperm _
        e3 in
    record {
      leads_process = same-true (s.pids tid t) (s.pids tgid t) (not-false _ process);
      own_or_child = own;
      leads_no_session = same-false (s.pids sid t) (s.pids tgid t) leads;
      in_session = elim (Bool-cases (same (some p) (s.pids tgid t))) [
        | inl h ↦ inl (same-true (some p) (s.pids tgid t) h)
        | inr h ↦ inr (group_in_session-member s t (some p) (ground (arith, found, h)))
      ];
    }
