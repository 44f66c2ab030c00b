-- ===== src/Pid/Joins.antt =====
-- kernel/pid.c: what `sys_setpgid` and `pid_setsid` do to the identifiers of all tasks.
use nuvix.Errno.{eperm}
use mathlib.Core.Path.{subst}
use nuvix.Prelude.{
  refl, none, ℕ, ◌≡◌, sym, inl, inr, Bool, true, ◌&&◌, ◌||◌, some, List, [], ◌∷◌, arith, ◌==◌,
  if◌then◌else◌, Bool-cases, Option-cases, not, Option, ap, ==_iff, false, ◌⊎◌, ◌≢◌,
}
use nuvix.Fdtable.Refs.{dec_and_test}
use nuvix.Bitmap.{Bitmap, clear_bit}
use nuvix.Wait.{listed}
use nuvix.Pid.{
  Pids, put, same, pgid, sid, pid_put, Result, err, then_do, tgid, ok, not, Option, refcount_inc,
  ==_iff, false,
}
use nuvix.Pid.Link.{change_pid, no_tasks}
use nuvix.Pid.Linked.{linked-hashed, IsLinked, counted-IsLinked}
use nuvix.Pid.Groups.{change_pid-IsMove}
use nuvix.Pid.Session.{regroup, new_session, pid_setsid}

-- The members of the list have the identifier `p` in the types given, and all else is as before.
pub record IsRegroup (s : Pids) (types : ℕ → Bool) (ms : List ℕ) (p : ℕ) (s' : Pids) : Type 0 where
  pub valid : IsLinked s'
  pub pids : (l u : ℕ) → s'.pids l u ≡ (if types l && listed u ms then some p else s.pids l u)

pub regroup-IsRegroup :
    (s : Pids) (ms : List ℕ) (p : ℕ) (s' : Pids)
    → IsLinked s
    → s.hashed p ≡ true
    → regroup s ms p ≡ some s'
    → IsRegroup s (λ l. l == pgid) ms p s'
unfolding regroup listed
regroup-IsRegroup s [] p s' v b e =
    subst (IsRegroup s (λ l. l == pgid) [] p) (ground (arith, e))
      record { valid = v; pids = λ l u. ground arith }
regroup-IsRegroup s (m ∷ ms) p s' v b e = elim (Option-cases (change_pid s m pgid p)) [
  | inl h ↦ absurd (ground (arith, (rw (regroup, h) at e)))
  | inr (s1, h) ↦
      let one = change_pid-IsMove s m pgid p s1 v b h in
      let rest = regroup-IsRegroup s1 ms p s' one.valid one.table (rw (regroup, h) at e) in
      record { valid = rest.valid; pids = λ l u. ground (arith, rest.pids l u, one.pids l u) }
]

new_session-IsRegroup :
    (s : Pids) (ms : List ℕ) (p : ℕ) (s' : Pids)
    → IsLinked s
    → s.hashed p ≡ true
    → new_session s ms p ≡ some s'
    → IsRegroup s (λ l. l == pgid || l == sid) ms p s'
unfolding new_session listed
new_session-IsRegroup s [] p s' v b e =
    subst (IsRegroup s (λ l. l == pgid || l == sid) [] p) (ground (arith, e))
      record { valid = v; pids = λ l u. ground arith }
new_session-IsRegroup s (m ∷ ms) p s' v b e = elim (Option-cases (change_pid s m pgid p)) [
  | inl h ↦ absurd (ground (arith, (rw (new_session, h) at e)))
  | inr (s1, h) ↦
      let one = change_pid-IsMove s m pgid p s1 v b h in
      elim (Option-cases (change_pid s1 m sid p)) [
        | inl g ↦ absurd (ground (arith, (rw (new_session, h, g) at e)))
        | inr (s2, g) ↦
            let two = change_pid-IsMove s1 m sid p s2 one.valid one.table g in
            let rest =
              new_session-IsRegroup s2 ms p s' two.valid two.table (rw (new_session, h, g) at e) in
            record {
              valid = rest.valid;
              pids = λ l u. ground (arith, rest.pids l u, two.pids l u, one.pids l u);
            }
      ]
]

-- A put only changes the count and the bitmap.
pub pid_put-some :
    (s : Pids) (p : ℕ) (s' : Pids)
    → pid_put s p ≡ some s'
    → (f : ℕ → ℕ) × (map : Bitmap) × (s' ≡ record s { refcount = f; pidmap = map })
unfolding pid_put
pid_put-some s p s' e = elim (Bool-cases (dec_and_test (s.refcount p)).0) [
  | inr h ↦ (
    put s.refcount p (dec_and_test (s.refcount p)).1,
    s.pidmap,
    ground (arith, (rw (pid_put, h) at e)),
  )
  | inl h ↦ elim (Bool-cases (s.hashed p)) [
    | inl b ↦ absurd (ground (arith, (rw (pid_put, h, b) at e)))
    | inr b ↦ (
      put s.refcount p (dec_and_test (s.refcount p)).1,
      clear_bit p s.pidmap,
      ground (arith, (rw (pid_put, h, b) at e)),
    )
  ]
]

pub pid_put-IsRegroup :
    (s : Pids) (types : ℕ → Bool) (ms : List ℕ) (q p : ℕ) (s1 s' : Pids)
    → IsRegroup s types ms q s1
    → pid_put s1 p ≡ some s'
    → IsRegroup s types ms q s'
pid_put-IsRegroup s types ms q p s1 s' v e =
    let (f, map, same) = pid_put-some s1 p s' e in
    let w = v.valid in
    subst (IsRegroup s types ms q) (sym same) record {
      valid = record { listed = w.listed; covers = w.covers; tight = w.tight; typed = w.typed };
      pids = v.pids;
    }

pub same-true : (a b : Option ℕ) → same a b ≡ true → a ≡ b
same-true none none h = refl
same-true (some a) (some b) h = ap some ((==_iff a b).0 h)
same-true none (some b) h = ground (arith, h)
same-true (some a) none h = ground (arith, h)

same_self : (a : Option ℕ) → same a a ≡ true
same_self none = refl
same_self (some a) = (==_iff a a).1 refl

pub same-false : (a b : Option ℕ) → same a b ≡ false → a ≢ b
same-false a b h e =
    let bad : same b b ≡ false = subst (λ x. same x b ≡ false) e h in
    ground (arith, bad, same_self b)

no_tasks-true : (ts : List ℕ) → no_tasks ts ≡ true → ts ≡ []
no_tasks-true [] h = refl
no_tasks-true (t ∷ ts) h = ground (arith, h)

no_tasks-false : (ts : List ℕ) → no_tasks ts ≡ false → ts ≢ []
no_tasks-false ts h e =
    let bad : true ≡ false = subst (λ x. no_tasks x ≡ false) e h in ground (arith, bad)

refused-cases :
    (a b : Option ℕ) (ts : List ℕ) → (same a b || not (no_tasks ts)) ≡ true → (a ≡ b) ⊎ (ts ≢ [])
refused-cases a b ts h = elim (Bool-cases (same a b)) [
  | inl k ↦ inl (same-true a b k)
  | inr k ↦ inr (no_tasks-false ts (ground (arith, h, k)))
]

-- A new session: the whole process of the task, which leads neither a session nor a group, moves to a
-- group and a session of its own number; or it leads one, and the call fails with EPERM and changes
-- nothing.
unfoldable pub Sessions : (s : Pids) (t : ℕ) → Result ℕ → Pids → Type 0
Sessions s t (err e) s' =
    (e ≡ eperm)
    × (s' ≡ s)
    × (g : ℕ) × (s.pids tgid t ≡ some g)
    × ((s.pids sid t ≡ some g) ⊎ (s.tasks pgid g ≢ []))
Sessions s t (ok g) s' =
    (s.pids tgid t ≡ some g)
    × (s.pids sid t ≢ some g)
    × (s.tasks pgid g ≡ [])
    × IsRegroup s (λ l. l == pgid || l == sid) (s.tasks tgid g) g s'

abbrev done : Result ℕ → Pids → Option (Result ℕ × Pids)
done r s = some (r, s)

abbrev SomeSessions : (s : Pids) (t : ℕ) → Option (Result ℕ × Pids) → Type 0
SomeSessions s t none = Unit
SomeSessions s t (some (r, s')) = Sessions s t r s'

put_both :
    (s : Pids) (types : ℕ → Bool) (ms : List ℕ) (q a b : ℕ) (s1 : Pids) (r : Result ℕ) (s' : Pids)
    → IsRegroup s types ms q s1
    → then_do (pid_put s1 a) (λ s2. then_do (pid_put s2 b) (λ s3. done (ok q) s3)) ≡ some (r, s')
    → (r ≡ ok q) × IsRegroup s types ms q s'
put_both s types ms q a b s1 r s' v e = elim (Option-cases (pid_put s1 a)) [
  | inl h ↦ absurd (ground (arith, e, h))
  | inr (s2, h) ↦
      let rest = rw h at e in
      elim (Option-cases (pid_put s2 b)) [
        | inl g ↦ absurd (ground (arith, rest, g))
        | inr (s3, g) ↦
            let last = rw g at rest in
            let same : s3 ≡ s' = ground (arith, last) in
            (
              ground (arith, last),
              subst (IsRegroup s types ms q) same (
                  pid_put-IsRegroup s types ms q b s2 s3
                    (pid_put-IsRegroup s types ms q a s1 s2 v h) g),
            )
      ]
]

-- The identifier of a linked task is in the table, so the members can move to it.
seat :
    (s : Pids) (t g a b : ℕ) (r : Result ℕ) (s' : Pids)
    → IsLinked s
    → s.linked tgid t ≡ true
    → s.pids tgid t ≡ some g
    → (same (s.pids sid t) (some g) || not (no_tasks (s.tasks pgid g))) ≡ false
    → then_do
        (new_session (refcount_inc (refcount_inc s a) b) (s.tasks tgid g) g)
        (λ s1. then_do (pid_put s1 b) (λ s2. then_do (pid_put s2 a) (λ s3. done (ok g) s3)))
      ≡ done r s'
    → Sessions s t r s'
unfolding Sessions
seat s t g a b r s' v l h free e =
    let held : Pids = refcount_inc (refcount_inc s a) b in
    let w : IsLinked held = counted-IsLinked s held.refcount v in
    elim (Option-cases (new_session held (s.tasks tgid g) g)) [
      | inl k ↦ absurd (ground (arith, e, k))
      | inr (s1, k) ↦
          let moved =
            new_session-IsRegroup held (s.tasks tgid g) g s1 w (linked-hashed s tgid t g v l h) k in
          let from : IsRegroup s (λ m. m == pgid || m == sid) (s.tasks tgid g) g s1 = record {
            valid = moved.valid;
            pids = moved.pids;
          } in
          let (ok_g, all) =
            put_both s (λ m. m == pgid || m == sid) (s.tasks tgid g) g b a s1 r s' from
              (rw k at e) in
          subst (λ x. SomeSessions s t (done x s')) (sym ok_g)
            (
              h,
              same-false (s.pids sid t) (some g) (ground (arith, free)),
              no_tasks-true (s.tasks pgid g) (ground (arith, free)),
              all,
            )
    ]

-- On sound links, when `setsid` of a published task does not halt on a failed `Assert`: it fails with
-- EPERM and changes nothing, and then the task leads a session or its process's number has a
-- group; or it gives the number of the process, neither of these holds, and all members of the
-- process move to a group and a session of that number, the links stay sound, and the identifiers
-- of all other tasks are as before.
pub pid_setsid-Sessions :
    (s : Pids) (t : ℕ) (r : Result ℕ) (s' : Pids)
    → IsLinked s
    → s.linked tgid t ≡ true
    → pid_setsid s t ≡ some (r, s')
    → Sessions s t r s'
unfolding pid_setsid Sessions
pid_setsid-Sessions s t r s' v l e = elim (Option-cases (s.pids tgid t)) [
  | inl h ↦ absurd (ground (arith, (rw (pid_setsid, h) at e)))
  | inr (g, h) ↦
      elim (Bool-cases (same (s.pids sid t) (some g) || not (no_tasks (s.tasks pgid g)))) [
        | inl k ↦
            let out : done (err eperm) s ≡ done r s' = rw (pid_setsid, h, k) at e in
            let same_state : s ≡ s = refl in
            subst (SomeSessions s t) out
              (refl, same_state, g, h, refused-cases (s.pids sid t) (some g) (s.tasks pgid g) k)
        | inr k ↦ elim (Option-cases (s.pids pgid t)) [
          | inl a ↦ absurd (ground (arith, (rw (pid_setsid, h, k, a) at e)))
          | inr (old_pgrp, a) ↦ elim (Option-cases (s.pids sid t)) [
            | inl b ↦ absurd (ground (arith, (rw (pid_setsid, h, k, a, b) at e)))
            | inr (old_sid, b) ↦
                seat s t g old_pgrp old_sid r s' v l h k (rw (pid_setsid, h, k, a, b) at e)
          ]
        ]
      ]
]
