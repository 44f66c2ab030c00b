-- ===== src/Pid/Prepare.antt =====
-- kernel/pid.c: the preparation of a task, and the operations that only count, keep the links sound.
use mathlib.Core.Path.{subst}
use nuvix.Prelude.{
  ℕ, ◌≡◌, refl, sym, ◌∙◌, inl, inr, Bool, true, false, ◌&&◌, Option, none, some, arith, ◌==◌,
  ==_iff, Bool-cases, Option-cases, ap, if◌then◌else◌,
}
use nuvix.Errno.{Result, Result-cases, ok}
use nuvix.Fdtable.Refs.{inc_not_zero}
use mathlib.Core.Option
use nuvix.Pid.{
  Pids, put, same, tgid, pid_alloc, choose_nr, pid_put, pid_prepare, given, inc_some, put_at, pgid,
  take_all, sid, tid, then_do,
}
use nuvix.Pid.Linked.{IsLinked, linked-hashed}
use nuvix.Pid.Joins.{pid_put-some}

-- Counts, bits, and parents do not matter.
pub copied :
    (s s' : Pids)
    → IsLinked s
    → s'.tasks ≡ s.tasks
    → s'.pids ≡ s.pids
    → s'.linked ≡ s.linked
    → s'.hashed ≡ s.hashed
    → IsLinked s'
copied s s' v a b c d = record {
  listed = λ k t p. rw (a, b, c) (v.listed k t p);
  covers = λ p. rw (a, d) (v.covers p);
  tight = λ p. rw (a, d) (v.tight p);
  typed = λ k t. rw c (v.typed k t);
}

pub release-IsLinked :
    (s : Pids) (p : ℕ) (s' : Pids) → IsLinked s → pid_put s p ≡ some s' → IsLinked s'
release-IsLinked s p s' v e =
    let (f, map, same) = pid_put-some s p s' e in
    subst IsLinked (sym same)
      (copied s (record s { refcount = f; pidmap = map }) v refl refl refl refl)

inc_some-IsLinked : (p : Option ℕ) (s s' : Pids) → IsLinked s → inc_some p s ≡ some s' → IsLinked s'
inc_some-IsLinked none s s' v e = absurd (ground (arith, e))
inc_some-IsLinked (some p) s s' v e =
    let f : ℕ → ℕ = put s.refcount p (inc_not_zero (s.refcount p)).1 in
    subst IsLinked (ground (arith, e)) (copied s (record s { refcount = f }) v refl refl refl refl)

-- No task is linked to an identifier that is not in the table.
away :
    (s : Pids) (nr k u : ℕ)
    → IsLinked s
    → s.hashed nr ≡ false
    → (s.linked k u && same (s.pids k u) (some nr)) ≡ false
away s nr k u v h = elim (Bool-cases (s.linked k u && same (s.pids k u) (some nr))) [
  | inl e ↦
      let l : s.linked k u ≡ true = ground (arith, e) in
      elim (Option-cases (s.pids k u)) [
        | inl n ↦ absurd (ground (arith, e, n))
        | inr (p, n) ↦
            let same_nr : p ≡ nr = ground (arith, (rw n at e)) in
            let b : s.hashed nr ≡ true =
              subst (λ q. s.hashed q ≡ true) same_nr (linked-hashed s k u p v l n) in
            absurd (ground (arith, b, h))
      ]
  | inr e ↦ e
]

-- A number that is not in the table has no tasks, so it may start with none.
alloc-IsLinked :
    (s : Pids) (memory : Bool)
    → IsLinked s
    → ((nr : ℕ) → choose_nr s ≡ some nr → s.hashed nr ≡ false)
    → IsLinked (pid_alloc s memory).1
unfolding pid_alloc
alloc-IsLinked s false v fresh = v
alloc-IsLinked s true v fresh = elim (Option-cases (choose_nr s)) [
  | inl h ↦ rw h v
  | inr (nr, h) ↦
      let out = fresh nr h in
      rw h record {
        listed = λ k u q. ground (arith, v.listed k u q, away s nr k u v out);
        covers = λ q b. ground (arith, v.covers q, b);
        tight = λ q b. ground (arith, v.tight q, b, out);
        typed = v.typed;
      }
]

alloc-linked : (s : Pids) (memory : Bool) → (pid_alloc s memory).1.linked ≡ s.linked
unfolding pid_alloc
alloc-linked s false = refl
alloc-linked s true = elim (Option-cases (choose_nr s)) [
  | inl h ↦ rw h refl
  | inr (nr, h) ↦ rw h refl
]

put_at_other :
    {A : Type 0} (f : ℕ → ℕ → A) (k i : ℕ) (a : A) (l j : ℕ)
    → (j == i) ≡ false
    → put_at f k i a l j ≡ f l j
put_at_other f k i a l j h = ground (arith, h)

given-other :
    (s : Pids) (t p : ℕ) (parent : Option ℕ) (k u : ℕ)
    → (u == t) ≡ false
    → (given s t p parent).pids k u ≡ s.pids k u
given-other s t p parent k u h =
    let group : Option ℕ = elim parent [ none ↦ some p | some w ↦ s.pids pgid w ] in
    let session : Option ℕ = elim parent [ none ↦ some p | some w ↦ s.pids sid w ] in
    let one = put_at s.pids tid t (some p) in
    let two = put_at one tgid t (some p) in
    let three = put_at two pgid t group in
    put_at_other three sid t session k u h
    ∙ put_at_other two pgid t group k u h
    ∙ put_at_other one tgid t (some p) k u h
    ∙ put_at_other s.pids tid t (some p) k u h

given-IsLinked :
    (s : Pids) (t p : ℕ) (parent : Option ℕ)
    → IsLinked s
    → ((k : ℕ) → s.linked k t ≡ false)
    → IsLinked (given s t p parent)
given-IsLinked s t p parent v free = record {
  listed = λ k u q. elim (Bool-cases (u == t)) [
    | inl h ↦
        let l : s.linked k u ≡ false = rw ((==_iff u t).0 h) (free k) in v.listed k u q ∙ rw l refl
    | inr h ↦
        v.listed k u q
        ∙ ap (λ o. if s.linked k u && same o (some q) then 1 else 0)
            (sym (given-other s t p parent k u h))
  ];
  covers = v.covers;
  tight = v.tight;
  typed = v.typed;
}

take_all-IsLinked :
    (s : Pids) (t : ℕ) (s' : Pids) → IsLinked s → take_all s t ≡ some s' → IsLinked s'
take_all-IsLinked s t s' v e = elim (Option-cases (inc_some (s.pids tid t) s)) [
  | inl h ↦ absurd (ground (arith, e, h))
  | inr (s1, h) ↦ elim (Option-cases (inc_some (s.pids tgid t) s1)) [
    | inl g ↦ absurd (ground (arith, e, h, g))
    | inr (s2, g) ↦ elim (Option-cases (inc_some (s.pids pgid t) s2)) [
      | inl k ↦ absurd (ground (arith, e, h, g, k))
      | inr (s3, k) ↦
          let v1 = inc_some-IsLinked (s.pids tid t) s s1 v h in
          let v2 = inc_some-IsLinked (s.pids tgid t) s1 s2 v1 g in
          let v3 = inc_some-IsLinked (s.pids pgid t) s2 s3 v2 k in
          inc_some-IsLinked (s.pids sid t) s3 s' v3 (rw (h, g, k) at e)
    ]
  ]
]

abbrev prepared : Pids → ℕ → Option (Result (Unit {0}) × Pids)
prepared q p = Option.map (λ q'. (ok tt, q')) (pid_put q p)

-- The end of `pid_prepare`, for the identifier that was allocated.
finish-IsLinked :
    (a : Pids) (t p : ℕ) (parent : Option ℕ) (r : Result (Unit {0})) (s' : Pids)
    → IsLinked a
    → ((k : ℕ) → a.linked k t ≡ false)
    → then_do (take_all (given a t p parent) t) (λ q. prepared q p) ≡ some (r, s')
    → IsLinked s'
finish-IsLinked a t p parent r s' v free e = elim (Option-cases (take_all (given a t p parent) t)) [
  | inl h ↦ absurd (ground (arith, e, h))
  | inr (s1, h) ↦
      let v1 = take_all-IsLinked (given a t p parent) t s1 (given-IsLinked a t p parent v free) h in
      elim (Option-cases (pid_put s1 p)) [
        | inl g ↦ absurd (ground (arith, (rw (h, g) at e)))
        | inr (s2, g) ↦
            subst IsLinked (ground (arith, (rw (h, g) at e))) (release-IsLinked s1 p s2 v1 g)
      ]
]

pub prepare-IsLinked :
    (s : Pids) (memory : Bool) (t : ℕ) (parent : Option ℕ) (r : Result (Unit {0})) (s' : Pids)
    → IsLinked s
    → ((k : ℕ) → s.linked k t ≡ false)
    → ((nr : ℕ) → choose_nr s ≡ some nr → s.hashed nr ≡ false)
    → pid_prepare s memory t parent ≡ some (r, s')
    → IsLinked s'
unfolding pid_prepare
prepare-IsLinked s memory t parent r s' v free fresh e =
    let w = alloc-IsLinked s memory v fresh in
    let links = alloc-linked s memory in
    elim (Result-cases (pid_alloc s memory).0) [
      | inl (x, h) ↦ subst IsLinked (ground (arith, (rw (pid_prepare, h) at e))) w
      | inr (p, h) ↦
          finish-IsLinked (pid_alloc s memory).1 t p parent r s' w (λ k. rw links (free k))
            (rw (pid_prepare, h) at e)
    ]
