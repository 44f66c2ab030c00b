-- ===== src/Pid.antt =====
-- kernel/pid.c: the identifiers and the tasks that are linked to them. A `struct pid` is its number,
-- which no other one has while its bit is set. The result `none` is a failed `Assert` or a NULL pointer
-- that is followed.
pub mod Link
pub mod Session
pub mod Permit
pub mod Linked
pub mod Groups
pub mod Joins
pub mod Calls
pub mod Alloc
pub mod Runs
pub mod Prepare
mod Tests
use nuvix.Prelude.{
  ℕ, zero, suc, ◌+◌, ◌-◌, ◌*◌, ◌/◌, ◌%◌, ◌^◌, ◌≤◌, ◌<◌, min, max, ◌≡◌, refl, sym, ap, ◌∙◌, fun_ext,
  ◌≢◌, ◌↔◌, ◌⊎◌, inl, inr, Bool, true, false, ◌&&◌, ◌||◌, not, Option, none, some, List, [], ◌∷◌,
  ◌++◌, arith, ltb, leb, ◌==◌, if◌then◌else◌, ltb→lt, ltb-false, lt→ltb, leb→le, ==_iff, Bool-cases,
  Option-cases, length, get_elem?, get_or, set, take, drop, All, keep_if, length-append, length-set,
  length-take, get_or-set_self, get_or-set_ne,
}
use mathlib.Core.Option
use nuvix.Bitmap.{Bitmap, set_bit, clear_bit, find_next_zero_bit}
use nuvix.Errno.{Result, ok, err, enomem, eagain}
use nuvix.Fdtable.Refs.{inc_not_zero, dec_and_test}
use nuvix.Wait.{unlist}

abbrev pub pid_init : ℕ
pid_init = 1

abbrev pub pid_max : ℕ
pid_max = 32768

-- `enum pid_type`
abbrev pub tid : ℕ
tid = 0

abbrev pub tgid : ℕ
tgid = 1

abbrev pub pgid : ℕ
pgid = 2

abbrev pub sid : ℕ
sid = 3

-- `tasks` gives the list of a type and an identifier, `pids` the identifier of a type and a task, and
-- `linked` whether the task's link of that type is in a list.
pub record Pids : Type 0 where
  pub pidmap : Bitmap
  pub next_pid : ℕ
  pub refcount : ℕ → ℕ
  pub hashed : ℕ → Bool
  pub tasks : ℕ → ℕ → List ℕ
  pub pids : ℕ → ℕ → Option ℕ
  pub linked : ℕ → ℕ → Bool
  pub parent : ℕ → Option ℕ

abbrev pub put {ℓ} : {A : Type ℓ} → (ℕ → A) → ℕ → A → ℕ → A
put f i a j = if j == i then a else f j

abbrev pub put_at {ℓ} : {A : Type ℓ} → (ℕ → ℕ → A) → ℕ → ℕ → A → ℕ → ℕ → A
put_at f k i a l j = if l == k && j == i then a else f l j

abbrev pub same : Option ℕ → Option ℕ → Bool
same none none = true
same (some a) (some b) = a == b
same a b = false

-- The identifier that `pid_alloc` takes from the bitmap: none if all are in use.
unfoldable pub choose_nr : Pids → Option ℕ
choose_nr s =
    let high = find_next_zero_bit s.pidmap pid_max s.next_pid in
    let low = find_next_zero_bit s.pidmap s.next_pid pid_init in
    if not (high == pid_max) then some high else if low == s.next_pid then none else some low

-- `memory` says whether `kzalloc` finds room.
unfoldable pub pid_alloc : Pids → (memory : Bool) → Result ℕ × Pids
unfolding choose_nr
pid_alloc s memory = if not memory then (err enomem, s) else elim (choose_nr s) [
  | none ↦ (err eagain, s)
  | some nr ↦ (
    ok nr,
    record s {
      pidmap = set_bit nr s.pidmap;
      next_pid = if nr + 1 == pid_max then pid_init else nr + 1;
      refcount = put s.refcount nr 1;
      hashed = put s.hashed nr false;
      tasks = λ k i. if i == nr then [] else s.tasks k i;
    },
  )
]

abbrev pub refcount_inc : Pids → ℕ → Pids
refcount_inc s p = record s { refcount = put s.refcount p (inc_not_zero (s.refcount p)).1 }

unfoldable pub pid_put : Pids → ℕ → Option Pids
pid_put s p =
    let (last, n) = dec_and_test (s.refcount p) in
    let s' : Pids = record s { refcount = put s.refcount p n } in
    if not last
    then some s'
    else if s.hashed p
    then none
    else some record s' { pidmap = clear_bit p s.pidmap }

abbrev pub find_pid : Pids → ℕ → Option ℕ
find_pid s nr = if s.hashed nr then some nr else none

abbrev pub first_of : List ℕ → Option ℕ
first_of [] = none
first_of (t ∷ ts) = some t

-- `pid_task_locked`, and `pid_get_task` without the reference that it takes.
abbrev pub pid_task : Pids → Option ℕ → (type : ℕ) → Option ℕ
pid_task s none k = none
pid_task s (some p) k = first_of (s.tasks k p)

abbrev pub task_pid_nr : Pids → (task type : ℕ) → ℕ
task_pid_nr s t k = elim (s.pids k t) [ none ↦ 0 | some p ↦ p ]

abbrev pub inc_some : Option ℕ → Pids → Option Pids
inc_some none s = none
inc_some (some p) s = some (refcount_inc s p)

abbrev pub then_do {ℓ} : {A B : Type ℓ} → Option A → (A → Option B) → Option B
then_do none f = none
then_do (some a) f = f a

-- `pid_prepare`: the group and the session are the parent's, if there is one.
abbrev pub given : Pids → (task pid : ℕ) → (parent : Option ℕ) → Pids
given s t p parent = record s {
  pids =
      put_at
        (put_at (put_at (put_at s.pids tid t (some p)) tgid t (some p)) pgid t
          (elim parent [ none ↦ some p | some u ↦ s.pids pgid u ]))
        sid t (elim parent [ none ↦ some p | some u ↦ s.pids sid u ]);
}

abbrev pub take_all : Pids → (task : ℕ) → Option Pids
take_all s t = then_do (inc_some (s.pids tid t) s) (λ s1.
    then_do (inc_some (s.pids tgid t) s1)
      (λ s2. then_do (inc_some (s.pids pgid t) s2) (λ s3. inc_some (s.pids sid t) s3)))

unfoldable pub pid_prepare :
    Pids → (memory : Bool) → (task : ℕ) → (parent : Option ℕ) → Option (Result (Unit {0}) × Pids)
unfolding pid_alloc pid_put
pid_prepare s memory t parent =
    let (r, s') = pid_alloc s memory in
    elim r [
      | err e ↦ some (err e, s')
      | ok p ↦
          then_do (take_all (given s' t p parent) t)
            (λ q. Option.map (λ q'. (ok tt, q')) (pid_put q p))
    ]
