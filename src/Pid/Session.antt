-- ===== src/Pid/Session.antt =====
-- kernel/pid.c: the calls on process groups and sessions, the queries, and what the signals look up.
use nuvix.Prelude.{
  ℕ, Bool, true, false, ◌&&◌, ◌||◌, not, Option, none, some, List, [], ◌∷◌, ◌==◌, if◌then◌else◌,
}
use nuvix.Prelude.Int.{ℤ, pos, negsuc}
use nuvix.Errno.{Result, ok, err, einval, esrch, eperm, eacces}
use nuvix.Pid.{
  Pids, same, find_pid, pid_task, pid_put, refcount_inc, then_do, task_pid_nr, tid, tgid, pgid, sid,
  pid_init,
}
use nuvix.Pid.Link.{change_pid, no_tasks}

-- `hlist_for_each_entry` with `change_pid` for one type and for two.
unfoldable pub regroup : Pids → (members : List ℕ) → (pid : ℕ) → Option Pids
regroup s [] p = some s
regroup s (m ∷ ms) p = elim (change_pid s m pgid p) [ none ↦ none | some s' ↦ regroup s' ms p ]

unfoldable pub new_session : Pids → (members : List ℕ) → (pid : ℕ) → Option Pids
new_session s [] p = some s
new_session s (m ∷ ms) p = elim (change_pid s m pgid p) [
  | none ↦ none
  | some s1 ↦ elim (change_pid s1 m sid p) [ none ↦ none | some s2 ↦ new_session s2 ms p ]
]

abbrev pub find_signed : Pids → ℤ → Option ℕ
find_signed s (pos n) = find_pid s n
find_signed s (negsuc n) = none

abbrev pub is_zero : ℤ → Bool
is_zero (pos n) = n == 0
is_zero (negsuc n) = false

abbrev pub is_negative : ℤ → Bool
is_negative (pos n) = false
is_negative (negsuc n) = true

-- The tests on another task than the caller: whether it may change the group.
abbrev pub other_task : Pids → (me task : ℕ) → (forknoexec : Bool) → Result (Unit {0})
other_task s me t forknoexec =
    if not (same (s.parent t) (some me))
    then err esrch
    else if not (same (s.pids sid t) (s.pids sid me))
    then err eperm
    else if forknoexec
    then ok tt
    else err eacces

-- Whether the session of the task has a group `pgrp`.
abbrev pub group_in_session : Pids → (task : ℕ) → (pgrp : Option ℕ) → Bool
group_in_session s t pgrp = elim (pid_task s pgrp pgid) [
  | none ↦ false
  | some m ↦ same (s.pids sid m) (s.pids sid t)
]

-- The tests of `sys_setpgid` for a task that was found.
abbrev pub may_join :
    Pids → (me task : ℕ) → (pgrp : Option ℕ) → (forknoexec : Bool) → Result (Unit {0})
may_join s me t pgrp forknoexec =
    let after_task : Result (Unit {0}) =
      if same (s.pids sid t) (s.pids tgid t)
      then err eperm
      else if not (same pgrp (s.pids tgid t)) && not (group_in_session s t pgrp)
      then err eperm
      else ok tt in
    if not (same (s.pids tid t) (s.pids tgid t))
    then err einval
    else if t == me
    then after_task
    else elim (other_task s me t forknoexec) [ err e ↦ err e | ok u ↦ after_task ]

-- The end of `sys_setpgid`: the members of the process move, and the old group is put.
unfoldable pub join : Pids → (task : ℕ) → (pgrp : Option ℕ) → Option Pids
unfolding regroup pid_put
join s t pgrp = elim (s.pids pgid t) [
  | none ↦ none
  | some old ↦
      let held : Pids = refcount_inc s old in
      elim pgrp [
        | none ↦ none
        | some p ↦
            let all : Option Pids = elim (s.pids tgid t) [
              | none ↦ none
              | some g ↦ regroup held (s.tasks tgid g) p
            ] in
            then_do (if old == p then some held else all) (λ s'. pid_put s' old)
      ]
]

-- The process that is asked for, and its group.
abbrev pub asked_process : Pids → (me : ℕ) → (nr : ℤ) → ℤ
asked_process s me nr = if is_zero nr then pos (task_pid_nr s me tgid) else nr

abbrev pub asked_group : Pids → (me : ℕ) → (nr group : ℤ) → ℤ
asked_group s me nr group = if is_zero group then asked_process s me nr else group

unfoldable pub sys_setpgid :
    Pids → (me : ℕ) → (nr pgid : ℤ) → (forknoexec : ℕ → Bool) → Option (Result (Unit {0}) × Pids)
unfolding join
sys_setpgid s me nr group forknoexec =
    if is_negative (asked_group s me nr group)
    then some (err einval, s)
    else elim (pid_task s (find_signed s (asked_process s me nr)) tid) [
      | none ↦ some (err esrch, s)
      | some t ↦
          let pgrp = find_signed s (asked_group s me nr group) in
          let joined = join s t pgrp in
          elim (may_join s me t pgrp (forknoexec t)) [
            | err e ↦ some (err e, s)
            | ok u ↦ then_do joined (λ s'. some (ok tt, s'))
          ]
    ]

-- The members of `tgid` get a group and a session of their own; the old ones are put last.
unfoldable pub pid_setsid : Pids → (task : ℕ) → Option (Result ℕ × Pids)
unfolding new_session pid_put
pid_setsid s t = elim (s.pids tgid t) [
  | none ↦ none
  | some g ↦
      if same (s.pids sid t) (some g) || not (no_tasks (s.tasks pgid g))
      then some (err eperm, s)
      else elim (s.pids pgid t) [
        | none ↦ none
        | some old_pgrp ↦ elim (s.pids sid t) [
          | none ↦ none
          | some old_sid ↦
              let held : Pids = refcount_inc (refcount_inc s old_pgrp) old_sid in
              then_do (new_session held (s.tasks tgid g) g) (λ s1.
                then_do (pid_put s1 old_sid)
                  (λ s2. then_do (pid_put s2 old_pgrp) (λ s3. some (ok g, s3))))
        ]
      ]
]

-- `query_pid`, for `sys_getpgid` and `sys_getsid`.
unfoldable pub query_pid : Pids → (me : ℕ) → (nr : ℤ) → (type : ℕ) → Option (Result ℕ)
query_pid s me nr k =
    let task : Option ℕ = if is_zero nr then some me else pid_task s (find_signed s nr) tid in
    elim task [
      | none ↦ some (err esrch)
      | some t ↦ elim (s.pids k t) [ none ↦ none | some p ↦ some (ok p) ]
    ]

abbrev pub sys_getpgid : Pids → (me : ℕ) → (nr : ℤ) → Option (Result ℕ)
sys_getpgid s me nr = query_pid s me nr pgid

abbrev pub sys_getsid : Pids → (me : ℕ) → (nr : ℤ) → Option (Result ℕ)
sys_getsid s me nr = query_pid s me nr sid

abbrev pub sys_getpid : Pids → (me : ℕ) → ℕ
sys_getpid s me = task_pid_nr s me tgid

abbrev pub sys_gettid : Pids → (me : ℕ) → ℕ
sys_gettid s me = task_pid_nr s me tid

-- The first task is its own parent.
abbrev pub sys_getppid : Pids → (me init : ℕ) → Option ℕ
sys_getppid s me init = if me == init then some 0 else then_do (s.parent me) (λ u. s.pids tgid u)

-- `broadcast_task_locked`
abbrev pub broadcast_task : Pids → (me p : ℕ) → Option ℕ
broadcast_task s me p =
    if p == pid_init || same (some p) (s.pids tgid me) then none else pid_task s (some p) tgid

-- The tasks that `send_group_signal` collects.
abbrev pub group_members : Pids → (me pgid : ℕ) → Option (List ℕ)
group_members s me nr =
    then_do (if nr == 0 then s.pids pgid me else find_pid s nr) (λ p. some (s.tasks pgid p))
