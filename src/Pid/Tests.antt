-- ===== src/Pid/Tests.antt =====
-- Runs of kernel/pid.c, and its theorems at concrete inputs: the task 10 starts, and 11 is its child.
use nuvix.Prelude.{ℕ, ◌≡◌, refl, true, false, ◌&&◌, Option, none, some, [], ◌∷◌, arith, ◌==◌}
use nuvix.Prelude.Int.{pos}
use nuvix.Bitmap.{Bitmap, set_bit, test_bit, nonzero, find_next_zero_bit}
use nuvix.Fdtable.Refs.{dec_and_test, dec, inc_not_zero}
use nuvix.Wait.{unlist}
use nuvix.Errno.{ok, err, esrch, eperm}
use nuvix.Pid.{put_at, Pids, pid_alloc, pid_prepare, tid, tgid, pgid, sid, choose_nr}
use nuvix.Pid.Link.{change_pid, pid_publish, pid_reparent}
use nuvix.Pid.Linked.{IsLinked}
use nuvix.Pid.Session.{pid_setsid, sys_setpgid, group_members}
use nuvix.Pid.Alloc.{Allocated, pid_alloc-Allocated}
use nuvix.Pid.Joins.{Sessions, pid_setsid-Sessions}
use nuvix.Pid.Calls.{Joined, sys_setpgid-Joined}
use nuvix.Pid.Runs.{start, Reach, Reach-IsLinked, begin, later, prepare, publish, reparent}
use mathlib.Core.Path.{subst}

abbrev used_zero : Bitmap
used_zero w i = w == 0 && i == 0

abbrev boot : Pids
boot = start used_zero 1

abbrev after_call {ℓ} : {A : Type ℓ} → Pids → Option (A × Pids) → Pids
after_call s none = s
after_call s (some (r, s')) = s'

abbrev after_link : Pids → Option Pids → Pids
after_link s none = s
after_link s (some s') = s'

abbrev first_parent : Pids
unfolding pid_prepare
first_parent = pid_reparent (after_call boot (pid_prepare boot true 10 none)) 10 (some 10)

abbrev first_listed : Pids
unfolding pid_prepare pid_publish
first_listed = after_link first_parent (pid_publish first_parent 10)

first_tasks :
    (first_listed.tasks tid 1 ≡ 10 ∷ [])
    × (first_listed.tasks sid 1 ≡ 10 ∷ [])
    × (first_listed.refcount 1 ≡ 4)
unfolding pid_prepare pid_publish pid_setsid sys_setpgid find_next_zero_bit test_bit nonzero
    dec_and_test dec inc_not_zero unlist set_bit change_pid
first_tasks = (refl, refl, refl)

abbrev second_parent : Pids
unfolding pid_prepare pid_publish
second_parent =
    pid_reparent (after_call first_listed (pid_prepare first_listed true 11 (some 10))) 11 (some 10)

abbrev both : Pids
unfolding pid_prepare pid_publish
both = after_link second_parent (pid_publish second_parent 11)

both_tasks :
    (both.tasks tid 2 ≡ 11 ∷ [])
    × (both.tasks sid 1 ≡ 11 ∷ 10 ∷ [])
    × (both.refcount 1 ≡ 6)
    × (both.refcount 2 ≡ 2)
unfolding pid_prepare pid_publish pid_setsid sys_setpgid find_next_zero_bit test_bit nonzero
    dec_and_test dec inc_not_zero unlist set_bit change_pid
both_tasks = (refl, refl, refl, refl)

abbrev own_session : Pids
unfolding pid_prepare pid_publish pid_setsid
own_session = after_call both (pid_setsid both 11)

new_session_of : pid_setsid both 11 ≡ some (ok 2, own_session)
unfolding pid_prepare pid_publish pid_setsid sys_setpgid find_next_zero_bit test_bit nonzero
    dec_and_test dec inc_not_zero unlist set_bit change_pid
new_session_of = refl

leader_fails : pid_setsid both 10 ≡ some (err eperm, both)
unfolding pid_prepare pid_publish pid_setsid sys_setpgid find_next_zero_bit test_bit nonzero
    dec_and_test dec inc_not_zero unlist set_bit change_pid
leader_fails = refl

abbrev own_group : Pids
unfolding pid_prepare pid_publish sys_setpgid
own_group = after_call both (sys_setpgid both 10 (pos 11) (pos 0) (λ _. true))

no_such_process : sys_setpgid both 10 (pos 11) (pos 0) (λ _. true) ≡ some (err esrch, both)
unfolding pid_prepare pid_publish pid_setsid sys_setpgid find_next_zero_bit test_bit nonzero
    dec_and_test dec inc_not_zero unlist set_bit change_pid
no_such_process = refl

abbrev child_group : Pids
unfolding pid_prepare pid_publish sys_setpgid
child_group = after_call both (sys_setpgid both 10 (pos 2) (pos 0) (λ _. true))

child_joins : sys_setpgid both 10 (pos 2) (pos 0) (λ _. true) ≡ some (ok tt, child_group)
unfolding pid_prepare pid_publish pid_setsid sys_setpgid find_next_zero_bit test_bit nonzero
    dec_and_test dec inc_not_zero unlist set_bit change_pid
child_joins = refl

child_tasks :
    (child_group.tasks pgid 2 ≡ 11 ∷ [])
    × (child_group.tasks pgid 1 ≡ 10 ∷ [])
    × (group_members child_group 10 2 ≡ some (11 ∷ []))
unfolding pid_prepare pid_publish pid_setsid sys_setpgid find_next_zero_bit test_bit nonzero
    dec_and_test dec inc_not_zero unlist set_bit change_pid
child_tasks = (refl, refl, refl)

first_Reach : Reach first_listed
unfolding pid_prepare pid_publish pid_setsid sys_setpgid find_next_zero_bit test_bit nonzero
    dec_and_test dec inc_not_zero unlist set_bit change_pid
first_Reach =
    later
      (later
        (later (begin used_zero 1) (prepare true 10 none (ok tt) (λ k. refl) (λ nr e. refl) refl))
        (reparent 10 (some 10) refl))
      (publish 10 refl)

next_is_two : (nr : ℕ) → choose_nr first_listed ≡ some nr → 2 ≡ nr
unfolding pid_prepare pid_publish pid_setsid sys_setpgid find_next_zero_bit test_bit nonzero
    dec_and_test dec inc_not_zero unlist set_bit change_pid
next_is_two nr e = let two : some 2 ≡ some nr = e in ground (arith, two)

eleven_unlinked :
    (k : ℕ)
    → put_at
        (put_at (put_at (put_at (λ l j. false) tid 10 true) tgid 10 true) pgid 10 true)
        sid
        10
        true
        k
        11
      ≡ false
eleven_unlinked k = ground arith

both_Reach : Reach both
unfolding pid_prepare pid_publish pid_setsid sys_setpgid find_next_zero_bit test_bit nonzero
    dec_and_test dec inc_not_zero unlist set_bit change_pid
both_Reach =
    later
      (later
        (later first_Reach (
          prepare true 11 (some 10) (ok tt) eleven_unlinked
            (λ nr e. subst (λ n. first_listed.hashed n ≡ false) (next_is_two nr e) refl) refl))
        (reparent 11 (some 10) refl))
      (publish 11 refl)

Reach-IsLinked_example : IsLinked both
Reach-IsLinked_example = Reach-IsLinked both_Reach

pid_setsid-Sessions_example : Sessions both 11 (ok 2) own_session
unfolding pid_prepare pid_publish pid_setsid sys_setpgid find_next_zero_bit test_bit nonzero
    dec_and_test dec inc_not_zero unlist set_bit change_pid
pid_setsid-Sessions_example =
    pid_setsid-Sessions both 11 (ok 2) own_session (Reach-IsLinked both_Reach) refl new_session_of

sys_setpgid-Joined_example : Joined both 10 (pos 2) (pos 0) (λ _. true) (ok tt) child_group
unfolding pid_prepare pid_publish pid_setsid sys_setpgid find_next_zero_bit test_bit nonzero
    dec_and_test dec inc_not_zero unlist set_bit change_pid
sys_setpgid-Joined_example =
    sys_setpgid-Joined both 10 (pos 2) (pos 0) (λ _. true) (ok tt) child_group
      (Reach-IsLinked both_Reach) child_joins

pid_alloc-Allocated_example :
    Allocated first_listed true (pid_alloc first_listed true).0 (pid_alloc first_listed true).1
unfolding pid_prepare pid_publish pid_setsid sys_setpgid find_next_zero_bit test_bit nonzero
    dec_and_test dec inc_not_zero unlist set_bit change_pid
pid_alloc-Allocated_example = pid_alloc-Allocated first_listed true (omega arith) (omega arith)
