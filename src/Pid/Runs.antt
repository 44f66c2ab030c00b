-- ===== src/Pid/Runs.antt =====
-- kernel/pid.c: every run of the operations keeps the links sound.
use mathlib.Core.Path.{subst}
use nuvix.Prelude.{ℕ, ◌≡◌, refl, sym, inl, inr, Bool, true, false, Option, none, some, [], arith}
use nuvix.Prelude.Int.{ℤ}
use nuvix.Errno.{Result, ok, err}
use nuvix.Bitmap.{Bitmap}
use nuvix.Pid.Calls.{Joined, sys_setpgid-Joined}
use nuvix.Pid.Groups.{pid_publish-IsLinked, pid_unpublish-IsLinked}
use nuvix.Pid.Prepare.{copied, release-IsLinked, prepare-IsLinked}
use nuvix.Pid.{Pids, tgid, choose_nr, pid_put, pid_prepare}
use nuvix.Pid.Link.{pid_publish, pid_unpublish, pid_reparent}
use nuvix.Pid.Linked.{IsLinked}
use nuvix.Pid.Session.{sys_setpgid, pid_setsid}
use nuvix.Pid.Joins.{Sessions, pid_setsid-Sessions}

-- A task is prepared before it is published, with a number that is not in the table: its bit was
-- clear. A task that starts a session is published.
pub data Step (s s' : Pids) : Type 0 where
  prepare :
      (memory : Bool) (t : ℕ) (parent : Option ℕ) (r : Result (Unit {0}))
      → ((k : ℕ) → s.linked k t ≡ false)
      → ((nr : ℕ) → choose_nr s ≡ some nr → s.hashed nr ≡ false)
      → pid_prepare s memory t parent ≡ some (r, s')
      → Step s s'
  publish : (t : ℕ) → pid_publish s t ≡ some s' → Step s s'
  unpublish : (t : ℕ) → pid_unpublish s t ≡ some s' → Step s s'
  reparent : (t : ℕ) (u : Option ℕ) → s' ≡ pid_reparent s t u → Step s s'
  setpgid :
      (me : ℕ) (nr group : ℤ) (f : ℕ → Bool) (r : Result (Unit {0}))
      → sys_setpgid s me nr group f ≡ some (r, s')
      → Step s s'
  setsid :
      (t : ℕ) (r : Result ℕ) → s.linked tgid t ≡ true → pid_setsid s t ≡ some (r, s') → Step s s'
  release : (p : ℕ) → pid_put s p ≡ some s' → Step s s'

-- No task is linked at the start.
abbrev pub start : Bitmap → ℕ → Pids
start map next = record {
  pidmap = map;
  next_pid = next;
  refcount = λ _. 0;
  hashed = λ _. false;
  tasks = λ k p. [];
  pids = λ k t. none;
  linked = λ k t. false;
  parent = λ _. none;
}

pub data Reach : Pids → Type 0 where
  begin : (map : Bitmap) (next : ℕ) → Reach (start map next)
  later : {s s' : Pids} → Reach s → Step s s' → Reach s'

start-IsLinked : (map : Bitmap) (next : ℕ) → IsLinked (start map next)
start-IsLinked map next = record {
  listed = λ k t p. refl;
  covers = λ p b. absurd (ground (arith, b));
  tight = λ p b. absurd (ground (arith, b));
  typed = λ k t b. absurd (ground (arith, b));
}

setsid-IsLinked :
    (s : Pids) (t : ℕ) (r : Result ℕ) (s' : Pids) → IsLinked s → Sessions s t r s' → IsLinked s'
unfolding Sessions
setsid-IsLinked s t (err e) s' v h = subst IsLinked (sym h.1) v
setsid-IsLinked s t (ok g) s' v (a, b, c, h) = h.valid

setpgid-IsLinked :
    (s : Pids) (me : ℕ) (nr group : ℤ) (f : ℕ → Bool) (r : Result (Unit {0})) (s' : Pids)
    → IsLinked s
    → Joined s me nr group f r s'
    → IsLinked s'
unfolding Joined
setpgid-IsLinked s me nr group f (err e) s' v h = subst IsLinked (sym h) v
setpgid-IsLinked s me nr group f (ok u) s' v (t, p, a, b, c, inl (d, e, w)) = w
setpgid-IsLinked s me nr group f (ok u) s' v (t, p, a, b, c, inr (g, d, w)) = w.valid

step-IsLinked : (s s' : Pids) → IsLinked s → Step s s' → IsLinked s'
step-IsLinked s s' v (prepare memory t parent r free fresh e) =
    prepare-IsLinked s memory t parent r s' v free fresh e
step-IsLinked s s' v (publish t e) = pid_publish-IsLinked s t s' v e
step-IsLinked s s' v (unpublish t e) = pid_unpublish-IsLinked s t s' v e
step-IsLinked s s' v (reparent t u e) = rw e (copied s (pid_reparent s t u) v refl refl refl refl)
step-IsLinked s s' v (setpgid me nr group f r e) =
    setpgid-IsLinked s me nr group f r s' v (sys_setpgid-Joined s me nr group f r s' v e)
step-IsLinked s s' v (setsid t r l e) =
    setsid-IsLinked s t r s' v (pid_setsid-Sessions s t r s' v l e)
step-IsLinked s s' v (release p e) = release-IsLinked s p s' v e

-- In every run of the operations on identifiers, in which a task is prepared before it is published and
-- only gets a number that is not in the table, the list of a type and an identifier holds just the
-- tasks that are linked to it, each once, and the table has just the identifiers with a task.
pub Reach-IsLinked : {s : Pids} → Reach s → IsLinked s
Reach-IsLinked (begin map next) = start-IsLinked map next
Reach-IsLinked (later {s} {s'} r step) = step-IsLinked s s' (Reach-IsLinked r) step
