-- ===== src/Pid/Alloc.antt =====
-- kernel/pid.c: `pid_alloc` gives an identifier that is free, as long as there is one.
use mathlib.Core.Path.{subst}
use nuvix.Prelude.{
  ℕ, ◌≤◌, ◌<◌, ◌≡◌, refl, ◌⊎◌, inl, inr, Bool, true, false, ◌||◌, Option, none, some, arith, ◌==◌,
  Bool-cases, Option-cases,
}
use nuvix.Bitmap.{test_bit, test_bit-set_bit, find_next_zero_bit}
use nuvix.Bitmap.Find.{find_next_zero_bit-IsFirst}
use nuvix.Errno.{Result, ok, err, enomem, eagain}
use nuvix.Pid.{Pids, pid_init, pid_max, choose_nr, pid_alloc}

-- A free number in the range of the identifiers, or all of them are in use.
abbrev pub Chosen : Pids → Option ℕ → Type 0
Chosen s none = (i : ℕ) → pid_init ≤ i → i < pid_max → test_bit i s.pidmap ≡ true
Chosen s (some nr) = (pid_init ≤ nr) × (nr < pid_max) × (test_bit nr s.pidmap ≡ false)

choose_nr-Chosen :
    (s : Pids) → pid_init ≤ s.next_pid → s.next_pid < pid_max → Chosen s (choose_nr s)
unfolding choose_nr
choose_nr-Chosen s lo hi =
    let high = find_next_zero_bit s.pidmap pid_max s.next_pid in
    let low = find_next_zero_bit s.pidmap s.next_pid pid_init in
    let a = find_next_zero_bit-IsFirst s.pidmap pid_max s.next_pid (omega (arith, hi)) in
    let b = find_next_zero_bit-IsFirst s.pidmap s.next_pid pid_init lo in
    elim (Bool-cases (high == pid_max)) [
      | inr h ↦
          rw h
            (omega (arith, lo, a.low), ground (arith, h, a.high), ground (arith, a.hit, a.high, h))
      | inl h ↦ rw h (elim (Bool-cases (low == s.next_pid)) [
        | inr k ↦ rw k (b.low, ground (arith, k, b.high, hi), ground (arith, b.hit, b.high, k))
        | inl k ↦ rw k (λ i from to. ground (arith, a.miss i, b.miss i, from, to, h, k))
      ])
    ]

-- What the call returns and leaves.
pub Allocated : Pids → (memory : Bool) → Result ℕ → Pids → Type 0
Allocated s memory (err e) s' =
    (s' ≡ s) × (((e ≡ enomem) × (memory ≡ false)) ⊎ ((e ≡ eagain) × Chosen s none))
Allocated s memory (ok nr) s' =
    Chosen s (some nr)
    × ((i : ℕ) → test_bit i s'.pidmap ≡ (i == nr || test_bit i s.pidmap))
    × (pid_init ≤ s'.next_pid)
    × (s'.next_pid < pid_max)
    × (s'.refcount nr ≡ 1)
    × (s'.pids ≡ s.pids)

-- With a next number in range, `pid_alloc` returns a number of the range that was free and marks just
-- that one, and the next number stays in range. It fails and changes nothing with ENOMEM
-- if there is no memory, and with EAGAIN only if all numbers from 1 to 32767 are in use.
pub pid_alloc-Allocated :
    (s : Pids) (memory : Bool)
    → pid_init ≤ s.next_pid
    → s.next_pid < pid_max
    → Allocated s memory (pid_alloc s memory).0 (pid_alloc s memory).1
unfolding pid_alloc Allocated
pid_alloc-Allocated s false lo hi = (refl, inl (refl, refl))
pid_alloc-Allocated s true lo hi =
    let c = choose_nr-Chosen s lo hi in
    elim (Option-cases (choose_nr s)) [
      | inl h ↦ rw h (refl, inr (refl, subst (Chosen s) h c))
      | inr (nr, h) ↦
          let d : Chosen s (some nr) = subst (Chosen s) h c in
          rw h (
            d,
            λ i. ground (arith, test_bit-set_bit nr i s.pidmap),
            ground (arith, d),
            ground (arith, d),
            ground arith,
            refl,
          )
    ]
