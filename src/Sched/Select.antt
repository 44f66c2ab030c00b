-- ===== src/Sched/Select.antt =====
-- kernel/sched.c: the choice of a processor for a new task.
use native.Mathlib.Nat.{eq-zero-or-pos, mod_self, mod-eq_of_lt}
use nuvix.Prelude.{
  ℕ, zero, suc, ◌+◌, ◌-◌, ◌%◌, ◌≤◌, ◌<◌, ◌≡◌, sym, inl, inr, false, arith, leb, ◌==◌, if◌then◌else◌,
  ==_iff, Bool-cases, Bool, ltb, ◌^◌,
}

-- The other processors' loads are signed.
abbrev pub lighter : ℕ → ℕ → Bool
lighter a b = ltb ((a + 2 ^ 31) % 2 ^ 32) ((b + 2 ^ 31) % 2 ^ 32)

abbrev pub next_of : (nr_cpus cpu : ℕ) → ℕ
next_of nr_cpus cpu = if cpu + 1 == nr_cpus then 0 else cpu + 1

-- The rounds of the loop of `select_cpu` that are left: the selected processor.
unfoldable pub select_from : (loads : ℕ → ℕ) → (nr_cpus : ℕ) → (rounds cpu selected : ℕ) → ℕ
select_from loads n zero cpu selected = selected
select_from loads n (suc k) cpu selected =
    let cpu' = next_of n cpu in
    select_from loads n k cpu' (if lighter (loads cpu') (loads selected) then cpu' else selected)

-- The selected processor, and the new `next_cpu`.
unfoldable pub select_cpu : (loads : ℕ → ℕ) → (nr_cpus next_cpu : ℕ) → ℕ × ℕ
unfolding select_from
select_cpu loads n next_cpu =
    let selected = select_from loads n (n - 1) next_cpu next_cpu in (selected, next_of n selected)

-- How many rounds from one processor to another.
abbrev rounds_to : (n cpu c : ℕ) → ℕ
rounds_to n cpu c = if leb cpu c then c - cpu else c + n - cpu

lighter-false_trans : (a b c : ℕ) → lighter b a ≡ false → lighter c b ≡ false → lighter c a ≡ false
lighter-false_trans a b c h k = ground (arith, h, k)

better :
    (loads : ℕ → ℕ) (a b : ℕ)
    → lighter (loads b) (loads (if lighter (loads a) (loads b) then a else b)) ≡ false
better loads a b = ground arith

better_new :
    (loads : ℕ → ℕ) (a b : ℕ)
    → lighter (loads a) (loads (if lighter (loads a) (loads b) then a else b)) ≡ false
better_new loads a b = ground arith

rounds_to-zero : (n cpu c : ℕ) → cpu < n → rounds_to n cpu c ≡ 0 → c ≡ cpu
rounds_to-zero n cpu c h e = ground (arith, h, e)

next_of-lt : (n cpu : ℕ) → cpu < n → next_of n cpu < n
next_of-lt n cpu h = ground (arith, h)

next_of-rounds_to :
    (n cpu c : ℕ)
    → cpu < n
    → c < n
    → 0 < rounds_to n cpu c
    → rounds_to n (next_of n cpu) c + 1 ≡ rounds_to n cpu c
next_of-rounds_to n cpu c h k far = ground (arith, h, k, far)

-- The result is no heavier than the selected processor and those ahead.
select_from-least :
    (loads : ℕ → ℕ) (n k cpu selected : ℕ)
    → cpu < n
    → selected < n
    → (select_from loads n k cpu selected < n)
      × (lighter (loads selected) (loads (select_from loads n k cpu selected)) ≡ false)
      × ((c : ℕ)
          → c < n
          → 0 < rounds_to n cpu c
          → rounds_to n cpu c ≤ k
          → lighter (loads c) (loads (select_from loads n k cpu selected)) ≡ false)
unfolding select_from
select_from-least loads n zero cpu selected h l =
    (l, ground arith, λ c k far near. absurd (omega (arith, far, near)))
select_from-least loads n (suc k) cpu selected h l =
    let cpu' = next_of n cpu in
    let best : ℕ = if lighter (loads cpu') (loads selected) then cpu' else selected in
    let r = select_from loads n k cpu' best in
    let (a, b, ahead) =
      select_from-least loads n k cpu' best (next_of-lt n cpu h)
        (ground (arith, l, next_of-lt n cpu h)) in
    let step = next_of-rounds_to n cpu in
    (
      a,
      lighter-false_trans (loads r) (loads best) (loads selected) b (better loads cpu' selected),
      λ c m far near. elim (eq-zero-or-pos (rounds_to n cpu' c)) [
        | inl e ↦ rw (rounds_to-zero n cpu' c (next_of-lt n cpu h) e) (
            lighter-false_trans (loads r) (loads best) (loads cpu') b
              (better_new loads cpu' selected))
        | inr p ↦ ahead c m p (omega (arith, step c h m far, near))
      ],
    )

-- A signed 32-bit number, moved up by 2 ^ 31 to be above zero.
abbrev pub raised : ℕ → ℕ
raised a = (a + 2 ^ 31) % 2 ^ 32

lighter-false_le : (a b : ℕ) → lighter a b ≡ false → raised b ≤ raised a
lighter-false_le a b h = ground (arith, h)

-- With a first processor in range, `select_cpu` gives a processor whose load is at most that of
-- each one, as signed 32-bit numbers (which 2 ^ 31 added to both keeps in order as unsigned ones),
-- and the next search starts at the processor after it.
pub select_cpu-least :
    (loads : ℕ → ℕ) (n next_cpu : ℕ)
    → next_cpu < n
    → ((select_cpu loads n next_cpu).0 < n)
      × ((select_cpu loads n next_cpu).1 ≡ ((select_cpu loads n next_cpu).0 + 1) % n)
      × ((c : ℕ)
          → c < n
          → (loads (select_cpu loads n next_cpu).0 + 2 ^ 31) % 2 ^ 32 ≤ (loads c + 2 ^ 31) % 2 ^ 32)
unfolding select_cpu
select_cpu-least loads n next_cpu h =
    let (a, b, ahead) = select_from-least loads n (n - 1) next_cpu next_cpu h h in
    let r = select_from loads n (n - 1) next_cpu next_cpu in
    (
      a,
      elim (Bool-cases (r + 1 == n)) [
        | inl e ↦ rw (e, (==_iff (r + 1) n).0 e) (sym (mod_self n))
        | inr e ↦ rw e (sym (mod-eq_of_lt (ground (arith, a, e))))
      ],
      λ c m. lighter-false_le (loads c) (loads r) (elim (eq-zero-or-pos (rounds_to n next_cpu c)) [
        | inl e ↦ rw (rounds_to-zero n next_cpu c h e) b
        | inr p ↦ ahead c m p (ground (arith, h, m))
      ]),
    )
