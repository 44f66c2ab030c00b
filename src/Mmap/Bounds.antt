-- ===== src/Mmap/Bounds.antt =====
-- The bounds that `range_end` of mm/mmap.c checks.
use nuvix.Prelude.{
  ℕ, ◌+◌, ◌-◌, ◌%◌, ◌^◌, ◌≤◌, ◌<◌, ◌≡◌, refl, inl, inr, Bool, true, false, ◌||◌, not, arith, ltb,
  leb, ◌==◌, if◌then◌else◌, Bool-cases, ◌⊎◌, sym, leb→le, ◌∙◌,
}
use mathlib.Core.Path.{subst}
use nuvix.Errno.{Result, ok, err, einval, enomem, ok_injective, Errno}
use nuvix.Vma.{page_size, uvaddr_start, uvaddr_end}
use nuvix.Mmap.{page_up, stack_top, stack_bottom, range_allowed, range_end, leb→le}

-- Room for a mapping: in the user's range below the top of the stack, and either a page or more below
-- the bottom of the stack or from there on.
abbrev pub IsRoom : (stack start end : ℕ) → Type 0
IsRoom stack start end =
    (uvaddr_start ≤ start)
    × (end ≤ stack_top stack)
    × ((end + page_size ≤ stack_bottom stack) ⊎ (stack_bottom stack ≤ start))

-- Pages of the user's range from `start` that hold `len` bytes and no page more.
pub record IsRange (stack start len end : ℕ) : Type 0 where
  pub aligned : (start % page_size ≡ 0) × (end % page_size ≡ 0)
  pub filled : start < end
  pub above : uvaddr_start ≤ start
  pub below : end ≤ stack_top stack
  pub covers : (start + len ≤ end) × (end < start + len + page_size)
  pub guard : (end + page_size ≤ stack_bottom stack) ⊎ (stack_bottom stack ≤ start)

page_up-bounds :
    (n : ℕ)
    → n ≤ 2 ^ 64 - page_size
    → (page_up n % page_size ≡ 0) × (n ≤ page_up n) × (page_up n < n + page_size)
page_up-bounds n h = (omega arith, omega (arith, h), omega (arith, h))

range_allowed-bounds :
    (stack start end : ℕ)
    → range_allowed stack start end ≡ true
    → (uvaddr_start ≤ start) × (end ≤ stack_top stack)
range_allowed-bounds stack start end e =
    elim (Bool-cases (ltb start uvaddr_start || ltb (stack_top stack) end)) [
      | inl bad ↦
          let at_end : false ≡ true =
            subst
              (λ b.
                (if b
                  then false
                  else leb end (stack_bottom stack - page_size) || leb (stack_bottom stack) start)
                ≡ true)
              bad e in
          ground (arith, at_end)
      | inr good ↦ (ground (arith, good), ground (arith, good))
    ]

range_allowed-guard :
    (stack start end : ℕ)
    → 0 < end
    → range_allowed stack start end ≡ true
    → (end + page_size ≤ stack_bottom stack) ⊎ (stack_bottom stack ≤ start)
range_allowed-guard stack start end pos e =
    elim (Bool-cases (ltb start uvaddr_start || ltb (stack_top stack) end)) [
      | inl bad ↦
          let at_end : false ≡ true =
            subst
              (λ b.
                (if b
                  then false
                  else leb end (stack_bottom stack - page_size) || leb (stack_bottom stack) start)
                ≡ true)
              bad e in
          ground (arith, at_end)
      | inr good ↦
          let sides : (leb end (stack_bottom stack - page_size) || leb (stack_bottom stack) start)
              ≡ true =
            subst
              (λ b.
                (if b
                  then false
                  else leb end (stack_bottom stack - page_size) || leb (stack_bottom stack) start)
                ≡ true)
              good e in
          elim (Bool-cases (leb (stack_bottom stack) start)) [
            | inl up ↦ inr (leb→le (stack_bottom stack) start up)
            | inr down ↦ inl (away end (stack_bottom stack) start pos sides down)
          ]
    ]
  where
    away :
        (end bottom start : ℕ)
        → 0 < end
        → (leb end (bottom - page_size) || leb bottom start) ≡ true
        → leb bottom start ≡ false
        → end + page_size ≤ bottom
    away end bottom start pos h k = ground (arith, pos, h, k)

pub range_allowed-IsRoom :
    (stack start end : ℕ)
    → start ≤ end
    → range_allowed stack start end ≡ true
    → IsRoom stack start end
range_allowed-IsRoom stack start end h e =
    let (lo, hi) = range_allowed-bounds stack start end e in
    (lo, hi, range_allowed-guard stack start end (omega (arith, h, lo)) e)

-- A test that did not fail.
passed :
    (b : Bool) (z : Errno) (r : Result ℕ) (end : ℕ)
    → (if b then err z else r) ≡ ok end
    → (b ≡ false) × (r ≡ ok end)
passed true z r end e = ground (arith, e)
passed false z r end e = (refl, e)

no_wrap :
    (start n : ℕ)
    → (leb uvaddr_end start || ltb (uvaddr_end - start) n) ≡ false
    → (start + n) % 2 ^ 64 ≡ start + n
no_wrap start n h =
    let lo : start < uvaddr_end = ground (arith, h) in
    let hi : n ≤ uvaddr_end - start = ground (arith, h) in omega (arith, lo, hi)

not-false : (b : Bool) → not b ≡ false → b ≡ true
not-false true h = refl
not-false false h = sym h

-- When `range_end` succeeds, the range is of whole pages and not empty, it holds the length and no
-- page more, it lies in the user's range below the top of the stack, and it either ends a page or more
-- below the bottom of the stack or begins in the stack. The end is the sum in 64 bits, and it has not
-- wrapped around.
pub range_end-IsRange :
    (stack start len end : ℕ) → range_end stack start len ≡ ok end → IsRange stack start len end
range_end-IsRange stack start len end e =
    let (aligned, e1) = passed (not (start % page_size == 0)) einval _ end e in
    let (some_len, e2) = passed (len == 0) einval _ end e1 in
    let (fits, e3) = passed (ltb (2 ^ 64 - 1 - (page_size - 1)) len) enomem _ end e2 in
    let (room, e4) =
      passed (leb uvaddr_end start || ltb (uvaddr_end - start) (page_up len)) enomem _ end e3 in
    let (allowed, e5) =
      passed (not (range_allowed stack start ((start + page_up len) % 2 ^ 64))) einval _ end e4 in
    let whole_sum : (start + page_up len) % 2 ^ 64 ≡ start + page_up len =
      no_wrap start (page_up len) room in
    let same : start + page_up len ≡ end = sym whole_sum ∙ ok_injective _ _ e5 in
    let up = page_up-bounds len (ground (arith, fits)) in
    let whole : start % page_size ≡ 0 = ground (arith, aligned) in
    let here : range_allowed stack start (start + page_up len) ≡ true =
      subst (λ x. range_allowed stack start x ≡ true) whole_sum (not-false _ allowed) in
    let positive : 0 < len = ground (arith, some_len) in
    let inside = range_allowed-bounds stack start (start + page_up len) here in
    subst (IsRange stack start len) same (record {
      aligned = (whole, omega (arith, whole, up.0));
      filled = omega (arith, up.1, positive);
      above = inside.0;
      below = inside.1;
      covers = (omega (arith, up.1), omega (arith, up.2));
      guard =
          range_allowed-guard stack start (start + page_up len) (omega (arith, up.1, positive))
            here;
    })
