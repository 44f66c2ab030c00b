-- ===== src/Kfifo/Bulk.antt =====
-- `kfifo_in` and `kfifo_out`: the two copies round the end of the buffer move the bytes in order.
use nuvix.Prelude.{
  ℕ, ◌+◌, ◌-◌, ◌%◌, ◌≤◌, ◌<◌, min, ◌≡◌, refl, sym, ap, ◌∙◌, ◌⊎◌, inl, inr, false, ◌++◌, arith, ltb,
  ◌==◌, if◌then◌else◌, ==_iff, Bool-cases,
}
use native.Mathlib.Decide.{dec_lt}
use mathlib.Core.List.{append-nil}
use nuvix.Prelude.Pow.{mod_low, mod_high, sub32, add32}
use nuvix.Kfifo.{size, len, put_all, get_all, Kfifo}
use nuvix.Kfifo.Inv.{order_bound, size-eq, and_mask, IsValid, grow-IsValid, shrink-IsValid}
use nuvix.Prelude.Tabulate.{tabulate, tabulate_ext}
use nuvix.Kfifo.Refine.{place, contents, Grew, contents-grow, contents-shrink}
use nuvix.Memory.{Memory, in_range, memcpy}
use nuvix.Memory.Copy.{memcpy_lem}

-- Neither of the ranges `[a, a + n)` and `[b, b + k)` meets the other.
abbrev pub Apart : ℕ → ℕ → ℕ → ℕ → Type 0
Apart a n b k = (a + n ≤ b) ⊎ (b + k ≤ a)

-- A part of one range and a part of the other, in the form that `memcpy_lem` asks for.
Apart-part :
    (a n b k s t d : ℕ)
    → Apart a n b k
    → a ≤ s
    → s + t ≤ a + n
    → b ≤ d
    → d + t ≤ b + k
    → (d ≤ s) ⊎ (s + t ≤ d)
Apart-part a n b k s t d (inl h) p q r u = inr (omega arith)
Apart-part a n b k s t d (inr h) p q r u = inl (omega arith)

apart_sym : (a n b k : ℕ) → (a + n ≤ b) ⊎ (b + k ≤ a) → (b + k ≤ a) ⊎ (a + n ≤ b)
apart_sym a n b k (inl h) = inr h
apart_sym a n b k (inr h) = inl h

Apart-min : (a n l b k : ℕ) → Apart a n b k → Apart a (min n l) b k
Apart-min a n l b k (inl h) = inl (omega arith)
Apart-min a n l b k (inr h) = inr h

module _ (m : Memory) (a buf o c n : ℕ) where
  -- `n` bytes from `a` into a ring of `c` bytes at `buf`, from the offset `o` on.
  abbrev copy_in : Memory
  copy_in =
      let first = min n (c - o) in memcpy (memcpy m (buf + o) a first) buf (a + first) (n - first)

  -- `n` bytes from the ring to `a`.
  abbrev copy_out : Memory
  copy_out =
      let first = min n (c - o) in memcpy (memcpy m a (buf + o) first) (a + first) buf (n - first)

  module _ (inside : o < c) (fits : n ≤ c) (apart : Apart a n buf c) where
    first_copy :
        (x : ℕ)
        → memcpy m (buf + o) a (min n (c - o)) x
          ≡ (if in_range (buf + o) (min n (c - o)) x then m (a + (x - (buf + o))) else m x)
    first_copy = memcpy_lem m (buf + o) a (min n (c - o)) (
        Apart-part a n buf c a (min n (c - o)) (buf + o) apart (omega arith) (omega arith)
          (omega arith) (omega arith))

    second_copy :
        (m' : Memory) (x : ℕ)
        → memcpy m' buf (a + min n (c - o)) (n - min n (c - o)) x ≡ (
            if in_range buf (n - min n (c - o)) x then m' (a + min n (c - o) + (x - buf)) else m' x)
    second_copy m' = memcpy_lem m' buf (a + min n (c - o)) (n - min n (c - o)) (
        Apart-part a n buf c (a + min n (c - o)) (n - min n (c - o)) buf apart (omega arith)
          (omega arith) (omega arith) (omega arith))

    -- Each ring cell, counted from the offset, has its new byte if it is among the first `n`.
    copy_in_low :
        (j : ℕ)
        → j < c
        → o + j < c
        → copy_in (buf + (o + j)) ≡ (if ltb j n then m (a + j) else m (buf + (o + j)))
    copy_in_low j lt low = ground (
      arith,
      second_copy (memcpy m (buf + o) a (min n (c - o))) (buf + (o + j)),
      first_copy (buf + (o + j)),
    )

    copy_in_high :
        (j : ℕ)
        → j < c
        → c ≤ o + j
        → copy_in (buf + (o + j - c)) ≡ (if ltb j n then m (a + j) else m (buf + (o + j - c)))
    copy_in_high j lt high = ground (
      arith,
      second_copy (memcpy m (buf + o) a (min n (c - o))) (buf + (o + j - c)),
      first_copy (buf + (o + j - c)),
      first_copy (a + j),
      apart,
    )

    copy_in_frame : (x : ℕ) → in_range buf c x ≡ false → copy_in x ≡ m x
    copy_in_frame x out =
        ground (arith, second_copy (memcpy m (buf + o) a (min n (c - o))) x, first_copy x)

    first_out :
        (x : ℕ)
        → memcpy m a (buf + o) (min n (c - o)) x
          ≡ (if in_range a (min n (c - o)) x then m (buf + o + (x - a)) else m x)
    first_out = memcpy_lem m a (buf + o) (min n (c - o)) (
        Apart-part buf c a n (buf + o) (min n (c - o)) a (apart_sym a n buf c apart) (omega arith)
          (omega arith) (omega arith) (omega arith))

    second_out :
        (m' : Memory) (x : ℕ)
        → memcpy m' (a + min n (c - o)) buf (n - min n (c - o)) x ≡ (
            if in_range (a + min n (c - o)) (n - min n (c - o)) x
            then m' (buf + (x - (a + min n (c - o))))
            else m' x)
    second_out m' = memcpy_lem m' (a + min n (c - o)) buf (n - min n (c - o)) (
        Apart-part buf c a n buf (n - min n (c - o)) (a + min n (c - o)) (apart_sym a n buf c apart)
          (omega arith) (omega arith) (omega arith) (omega arith))

    -- Each of the `n` bytes at `a` is the ring cell that many places after the offset.
    copy_out_low : (j : ℕ) → j < n → o + j < c → copy_out (a + j) ≡ m (buf + (o + j))
    copy_out_low j lt low =
        ground (arith, second_out (memcpy m a (buf + o) (min n (c - o))) (a + j), first_out (a + j))

    copy_out_high : (j : ℕ) → j < n → c ≤ o + j → copy_out (a + j) ≡ m (buf + (o + j - c))
    copy_out_high j lt high = ground (
      arith,
      second_out (memcpy m a (buf + o) (min n (c - o))) (a + j),
      first_out (buf + (o + j - c)),
      apart,
    )

    copy_out_frame : (x : ℕ) → in_range a n x ≡ false → copy_out x ≡ m x
    copy_out_frame x out =
        ground (arith, second_out (memcpy m a (buf + o) (min n (c - o))) x, first_out x)

module _ {f : Kfifo} (v : IsValid f) where
  sub32-size : (x : ℕ) → sub32 (size f) (x % (f.mask + 1)) ≡ f.mask + 1 - x % (f.mask + 1)
  sub32-size x = rw (size-eq v) (omega (arith, order_bound v.order v.order_lt))

  sub32-len : sub32 (size f) (sub32 f.head f.out) ≡ f.mask + 1 - len f
  sub32-len = rw (size-eq v) (omega (arith, v.within, order_bound v.order v.order_lt))

  inside : (x : ℕ) → x % (f.mask + 1) < f.mask + 1
  inside x = omega arith

  cells :
      (m : Memory) (a n : ℕ)
      → n ≤ f.mask + 1
      → Apart a n f.buf (f.mask + 1)
      → (j : ℕ) → j < f.mask + 1
      → copy_in m a f.buf (f.head % (f.mask + 1)) (f.mask + 1) n (place f (f.head + j))
        ≡ (if ltb j n then m (a + j) else m (place f (f.head + j)))
  cells m a n fits apart j lt = elim (dec_lt (f.head % (f.mask + 1) + j) (f.mask + 1)) [
    | yes low ↦ rw (mod_low f.head j (f.mask + 1) (omega arith) low) (
        copy_in_low m a f.buf (f.head % (f.mask + 1)) (f.mask + 1) n (inside f.head) fits apart j lt
          low)
    | no high ↦ rw (mod_high f.head j (f.mask + 1) (omega arith) lt (omega arith)) (
        copy_in_high m a f.buf (f.head % (f.mask + 1)) (f.mask + 1) n (inside f.head) fits apart j
          lt (omega arith))
  ]

  put_all_eq :
      (m : Memory) (a n : ℕ)
      → let k = min n (f.mask + 1 - len f) in
        put_all f m a n ≡ (
          if k == 0 then (0, f, m) else (
            k,
            record f { head = add32 f.head k },
            copy_in m a f.buf (f.head % (f.mask + 1)) (f.mask + 1) k,
          ))
  unfolding put_all
  put_all_eq m a n = rw (sub32-len, and_mask v f.head, sub32-size f.head)

  Grew-zero : (m : Memory) (g : ℕ → ℕ) → Grew f m 0 g f m
  Grew-zero m g = record {
    valid = v;
    bytes = sym (append-nil (contents f m));
    frame = λ x out. refl;
  }

  -- `kfifo_in` stores as many of the bytes as there is room for, in order behind those stored, and
  -- returns their number, if the bytes do not lie in the buffer.
  pub put_all_lem :
      (m : Memory) (a n : ℕ)
      → Apart a n f.buf (f.mask + 1)
      → let k = min n (f.mask + 1 - len f) in
        ((put_all f m a n).0 ≡ k)
        × Grew f m k (λ j. m (a + j)) (put_all f m a n).1 (put_all f m a n).2
  put_all_lem m a n apart =
      let k : ℕ = min n (f.mask + 1 - len f) in
      elim (Bool-cases (min n (f.mask + 1 - len f) == 0)) [
        | inl nothing ↦
            let e : min n (f.mask + 1 - len f) ≡ 0 = (==_iff _ _).0 nothing in
            rw (put_all_eq m a n, nothing) (sym e, rw e (Grew-zero m (λ j. m (a + j))))
        | inr some_bytes ↦
            let near = Apart-min a n (f.mask + 1 - len f) f.buf (f.mask + 1) apart in
            rw (put_all_eq m a n, some_bytes)
              (
                refl,
                record {
                  valid = grow-IsValid v k (omega (arith, v.within));
                  bytes =
                      contents-grow v m (copy_in m a f.buf (f.head % (f.mask + 1)) (f.mask + 1) k) k
                        (λ j. m (a + j)) (omega (arith, v.within))
                        (cells m a k (omega (arith, v.within)) near);
                  frame =
                      copy_in_frame m a f.buf (f.head % (f.mask + 1)) (f.mask + 1) k (inside f.head)
                        (omega (arith, v.within)) near;
                },
              )
      ]

  get_all_eq :
      (m : Memory) (a n : ℕ)
      → let k = min n (len f) in
        get_all f m a n ≡ (
          if k == 0 then (0, f, m) else (
            k,
            record f { out = add32 f.out k },
            copy_out m a f.buf (f.out % (f.mask + 1)) (f.mask + 1) k,
          ))
  unfolding get_all
  get_all_eq m a n = rw (and_mask v f.out, sub32-size f.out)

  taken :
      (m : Memory) (a n : ℕ)
      → n ≤ len f
      → Apart a n f.buf (f.mask + 1)
      → (j : ℕ) → j < n
      → copy_out m a f.buf (f.out % (f.mask + 1)) (f.mask + 1) n (a + j) ≡ m (place f (f.out + j))
  taken m a n fits apart j lt = elim (dec_lt (f.out % (f.mask + 1) + j) (f.mask + 1)) [
    | yes low ↦ rw (mod_low f.out j (f.mask + 1) (omega arith) low) (
        copy_out_low m a f.buf (f.out % (f.mask + 1)) (f.mask + 1) n (inside f.out)
          (omega (arith, v.within)) apart j lt low)
    | no high ↦
        rw (mod_high f.out j (f.mask + 1) (omega arith) (omega (arith, v.within)) (omega arith)) (
          copy_out_high m a f.buf (f.out % (f.mask + 1)) (f.mask + 1) n (inside f.out)
            (omega (arith, v.within)) apart j lt (omega arith))
  ]

  -- `kfifo_out` takes as many bytes as are there, up to `n`: they leave the queue from its old end,
  -- stand in order at the target, and no other byte of the memory changes, if the target does not
  -- lie in the buffer.
  pub get_all_lem :
      (m : Memory) (a n : ℕ)
      → Apart a n f.buf (f.mask + 1)
      → let k = min n (len f) in
        let (got, f', m') = get_all f m a n in
        (got ≡ k)
        × IsValid f'
        × (contents f m ≡ tabulate k (λ j. m' (a + j)) ++ contents f' m)
        × ((x : ℕ) → in_range a k x ≡ false → m' x ≡ m x)
  get_all_lem m a n apart =
      let k : ℕ = min n (len f) in
      elim (Bool-cases (min n (len f) == 0)) [
        | inl nothing ↦
            let e : min n (len f) ≡ 0 = (==_iff _ _).0 nothing in
            rw (get_all_eq m a n, nothing) (sym e, v, rw e, λ x out. refl)
        | inr some_bytes ↦
            let near = Apart-min a n (len f) f.buf (f.mask + 1) apart in
            rw (get_all_eq m a n, some_bytes)
              (
                refl,
                shrink-IsValid v k (omega arith),
                contents-shrink v m k (omega arith)
                    ∙ ap (λ l. l ++ contents (record f { out = add32 f.out k }) m)
                        (sym (tabulate_ext k _ _ (taken m a k (omega arith) near))),
                copy_out_frame m a f.buf (f.out % (f.mask + 1)) (f.mask + 1) k (inside f.out)
                    (omega (arith, v.within)) near,
              )
      ]
