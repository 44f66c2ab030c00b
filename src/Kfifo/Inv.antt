-- ===== src/Kfifo/Inv.antt =====
-- The representation invariant of `struct kfifo`, which every operation keeps.
use Prim.Native.Nat.{bit_and}
use nuvix.Prelude.{ℕ, zero, suc, ◌+◌, ◌-◌, ◌%◌, ◌^◌, ◌≤◌, ◌<◌, ◌≡◌, sym, ap, ◌∙◌, arith}
use nuvix.Prelude.Pow.{pow_double, pow_mono, lt_of_pow_lt, pow_pos, mod-mod_pow}
use nuvix.Prelude.Bits.{bit_and_mask, pow_of_bit_and, bit_and_pow}
use native.Mathlib.Nat.{mod-add-mod}
use nuvix.Errno.{ok}
use nuvix.Kfifo.{Kfifo, init, size, len, add32}

-- The size is `2 ^ order`, the indices are words, and no more bytes are stored than fit.
pub record IsValid (f : Kfifo) : Type 0 where
  pub order : ℕ
  pub order_pos : 0 < order
  pub order_lt : order < 32
  pub mask : f.mask + 1 ≡ 2 ^ order
  pub head : f.head < 2 ^ 32
  pub out : f.out < 2 ^ 32
  pub within : len f ≤ f.mask + 1

-- A size is at most half of the index range, and the word `size` does not wrap.
pub order_bound : (k : ℕ) → k < 32 → 2 ^ k ≤ 2 ^ 31
order_bound k h = pow_mono k 31 (omega arith)

init-IsValid :
    (buffer n : ℕ) (f : Kfifo)
    → n < 2 ^ 32
    → init buffer n ≡ ok f
    → (k : ℕ) × (n ≡ 2 ^ suc k) × IsValid f × (len f ≡ 0) × (f.buf ≡ buffer)
unfolding init
init-IsValid buffer n f h e = shape power.0 power.1
  where
    two : 2 ≤ n
    two = ground arith

    and : bit_and n (n - 1) ≡ 0
    and = ground arith

    fields : f ≡ record { head = 0; out = 0; mask = n - 1; buf = buffer }
    fields = ground arith

    power : (k : ℕ) × (n ≡ 2 ^ k)
    power = pow_of_bit_and n (omega (arith, two)) and

    shape :
        (k : ℕ) → n ≡ 2 ^ k → (k : ℕ) × (n ≡ 2 ^ suc k) × IsValid f × (len f ≡ 0) × (f.buf ≡ buffer)
    shape zero p = absurd (omega (arith, two))
    shape (suc k) p = (
      k,
      p,
      record {
        order = suc k;
        order_pos = omega arith;
        order_lt = lt_of_pow_lt (suc k) 32 (omega arith);
        mask = rw fields (omega (arith, two));
        head = rw fields (omega arith);
        out = rw fields (omega arith);
        within = rw fields (omega arith);
      },
      rw fields,
      rw fields,
    )

-- `kfifo_init` takes exactly the powers of two from two on, and the queue that it gives is valid
-- and empty and stands on the buffer asked for.
pub init_iff :
    (buffer n : ℕ)
    → n < 2 ^ 32
    → ((f : Kfifo)
        → init buffer n ≡ ok f
        → (k : ℕ) × (n ≡ 2 ^ suc k) × IsValid f × (len f ≡ 0) × (f.buf ≡ buffer))
      × ((k : ℕ) → n ≡ 2 ^ suc k → (f : Kfifo) × (init buffer n ≡ ok f))
unfolding init
init_iff buffer n h = (
  λ f. init-IsValid buffer n f h,
  λ k e. (record { head = 0; out = 0; mask = n - 1; buf = buffer }, power k e),
)
  where
    power :
        (k : ℕ)
        → n ≡ 2 ^ suc k
        → init buffer n ≡ ok (record { head = 0; out = 0; mask = n - 1; buf = buffer })
    power k e =
        let z : bit_and n (n - 1) ≡ 0 = rw e (bit_and_pow (suc k)) in
        ground (arith, pow_double k, pow_pos k)

module _ {f : Kfifo} (v : IsValid f) where
  -- The word `kfifo_size` is the capacity itself.
  pub size-eq : size f ≡ f.mask + 1
  size-eq = omega (arith, order_bound v.order v.order_lt)

  -- `x & mask` is the remainder by the capacity.
  pub and_mask : (x : ℕ) → bit_and x f.mask ≡ x % (f.mask + 1)
  and_mask x =
      let e : f.mask ≡ 2 ^ v.order - 1 = omega arith in rw (v.mask, e) (bit_and_mask v.order x)

  -- The place of the `i`-th stored byte, and that of the next byte to come.
  pub wrap_mod : (x : ℕ) → x % 2 ^ 32 % (f.mask + 1) ≡ x % (f.mask + 1)
  wrap_mod x = rw v.mask (mod-mod_pow x v.order 32 (omega arith))

  -- A word that wrapped stands for the same places.
  pub word_mod : (x t : ℕ) → (x % 2 ^ 32 + t) % (f.mask + 1) ≡ (x + t) % (f.mask + 1)
  word_mod x t =
      sym (mod-add-mod (x % 2 ^ 32) (f.mask + 1) t)
      ∙ ap (λ r. (r + t) % (f.mask + 1)) (wrap_mod x)
      ∙ mod-add-mod x (f.mask + 1) t

  -- Counting from the head is counting from the oldest byte, behind those stored.
  pub head_mod : (t : ℕ) → (f.head + t) % (f.mask + 1) ≡ (f.out + len f + t) % (f.mask + 1)
  head_mod t =
      let e : f.head ≡ (f.out + len f) % 2 ^ 32 = omega arith in
      ap (λ r. (r + t) % (f.mask + 1)) e ∙ word_mod (f.out + len f) t

  pub grow-IsValid : (n : ℕ) → len f + n ≤ f.mask + 1 → IsValid (record f { head = add32 f.head n })
  grow-IsValid n h = record {
    order = v.order;
    order_pos = v.order_pos;
    order_lt = v.order_lt;
    mask = v.mask;
    head = omega arith;
    out = v.out;
    within = omega (arith, order_bound v.order v.order_lt);
  }

  pub shrink-IsValid : (n : ℕ) → n ≤ len f → IsValid (record f { out = add32 f.out n })
  shrink-IsValid n h = record {
    order = v.order;
    order_pos = v.order_pos;
    order_lt = v.order_lt;
    mask = v.mask;
    head = v.head;
    out = omega arith;
    within = omega (arith, v.within, order_bound v.order v.order_lt);
  }
