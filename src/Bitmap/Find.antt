-- ===== src/Bitmap/Find.antt =====
-- The search loops find the first bit of their kind from the start on.
use native.Mathlib.Decide.{dec_lt}
use nuvix.Prelude.{
  if◌then◌else◌, ℕ, zero, suc, ◌+◌, ◌-◌, ◌≤◌, ◌<◌, ◌≡◌, inl, inr, Bool, true, false, not, arith,
  Bool-cases, ◌&&◌, ◌==◌, ==_iff,
}
use nuvix.Bitmap.{
  Word, any_below, Bitmap, test_bit, find_from, find_next_bit, find_next_zero_bit, ==_iff,
}

-- `r` is the least index in `[start, nbits)` that passes the test, or `nbits` if none does.
pub record IsFirst (p : ℕ → Bool) (nbits start r : ℕ) : Type 0 where
  pub low : start ≤ r
  pub high : r ≤ nbits
  pub hit : r < nbits → p r ≡ true
  pub miss : (i : ℕ) → start ≤ i → i < r → p i ≡ false

find_from-IsFirst :
    (p : ℕ → Bool) (nbits n start : ℕ)
    → start + n ≡ nbits
    → IsFirst p nbits start (find_from p nbits n start)
unfolding find_from
find_from-IsFirst p nbits zero start e = record {
  low = omega arith;
  high = omega arith;
  hit = λ lt. absurd (omega arith);
  miss = λ i a b. absurd (omega arith);
}
find_from-IsFirst p nbits (suc n) start e = elim (Bool-cases (p start)) [
  | inl found ↦ rw found (record {
    low = omega arith;
    high = omega arith;
    hit = λ _. found;
    miss = λ i a b. absurd (omega arith);
  })
  | inr go ↦ rw go (extend go (find_from-IsFirst p nbits n (start + 1) (omega arith)))
]
  where
    extend : p start ≡ false → {r : ℕ} → IsFirst p nbits (start + 1) r → IsFirst p nbits start r
    extend go {r} f = record {
      low = omega (arith, f.low);
      high = f.high;
      hit = f.hit;
      miss = λ i a b. elim (dec_lt start i) [
        | yes lt ↦ f.miss i (omega arith) b
        | no here ↦ let e : i ≡ start = omega arith in rw e go
      ];
    }

-- `find_next_bit` returns the first set bit from `start` on, or `nbits` if there is none.
pub find_next_bit-IsFirst :
    (map : Bitmap) (nbits start : ℕ)
    → start ≤ nbits
    → IsFirst (λ i. test_bit i map) nbits start (find_next_bit map nbits start)
unfolding find_next_bit
find_next_bit-IsFirst map nbits start h =
    find_from-IsFirst _ nbits (nbits - start) start (omega arith)

-- `find_next_zero_bit` returns the first clear bit from `start` on, or `nbits` if there is none.
pub find_next_zero_bit-IsFirst :
    (map : Bitmap) (nbits start : ℕ)
    → start ≤ nbits
    → IsFirst (λ i. not (test_bit i map)) nbits start (find_next_zero_bit map nbits start)
unfolding find_next_zero_bit
find_next_zero_bit-IsFirst map nbits start h =
    find_from-IsFirst _ nbits (nbits - start) start (omega arith)

pub any_below_hit : (n : ℕ) (w : Word) → any_below n w ≡ true → (i : ℕ) × (i < n) × (w i ≡ true)
any_below_hit zero w h = absurd (ground (arith, h))
any_below_hit (suc n) w h = elim (Bool-cases (w n)) [
  | inl here ↦ (n, omega arith, here)
  | inr below ↦
      let (i, lt, hit) = any_below_hit n w (ground (arith, h, below)) in (i, omega (arith, lt), hit)
]

-- How many of the bits below `n` are set?
pub weight : ℕ → Word → ℕ
weight zero w = 0
weight (suc n) w = (if w n then 1 else 0) + weight n w

weight_drop_le : (n k : ℕ) (w : Word) → weight n (λ i. w i && not (i == k)) ≤ weight n w
unfolding weight
weight_drop_le zero k w = omega arith
weight_drop_le (suc n) k w = ground (arith, weight_drop_le n k w)

pub weight_drop :
    (n k : ℕ) (w : Word) → k < n → w k ≡ true → weight n (λ i. w i && not (i == k)) < weight n w
unfolding weight
weight_drop zero k w lt h = absurd (omega arith)
weight_drop (suc n) k w lt h = elim (Bool-cases (n == k)) [
  | inl here ↦
      let e : n ≡ k = (==_iff n k).0 here in rw (here, e, h) (ground (arith, weight_drop_le k k w))
  | inr other ↦ rw other (ground (arith, weight_drop n k w (ground (arith, lt, other)) h))
]

pub weight_le : (n : ℕ) (w : Word) → weight n w ≤ n
unfolding weight
weight_le zero w = omega arith
weight_le (suc n) w = ground (arith, weight_le n w)
