-- ===== src/Memblock/Early.antt =====
-- `early_alloc`: the range that it returns is aligned RAM that no reservation of either flag meets.
use mathlib.Core.Path.{subst}
use native.Mathlib.Nat.{div-add-mod}
use native.Mathlib.Decide.{dec_lt}
use nuvix.Prelude.{
  ℕ, ◌+◌, ◌-◌, ◌/◌, ◌%◌, ◌^◌, ◌≤◌, ◌<◌, max, ◌≡◌, refl, ◌⊎◌, inl, inr, Bool, true, false, ◌&&◌,
  ◌||◌, not, List, [], ◌∷◌, arith, ltb, leb, if◌then◌else◌, Bool-cases, All, All-map,
}
use nuvix.Prelude.Pow.{add64, pow_mono, pow_pos, mod_unique}
use nuvix.Prelude.Bits.{bit_and_high}
use nuvix.Errno.{Errno, ok_injective, ok, err, Result-cases}
use nuvix.Memblock.{
  Region, Memblock, page_size, region_end, same, align_up, place_at, find_gap, reserve, early_alloc,
}
use nuvix.Memblock.Ranges.{Before, IsOrdered, covers}
use nuvix.Memblock.Reserve.{IsValid, reserve-covers, reserve-IsValid}

-- `v` is the first multiple of `a` from `x` on.
abbrev pub IsAligned : ℕ → ℕ → ℕ → Type 0
IsAligned x a v = (v % a ≡ 0) × (x ≤ v) × (v < x + a)

-- ALIGN_UP rounds up to a power of two where the word does not wrap.
pub align_up_lem :
    (x k : ℕ) → k < 64 → x + (2 ^ k - 1) < 2 ^ 64 → IsAligned x (2 ^ k) (align_up x (2 ^ k))
unfolding align_up
align_up_lem x k lt fits =
    let y : ℕ = x + (2 ^ k - 1) in
    let word : add64 x (2 ^ k - 1) ≡ x + (2 ^ k - 1) = omega arith in
    let mask : 2 ^ 64 - 1 - (2 ^ k - 1) ≡ 2 ^ 64 - 2 ^ k = omega (arith, pow_pos k) in
    let high = bit_and_high 64 k (x + (2 ^ k - 1)) (omega arith) fits in
    let d = div-add-mod (x + (2 ^ k - 1)) (2 ^ k) in
    rw (word, mask, high)
      (
        mod_unique (x + (2 ^ k - 1) - (x + (2 ^ k - 1)) % 2 ^ k) (2 ^ k) ((x + (2 ^ k - 1)) / 2 ^ k)
            0 (omega arith) (pow_pos k),
        grind (arith, pow_pos k),
        omega (arith, pow_pos k),
      )

max_pow : (k : ℕ) → max (2 ^ k) page_size ≡ 2 ^ max k 12
max_pow k = elim (dec_lt k 12) [
  | yes p ↦ rw (let e : max k 12 ≡ 12 = omega arith in e) (omega (arith, pow_mono k 12))
  | no p ↦ rw (let e : max k 12 ≡ k = omega arith in e) (omega (arith, pow_mono 12 k))
]

-- A region that the range from `p` does not meet.
abbrev Misses : ℕ → ℕ → Region → Type 0
Misses size p r = (region_end r ≤ p) ⊎ (p + size ≤ r.base)

module _ (limit size k : ℕ) (small : k < 64) where
  -- An address that the tests at the head of the loop accept.
  record Placed (base p : ℕ) : Type 0 where
    aligned : p % 2 ^ k ≡ 0
    low : base ≤ p
    high : p + size ≤ limit

  place_at-Placed :
      (base p : ℕ) → place_at limit size (2 ^ k) base ≡ ok p → limit ≤ 2 ^ 64 → Placed base p
  unfolding place_at
  place_at-Placed base p e word =
      let fits : base + (2 ^ k - 1) < 2 ^ 64 = ground arith in
      let same_place : p ≡ align_up base (2 ^ k) = ground arith in
      let room : p + size ≤ limit = ground arith in
      let (mult, low, high) = align_up_lem base k small fits in
      record { aligned = rw same_place mult; low = rw same_place low; high = room }

  find_gap-Misses :
      (rs : List Region) (base p : ℕ)
      → limit < 2 ^ 64
      → IsOrdered rs
      → find_gap limit size (2 ^ k) rs base ≡ ok p
      → Placed base p × All (Misses size p) rs
  unfolding find_gap
  find_gap-Misses [] base p word ordered e = (place_at-Placed base p e (omega arith), tt)
  find_gap-Misses (r ∷ rs) base p word ordered e =
      elim (Result-cases (place_at limit size (2 ^ k) base)) [
        | inl (x, failed) ↦ absurd (no_gap x failed)
        | inr (b, placed) ↦
            let at = place_at-Placed base b placed (omega arith) in
            let e' = rw (placed, find_gap) at e in
            elim (Bool-cases (not (leb (region_end r) b) && leb (add64 b size) r.base)) [
              | inl here ↦
                  let q : b ≡ p = ok_injective b p (rw here at e') in
                  subst (λ t. Placed base t × All (Misses size t) (r ∷ rs)) q (found b at here)
              | inr on ↦
                  let next : ℕ = if leb (region_end r) b then b else region_end r in
                  let (there, rest) = find_gap-Misses rs next p word ordered.2 (rw on at e') in
                  passed b next at refl there rest
            ]
      ]
    where
      no_gap : (x : Errno) → place_at limit size (2 ^ k) base ≡ err x → ⊥
      no_gap x failed = let e' = rw (failed, find_gap) at e in cc

      found :
          (b : ℕ)
          → Placed base b
          → (not (leb (region_end r) b) && leb (add64 b size) r.base) ≡ true
          → Placed base b × All (Misses size b) (r ∷ rs)
      found b at here =
          let clear : b + size ≤ r.base = ground (arith, at.high) in
          (
            at,
            (
              inr clear,
              All-map (Before r) (Misses size b) rs (λ s bf. inr (omega arith)) ordered.1,
            ),
          )

      passed :
          (b next : ℕ)
          → Placed base b
          → next ≡ (if leb (region_end r) b then b else region_end r)
          → Placed next p
          → All (Misses size p) rs
          → Placed base p × All (Misses size p) (r ∷ rs)
      passed b next at q there rest = (
        record {
          aligned = there.aligned;
          low = ground (arith, at.low, there.low);
          high = there.high;
        },
        (inl (ground (arith, there.low)), rest),
      )

-- No address of the range is covered, if every region misses it.
not_covered :
    (size p x : ℕ) (g : Bool) (rs : List Region)
    → IsOrdered rs
    → All (Misses size p) rs
    → p ≤ x
    → x < p + size
    → covers rs g x ≡ false
not_covered size p x g [] ordered m lo hi = refl
not_covered size p x g (r ∷ rs) ordered m lo hi =
    let v = ordered.0 in ground (arith, not_covered size p x g rs ordered.2 m.1 lo hi, m.0)

-- The calls that an allocation that succeeds has made.
early_parts :
    (mb mb' : Memblock) (size align p : ℕ)
    → early_alloc mb size align ≡ ok (p, mb')
    → let n = align_up size page_size in
      (size + (page_size - 1) < 2 ^ 64)
      × (find_gap (region_end mb.memory) n (max align page_size) mb.reserved mb.memory.base ≡ ok p)
      × (reserve mb p n false ≡ ok mb')
unfolding early_alloc
early_parts mb mb' size align p e = (ground arith, ground arith, ground arith)

-- What `early_alloc` returns, for a size and an alignment of a power of two: an address in RAM,
-- aligned to both the alignment and a page, with the size rounded up to pages in RAM behind it; no
-- address of this range was reserved, with either flag; and in the new table these addresses are
-- reserved for mapping, and every other address is as before.
pub early_alloc_lem :
    (mb mb' : Memblock) (size k p : ℕ)
    → k < 64
    → IsValid mb
    → mb.memory.base + mb.memory.size < 2 ^ 64
    → size < 2 ^ 64
    → early_alloc mb size (2 ^ k) ≡ ok (p, mb')
    → let n = align_up size page_size in
      IsValid mb'
      × ((p % 2 ^ max k 12 ≡ 0) × (mb.memory.base ≤ p) × (p + n ≤ mb.memory.base + mb.memory.size))
      × IsAligned size page_size n
      × ((g : Bool) (x : ℕ) → p ≤ x → x < p + n → covers mb.reserved g x ≡ false)
      × ((g : Bool) (x : ℕ)
          → covers mb'.reserved g x
            ≡ (same false g && (leb p x && ltb x (p + n)) || covers mb.reserved g x))
early_alloc_lem mb mb' size k p small valid ram word e =
    let (room, gap, taken) = early_parts mb mb' size (2 ^ k) p e in
    let n : ℕ = align_up size page_size in
    let end : region_end mb.memory ≡ mb.memory.base + mb.memory.size = omega arith in
    let (placed, misses) =
      find_gap-Misses (region_end mb.memory) n (max k 12) (omega arith) mb.reserved mb.memory.base p
        (omega arith) valid.ordered (rw (max_pow k) at gap) in
    let high = placed.high in
    let below : p < 2 ^ 64 = omega arith in
    (
      (reserve-IsValid mb mb' p n false below valid taken).0,
      (placed.aligned, placed.low, omega arith),
      align_up_lem size 12 (omega arith) (omega arith),
      (λ g x lo hi. not_covered n p x g mb.reserved valid.ordered misses lo hi),
      reserve-covers mb mb' p n false below valid taken,
    )
