-- ===== src/Ext2/Path.antt =====
-- fs/ext2/bmap.c: the path determines the block, and its offsets are in range.
use mathlib.Core.Path.{subst}
use native.Mathlib.Nat.{
  mod-eq_of_lt, mul-le-mul, mod-lt, div-add-mod, div-div-eq-div-mul, div-lt_iff_lt-mul, mul-pos,
}
use nuvix.Prelude.{
  ℕ, ◌+◌, ◌-◌, ◌*◌, ◌/◌, ◌%◌, ◌^◌, ◌≤◌, ◌<◌, ◌≡◌, refl, sym, ap, inl, inr, List, [], ◌∷◌, arith,
  ltb, leb, ltb→lt, ltb-false, leb→le, Bool-cases,
}
use nuvix.Errno.{Result, ok, err, efbig}
use nuvix.Ext2.{block_to_path, dind_path, tind_path, square, cube, ndir_blocks}

-- The block at a path, in the order of the blocks of a file.
unfoldable pub block_at : (ptrs : ℕ) → List ℕ → ℕ
block_at p (a ∷ []) = a
block_at p (a ∷ i ∷ []) = 12 + i
block_at p (a ∷ i ∷ j ∷ []) = 12 + p + (i * p + j)
block_at p (a ∷ i ∷ j ∷ k ∷ []) = 12 + p + p * p + ((i * p + j) * p + k)
block_at p is = 0

-- A path of the four kinds with its offsets in range.
unfoldable pub InRange : (ptrs : ℕ) → List ℕ → Type 0
InRange p (a ∷ []) = a < 12
InRange p (a ∷ i ∷ []) = (a ≡ 12) × (i < p)
InRange p (a ∷ i ∷ j ∷ []) = (a ≡ 13) × (i < p) × (j < p)
InRange p (a ∷ i ∷ j ∷ k ∷ []) = (a ≡ 14) × (i < p) × (j < p) × (k < p)
InRange p is = ⊥

-- The result of `ext2_block_to_path`.
unfoldable pub IsPath : (ptrs lbn : ℕ) → Result (List ℕ) → Type 0
unfolding block_at InRange
IsPath p lbn (ok is) = (block_at p is ≡ lbn) × InRange p is
IsPath p lbn (err e) = (e ≡ efbig) × (12 + p + p * p + p * p * p ≤ lbn)

square-exact : (p : ℕ) → p ≤ 2 ^ 16 → square p ≡ p * p
square-exact p h =
    mod-eq_of_lt (omega (arith, mul-le-mul {n₁ = p} {m₁ = p} {n₂ = 2 ^ 16} {m₂ = 2 ^ 16} h h))

cube-exact : (p : ℕ) → p ≤ 2 ^ 16 → cube p ≡ p * p * p
cube-exact p h =
    let sq : p * p ≤ 2 ^ 16 * 2 ^ 16 =
      mul-le-mul {n₁ = p} {m₁ = p} {n₂ = 2 ^ 16} {m₂ = 2 ^ 16} h h in
    rw (square-exact p h) (
      mod-eq_of_lt
        (omega (arith, mul-le-mul {n₁ = p * p} {m₁ = p} {n₂ = 2 ^ 16 * 2 ^ 16} {m₂ = 2 ^ 16} sq h)))

tind-IsPath : (p n : ℕ) → 0 < p → p ≤ 2 ^ 16 → IsPath p (12 + p + p * p + n) (tind_path p n)
unfolding tind_path IsPath
tind-IsPath p n lo hi = elim (Bool-cases (leb (cube p) n)) [
  | inl h ↦
      let big : p * p * p ≤ n = subst (λ t. t ≤ n) (cube-exact p hi) (leb→le (cube p) n h) in
      rw h (refl, omega (arith, big))
  | inr h ↦
      let small : n < p * p * p = subst (λ t. n < t) (cube-exact p hi) (ground (arith, h)) in
      let low : n % p < p = mod-lt n lo in
      let mid : n / p % p < p = mod-lt (n / p) lo in
      let whole : p * (n / p) + n % p ≡ n = div-add-mod n p in
      let upper : p * (n / p / p) + n / p % p ≡ n / p = div-add-mod (n / p) p in
      let top : n / (p * p) ≡ n / p / p = sym (div-div-eq-div-mul n p p) in
      let pp : 0 < p * p = mul-pos lo lo in
      let high : n / (p * p) < p =
        (div-lt_iff_lt-mul {k = p * p} {x = n} {y = p} pp).1 (omega (arith, small)) in
      rw (h, square-exact p hi)
        (
          ap (λ (t : ℕ). 12 + p + p * p + t)
              (omega (
                arith,
                whole,
                top,
                ap (λ (t : ℕ). t * p) upper,
                ap (λ (t : ℕ). t * p) top,
                ap (λ (t : ℕ). t * p * p) top,
              )),
          (refl, high, mid, low),
        )
]

dind-IsPath : (p n : ℕ) → 0 < p → p ≤ 2 ^ 16 → IsPath p (12 + p + n) (dind_path p n)
unfolding dind_path IsPath
dind-IsPath p n lo hi = elim (Bool-cases (ltb n (square p))) [
  | inl h ↦
      let small : n < p * p = subst (λ t. n < t) (square-exact p hi) (ltb→lt n (square p) h) in
      let whole : p * (n / p) + n % p ≡ n = div-add-mod n p in
      let high : n / p < p = (div-lt_iff_lt-mul {k = p} {x = n} {y = p} lo).1 small in
      rw h (omega (arith, whole), (refl, high, mod-lt n lo))
  | inr h ↦
      let large : p * p ≤ n = subst (λ t. t ≤ n) (square-exact p hi) (ltb-false n (square p) h) in
      let rest : 12 + p + p * p + (n - square p) ≡ 12 + p + n =
        rw (square-exact p hi) (omega (arith, large)) in
      rw h (
        subst (λ m. IsPath p m (tind_path p (n - square p))) rest
          (tind-IsPath p (n - square p) lo hi))
]

-- With a positive number of pointers that is at most 2^16, the path of a block has its offsets in
-- range, those of the pointer blocks below that number, and the block is the one at the path; the
-- call fails with EFBIG only from the first block on that no path reaches.
pub block_to_path-IsPath : (p lbn : ℕ) → 0 < p → p ≤ 2 ^ 16 → IsPath p lbn (block_to_path p lbn)
unfolding block_to_path IsPath
block_to_path-IsPath p lbn lo hi = elim (Bool-cases (ltb lbn ndir_blocks)) [
  | inl h ↦ rw h (refl, ltb→lt lbn ndir_blocks h)
  | inr h ↦ elim (Bool-cases (ltb (lbn - ndir_blocks) p)) [
    | inl k ↦ rw (h, k) (ground (arith, h), (refl, ltb→lt (lbn - ndir_blocks) p k))
    | inr k ↦
        let rest : 12 + p + (lbn - ndir_blocks - p) ≡ lbn = ground (arith, h, k) in
        rw (h, k)
          (subst (λ m. IsPath p m (dind_path p (lbn - ndir_blocks - p))) rest
            (dind-IsPath p (lbn - ndir_blocks - p) lo hi))
  ]
]
