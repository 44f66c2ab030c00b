-- ===== src/Buddy/Order.antt =====
-- The order that `release_range` picks for a block.
use nuvix.Prelude.{
  ℕ, zero, suc, ◌-◌, ◌%◌, ◌^◌, ◌≤◌, ◌<◌, ◌≡◌, inl, inr, ◌||◌, not, arith, ltb, ◌==◌, ==_iff,
  Bool-cases,
}
use Prim.Native.Nat.{bit_and}
use nuvix.Prelude.Bits.{bit_and_mask}
use nuvix.Buddy.{fitting_order}

-- A block of the order is aligned at `start` and fits below `end`.
abbrev pub Fits : (start end order : ℕ) → Type 0
Fits start end order = (start % 2 ^ order ≡ 0) × (2 ^ order ≤ end - start)

-- In a range that is not empty, `release_range` picks an order up to the largest one whose block is
-- aligned and fits into the range, and no larger order up to there does.
pub fitting_order_lem :
    (k start end : ℕ)
    → start < end
    → (fitting_order k start end ≤ k)
      × Fits start end (fitting_order k start end)
      × ((j : ℕ) → fitting_order k start end < j → j ≤ k → Fits start end j → ⊥)
unfolding fitting_order
fitting_order_lem zero start end h =
    (omega arith, (omega arith, omega arith), λ j a b. absurd (omega arith))
fitting_order_lem (suc k) start end h =
    elim (Bool-cases (not (bit_and start (2 ^ suc k - 1) == 0) || ltb (end - start) (2 ^ suc k))) [
      | inl lower ↦
          let (le, fits, most) = fitting_order_lem k start end h in
          rw lower (
            omega (arith, le),
            fits,
            λ j a b f. elim (Bool-cases (j == suc k)) [
              | inl top ↦
                  let e : j ≡ suc k = (==_iff j (suc k)).0 top in
                  ground (arith, rw e at f, lower, bit_and_mask (suc k) start)
              | inr other ↦ most j a (ground (arith, b, other)) f
            ],
          )
      | inr top ↦ rw top (
        omega arith,
        (ground (arith, top, bit_and_mask (suc k) start), ground (arith, top)),
        λ j a b. absurd (omega arith),
      )
    ]
