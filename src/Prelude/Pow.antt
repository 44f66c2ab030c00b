-- ===== src/Prelude/Pow.antt =====
-- Powers of two, and the wrapping arithmetic of `unsigned int` and `unsigned long`.
use Prim.Native.Nat.{ℕ, zero, suc, ◌+◌, ◌-◌, ◌*◌, ◌/◌, ◌%◌, ◌^◌, ◌≤◌, ◌<◌}
use mathlib.Core.Path.{◌≡◌, ◌∙◌, sym, ap}
use native.Mathlib.Omega.{arith}
use nuvix.Prelude.Tests.{ltb, if◌then◌else◌}
use native.Mathlib.Nat.{
  pow-suc, div-add-mod, add-mul-mod_self_left, mod-eq_of_lt, mod-lt, pow-le-pow_right,
}
use native.Mathlib.Decide.{dec_lt}

-- Unsigned arithmetic modulo `2 ^ 32` and `2 ^ 64`.
abbrev pub add32 : ℕ → ℕ → ℕ
add32 a b = (a + b) % 2 ^ 32

abbrev pub sub32 : ℕ → ℕ → ℕ
sub32 a b = (a + 2 ^ 32 - b) % 2 ^ 32

abbrev pub add64 : ℕ → ℕ → ℕ
add64 a b = (a + b) % 2 ^ 64

abbrev pub sub64 : ℕ → ℕ → ℕ
sub64 a b = (a + 2 ^ 64 - b) % 2 ^ 64

pub pow_double : (k : ℕ) → 2 ^ suc k ≡ 2 ^ k * 2
pow_double k = pow-suc 2 k

pub pow_pos : (k : ℕ) → 0 < 2 ^ k
pow_pos zero = omega arith
pow_pos (suc k) = omega (arith, pow_pos k, pow_double k)

pub pow_mono : (a b : ℕ) → a ≤ b → 2 ^ a ≤ 2 ^ b
pow_mono a b h = pow-le-pow_right (omega arith) h

pub lt_of_pow_lt : (a b : ℕ) → 2 ^ a < 2 ^ b → a < b
lt_of_pow_lt a b h = elim (dec_lt a b) [
  | yes p ↦ p
  | no p ↦ absurd (omega (arith, pow_mono b a (omega arith)))
]

-- A remainder is what is left after a multiple, if it is small.
pub mod_unique : (a m q r : ℕ) → a ≡ m * q + r → r < m → a % m ≡ r
mod_unique a m q r e h =
    let f : a ≡ r + m * q = omega arith in rw f (add-mul-mod_self_left r m q ∙ mod-eq_of_lt h)

pub mod-lt_pow : (a k : ℕ) → a % 2 ^ k < 2 ^ k
mod-lt_pow a k = grind (arith, pow_pos k)

-- One binary digit of a remainder: `a % 2 ^ (k + 1)` from that of `a / 2`.
pub mod-pow_suc : (a k : ℕ) → a % 2 ^ suc k ≡ (a / 2) % 2 ^ k * 2 + a % 2
mod-pow_suc a k = rw (pow_double k) (
    mod_unique a (2 ^ k * 2) (a / 2 / 2 ^ k) ((a / 2) % 2 ^ k * 2 + a % 2)
      (omega (arith, div-add-mod (a / 2) (2 ^ k))) (omega (arith, mod-lt_pow (a / 2) k)))

-- The word modulus is a multiple of every smaller power.
pub pow_split : (k d : ℕ) → 2 ^ (k + d) ≡ 2 ^ k * 2 ^ d
pow_split k zero = let e : k + 0 ≡ k = omega arith in rw e (omega arith)
pow_split k (suc d) =
    let e : k + suc d ≡ suc (k + d) = omega arith in
    rw e
      (omega (arith, pow_double (k + d), pow_split k d, ap (λ (t : ℕ). 2 ^ k * t) (pow_double d)))

-- Dropping a multiple of the outer modulus keeps the inner remainder.
pub mod-mod_pow : (a k n : ℕ) → k ≤ n → a % 2 ^ n % 2 ^ k ≡ a % 2 ^ k
mod-mod_pow a k n h =
    let e : k + (n - k) ≡ n = omega arith in
    let split : a ≡ a % 2 ^ n + 2 ^ k * (2 ^ (n - k) * (a / 2 ^ n)) = omega (
      arith,
      div-add-mod a (2 ^ n),
      ap (λ (t : ℕ). t * (a / 2 ^ n)) (rw e at (pow_split k (n - k))),
    ) in
    sym (
      ap (λ t. t % 2 ^ k) split
      ∙ add-mul-mod_self_left (a % 2 ^ n) (2 ^ k) (2 ^ (n - k) * (a / 2 ^ n)))

-- Adding at most a modulus to a remainder wraps at most once.
pub mod_low : (a j m : ℕ) → 0 < m → a % m + j < m → (a + j) % m ≡ a % m + j
mod_low a j m h low = mod_unique (a + j) m (a / m) (a % m + j) (omega (arith, div-add-mod a m)) low

pub mod_high : (a j m : ℕ) → 0 < m → j < m → m ≤ a % m + j → (a + j) % m ≡ a % m + j - m
mod_high a j m h lt high =
    mod_unique (a + j) m (a / m + 1) (a % m + j - m) (omega (arith, div-add-mod a m))
      (omega (arith, mod-lt a h))

pub mod_add_wrap :
    (a j m : ℕ)
    → 0 < m
    → j < m
    → (a + j) % m ≡ (if ltb (a % m + j) m then a % m + j else a % m + j - m)
mod_add_wrap a j m h lt = ground (arith, mod_low a j m h, mod_high a j m h lt)
