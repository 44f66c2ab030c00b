-- ===== src/Prelude/Bits.antt =====
-- The masks that the kernel computes with: `x & (size - 1)` and `x & ~(size - 1)` for a power of two.
use Prim.Native.Nat.{
  ℕ, zero, suc, ◌+◌, ◌-◌, ◌*◌, ◌/◌, ◌%◌, ◌^◌, ◌≤◌, ◌<◌, min, bit_and, digits, bit_and-bitwise,
}
use mathlib.Core.Path.{◌≡◌, refl, sym, ap, ◌∙◌}
use native.Mathlib.Omega.{arith}
use native.Mathlib.Decide.{ℕ_discrete}
use native.Mathlib.Nat.{div-add-mod, mod-eq_of_lt}
use nuvix.Prelude.Pow.{pow_double, pow_pos, mod-pow_suc, mod_unique}

-- The conjunction of two numbers, digit by digit, in a number of rounds.
abbrev conj_in : (rounds : ℕ) → ℕ → ℕ → ℕ
conj_in rounds x y = digits (λ _. 0) min rounds x y

conj_in-zero : (r y : ℕ) → conj_in r 0 y ≡ 0
conj_in-zero zero y = refl
conj_in-zero (suc r) y = refl

-- A round more than the first number has bits changes nothing.
conj_in-suc : (r x y : ℕ) → x ≤ r → conj_in (suc r) x y ≡ conj_in r x y
conj_in-suc r zero y le = sym (conj_in-zero r y)
conj_in-suc zero (suc x) y le = absurd (omega arith)
conj_in-suc (suc r) (suc x) y le =
    ap (λ rest. rest * 2 + min (suc x % 2) (y % 2))
      (conj_in-suc r (suc x / 2) (y / 2) (omega arith))

conj_in-add : (extra x y : ℕ) → conj_in (extra + x) x y ≡ conj_in x x y
conj_in-add zero x y = ap (λ r. conj_in r x y) (omega arith)
conj_in-add (suc extra) x y =
    let more : suc extra + x ≡ suc (extra + x) = omega arith in
    ap (λ r. conj_in r x y) more ∙ conj_in-suc (extra + x) x y (omega arith) ∙ conj_in-add extra x y

conj_in-none : (r x : ℕ) → conj_in r x 0 ≡ 0
conj_in-none r zero = conj_in-zero r 0
conj_in-none zero (suc x) = refl
conj_in-none (suc r) (suc x) = omega (arith, conj_in-none r (suc x / 2))

-- The low digit splits off.
pub bit_and_halves : (x y : ℕ) → bit_and x y ≡ bit_and (x / 2) (y / 2) * 2 + min (x % 2) (y % 2)
bit_and_halves zero y = rw (bit_and-bitwise 0 y, bit_and-bitwise 0 (y / 2)) (omega arith)
bit_and_halves (suc x) y =
    let half : ℕ = suc x / 2 in
    let spare : x - half + half ≡ x = omega arith in
    let same : conj_in x half (y / 2) ≡ conj_in half half (y / 2) =
      sym (ap (λ r. conj_in r half (y / 2)) spare) ∙ conj_in-add (x - half) half (y / 2) in
    omega (arith, bit_and-bitwise (suc x) y, bit_and-bitwise half (y / 2), same)

pub bit_and_none : (x : ℕ) → bit_and x 0 ≡ 0
bit_and_none x = bit_and-bitwise x 0 ∙ conj_in-none x x

half_mask : (k : ℕ) → (2 ^ suc k - 1) / 2 ≡ 2 ^ k - 1
half_mask k = omega (arith, pow_double k, pow_pos k)

-- A mask of `k` ones takes the remainder by `2 ^ k`.
pub bit_and_mask : (k a : ℕ) → bit_and a (2 ^ k - 1) ≡ a % 2 ^ k
bit_and_mask zero a = omega (arith, bit_and_none a)
bit_and_mask (suc k) a =
    rw (bit_and_halves a (2 ^ suc k - 1), half_mask k, bit_and_mask k (a / 2), mod-pow_suc a k)
      (omega (arith, pow_double k, pow_pos k))

conj_in_self : (r x : ℕ) → x ≤ r → conj_in r x x ≡ x
conj_in_self r zero le = conj_in-none r zero
conj_in_self zero (suc x) le = absurd (omega arith)
conj_in_self (suc r) (suc x) le = omega (arith, conj_in_self r (suc x / 2) (omega arith))

pub bit_and_self : (x : ℕ) → bit_and x x ≡ x
bit_and_self x = bit_and-bitwise x x ∙ conj_in_self x x (omega arith)

-- `x & (x - 1)` is zero only at a power of two.
pow_of_bit_and_fuel : (n x : ℕ) → x ≤ n → 0 < x → bit_and x (x - 1) ≡ 0 → (k : ℕ) × (x ≡ 2 ^ k)
pow_of_bit_and_fuel zero x h p e = absurd (omega arith)
pow_of_bit_and_fuel (suc n) x h p e = elim (ℕ_discrete (x % 2) 0) [
  | yes even ↦
      let f : (x - 1) / 2 ≡ x / 2 - 1 = omega arith in
      let step = rw f at (bit_and_halves x (x - 1)) in
      let (k, g) = pow_of_bit_and_fuel n (x / 2) (omega arith) (omega arith) (omega arith) in
      (suc k, omega (arith, pow_double k))
  | no odd ↦
      let f : (x - 1) / 2 ≡ x / 2 = omega arith in
      let step = rw f at (bit_and_halves x (x - 1)) in (0, omega (arith, bit_and_self (x / 2)))
]

pub pow_of_bit_and : (x : ℕ) → 0 < x → bit_and x (x - 1) ≡ 0 → (k : ℕ) × (x ≡ 2 ^ k)
pow_of_bit_and x = pow_of_bit_and_fuel x x (omega arith)

pub bit_and_pow : (k : ℕ) → bit_and (2 ^ k) (2 ^ k - 1) ≡ 0
bit_and_pow k =
    rw (bit_and_mask k (2 ^ k)) (mod_unique (2 ^ k) (2 ^ k) 1 0 (omega arith) (pow_pos k))

-- `x & ~(2 ^ k - 1)` in a word of `n` bits drops the remainder.
pub bit_and_high : (n k a : ℕ) → k ≤ n → a < 2 ^ n → bit_and a (2 ^ n - 2 ^ k) ≡ a - a % 2 ^ k
bit_and_high n zero a h lt = rw (bit_and_mask n a) (omega (arith, mod-eq_of_lt lt))
bit_and_high zero (suc k) a h lt = absurd (omega arith)
bit_and_high (suc n) (suc k) a h lt =
    let f : (2 ^ suc n - 2 ^ suc k) / 2 ≡ 2 ^ n - 2 ^ k =
      omega (arith, pow_double n, pow_double k) in
    let step = rw f at (bit_and_halves a (2 ^ suc n - 2 ^ suc k)) in
    omega (
      arith,
      bit_and_high n k (a / 2) (omega arith) (omega (arith, pow_double n)),
      mod-pow_suc a k,
      pow_double n,
      pow_double k,
      div-add-mod (a / 2) (2 ^ k),
    )
