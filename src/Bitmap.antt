-- ===== src/Bitmap.antt =====
-- include/nuvix/bitmap.h. A word is the function that gives its bits, and a map is the function that
-- gives its words, so a single `unsigned long` passed by address is a map of which word 0 is used.
pub mod Find
mod Tests
use nuvix.Prelude.{
  ℕ, zero, suc, ◌+◌, ◌-◌, ◌*◌, ◌/◌, ◌%◌, ◌^◌, ◌≤◌, ◌<◌, min, max, ◌≡◌, refl, sym, ap, ◌∙◌, fun_ext,
  ◌≢◌, ◌↔◌, ◌⊎◌, inl, inr, Bool, true, false, ◌&&◌, ◌||◌, not, Option, none, some, List, [], ◌∷◌,
  ◌++◌, arith, ltb, leb, ◌==◌, if◌then◌else◌, ltb→lt, ltb-false, lt→ltb, leb→le, ==_iff, Bool-cases,
  Option-cases, length, get_elem?, get_or, set, take, drop, All, keep_if, length-append, length-set,
  length-take, get_or-set_self, get_or-set_ne,
}

abbrev pub bits_per_long : ℕ
bits_per_long = 64

abbrev pub Word : Type 0
Word = ℕ → Bool

abbrev pub Bitmap : Type 0
Bitmap = ℕ → Word

-- Is any of the bits below `n` set?
abbrev pub any_below : ℕ → Word → Bool
any_below zero w = false
any_below (suc n) w = w n || any_below n w

-- `!!w`
unfoldable pub nonzero : Word → Bool
nonzero w = any_below bits_per_long w

abbrev pub bit_word : ℕ → ℕ
bit_word nr = nr / bits_per_long

abbrev pub bit_mask : ℕ → Word
bit_mask nr i = i == nr % bits_per_long

unfoldable pub set_bit : ℕ → Bitmap → Bitmap
set_bit nr map w i = if w == bit_word nr then map w i || bit_mask nr i else map w i

unfoldable pub clear_bit : ℕ → Bitmap → Bitmap
clear_bit nr map w i = if w == bit_word nr then map w i && not (bit_mask nr i) else map w i

unfoldable pub test_bit : ℕ → Bitmap → Bool
test_bit nr map = nonzero (λ i. map (bit_word nr) i && bit_mask nr i)

-- `dst[i] = 0` for the words that hold the first `nbits` bits.
unfoldable pub bitmap_zero : Bitmap → ℕ → Bitmap
bitmap_zero map nbits w i =
    if ltb w (nbits / bits_per_long + (if nbits % bits_per_long == 0 then 0 else 1))
    then false
    else map w i

-- The loop over `start`, with the rounds left; `p` is the test that ends it.
pub find_from : (ℕ → Bool) → ℕ → (rounds start : ℕ) → ℕ
find_from p nbits zero start = nbits
find_from p nbits (suc n) start =
    let rest = find_from p nbits n (start + 1) in if p start then start else rest

unfoldable pub find_next_bit : Bitmap → ℕ → ℕ → ℕ
unfolding find_from
find_next_bit map nbits start = find_from (λ i. test_bit i map) nbits (nbits - start) start

unfoldable pub find_next_zero_bit : Bitmap → ℕ → ℕ → ℕ
unfolding find_from
find_next_zero_bit map nbits start =
    find_from (λ i. not (test_bit i map)) nbits (nbits - start) start

unfoldable pub find_first_bit : Bitmap → ℕ → ℕ
find_first_bit map nbits = find_next_bit map nbits 0

unfoldable pub find_first_zero_bit : Bitmap → ℕ → ℕ
find_first_zero_bit map nbits = find_next_zero_bit map nbits 0

-- The loop of `for_each_set_bit` from a bit on, over a state of which the map is a part; each round
-- moves on by at least one bit.
pub for_each_from {ℓ} : {S : Type ℓ} → (S → Bitmap) → ℕ → (ℕ → S → S) → (fuel bit : ℕ) → S → S
for_each_from map nbits body zero bit s = s
for_each_from map nbits body (suc n) bit s =
    let s' = body bit s in
    let rest = for_each_from map nbits body n (find_next_bit (map s') nbits (bit + 1)) s' in
    if ltb bit nbits then rest else s

unfoldable pub for_each_set_bit {ℓ} : {S : Type ℓ} → (S → Bitmap) → ℕ → (ℕ → S → S) → S → S
unfolding for_each_from
for_each_set_bit map nbits body s =
    for_each_from map nbits body (nbits + 1) (find_first_bit (map s) nbits) s

pub any_below_mask :
    (n k : ℕ) (w : Word) → any_below n (λ i. w i && i == k) ≡ (if ltb k n then w k else false)
any_below_mask zero k w = ground arith
any_below_mask (suc n) k w = ground (arith, any_below_mask n k w)

-- The word and the mask pick the bit out.
pub test_bit_lem : (nr : ℕ) (map : Bitmap) → test_bit nr map ≡ map (nr / 64) (nr % 64)
unfolding test_bit nonzero
test_bit_lem nr map = any_below_mask 64 (nr % 64) (map (nr / 64)) ∙ ground arith

pub test_bit-set_bit :
    (i j : ℕ) (map : Bitmap)
    → test_bit j (set_bit i map) ≡ (if i == j then true else test_bit j map)
unfolding set_bit
test_bit-set_bit i j map = rw (test_bit_lem j map, test_bit_lem j (set_bit i map)) (ground arith)

pub test_bit-clear_bit :
    (i j : ℕ) (map : Bitmap)
    → test_bit j (clear_bit i map) ≡ (if i == j then false else test_bit j map)
unfolding clear_bit
test_bit-clear_bit i j map =
    rw (test_bit_lem j map, test_bit_lem j (clear_bit i map)) (ground arith)
