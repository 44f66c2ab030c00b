-- ===== src/Memory/Copy.antt =====
-- What `memcpy`, `memmove` and `memset` leave at each address.
use native.Mathlib.Decide.{dec_lt}
use nuvix.Prelude.{ℕ, zero, suc, ◌+◌, ◌-◌, ◌%◌, ◌≤◌, ◌≡◌, ◌⊎◌, inl, inr, arith, if◌then◌else◌}
use nuvix.Memory.{Memory, store, in_range, copy_up, copy_down, memcpy, memmove, memset}

up_apart : (d s n : ℕ) → (d ≤ s) ⊎ (s + suc n ≤ d) → (d + 1 ≤ s + 1) ⊎ (s + 1 + n ≤ d + 1)
up_apart d s n (inl h) = inl (omega arith)
up_apart d s n (inr h) = inr (omega arith)

copy_up_lem :
    (n : ℕ) (m : Memory) (d s : ℕ)
    → (d ≤ s) ⊎ (s + n ≤ d)
    → (x : ℕ) → copy_up m d s n x ≡ (if in_range d n x then m (s + (x - d)) else m x)
unfolding copy_up
copy_up_lem zero m d s apart x = ground arith
copy_up_lem (suc n) m d s apart x =
    ground (arith, copy_up_lem n (store m d (m s)) (d + 1) (s + 1) (up_apart d s n apart) x)

copy_down_lem :
    (n : ℕ) (m : Memory) (d s : ℕ)
    → s ≤ d
    → (x : ℕ) → copy_down m d s n x ≡ (if in_range d n x then m (s + (x - d)) else m x)
unfolding copy_down
copy_down_lem zero m d s h x = ground arith
copy_down_lem (suc n) m d s h x =
    ground (arith, copy_down_lem n (store m (d + n) (m (s + n))) d s h x)

-- `memcpy` between ranges of `n` bytes that do not overlap, or of which the source is the higher:
-- each byte of the target becomes the source's old byte, and no other byte changes.
pub memcpy_lem :
    (m : Memory) (d s n : ℕ)
    → (d ≤ s) ⊎ (s + n ≤ d)
    → (x : ℕ) → memcpy m d s n x ≡ (if in_range d n x then m (s + (x - d)) else m x)
unfolding memcpy
memcpy_lem m d s n apart x = copy_up_lem n m d s apart x

-- `memmove`: however the ranges overlap, each byte of the target becomes the source's old byte, and
-- no other byte changes.
pub memmove_lem :
    (m : Memory) (d s n x : ℕ)
    → memmove m d s n x ≡ (if in_range d n x then m (s + (x - d)) else m x)
unfolding memmove
memmove_lem m d s n x = elim (dec_lt d s) [
  | yes p ↦ ground (arith, copy_up_lem n m d s (inl (omega arith)) x)
  | no p ↦ ground (arith, copy_down_lem n m d s (omega arith) x)
]

-- `memset` writes the low byte of `c` at the `n` addresses from `d` on, and nowhere else.
pub memset_lem :
    (n : ℕ) (m : Memory) (d c x : ℕ) → memset m d c n x ≡ (if in_range d n x then c % 256 else m x)
unfolding memset
memset_lem zero m d c x = ground arith
memset_lem (suc n) m d c x = ground (arith, memset_lem n (store m d (c % 256)) (d + 1) c x)
