-- ===== src/Tick/Convert.antt =====
-- kernel/tick.c: the two directions of conversion round as the header says.
use mathlib.Core.Path.{subst}
use native.Mathlib.Nat.{
  mod-eq_of_lt, div-add-mod, mul-le-mul_right, mod-lt, lt_of_mul-lt-mul_right, div-le_self,
}
use nuvix.Prelude.{
  ℕ, ◌+◌, ◌-◌, ◌*◌, ◌^◌, ◌≤◌, ◌<◌, ◌≡◌, refl, arith, lt→ltb, ◌/◌, ◌%◌, leb, false, sym,
}
use nuvix.Errno.{Result, ok, err, eoverflow}
use nuvix.Prelude.Int.{pos}
use nuvix.Tick.{
  nsec_per_sec, checked, add_checked, fraction_up, to_signed, time_ticks_from_ns,
  time_ticks_from_timespec, to_unsigned, time_ns_from_ticks, time_timespec_from_ticks,
}

pub small_signed : (n : ℕ) → n < 2 ^ 63 → to_signed n ≡ pos n
unfolding to_signed
small_signed n h = rw (lt→ltb n (2 ^ 63) h) refl

-- The result is the exact number of ticks rounded up, or too large for 64 bits.
pub IsCeil : (frequency ns : ℕ) → Result ℕ → Type 0
IsCeil f ns (ok t) =
    (t < 2 ^ 64) × (ns * f ≤ t * nsec_per_sec) × (t * nsec_per_sec < ns * f + nsec_per_sec)
IsCeil f ns (err e) = (e ≡ eoverflow) × ((2 ^ 64 - 1) * nsec_per_sec < ns * f)

IsCeil-add_checked :
    (f s n : ℕ)
    → f < 2 ^ 32
    → n < nsec_per_sec
    → IsCeil f (s * nsec_per_sec + n) (add_checked (checked (s * f)) (fraction_up (n * f)))
unfolding fraction_up IsCeil
IsCeil-add_checked f s n hf hn =
    let e : (s * nsec_per_sec + n) * f ≡ s * f * nsec_per_sec + n * f = omega arith in
    ground (arith, e)

from_ns :
    (f ns : ℕ)
    → f < 2 ^ 32
    → ns < 2 ^ 64
    → time_ticks_from_ns f ns
      ≡ add_checked (checked (ns / nsec_per_sec * f)) (fraction_up (ns % nsec_per_sec * f))
unfolding time_ticks_from_ns time_ticks_from_timespec to_unsigned
from_ns f ns hf hn =
    let a : to_signed (ns / nsec_per_sec) ≡ pos (ns / nsec_per_sec) =
      small_signed (ns / nsec_per_sec) (omega arith) in
    let b : to_signed (ns % nsec_per_sec) ≡ pos (ns % nsec_per_sec) =
      small_signed (ns % nsec_per_sec) (omega arith) in
    let c : leb nsec_per_sec (ns % nsec_per_sec) ≡ false = ground arith in
    let d : ns / nsec_per_sec % 2 ^ 64 ≡ ns / nsec_per_sec = mod-eq_of_lt (omega arith) in
    let e : ns % nsec_per_sec % 2 ^ 64 ≡ ns % nsec_per_sec = mod-eq_of_lt (omega arith) in
    let g : ns % nsec_per_sec * f < 2 ^ 64 =
      omega (arith, mul-le-mul_right {m = ns % nsec_per_sec} {n = nsec_per_sec} f (omega arith)) in
    let h : (ns % nsec_per_sec * f) % 2 ^ 64 ≡ ns % nsec_per_sec * f = mod-eq_of_lt g in
    rw (a, b, c, d, e, h) refl

-- With a frequency that fits in 32 bits, a 64-bit duration in nanoseconds becomes the least count of
-- ticks that lasts as long, or, if that count does not fit in 64 bits, the error EOVERFLOW.
pub time_ticks_from_ns-IsCeil :
    (f ns : ℕ) → f < 2 ^ 32 → ns < 2 ^ 64 → IsCeil f ns (time_ticks_from_ns f ns)
time_ticks_from_ns-IsCeil f ns hf hn =
    let e : ns ≡ ns / nsec_per_sec * nsec_per_sec + ns % nsec_per_sec = omega arith in
    rw (from_ns f ns hf hn) (
      subst
        (λ m.
          IsCeil f m
            (add_checked (checked (ns / nsec_per_sec * f)) (fraction_up (ns % nsec_per_sec * f))))
        (sym e) (IsCeil-add_checked f (ns / nsec_per_sec) (ns % nsec_per_sec) hf (omega arith)))

-- The result is the exact time rounded down, or too large for 64 bits.
pub IsFloor : (frequency ticks : ℕ) → Result ℕ → Type 0
IsFloor f ticks (ok ns) =
    (ns < 2 ^ 64) × (ns * f ≤ ticks * nsec_per_sec) × (ticks * nsec_per_sec < ns * f + f)
IsFloor f ticks (err e) = (e ≡ eoverflow) × (2 ^ 64 * f ≤ ticks * nsec_per_sec)

IsFloor-add_checked :
    (f s r : ℕ)
    → 0 < f
    → r < f
    → IsFloor f (f * s + r) (add_checked (checked (s * nsec_per_sec)) (r * nsec_per_sec / f))
unfolding IsFloor
IsFloor-add_checked f s r hf hr =
    let q = r * nsec_per_sec / f in
    let a : f * q + r * nsec_per_sec % f ≡ r * nsec_per_sec = div-add-mod (r * nsec_per_sec) f in
    let b : r * nsec_per_sec % f < f = mod-lt (r * nsec_per_sec) hf in
    let e : (s * nsec_per_sec + q) * f ≡ s * f * nsec_per_sec + f * q = omega arith in
    let over : 2 ^ 64 ≤ s * nsec_per_sec + q → 2 ^ 64 * f ≤ (s * nsec_per_sec + q) * f =
      λ h. mul-le-mul_right f h in
    ground (arith, a, b, e, over)

from_ticks :
    (f ticks : ℕ)
    → 1000 ≤ f
    → f < 2 ^ 32
    → ticks < 2 ^ 64
    → time_ns_from_ticks f ticks
      ≡ add_checked (checked (ticks / f * nsec_per_sec)) (ticks % f * nsec_per_sec / f)
unfolding time_ns_from_ticks time_timespec_from_ticks to_unsigned
from_ticks f ticks lo hf ht =
    let s = ticks / f in
    let n = ticks % f * nsec_per_sec in
    let r : ticks % f < f = mod-lt ticks (omega (arith, lo)) in
    let whole : f * s + ticks % f ≡ ticks = div-add-mod ticks f in
    let sum : 1000 * s ≤ f * s = mul-le-mul_right s lo in
    let a : to_signed s ≡ pos s = small_signed s (omega (arith, whole, sum)) in
    let g : n % 2 ^ 64 ≡ n = mod-eq_of_lt (omega (arith, r)) in
    let b : to_signed (n / f) ≡ pos (n / f) =
      small_signed (n / f) (omega (arith, div-le_self n f, r)) in
    let c : s % 2 ^ 64 ≡ s = mod-eq_of_lt (omega (arith, whole, sum)) in
    let d : n / f % 2 ^ 64 ≡ n / f = mod-eq_of_lt (omega (arith, div-le_self n f, r)) in
    rw (g, a, b, c, d) refl

-- With a frequency of at least 1000 that fits in 32 bits, a 64-bit count of ticks becomes its exact
-- time in nanoseconds rounded down, or, if that does not fit in 64 bits, the error EOVERFLOW.
pub time_ns_from_ticks-IsFloor :
    (f ticks : ℕ)
    → 1000 ≤ f
    → f < 2 ^ 32
    → ticks < 2 ^ 64
    → IsFloor f ticks (time_ns_from_ticks f ticks)
time_ns_from_ticks-IsFloor f ticks lo hf ht = rw (from_ticks f ticks lo hf ht) (
    subst
      (λ m.
        IsFloor f m
          (add_checked (checked (ticks / f * nsec_per_sec)) (ticks % f * nsec_per_sec / f)))
      (div-add-mod ticks f)
      (IsFloor-add_checked f (ticks / f) (ticks % f) (omega arith) (mod-lt ticks (omega arith))))

-- With a frequency of at least 1000 that fits in 32 bits, a 64-bit duration in nanoseconds that is
-- turned into ticks and back, where neither conversion fails, has not become shorter.
pub ns-ticks_back :
    (f ns t back : ℕ)
    → 1000 ≤ f
    → f < 2 ^ 32
    → ns < 2 ^ 64
    → time_ticks_from_ns f ns ≡ ok t
    → time_ns_from_ticks f t ≡ ok back
    → ns ≤ back
unfolding IsCeil IsFloor
ns-ticks_back f ns t back lo hf hn et eb =
    let c : IsCeil f ns (ok t) =
      subst (λ r. IsCeil f ns r) et (time_ticks_from_ns-IsCeil f ns hf hn) in
    let g : IsFloor f t (ok back) =
      subst (λ r. IsFloor f t r) eb (time_ns_from_ticks-IsFloor f t lo hf (c.0)) in
    let lt : ns * f < (back + 1) * f = omega (arith, c.1, g.2) in
    omega (arith, lt_of_mul-lt-mul_right f lt)
