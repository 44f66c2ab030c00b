-- ===== src/Tick.antt =====
-- kernel/tick.c: the conversions between counts of the hardware clock and times, and the periodic
-- event of a processor.
pub mod Convert
pub mod Period
mod Tests
use nuvix.Prelude.{
  ℕ, zero, suc, ◌+◌, ◌-◌, ◌*◌, ◌/◌, ◌%◌, ◌^◌, ◌≤◌, ◌<◌, min, max, ◌≡◌, refl, sym, ap, ◌∙◌, fun_ext,
  ◌≢◌, ◌↔◌, ◌⊎◌, inl, inr, Bool, true, false, ◌&&◌, ◌||◌, not, Option, none, some, List, [], ◌∷◌,
  ◌++◌, arith, ltb, leb, ◌==◌, if◌then◌else◌, ltb→lt, ltb-false, lt→ltb, leb→le, ==_iff, Bool-cases,
  Option-cases, length, get_elem?, get_or, set, take, drop, All, keep_if, length-append, length-set,
  length-take, get_or-set_self, get_or-set_ne,
}
use nuvix.Errno.{Result, ok, err, einval, eoverflow}
use nuvix.Prelude.Int.{ℤ, pos, negsuc}

abbrev pub msec_per_sec : ℕ
msec_per_sec = 1000

abbrev pub nsec_per_sec : ℕ
nsec_per_sec = 1000000000

-- The conversions between `uint64_t` and `int64_t`.
unfoldable pub to_signed : ℕ → ℤ
to_signed n = if ltb n (2 ^ 63) then pos n else negsuc (2 ^ 64 - 1 - n)

unfoldable pub to_unsigned : ℤ → ℕ
to_unsigned (pos n) = n % 2 ^ 64
to_unsigned (negsuc n) = (2 ^ 64 - 1 - n) % 2 ^ 64

abbrev pub is_negative : ℤ → Bool
is_negative (pos n) = false
is_negative (negsuc n) = true

abbrev pub at_least : ℤ → ℕ → Bool
at_least (pos n) bound = leb bound n
at_least (negsuc n) bound = false

-- `__builtin_mul_overflow` and `__builtin_add_overflow` at `uint64_t`.
abbrev pub checked : ℕ → Result ℕ
checked n = if ltb n (2 ^ 64) then ok n else err eoverflow

pub record Timespec : Type 0 where
  pub tv_sec : ℤ
  pub tv_nsec : ℤ

pub record Clock : Type 0 where
  pub timebase_frequency : ℕ
  pub tick_period : ℕ

-- The argument is what `dtb_get_u32` gives.
unfoldable pub tick_init : Result ℕ → Clock → Result (Unit {0}) × Clock
tick_init (err e) c = (err e, c)
tick_init (ok f) c =
    let c' : Clock = record c { timebase_frequency = f } in
    if ltb f msec_per_sec
    then (err einval, c')
    else (ok tt, record c' { tick_period = f / msec_per_sec })

unfoldable pub time_ticks_from_ms : (frequency ms : ℕ) → ℕ
time_ticks_from_ms f ms = (f * ms) % 2 ^ 64 / msec_per_sec

unfoldable pub time_timespec_from_ticks : (frequency ticks : ℕ) → Timespec
unfolding to_signed
time_timespec_from_ticks f ticks = record {
  tv_sec = to_signed (ticks / f);
  tv_nsec = to_signed ((ticks % f * nsec_per_sec) % 2 ^ 64 / f);
}

abbrev pub add_checked : Result ℕ → ℕ → Result ℕ
add_checked (err e) n = err e
add_checked (ok m) n = checked (m + n)

unfoldable pub time_ns_from_ticks : (frequency ticks : ℕ) → Result ℕ
unfolding time_timespec_from_ticks to_unsigned
time_ns_from_ticks f ticks =
    let ts = time_timespec_from_ticks f ticks in
    add_checked (checked (to_unsigned ts.tv_sec * nsec_per_sec)) (to_unsigned ts.tv_nsec)

-- The ticks of a fraction of a second, rounded up.
unfoldable pub fraction_up : (fraction : ℕ) → ℕ
fraction_up n = n / nsec_per_sec + (if n % nsec_per_sec == 0 then 0 else 1)

unfoldable pub time_ticks_from_timespec : (frequency : ℕ) → Timespec → Result ℕ
unfolding to_unsigned fraction_up
time_ticks_from_timespec f ts =
    if is_negative ts.tv_sec || is_negative ts.tv_nsec || at_least ts.tv_nsec nsec_per_sec
    then err einval
    else add_checked (checked (to_unsigned ts.tv_sec * f))
        (fraction_up ((to_unsigned ts.tv_nsec * f) % 2 ^ 64))

unfoldable pub time_ticks_from_ns : (frequency ns : ℕ) → Result ℕ
unfolding time_ticks_from_timespec to_signed
time_ticks_from_ns f ns =
    time_ticks_from_timespec f
      record { tv_sec = to_signed (ns / nsec_per_sec); tv_nsec = to_signed (ns % nsec_per_sec) }

unfoldable pub time_deadline_from_ns : (frequency now ns : ℕ) → Result ℕ
unfolding time_ticks_from_ns
time_deadline_from_ns f now ns = add_checked (time_ticks_from_ns f ns) now

abbrev pub tick_cpu_init : (period now : ℕ) → ℕ
tick_cpu_init period now = (now + period) % 2 ^ 64

-- The next event that `tick_handle` plans at time `now`.
unfoldable pub tick_handle : (period now next_tick : ℕ) → ℕ
tick_handle period now next_tick =
    if leb next_tick now
    then (next_tick + ((now - next_tick) / period + 1) * period) % 2 ^ 64
    else next_tick
