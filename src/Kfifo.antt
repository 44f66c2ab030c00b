-- ===== src/Kfifo.antt =====
-- include/nuvix/kfifo.h: a byte queue of a power of two of bytes with free-running indices. The
-- indices are `unsigned int`, so they wrap at 2 ^ 32. One thread calls at a time here; the
-- acquire and release order of the fields is not modelled.
pub mod Inv
pub mod Refine
pub mod Bulk
mod Tests
use Prim.Native.Nat.{bit_and}
use nuvix.Prelude.{
  ℕ, ◌+◌, ◌-◌, Bool, true, false, ◌&&◌, ◌||◌, not, Option, none, some, ltb, ◌==◌, if◌then◌else◌,
  min,
}
use nuvix.Prelude.Pow.{add32, sub32}
use nuvix.Errno.{Result, ok, err, einval}
use nuvix.Memory.{Memory, store, memcpy}

-- `struct kfifo`: `head` is the field `in`, a reserved word, and `data` is an address.
pub record Kfifo : Type 0 where
  pub head : ℕ
  pub out : ℕ
  pub mask : ℕ
  pub buf : ℕ

-- IS_POWER_OF_2(x)
abbrev pub is_power_of_2 : ℕ → Bool
is_power_of_2 x = not (x == 0) && bit_and x (x - 1) == 0

pub init : (buffer size : ℕ) → Result Kfifo
init buffer size =
    if ltb size 2 || not (is_power_of_2 size)
    then err einval
    else ok (record { head = 0; out = 0; mask = size - 1; buf = buffer })

pub reset : Kfifo → Kfifo
reset f = record f { head = 0; out = 0 }

abbrev pub size : Kfifo → ℕ
size f = add32 f.mask 1

abbrev pub len : Kfifo → ℕ
len f = sub32 f.head f.out

abbrev pub avail : Kfifo → ℕ
avail f = sub32 (size f) (len f)

pub is_empty : Kfifo → Bool
is_empty f = len f == 0

pub is_full : Kfifo → Bool
is_full f = len f == size f

-- The value is a byte; the result says whether it was stored.
pub put : Kfifo → Memory → ℕ → Bool × Kfifo × Memory
put f m value =
    if sub32 f.head f.out == size f
    then (false, f, m)
    else (true, record f { head = add32 f.head 1 }, store m (f.buf + bit_and f.head f.mask) value)

-- The option is what goes through `value`.
pub get : Kfifo → Memory → Option ℕ × Kfifo
get f m =
    if f.head == f.out
    then (none, f)
    else (some (m (f.buf + bit_and f.out f.mask)), record f { out = add32 f.out 1 })

-- The bytes come from the address `src`.
pub put_all : Kfifo → Memory → (src n : ℕ) → ℕ × Kfifo × Memory
put_all f m src n =
    let offset = bit_and f.head f.mask in
    let n = min n (sub32 (size f) (sub32 f.head f.out)) in
    let first = min n (sub32 (size f) offset) in
    if n == 0 then (0, f, m) else (
      n,
      record f { head = add32 f.head n },
      memcpy (memcpy m (f.buf + offset) src first) f.buf (src + first) (n - first),
    )

-- The bytes go to the address `dst`.
pub get_all : Kfifo → Memory → (dst n : ℕ) → ℕ × Kfifo × Memory
get_all f m dst n =
    let offset = bit_and f.out f.mask in
    let n = min n (sub32 f.head f.out) in
    let first = min n (sub32 (size f) offset) in
    if n == 0 then (0, f, m) else (
      n,
      record f { out = add32 f.out n },
      memcpy (memcpy m dst (f.buf + offset) first) (dst + first) f.buf (n - first),
    )
