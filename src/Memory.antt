-- ===== src/Memory.antt =====
-- lib/string.c over a byte memory. An address is a number, and an object does not wrap round the
-- address space. The loops that run to a terminator take fuel and give `none` when it runs out.
pub mod Copy
pub mod Text
mod Tests
use nuvix.Prelude.{
  ℕ, zero, suc, ◌+◌, ◌-◌, ◌%◌, Bool, ◌&&◌, ◌||◌, not, Option, none, some, ltb, leb, ◌==◌,
  if◌then◌else◌,
}
use nuvix.Prelude.Int.{ℤ, pos, sub_ℕ}

abbrev pub Memory : Type 0
Memory = ℕ → ℕ

abbrev pub store : Memory → ℕ → ℕ → Memory
store m a v x = if x == a then v else m x

-- Is `x` one of the `n` addresses from `a` on?
abbrev pub in_range : ℕ → ℕ → ℕ → Bool
in_range a n x = leb a x && ltb x (a + n)

-- `while (n--) *d++ = *s++;`
pub copy_up : Memory → ℕ → ℕ → ℕ → Memory
copy_up m d s zero = m
copy_up m d s (suc n) = copy_up (store m d (m s)) (d + 1) (s + 1) n

unfoldable pub memcpy : Memory → (dst src n : ℕ) → Memory
unfolding copy_up
memcpy m d s n = copy_up m d s n

-- `while (n) { n--; d[n] = s[n]; }`
pub copy_down : Memory → ℕ → ℕ → ℕ → Memory
copy_down m d s zero = m
copy_down m d s (suc n) = copy_down (store m (d + n) (m (s + n))) d s n

unfoldable pub memmove : Memory → (dst src n : ℕ) → Memory
unfolding copy_up copy_down
memmove m d s n =
    if d == s || n == 0 then m else if ltb d s then copy_up m d s n else copy_down m d s n

-- A byte is `c` converted to `unsigned char`.
unfoldable pub memset : Memory → (dst c n : ℕ) → Memory
memset m d c zero = m
memset m d c (suc n) = memset (store m d (c % 256)) (d + 1) c n

unfoldable pub memcmp : Memory → (lhs rhs n : ℕ) → ℤ
memcmp m l r zero = pos 0
memcmp m l r (suc n) =
    let rest = memcmp m (l + 1) (r + 1) n in if m l == m r then rest else sub_ℕ (m l) (m r)

unfoldable pub memchr : Memory → (s c n : ℕ) → Option ℕ
memchr m s c zero = none
memchr m s c (suc n) = let rest = memchr m (s + 1) c n in if m s == c % 256 then some s else rest

-- The rounds left are `n - len`.
pub strnlen_from : Memory → ℕ → (rounds len : ℕ) → ℕ
strnlen_from m s zero len = len
strnlen_from m s (suc n) len =
    let rest = strnlen_from m s n (len + 1) in if m (s + len) == 0 then len else rest

unfoldable pub strnlen : Memory → (s n : ℕ) → ℕ
unfolding strnlen_from
strnlen m s n = strnlen_from m s n 0

pub strlen_from : ℕ → Memory → (start s : ℕ) → Option ℕ
strlen_from zero m start s = none
strlen_from (suc f) m start s =
    let rest = strlen_from f m start (s + 1) in if m s == 0 then some (s - start) else rest

unfoldable pub strlen : ℕ → Memory → ℕ → Option ℕ
unfolding strlen_from
strlen f m s = strlen_from f m s s

unfoldable pub strcmp : ℕ → Memory → (lhs rhs : ℕ) → Option ℤ
strcmp zero m l r = none
strcmp (suc f) m l r =
    let rest = strcmp f m (l + 1) (r + 1) in
    if not (m l == 0) && m l == m r then rest else some (sub_ℕ (m l) (m r))

unfoldable pub strcpy : ℕ → Memory → (dst src : ℕ) → Option Memory
strcpy zero m d s = none
strcpy (suc f) m d s =
    let m' = store m d (m s) in
    let rest = strcpy f m' (d + 1) (s + 1) in if m s == 0 then some m' else rest

-- The outer `none` is fuel that ran out, the inner one `NULL`.
unfoldable pub strchr : ℕ → Memory → (s c : ℕ) → Option (Option ℕ)
strchr zero m s c = none
strchr (suc f) m s c =
    let rest = strchr f m (s + 1) c in
    if m s == c % 256 then some (some s) else if m s == 0 then some none else rest

pub strrchr_from : ℕ → Memory → (s c : ℕ) → Option ℕ → Option (Option ℕ)
strrchr_from zero m s c last = none
strrchr_from (suc f) m s c last =
    let last' = if m s == c % 256 then some s else last in
    let rest = strrchr_from f m (s + 1) c last' in if m s == 0 then some last' else rest

unfoldable pub strrchr : ℕ → Memory → (s c : ℕ) → Option (Option ℕ)
unfolding strrchr_from
strrchr f m s c = strrchr_from f m s c none
