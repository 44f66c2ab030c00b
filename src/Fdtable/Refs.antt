-- ===== src/Fdtable/Refs.antt =====
-- Reference counts: include/nuvix/refcount.h with its debug checks off, and `fget` and `fput` of
-- fs/vfs/file.c.
use nuvix.Prelude.{
  ℕ, ◌+◌, ◌-◌, ◌^◌, Bool, true, false, ◌||◌, Option, none, some, List, ◌∷◌, ◌==◌, if◌then◌else◌,
}
use nuvix.Errno.{Result, ok}

abbrev pub File : Type 0
File = ℕ

-- REFCOUNT_MAX
abbrev pub refcount_max : ℕ
refcount_max = 2 ^ 31 - 1

-- A count is in `[0, REFCOUNT_MAX]`, so `old < 0` does not arise.
unfoldable pub inc_not_zero : ℕ → Bool × ℕ
inc_not_zero c = if c == 0 || c == refcount_max then (false, c) else (true, c + 1)

unfoldable pub dec_and_test : ℕ → Bool × ℕ
dec_and_test c = if c == 0 then (false, c) else if c == 1 then (true, 0) else (false, c - 1)

-- `refcount_dec` leaves a count of one, which only `refcount_dec_and_test` may take away.
unfoldable pub dec : ℕ → ℕ
dec c = if c == 0 || c == 1 then c else c - 1

-- The counts of all files, the files destroyed so far, the last one first, and what the `release`
-- operation of a file returns.
pub record Files : Type 0 where
  pub count : File → ℕ
  pub freed : List File
  pub released : File → Result (Unit {0})

abbrev pub update : (File → ℕ) → File → ℕ → File → ℕ
update c f n g = if f == g then n else c g

unfoldable pub fget : Option File → Files → Option File × Files
fget none k = (none, k)
fget (some f) k = (some f, record k { count = update k.count f (inc_not_zero (k.count f)).1 })

-- The last reference runs `release` and frees the file.
unfoldable pub fput : Option File → Files → Result (Unit {0}) × Files
fput none k = (ok tt, k)
fput (some f) k =
    let (last, n) = dec_and_test (k.count f) in
    let k' = record k { count = update k.count f n } in
    if last then (k.released f, record k' { freed = f ∷ k.freed }) else (ok tt, k')
