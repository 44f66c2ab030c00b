-- ===== src/Fdtable/Count.antt =====
-- fs/vfs/fdtable.c: the reference counts beside the slots, and `fd_close`.
use mathlib.Core.Path.{subst}
use nuvix.Errno.{ebadf, ok}
use nuvix.Prelude.{
  ℕ, zero, suc, ◌+◌, ◌≤◌, ◌<◌, ◌≡◌, refl, ap, inl, inr, true, Option, none, some, arith, ltb, ◌==◌,
  if◌then◌else◌, ltb→lt, ==_iff, Bool-cases, false, ◌∷◌, Option-cases,
}
use mathlib.Core.Path.{subst}
use nuvix.Bitmap.{test_bit}
use nuvix.Errno.{Result, ok, err, ebadf}
use nuvix.Fdtable.Refs.{File, Files, refcount_max, inc_not_zero, dec_and_test, fget, fput}
use nuvix.Fdtable.{
  Fdtable, put, is_null, close, close_slot, Result, test_bit, err, false, ebadf, Option-cases,
}

-- One for the file itself.
abbrev pub one : Option File → File → ℕ
one none g = 0
one (some f) g = if f == g then 1 else 0

-- How many of the first `n` slots hold the file?
unfoldable pub holders : ℕ → (ℕ → Option File) → File → ℕ
holders zero files g = 0
holders (suc n) files g = one (files n) g + holders n files g

abbrev pub held : Fdtable → File → ℕ
held t g = holders 64 t.files g

holders-put_out :
    (n fd : ℕ) (files : ℕ → Option File) (x : Option File) (g : File)
    → n ≤ fd
    → holders n (put files fd x) g ≡ holders n files g
unfolding holders
holders-put_out zero fd files x g h = refl
holders-put_out (suc n) fd files x g h = ground (arith, holders-put_out n fd files x g)

pub holders-put :
    (n fd : ℕ) (files : ℕ → Option File) (x : Option File) (g : File)
    → fd < n
    → holders n (put files fd x) g + one (files fd) g ≡ holders n files g + one x g
unfolding holders
holders-put zero fd files x g h = absurd (omega arith)
holders-put (suc n) fd files x g h = elim (Bool-cases (fd == n)) [
  | inl here ↦
      let e : fd ≡ n = (==_iff fd n).0 here in
      rw here
        (omega (arith, holders-put_out n fd files x g (omega arith), ap (λ a. one (files a) g) e))
  | inr below ↦
      let lt : fd < n = ground arith in rw below (omega (arith, holders-put n fd files x g lt))
]

one-le-holders :
    (n fd : ℕ) (files : ℕ → Option File) (g : File) → fd < n → one (files fd) g ≤ holders n files g
unfolding holders
one-le-holders zero fd files g h = absurd (omega arith)
one-le-holders (suc n) fd files g h = elim (Bool-cases (fd == n)) [
  | inl here ↦ let e : fd ≡ n = (==_iff fd n).0 here in rw e (omega arith)
  | inr below ↦ omega (arith, one-le-holders n fd files g (ground arith))
]

-- A file that a slot holds is alive.
abbrev pub Alive : Files → Option File → Type 0
Alive k none = Unit {0}
Alive k (some f) = 0 < k.count f

pub fget-count :
    (f : File) (k : Files) (g : File)
    → 0 < k.count f
    → k.count f < refcount_max
    → (fget (some f) k).1.count g ≡ k.count g + one (some f) g
unfolding fget inc_not_zero
fget-count f k g lo hi = ground arith

pub fput-count :
    (x : Option File) (k : Files) (g : File)
    → Alive k x
    → (fput x k).1.count g + one x g ≡ k.count g
unfolding fput dec_and_test
fput-count none k g a = omega arith
fput-count (some f) k g a = ground arith

-- Every file has a reference for each slot that holds it, and room for one more.
pub record IsCounted (t : Fdtable) (k : Files) : Type 0 where
  pub cover : (g : File) → held t g ≤ k.count g
  pub room : (g : File) → k.count g < refcount_max

-- The counts have moved by as much as the slots.
abbrev pub Balanced : Fdtable → Files → Fdtable → Files → Type 0
Balanced t k t' k' = (g : File) → k'.count g + held t g ≡ k.count g + held t' g

pub Alive-grow :
    (k k' : Files) (x : Option File)
    → ((g : File) → k.count g ≤ k'.count g)
    → Alive k x
    → Alive k' x
Alive-grow k k' none h a = tt
Alive-grow k k' (some f) h a = omega (arith, h f)

pub filled_slot :
    (t : Fdtable) (k : Files) (fd : ℕ) → IsCounted t k → fd < 64 → Alive k (t.files fd)
filled_slot t k fd c lt = go (t.files fd) refl
  where
    go : (x : Option File) → t.files fd ≡ x → Alive k x
    go none e = tt
    go (some f) e =
        let self : (f == f) ≡ true = ground arith in
        let n : one (t.files fd) f ≡ 1 = rw (e, self) in
        omega (arith, one-le-holders 64 fd t.files f lt, c.cover f)

pub one-is_null : (x : Option File) (g : File) → is_null x ≡ true → one x g ≡ 0
one-is_null none g e = refl
one-is_null (some f) g e = cc

close_slot-Balanced :
    (t : Fdtable) (fd : ℕ) (k : Files) (x : Option File)
    → fd < 64
    → t.files fd ≡ x
    → Alive k x
    → let (_, t', k') = close_slot t fd k x in Balanced t k t' k'
unfolding close_slot
close_slot-Balanced t fd k none lt e a g = refl
close_slot-Balanced t fd k (some f) lt e a g =
    omega
      (arith, fput-count (some f) k g a, holders-put 64 fd t.files none g lt, ap (λ x. one x g) e)

pub close-Balanced :
    (t : Fdtable) (fd : ℕ) (k : Files)
    → IsCounted t k
    → let (_, t', k') = close t fd k in Balanced t k t' k'
unfolding close
close-Balanced t fd k c = elim (Bool-cases (ltb fd 64)) [
  | inl inside ↦
      let lt = ltb→lt fd 64 inside in
      rw inside (close_slot-Balanced t fd k (t.files fd) lt refl (filled_slot t k fd c lt))
  | inr outside ↦ rw outside (λ g. refl)
]

-- What a close leaves of a slot with a file.
pub record Closed (t : Fdtable) (fd : ℕ) (f : File) (k : Files)
    (o : Result (Unit {0}) × Fdtable × Files) : Type 0 where
  pub emptied : (i : ℕ) → o.1.files i ≡ (if fd == i then none else t.files i)
  pub freed_bit : (i : ℕ) → test_bit i o.1.bitmap ≡ (if fd == i then false else test_bit i t.bitmap)
  pub dropped : o.2.count f + 1 ≡ k.count f
  pub others : (g : File) → (f == g) ≡ false → o.2.count g ≡ k.count g
  pub last : k.count f ≡ 1 → (o.0 ≡ k.released f) × (o.2.freed ≡ f ∷ k.freed)
  pub more : 1 < k.count f → (o.0 ≡ ok tt) × (o.2.freed ≡ k.freed)
