-- ===== src/Fdtable.antt =====
-- fs/vfs/fdtable.c, and the reference counts of the files that it holds (fs/vfs/file.c). A file is
-- the number of its object; `none` is a NULL slot. Each call runs under the table's lock, so it is
-- one step here. A failed `Assert` halts the kernel and is the result `none`.
pub mod Refs
pub mod Inv
pub mod Count
pub mod Dup
mod Tests
use nuvix.Prelude.{
  ℕ, zero, suc, ◌+◌, ◌-◌, ◌*◌, ◌/◌, ◌%◌, ◌^◌, ◌≤◌, ◌<◌, min, max, ◌≡◌, refl, sym, ap, ◌∙◌, fun_ext,
  ◌≢◌, ◌↔◌, ◌⊎◌, inl, inr, Bool, true, false, ◌&&◌, ◌||◌, not, Option, none, some, List, [], ◌∷◌,
  ◌++◌, arith, ltb, leb, ◌==◌, if◌then◌else◌, ltb→lt, ltb-false, lt→ltb, leb→le, ==_iff, Bool-cases,
  Option-cases, length, get_elem?, get_or, set, take, drop, All, keep_if, length-append, length-set,
  length-take, get_or-set_self, get_or-set_ne,
}
use Prim.Native.Nat.{bit_and}
use nuvix.Errno.{Result, ok, err, enomem, emfile, ebadf, einval}
use nuvix.Bitmap.{
  Bitmap, bits_per_long, set_bit, clear_bit, test_bit, bitmap_zero, find_next_zero_bit,
  for_each_set_bit,
}
use nuvix.Fdtable.Refs.{File, Files, fget, fput}

pub record Fdtable : Type 0 where
  pub files : ℕ → Option File
  pub bitmap : Bitmap
  pub cloexec : Bitmap

-- `fdt->files[fd] = file`
abbrev pub put : (ℕ → Option File) → ℕ → Option File → ℕ → Option File
put files fd file j = if fd == j then file else files j

-- `room` says whether `kzalloc` gives the array of slots; `old` is what the structure held.
pub init : (room : Bool) → (old : Fdtable) → Result Fdtable
init room old =
    if room
    then ok (record {
      files = λ _. none;
      bitmap = set_bit 2 (set_bit 1 (set_bit 0 (bitmap_zero old.bitmap bits_per_long)));
      cloexec = bitmap_zero old.cloexec bits_per_long;
    })
    else err enomem

pub alloc_from : Fdtable → ℕ → Result ℕ × Fdtable
alloc_from t min =
    let fd = find_next_zero_bit t.bitmap bits_per_long min in
    let t' = if ltb fd bits_per_long then record t { bitmap = set_bit fd t.bitmap } else t in
    if leb bits_per_long min
    then (err emfile, t)
    else (if fd == bits_per_long then err emfile else ok fd, t')

pub alloc : Fdtable → Result ℕ × Fdtable
alloc t = alloc_from t 0

abbrev pub is_null : Option File → Bool
is_null none = true
is_null (some f) = false

pub release : Fdtable → ℕ → Option Fdtable
release t fd =
    if ltb fd bits_per_long && test_bit fd t.bitmap && is_null (t.files fd)
    then some (record t { bitmap = clear_bit fd t.bitmap; cloexec = clear_bit fd t.cloexec })
    else none

-- The file is open, so its pointer is neither NULL nor an error.
pub install : Fdtable → ℕ → File → Option Fdtable
install t fd file =
    if ltb fd bits_per_long && test_bit fd t.bitmap
    then some (record t { files = put t.files fd (some file) })
    else none

-- The slot's old file is returned.
pub replace : Fdtable → ℕ → File → Bool → Option (Option File × Fdtable)
replace t fd file cloexec =
    if ltb fd bits_per_long
    then some (
      t.files fd,
      record {
        files = put t.files fd (some file);
        bitmap = set_bit fd t.bitmap;
        cloexec = if cloexec then set_bit fd t.cloexec else clear_bit fd t.cloexec;
      },
    )
    else none

pub open_fd : Fdtable → ℕ → Files → Option File × Files
open_fd t fd k = if ltb fd bits_per_long then fget (t.files fd) k else (none, k)

-- What `fd_close` does with the slot that it found.
pub close_slot : Fdtable → ℕ → Files → Option File → Result (Unit {0}) × Fdtable × Files
close_slot t fd k none = (err ebadf, t, k)
close_slot t fd k (some f) =
    let (ret, k') = fput (some f) k in
    (
      ret,
      record {
        files = put t.files fd none;
        bitmap = clear_bit fd t.bitmap;
        cloexec = clear_bit fd t.cloexec;
      },
      k',
    )

pub close : Fdtable → ℕ → Files → Result (Unit {0}) × Fdtable × Files
unfolding close_slot
close t fd k = close_slot t fd k (if ltb fd bits_per_long then t.files fd else none)

-- The loop of `fdtable_destroy`; the array of slots is then freed.
pub destroy : Fdtable → Files → Files
destroy t k = for_each_set_bit (λ _. t.bitmap) bits_per_long (λ fd k. (fput (t.files fd) k).1) k

-- The slots from `fd` on, with the rounds left.
pub clone_files : ℕ → ℕ → (src dst : ℕ → Option File) → Files → (ℕ → Option File) × Files
clone_files zero fd src dst k = (dst, k)
clone_files (suc n) fd src dst k =
    let (file, k') = fget (src fd) k in clone_files n (fd + 1) src (put dst fd file) k'

pub clone : (dst src : Fdtable) → Files → Fdtable × Files
unfolding clone_files
clone dst src k =
    let (files, k') = clone_files bits_per_long 0 src.files dst.files k in
    (record { files = files; bitmap = src.bitmap; cloexec = src.cloexec }, k')

abbrev pub close_one : ℕ → Fdtable × Files → Fdtable × Files
close_one fd s = let (_, t', k') = close s.0 fd s.1 in (t', k')

pub close_on_exec : Fdtable → Files → Fdtable × Files
unfolding close
close_on_exec t k = for_each_set_bit (λ s. s.0.cloexec) bits_per_long close_one (t, k)

pub set_cloexec : Fdtable → ℕ → Bool → Option Fdtable
set_cloexec t fd enable =
    if ltb fd bits_per_long
    then some
        (record t { cloexec = if enable then set_bit fd t.cloexec else clear_bit fd t.cloexec })
    else none

pub test_cloexec : Fdtable → ℕ → Option Bool
test_cloexec t fd = if ltb fd bits_per_long then some (test_bit fd t.cloexec) else none

-- A system call's result beside the new state; `none` is a failed `Assert`.
abbrev pub Outcome : Type 0
Outcome = Option (Result ℕ × Fdtable × Files)

-- `__free(fput)` drops the reference on the error path; `fd_install` takes it over on the other.
pub dup_into : File → Result ℕ × Fdtable → Files → Outcome
dup_into f (err e, t) k = some (err e, t, (fput (some f) k).1)
dup_into f (ok newfd, t) k = elim (install t newfd f) [
  | none ↦ none
  | some t' ↦ some (ok newfd, t', k)
]

pub dup_file : Fdtable → Option File × Files → Outcome
unfolding dup_into
dup_file t (none, k) = some (err ebadf, t, k)
dup_file t (some f, k) = dup_into f (alloc t) k

pub sys_dup : Fdtable → Files → (oldfd : ℕ) → Outcome
unfolding dup_file
sys_dup t k oldfd = dup_file t (open_fd t oldfd k)

abbrev pub o_cloexec : ℕ
o_cloexec = 0x80000

-- The descriptors and the flags are `unsigned int`.
pub dup3_file : Fdtable → (newfd : ℕ) → Bool → Option File × Files → Outcome
dup3_file t newfd cloexec (none, k) = some (err ebadf, t, k)
dup3_file t newfd cloexec (some f, k) = elim (replace t newfd f cloexec) [
  | none ↦ none
  | some (old, t') ↦ some (ok newfd, t', (fput old k).1)
]

pub sys_dup3 : Fdtable → Files → (oldfd newfd flags : ℕ) → Outcome
unfolding dup3_file
sys_dup3 t k oldfd newfd flags =
    if not (bit_and flags (2 ^ 32 - 1 - o_cloexec) == 0)
    then some (err einval, t, k)
    else if oldfd == newfd
    then some (err einval, t, k)
    else if leb bits_per_long newfd
    then some (err ebadf, t, k)
    else dup3_file t newfd (not (bit_and flags o_cloexec == 0)) (open_fd t oldfd k)
