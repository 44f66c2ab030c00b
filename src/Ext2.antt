-- ===== src/Ext2.antt =====
-- fs/ext2/bmap.c: the path of a block of a file through the indirect blocks. `ptrs` is the number of
-- pointers in a block.
pub mod Path
mod Tests
use nuvix.Prelude.{
  ℕ, zero, suc, ◌+◌, ◌-◌, ◌*◌, ◌/◌, ◌%◌, ◌^◌, ◌≤◌, ◌<◌, min, max, ◌≡◌, refl, sym, ap, ◌∙◌, fun_ext,
  ◌≢◌, ◌↔◌, ◌⊎◌, inl, inr, Bool, true, false, ◌&&◌, ◌||◌, not, Option, none, some, List, [], ◌∷◌,
  ◌++◌, arith, ltb, leb, ◌==◌, if◌then◌else◌, ltb→lt, ltb-false, lt→ltb, leb→le, ==_iff, Bool-cases,
  Option-cases, length, get_elem?, get_or, set, take, drop, All, keep_if, length-append, length-set,
  length-take, get_or-set_self, get_or-set_ne,
}
use nuvix.Errno.{Result, ok, err, efbig}

abbrev pub ndir_blocks : ℕ
ndir_blocks = 12

abbrev pub ind_block : ℕ
ind_block = 12

abbrev pub dind_block : ℕ
dind_block = 13

abbrev pub tind_block : ℕ
tind_block = 14

-- The products are of type `uint64_t`.
abbrev pub square : ℕ → ℕ
square p = (p * p) % 2 ^ 64

abbrev pub cube : ℕ → ℕ
cube p = (square p * p) % 2 ^ 64

-- `ext2_block_to_path` from the doubly indirect block on, and from the triply indirect one on.
unfoldable pub tind_path : (ptrs n : ℕ) → Result (List ℕ)
tind_path p n =
    if leb (cube p) n then err efbig else ok (tind_block ∷ n / square p ∷ n / p % p ∷ n % p ∷ [])

unfoldable pub dind_path : (ptrs n : ℕ) → Result (List ℕ)
unfolding tind_path
dind_path p n =
    if ltb n (square p) then ok (dind_block ∷ n / p ∷ n % p ∷ []) else tind_path p (n - square p)

-- The offsets, as many as the depth.
unfoldable pub block_to_path : (ptrs lbn : ℕ) → Result (List ℕ)
unfolding dind_path
block_to_path p lbn =
    if ltb lbn ndir_blocks
    then ok (lbn ∷ [])
    else if ltb (lbn - ndir_blocks) p
    then ok (ind_block ∷ (lbn - ndir_blocks) ∷ [])
    else dind_path p (lbn - ndir_blocks - p)

-- `ext2_read_ptr`: `read` gives the pointers of a block, or the error of `mapping_get`.
unfoldable pub read_ptr : (read : ℕ → Result (ℕ → ℕ)) → (blk idx : ℕ) → Result ℕ
read_ptr read blk idx =
    if blk == 0 then ok 0 else elim (read blk) [ err e ↦ err e | ok pointers ↦ ok (pointers idx) ]

-- The loop of `ext2_bmap`.
unfoldable pub follow : (read : ℕ → Result (ℕ → ℕ)) → (phys : ℕ) → (offs : List ℕ) → Result ℕ
unfolding read_ptr
follow read phys [] = ok phys
follow read phys (i ∷ is) = elim (read_ptr read phys i) [
  | err e ↦ err e
  | ok next ↦ follow read next is
]

-- `blocks` gives the pointers of the inode.
unfoldable pub bmap : (read : ℕ → Result (ℕ → ℕ)) → (blocks : ℕ → ℕ) → (ptrs lbn : ℕ) → Result ℕ
unfolding block_to_path follow
bmap read blocks p lbn = elim (block_to_path p lbn) [
  | err e ↦ err e
  | ok [] ↦ ok 0
  | ok (i ∷ is) ↦ follow read (blocks i) is
]
