-- ===== src/Ext2/Tests.antt =====
-- Runs of fs/ext2/bmap.c, and its theorem at a concrete input: blocks of 1024 bytes.
use nuvix.Prelude.{◌+◌, ◌≡◌, refl, [], ◌∷◌, arith}
use nuvix.Errno.{ok, err, efbig}
use nuvix.Ext2.{block_to_path, bmap}
use nuvix.Ext2.Path.{IsPath, block_to_path-IsPath}

direct : block_to_path 256 11 ≡ ok (11 ∷ [])
unfolding block_to_path
direct = refl

first_indirect : block_to_path 256 12 ≡ ok (12 ∷ 0 ∷ [])
unfolding block_to_path
first_indirect = refl

last_of_all : block_to_path 256 16843019 ≡ ok (14 ∷ 255 ∷ 255 ∷ 255 ∷ [])
unfolding block_to_path
last_of_all = refl

too_far : block_to_path 256 16843020 ≡ err efbig
unfolding block_to_path
too_far = refl

-- A hole: the indirect block is missing.
hole : bmap (λ blk. ok (λ i. blk + i)) (λ i. 0) 256 20 ≡ ok 0
unfolding bmap
hole = refl

through : bmap (λ blk. ok (λ i. blk + i)) (λ i. 1000) 256 20 ≡ ok 1008
unfolding bmap
through = refl

block_to_path-IsPath_example : IsPath 256 70000 (block_to_path 256 70000)
block_to_path-IsPath_example = block_to_path-IsPath 256 70000 (omega arith) (omega arith)
