-- ===== src/Buddy/Tests.antt =====
-- Runs of the page allocator on the frames 8 to 15 with four orders.
use nuvix.Prelude.{ℕ, ◌≡◌, refl, true, false, some, List, [], ◌∷◌}
use nuvix.Memblock.{region}
use nuvix.Fdtable.Refs.{dec_and_test}
use nuvix.Buddy.{
  Page, Buddy, order_none, add_block, del_block, merge_block, fitting_order, release_blocks,
  release_range, split, take_block, alloc_pages, allocated_block, free_pages, release_gaps,
  buddy_init,
}

abbrev reserved_page : Page
reserved_page = record {
  reserved = true;
  buddy = false;
  allocated = false;
  other = false;
  order = order_none;
  refcount = 0;
}

abbrev all_reserved : Buddy
all_reserved = record {
  pages = λ _. reserved_page;
  free = λ _. [];
  nr_free = λ _. 0;
  managed = 0;
  min_pfn = 8;
  max_pfn = 16;
}

abbrev lists : Buddy → List (List ℕ)
lists b = b.free 0 ∷ b.free 1 ∷ b.free 2 ∷ b.free 3 ∷ []

-- Without reservations the frames are one block.
whole : lists (buddy_init 4 all_reserved []) ≡ [] ∷ [] ∷ [] ∷ (8 ∷ []) ∷ []
unfolding buddy_init release_gaps release_range release_blocks fitting_order add_block
whole = refl

-- A reservation inside frame 10 leaves the frames 8 and 9 and the frames from 11 on.
gap :
    lists (buddy_init 4 all_reserved (region 0xa100 0x100 false ∷ []))
    ≡ (11 ∷ []) ∷ (8 ∷ []) ∷ (12 ∷ []) ∷ [] ∷ []
unfolding buddy_init release_gaps release_range release_blocks fitting_order add_block
gap = refl

-- A page is split off the block, and merged again when it is freed.
splits :
    lists (alloc_pages 4 (buddy_init 4 all_reserved []) 0).1
    ≡ (9 ∷ []) ∷ (10 ∷ []) ∷ (12 ∷ []) ∷ [] ∷ []
unfolding buddy_init release_gaps release_range release_blocks fitting_order add_block del_block
    alloc_pages take_block split
splits = refl

merges :
    lists (free_pages 4 (alloc_pages 4 (buddy_init 4 all_reserved []) 0).1 (some 8) 0)
    ≡ [] ∷ [] ∷ [] ∷ (8 ∷ []) ∷ []
unfolding buddy_init release_gaps release_range release_blocks fitting_order add_block del_block
    alloc_pages take_block split free_pages allocated_block merge_block dec_and_test
merges = refl
