-- ===== src/Mmap/Tests.antt =====
-- The system calls of mm/mmap.c in a space with two areas and a stack of 16 pages.
use nuvix.Prelude.{◌≡◌, refl, true, false, some, arith}
use nuvix.Errno.{err, einval}
use nuvix.Rbtree.{leaf, node, insert_up, insert_at}
use nuvix.Rbtree.Order.{to_list}
use nuvix.Rbtree.Walk.{rb_last, last_below, rb_prev, climb_prev}
use nuvix.Vma.{
  Vma, Areas, new_area, intersection_below, vma_find_intersection, vma_insert, seek, map_range,
}
use nuvix.Mmap.{Space, find_unmapped, gap_below, sys_munmap, sys_brk}
use nuvix.Mmap.Bounds.{IsRange, range_end-IsRange}
use nuvix.Mmap.Gap.{Chosen, find_unmapped-Chosen}

abbrev code_area : Vma
code_area = new_area 0x10000 0x12000 5

abbrev high_area : Vma
high_area = new_area 0x3fffff0000 0x3fffff1000 3

abbrev two_areas : Areas
two_areas = node false leaf code_area (node true leaf high_area leaf)

abbrev space : Space
space = record { areas = two_areas; start_brk = 0x20000; brk = 0x20000 }

-- Below the guard page; the upper area is the one of the stack.
lower : find_unmapped 16 3 two_areas 0 0x2000 ≡ some 0x3ffffeb000
unfolding find_unmapped gap_below vma_find_intersection intersection_below rb_last last_below
    rb_prev climb_prev
lower = refl

grown :
    sys_brk 16 3 true true true 0x20001 space
    ≡ some (
      0x20001,
      record {
        areas =
            node false
              (node true leaf code_area leaf)
              (new_area 0x20000 0x21000 3)
              (node true leaf high_area leaf);
        start_brk = 0x20000;
        brk = 0x20001;
      },
    )
unfolding sys_brk vma_find_intersection intersection_below map_range vma_insert seek insert_at
    insert_up
grown = refl

refused : sys_munmap 16 3 true true true 0x10001 0x1000 space ≡ some (err einval, space)
unfolding sys_munmap
refused = refl

find_unmapped-Chosen_example :
    Chosen 16 0x2000 (to_list two_areas) (find_unmapped 16 3 two_areas 0x11000 0x2000)
find_unmapped-Chosen_example =
    find_unmapped-Chosen 16 0x2000 3 two_areas 0x11000 (omega arith) (omega arith)
      (omega arith, (omega arith, tt), (omega arith, tt, tt)) (omega arith, (omega arith, tt))

range_end-IsRange_example : IsRange 16 0x10000 0x1001 0x12000
range_end-IsRange_example = range_end-IsRange 16 0x10000 0x1001 0x12000 refl
