-- ===== src/Vma/Tests.antt =====
-- An address space with two areas.
use nuvix.Prelude.{ℕ, ◌≡◌, refl, true, false, some, [], ◌∷◌, arith}
use nuvix.Errno.{err, einval, eexist, enomem, ok}
use nuvix.Rbtree.{leaf, node}
use nuvix.Rbtree.Order.{to_list}
use nuvix.Vma.{
  Vma, Areas, new_area, find_below, vma_find, vma_find_intersection, vma_insert, seek, vma_remove,
  intersection_below,
}
use nuvix.Rbtree.{insert_at, insert_up}
use nuvix.Rbtree.Erase.{rb_erase, rb_erase_fixup, leftmost, round, mend, mend_left, mend_right}
use nuvix.Vma.Range.{
  unmap_range, split_range, split_upper, vma_split, reinsert, remove_all, protect_range,
  protect_from,
}
use nuvix.Vma.Unmap.{Cleared, remove_all-Cleared}
use nuvix.Vma.Areas.{first_hit}
use nuvix.Vma.Find.{hit, contains, intersects, vma_find-first_hit}
use nuvix.Vma.Insert.{IsMapped, Added, vma_insert-Added, vma_remove-IsMapped}

abbrev code_area : Vma
code_area = new_area 0x10000 0x12000 5

abbrev data_area : Vma
data_area = new_area 0x20000 0x21000 3

abbrev two_areas : Areas
two_areas = node false leaf code_area (node true leaf data_area leaf)

two_areas-IsMapped : IsMapped two_areas
two_areas-IsMapped = (
  ((tt, (tt, tt, refl, refl, refl), refl), refl),
  (omega arith, (omega arith, tt), (omega arith, tt, tt)),
)

in_the_second : hit (vma_find two_areas 0x20fff) ≡ some data_area
unfolding vma_find find_below
in_the_second = refl

in_the_way : vma_insert (new_area 0x11000 0x13000 3) two_areas ≡ some (err eexist, two_areas)
unfolding vma_insert seek
in_the_way = refl

not_aligned : vma_insert (new_area 0x12001 0x13000 3) two_areas ≡ some (err einval, two_areas)
unfolding vma_insert
not_aligned = refl

vma_find-first_hit_example :
    ((addr : ℕ)
      → hit (vma_find two_areas addr) ≡ first_hit (contains addr) (code_area ∷ data_area ∷ []))
    × ((start end : ℕ)
        → hit (vma_find_intersection two_areas start end)
          ≡ first_hit (intersects start end) (code_area ∷ data_area ∷ []))
vma_find-first_hit_example = vma_find-first_hit two_areas two_areas-IsMapped.1

vma_insert-Added_example :
    Added (new_area 0x12000 0x13000 3) two_areas (vma_insert (new_area 0x12000 0x13000 3) two_areas)
vma_insert-Added_example =
    vma_insert-Added (new_area 0x12000 0x13000 3) two_areas two_areas-IsMapped

vma_remove-IsMapped_example :
    (t : Areas) × (vma_remove (two_areas, []) ≡ some t) × IsMapped t × (to_list t ≡ data_area ∷ [])
vma_remove-IsMapped_example =
    vma_remove-IsMapped false leaf code_area (node true leaf data_area leaf) [] two_areas-IsMapped

-- A hole in the middle of the first area.
punched :
    unmap_range 3 true true 0x11000 0x12000 two_areas
    ≡ some (ok tt, node false (node true leaf (new_area 0x10000 0x11000 5) leaf) data_area leaf)
unfolding unmap_range split_range split_upper vma_split reinsert vma_insert seek insert_at insert_up
    vma_remove rb_erase rb_erase_fixup leftmost round mend mend_left mend_right remove_all vma_find
    find_below vma_find_intersection intersection_below
punched = refl

read_only :
    protect_range 5 true true 0x20000 0x22000 1 two_areas
    ≡ some
        (err enomem, node false leaf code_area (node true leaf (new_area 0x20000 0x21000 1) leaf))
unfolding protect_range split_range split_upper protect_from vma_find find_below
read_only = refl

remove_all-Cleared_example : Cleared 0x11000 0x30000 (remove_all 3 0x11000 0x30000 two_areas)
remove_all-Cleared_example =
    remove_all-Cleared 3 0x11000 0x30000 two_areas (omega arith) two_areas-IsMapped
