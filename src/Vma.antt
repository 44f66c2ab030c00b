-- ===== src/Vma.antt =====
-- mm/vma.c: the areas of an address space in the tree of lib/rbtree.c. A pointer to a linked area is a place
-- of the tree. The page tables and the reference counts of files are not part of the model; a read
-- of NULL and a failed `Assert` are the result `none`.
pub mod Areas
pub mod Find
pub mod Insert
pub mod Range
pub mod Unmap
mod Tests
use nuvix.Prelude.{
  ℕ, zero, suc, ◌+◌, ◌-◌, ◌*◌, ◌/◌, ◌%◌, ◌^◌, ◌≤◌, ◌<◌, min, max, ◌≡◌, refl, sym, ap, ◌∙◌, fun_ext,
  ◌≢◌, ◌↔◌, ◌⊎◌, inl, inr, Bool, true, false, ◌&&◌, ◌||◌, not, Option, none, some, List, [], ◌∷◌,
  ◌++◌, arith, ltb, leb, ◌==◌, if◌then◌else◌, ltb→lt, ltb-false, lt→ltb, leb→le, ==_iff, Bool-cases,
  Option-cases, length, get_elem?, get_or, set, take, drop, All, keep_if, length-append, length-set,
  length-take, get_or-set_self, get_or-set_ne,
}
use mathlib.Core.Option
use nuvix.Errno.{Result, ok, err, einval, eexist, enomem}
use nuvix.Rbtree.{
  Tree, leaf, node, Frame, left, right, Way, is_red, up, plug, blacken, rotate_left, rotate_right,
  settle_left, settle_right, frame_red, insert_up, insert_at,
}
use nuvix.Rbtree.Erase.{rb_erase}

pub record Vma : Type 0 where
  pub start : ℕ
  pub end : ℕ
  pub flags : ℕ
  pub file : Option ℕ
  pub offset : ℕ
  pub fstart : ℕ
  pub fend : ℕ

abbrev pub page_size : ℕ
page_size = 4096

-- UVADDR_START and UVADDR_END
abbrev pub uvaddr_start : ℕ
uvaddr_start = 0x10000

abbrev pub uvaddr_end : ℕ
uvaddr_end = 0x4000000000

abbrev pub Areas : Type 0
Areas = Tree Vma

-- A linked area: the tree below its node and the way up.
abbrev pub Place : Type 0
Place = Areas × Way Vma

abbrev pub area_of : Place → Option Vma
area_of (leaf, fs) = none
area_of (node c l v r, fs) = some v

-- The loop of `vma_find`.
unfoldable pub find_below : Areas → Way Vma → ℕ → Option Place
find_below leaf fs addr = none
find_below (node c l v r) fs addr =
    let on_left = find_below l (left c v r ∷ fs) addr in
    let on_right = find_below r (right c v l ∷ fs) addr in
    if ltb addr v.start
    then on_left
    else if leb v.end addr
    then on_right
    else some (node c l v r, fs)

unfoldable pub vma_find : Areas → ℕ → Option Place
unfolding find_below
vma_find t addr = find_below t [] addr

-- The loop of `vma_find_intersection`.
unfoldable pub intersection_below :
    Areas → Way Vma → (start end : ℕ) → (found : Option Place) → Option Place
intersection_below leaf fs start end found = found
intersection_below (node c l v r) fs start end found =
    let found' = if ltb v.start end then some (node c l v r, fs) else found in
    let on_left = intersection_below l (left c v r ∷ fs) start end found' in
    let on_right = intersection_below r (right c v l ∷ fs) start end found in
    if leb v.end start then on_right else on_left

unfoldable pub vma_find_intersection : Areas → (start end : ℕ) → Option Place
unfolding intersection_below
vma_find_intersection t start end = intersection_below t [] start end none

-- The bounds that `vma_insert` refuses. `(start | end) & (PAGE_SIZE - 1)` is zero if both are aligned.
abbrev pub bad_area : Vma → Bool
bad_area v =
    ltb v.start uvaddr_start
    || ltb uvaddr_end v.end
    || leb v.end v.start
    || not (v.start % page_size == 0 && v.end % page_size == 0)
    || ltb 7 v.flags

-- The free place of an area, or `none` if another one is in the way.
unfoldable pub seek : Vma → Areas → Way Vma → Option (Way Vma)
seek v leaf fs = some fs
seek v (node c l u r) fs =
    let on_left = seek v l (left c u r ∷ fs) in
    let on_right = seek v r (right c u l ∷ fs) in
    if leb v.end u.start then on_left else if leb u.end v.start then on_right else none

abbrev pub link : Vma → Areas → Option (Way Vma) → Option (Result (Unit {0}) × Areas)
link v t none = some (err eexist, t)
link v t (some fs) = Option.map (λ t'. (ok tt, t')) (insert_at v fs)

-- An area of the model is a value and a `Place` is a node of the tree, so that the area to insert is
-- detached and the one to remove is linked, as the `Assert`s have it, is not a test here.
unfoldable pub vma_insert : Vma → Areas → Option (Result (Unit {0}) × Areas)
unfolding seek
vma_insert v t = if bad_area v then some (err einval, t) else link v t (seek v t [])

unfoldable pub vma_remove : Place → Option Areas
vma_remove (t, fs) = rb_erase t fs

abbrev pub new_area : (start end flags : ℕ) → Vma
new_area start end flags = record {
  start = start;
  end = end;
  flags = flags;
  file = none;
  offset = 0;
  fstart = 0;
  fend = 0;
}

-- `room` tells whether `vma_alloc` succeeds.
unfoldable pub map_range :
    (room : Bool) → (start end flags : ℕ) → Areas → Option (Result (Unit {0}) × Areas)
map_range room start end flags t =
    if room then vma_insert (new_area start end flags) t else some (err enomem, t)
