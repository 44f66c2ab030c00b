-- ===== src/Vma/Range.antt =====
-- The operations of mm/vma.c on a range of pages: `vma_split`, `split_range`, `unmap_range` and
-- `protect_range`. The results of `vma_alloc` are arguments.
use nuvix.Prelude.{
  ℕ, zero, suc, ◌+◌, ◌-◌, ◌*◌, ◌/◌, ◌%◌, ◌^◌, min, max, Bool, true, false, ◌&&◌, not, Option, none,
  some, ltb, if◌then◌else◌, ◌==◌,
}
use nuvix.Errno.{Result, ok, err, enomem}
use nuvix.Rbtree.{leaf, node, plug}
use nuvix.Vma.{
  Vma, Areas, Place, page_size, vma_find, vma_find_intersection, vma_insert, vma_remove,
}

-- The two parts of an area at an address.
abbrev pub upper_part : Vma → ℕ → Vma
upper_part v addr = elim v.file [
  | none ↦ record v { start = addr }
  | some f ↦ record v {
    start = addr;
    offset = (v.offset + (addr - v.start)) % 2 ^ 64;
    fstart = max addr v.fstart;
    fend = max addr v.fend;
  }
]

abbrev pub lower_part : Vma → ℕ → Vma
lower_part v addr = elim v.file [
  | none ↦ record v { end = addr }
  | some f ↦ record v { end = addr; fstart = min addr v.fstart; fend = min addr v.fend }
]

-- An insertion whose failure is a failed `Assert`.
unfoldable pub reinsert : Vma → Option Areas → Option Areas
reinsert v none = none
reinsert v (some t) = elim (vma_insert v t) [
  | some (ok u, t') ↦ some t'
  | some (err e, t') ↦ none
  | none ↦ none
]

unfoldable pub vma_split : Place → ℕ → Option Areas
unfolding reinsert
vma_split (leaf, fs) addr = none
vma_split (node c l v r, fs) addr =
    reinsert (upper_part v addr) (reinsert (lower_part v addr) (vma_remove (node c l v r, fs)))

-- Does a part of the area lie before an address, or from an address on?
abbrev pub starts_before : Option Place → ℕ → Bool
starts_before (some (node c l v r, fs)) addr = ltb v.start addr
starts_before o addr = false

abbrev pub ends_after : Option Place → ℕ → Bool
ends_after (some (node c l v r, fs)) addr = ltb addr v.end
ends_after o addr = false

abbrev pub split_at : Bool → Option Place → ℕ → Areas → Option Areas
split_at false o addr t = some t
split_at true none addr t = none
split_at true (some p) addr t = vma_split p addr

unfoldable pub split_upper : Bool → (end : ℕ) → Option Areas → Option (Result (Unit {0}) × Areas)
unfolding vma_split
split_upper cut end none = none
split_upper cut end (some t) = elim (split_at cut (vma_find t (end - 1)) end t) [
  | none ↦ none
  | some t' ↦ some (ok tt, t')
]

-- The part of the `Assert` on the lock's owner is not modelled.
unfoldable pub split_range :
    (room_left room_right : Bool) → (start end : ℕ) → Areas → Option (Result (Unit {0}) × Areas)
unfolding split_upper
split_range room_left room_right start end t =
    let first = vma_find t start in
    let last = vma_find t (end - 1) in
    let cut_left = starts_before first start in
    let cut_right = ends_after last end in
    if not (ltb start end && start % page_size == 0 && end % page_size == 0)
    then none
    else if cut_left && not room_left
    then some (err enomem, t)
    else if cut_right && not room_right
    then some (err enomem, t)
    else split_upper cut_right end (split_at cut_left first start t)

-- The loop of `unmap_range`: a round with what the search finds, and the rounds after it.
abbrev pub remove_found : (Areas → Option Areas) → Option Place → Areas → Option Areas
remove_found on none t = some t
remove_found on (some p) t = elim (vma_remove p) [ none ↦ none | some t' ↦ on t' ]

unfoldable pub remove_all : (fuel start end : ℕ) → Areas → Option Areas
remove_all zero start end t = none
remove_all (suc n) start end t =
    remove_found (λ t'. remove_all n start end t') (vma_find_intersection t start end) t

unfoldable pub unmap_range :
    (fuel : ℕ)
    → (room_left room_right : Bool) → (start end : ℕ) → Areas
    → Option (Result (Unit {0}) × Areas)
unfolding split_range remove_all
unmap_range fuel room_left room_right start end t =
    elim (split_range room_left room_right start end t) [
      | none ↦ none
      | some (err e, t') ↦ some (err e, t')
      | some (ok u, t') ↦ elim (remove_all fuel start end t') [
        | none ↦ none
        | some t'' ↦ some (ok tt, t'')
      ]
    ]

abbrev pub set_flags : Place → ℕ → Areas
set_flags (leaf, fs) flags = plug leaf fs
set_flags (node c l v r, fs) flags = plug (node c l (record v { flags = flags }) r) fs

-- The page behind the last one of an area, counted from an address in it.
abbrev pub past_area : Place → ℕ → ℕ
past_area (leaf, fs) start = start
past_area (node c l v r, fs) start =
    start + (v.end - start + (page_size - 1)) / page_size * page_size

-- The loop of `protect_range`.
unfoldable pub protect_from :
    (fuel start end flags : ℕ) → Areas → Option (Result (Unit {0}) × Areas)
protect_from zero start end flags t = none
protect_from (suc n) start end flags t =
    if not (ltb start end) then some (ok tt, t) else elim (vma_find t start) [
      | none ↦ some (err enomem, t)
      | some p ↦ protect_from n (past_area p start) end flags (set_flags p flags)
    ]

unfoldable pub protect_range :
    (fuel : ℕ)
    → (room_left room_right : Bool) → (start end flags : ℕ) → Areas
    → Option (Result (Unit {0}) × Areas)
unfolding split_range protect_from
protect_range fuel room_left room_right start end flags t =
    elim (split_range room_left room_right start end t) [
      | none ↦ none
      | some (err e, t') ↦ some (err e, t')
      | some (ok u, t') ↦ protect_from fuel start end flags t'
    ]
