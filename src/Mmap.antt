-- ===== src/Mmap.antt =====
-- mm/mmap.c: the system calls on the areas of mm/vma.c. CONFIG_USTACK_PAGES is a parameter, and so are the
-- results of `vma_alloc`. An operation on the areas that reads NULL, fails an `Assert` or runs out of
-- fuel is the result `none`.
pub mod Bounds
pub mod Gap
mod Tests
use nuvix.Prelude.{
  ℕ, zero, suc, ◌+◌, ◌-◌, ◌*◌, ◌/◌, ◌%◌, ◌^◌, ◌≤◌, ◌<◌, min, max, ◌≡◌, refl, sym, ap, ◌∙◌, fun_ext,
  ◌≢◌, ◌↔◌, ◌⊎◌, inl, inr, Bool, true, false, ◌&&◌, ◌||◌, not, Option, none, some, List, [], ◌∷◌,
  ◌++◌, arith, ltb, leb, ◌==◌, if◌then◌else◌, ltb→lt, ltb-false, lt→ltb, leb→le, ==_iff, Bool-cases,
  Option-cases, length, get_elem?, get_or, set, take, drop, All, keep_if, length-append, length-set,
  length-take, get_or-set_self, get_or-set_ne,
}
use Prim.Native.Nat.{bit_and}
use nuvix.Errno.{Result, ok, err, einval, enomem}
use nuvix.Rbtree.{Tree, leaf, node, Way}
use nuvix.Rbtree.Walk.{rb_last, rb_prev}
use nuvix.Vma.{
  Vma, Areas, Place, page_size, uvaddr_start, uvaddr_end, new_area, vma_find_intersection,
  vma_insert, map_range,
}
use nuvix.Vma.Range.{unmap_range, protect_range}

abbrev pub vm_prot : ℕ → ℕ
vm_prot prot =
    let reads = not (bit_and prot 1 == 0) in
    let writes = not (bit_and prot 2 == 0) in
    let executes = not (bit_and prot 4 == 0) in
    (if reads || writes then 1 else 0) + (if writes then 2 else 0) + (if executes then 4 else 0)

-- ALIGN_UP to pages of a 64-bit number.
abbrev pub page_up : ℕ → ℕ
page_up n = (n + (page_size - 1)) % 2 ^ 64 / page_size * page_size

module _ (stack : ℕ) where
  abbrev pub stack_top : ℕ
  stack_top = uvaddr_end - page_size - page_size

  abbrev pub stack_bottom : ℕ
  stack_bottom = stack_top - stack * page_size

  abbrev pub range_allowed : ℕ → ℕ → Bool
  range_allowed start end =
      if ltb start uvaddr_start || ltb stack_top end
      then false
      else leb end (stack_bottom - page_size) || leb stack_bottom start

  abbrev pub range_end : (start len : ℕ) → Result ℕ
  range_end start len =
      if not (start % page_size == 0)
      then err einval
      else if len == 0
      then err einval
      else if ltb (2 ^ 64 - 1 - (page_size - 1)) len
      then err enomem
      else if leb uvaddr_end start || ltb (uvaddr_end - start) (page_up len)
      then err enomem
      else if not (range_allowed start ((start + page_up len) % 2 ^ 64))
      then err einval
      else ok ((start + page_up len) % 2 ^ 64)

  -- The loop of `find_unmapped`, from an area downwards.
  unfoldable pub gap_below : (fuel : ℕ) → Option Place → (top len : ℕ) → Option ℕ
  gap_below zero o top len = none
  gap_below (suc n) none top len =
      some (if leb len ((top + 2 ^ 64 - uvaddr_start) % 2 ^ 64) then top - len else 0)
  gap_below (suc n) (some (leaf, fs)) top len = none
  gap_below (suc n) (some (node c l v r, fs)) top len =
      let before_it = rb_prev (node c l v r) fs in
      let passed = gap_below n before_it top len in
      let below_it = gap_below n before_it v.start len in
      if leb top v.start
      then passed
      else if leb v.end top && leb len (top - v.end)
      then some (top - len)
      else below_it

  -- Is the range at the hint usable?
  abbrev pub hint_fits : Areas → (hint len : ℕ) → Bool
  hint_fits t hint len =
      ltb hint uvaddr_end
      && leb len (uvaddr_end - hint)
      && range_allowed hint (hint + len)
      && elim (vma_find_intersection t hint (hint + len)) [ none ↦ true | some p ↦ false ]

  unfoldable pub find_unmapped : (fuel : ℕ) → Areas → (hint len : ℕ) → Option ℕ
  unfolding gap_below
  find_unmapped fuel t hint len =
      let page = hint / page_size * page_size in
      if hint_fits t page len
      then some page
      else gap_below fuel (rb_last t) (stack_bottom - page_size) len

pub record Space : Type 0 where
  pub areas : Areas
  pub start_brk : ℕ
  pub brk : ℕ

-- A call: its result and the address space after it.
abbrev pub Call : Type 0 → Type 0
Call A = Option (Result A × Space)

abbrev pub conclude : {A : Type 0} → Space → A → Option (Result (Unit {0}) × Areas) → Call A
conclude m a none = none
conclude m a (some (err e, t)) = some (err e, record m { areas = t })
conclude m a (some (ok u, t)) = some (ok a, record m { areas = t })

-- The end of `sys_mmap`: an insertion whose failure is a failed `Assert`.
abbrev pub place_new : Space → (addr end prot : ℕ) → Areas → Call ℕ
place_new m addr end prot t = elim (vma_insert (new_area addr end (vm_prot prot)) t) [
  | some (ok u, t') ↦ some (ok addr, record m { areas = t' })
  | some (err e, t') ↦ none
  | none ↦ none
]

abbrev pub bad_request : (len prot flags offset : ℕ) → Bool
bad_request len prot flags offset =
    not (bit_and flags 0x32 == flags)
    || not (bit_and flags 0x22 == 0x22)
    || not (bit_and prot 7 == prot)
    || not (offset % page_size == 0)
    || len == 0

module _ (stack fuel : ℕ) (room room_left room_right : Bool) where
  unfoldable pub map_fixed : (addr len prot : ℕ) → Space → Call ℕ
  map_fixed addr len prot m = elim (range_end stack addr len) [
    | err e ↦ some (err e, m)
    | ok end ↦ elim (unmap_range fuel room_left room_right addr end m.areas) [
      | none ↦ none
      | some (err e, t) ↦ some (err e, record m { areas = t })
      | some (ok u, t) ↦ place_new m addr end prot t
    ]
  ]

  unfoldable pub map_anywhere : (hint len prot : ℕ) → Space → Call ℕ
  map_anywhere hint len prot m = elim (find_unmapped stack fuel m.areas hint len) [
    | none ↦ none
    | some addr ↦
        if addr == 0 then some (err enomem, m) else place_new m addr (addr + len) prot m.areas
  ]

  unfoldable pub sys_mmap : (addr len prot flags offset : ℕ) → Space → Call ℕ
  unfolding map_fixed map_anywhere
  sys_mmap addr len prot flags offset m =
      if bad_request len prot flags offset
      then some (err einval, m)
      else if ltb (uvaddr_end - uvaddr_start) len
      then some (err enomem, m)
      else if not room
      then some (err enomem, m)
      else if not (bit_and flags 0x10 == 0)
      then map_fixed addr (page_up len) prot m
      else map_anywhere addr (page_up len) prot m

  unfoldable pub sys_munmap : (start len : ℕ) → Space → Call (Unit {0})
  sys_munmap start len m = elim (range_end stack start len) [
    | err e ↦ some (err e, m)
    | ok end ↦ conclude m tt (unmap_range fuel room_left room_right start end m.areas)
  ]

  unfoldable pub sys_mprotect : (start len prot : ℕ) → Space → Call (Unit {0})
  sys_mprotect start len prot m =
      if not (start % page_size == 0)
      then some (err einval, m)
      else if len == 0
      then some (ok tt, m)
      else if not (bit_and prot 7 == prot)
      then some (err einval, m)
      else elim (range_end stack start len) [
        | err e ↦ some (err e, m)
        | ok end ↦
            conclude m tt (protect_range fuel room_left room_right start end (vm_prot prot) m.areas)
      ]

  -- The break moves when the areas could be changed.
  abbrev pub move_brk : Space → ℕ → Option (Result (Unit {0}) × Areas) → Option (ℕ × Space)
  move_brk m addr none = none
  move_brk m addr (some (err e, t)) = some (m.brk, record m { areas = t })
  move_brk m addr (some (ok u, t)) = some (addr, record m { areas = t; brk = addr })

  unfoldable pub sys_brk : ℕ → Space → Option (ℕ × Space)
  sys_brk addr m =
      let start = page_up m.brk in
      let end = page_up addr in
      if ltb addr m.start_brk || ltb (stack_bottom stack - page_size) addr
      then some (m.brk, m)
      else if ltb start end
      then elim (vma_find_intersection m.areas start end) [
        | some p ↦ some (m.brk, m)
        | none ↦ move_brk m addr (map_range room start end 3 m.areas)
      ]
      else if ltb end start
      then move_brk m addr (unmap_range fuel room_left room_right end start m.areas)
      else some (addr, record m { brk = addr })
