-- ===== src/Buddy.antt =====
-- mm/buddy.c: the free lists of page blocks by order. A page is named by its frame number, and a
-- free list holds the frame numbers of the blocks' first pages, the last one added first. The number of
-- orders is CONFIG_MAX_ORDER.
pub mod Order
mod Tests
use nuvix.Prelude.{
  ℕ, zero, suc, ◌+◌, ◌-◌, ◌*◌, ◌/◌, ◌%◌, ◌^◌, ◌≤◌, ◌<◌, min, max, ◌≡◌, refl, sym, ap, ◌∙◌, fun_ext,
  ◌≢◌, ◌↔◌, ◌⊎◌, inl, inr, Bool, true, false, ◌&&◌, ◌||◌, not, Option, none, some, List, [], ◌∷◌,
  ◌++◌, arith, ltb, leb, ◌==◌, if◌then◌else◌, ltb→lt, ltb-false, lt→ltb, leb→le, ==_iff, Bool-cases,
  Option-cases, length, get_elem?, get_or, set, take, drop, All, keep_if, length-append, length-set,
  length-take, get_or-set_self, get_or-set_ne,
}
use Prim.Native.Nat.{bit_and, bit_xor}
use nuvix.Memblock.{Region, region_end, page_size}
use nuvix.Fdtable.Refs.{dec_and_test}

-- The flags that this file tests by name, and whether any other one is set.
pub record Page : Type 0 where
  pub reserved : Bool
  pub buddy : Bool
  pub allocated : Bool
  pub other : Bool
  pub order : ℕ
  pub refcount : ℕ

-- `free order` and `nr_free order` are the fields of `free_area[order]`.
pub record Buddy : Type 0 where
  pub pages : ℕ → Page
  pub free : ℕ → List ℕ
  pub nr_free : ℕ → ℕ
  pub managed : ℕ
  pub min_pfn : ℕ
  pub max_pfn : ℕ

abbrev pub order_none : ℕ
order_none = 2 ^ 32 - 1

-- One value of a function replaced.
abbrev pub at {ℓ} : {A : Type ℓ} → (ℕ → A) → ℕ → A → ℕ → A
at f i v j = if i == j then v else f j

abbrev pub with_page : Buddy → ℕ → Page → Buddy
with_page b pfn page = record b { pages = at b.pages pfn page }

abbrev pub pfn_valid : Buddy → ℕ → Bool
pfn_valid b pfn = leb b.min_pfn pfn && ltb pfn b.max_pfn

unfoldable pub add_block : Buddy → (pfn order : ℕ) → Buddy
add_block b pfn order = record b {
  pages = at b.pages pfn (record (b.pages pfn) { buddy = true; order = order });
  free = at b.free order (pfn ∷ b.free order);
  nr_free = at b.nr_free order (b.nr_free order + 1);
}

unfoldable pub del_block : Buddy → (pfn : ℕ) → Buddy
del_block b pfn =
    let order = (b.pages pfn).order in
    record b {
      pages = at b.pages pfn (record (b.pages pfn) { buddy = false; order = order_none });
      free = at b.free order (keep_if (λ p. not (p == pfn)) (b.free order));
      nr_free = at b.nr_free order (b.nr_free order - 1);
    }

-- The loop of `merge_block`, with the orders left above this one.
unfoldable pub merge_block : (above : ℕ) → Buddy → (pfn order : ℕ) → Buddy
merge_block zero b pfn order = add_block b pfn order
merge_block (suc n) b pfn order =
    let buddy_pfn = bit_xor pfn (2 ^ order) in
    let page = b.pages buddy_pfn in
    let rest = merge_block n (del_block b buddy_pfn) (min pfn buddy_pfn) (order + 1) in
    if not (pfn_valid b buddy_pfn) || not page.buddy || not (page.order == order)
    then add_block b pfn order
    else rest

-- The inner loop of `release_range`: the largest order from `order` down that is aligned and fits.
unfoldable pub fitting_order : (order start end : ℕ) → ℕ
fitting_order zero start end = 0
fitting_order (suc k) start end =
    let lower = fitting_order k start end in
    if not (bit_and start (2 ^ suc k - 1) == 0) || ltb (end - start) (2 ^ suc k)
    then lower
    else suc k

-- The second loop of `release_range`; each round releases at least one page.
unfoldable pub release_blocks : (rounds max_order : ℕ) → Buddy → (start end : ℕ) → Buddy
release_blocks zero max_order b start end = b
release_blocks (suc n) max_order b start end =
    let order = fitting_order (max_order - 1) start end in
    let rest = release_blocks n max_order (add_block b start order) (start + 2 ^ order) end in
    if ltb start end then rest else b

unfoldable pub release_range : (max_order : ℕ) → Buddy → (start end : ℕ) → Buddy
release_range max_order b start end =
    let cleared = record b {
      pages = λ pfn.
          if leb start pfn && ltb pfn end
          then record (b.pages pfn) { reserved = false }
          else b.pages pfn;
      managed = b.managed + (end - start);
    } in
    release_blocks (end - start) max_order cleared start end

-- The halves that `alloc_pages` gives back, from a split order down to the one asked for.
unfoldable pub split : (down : ℕ) → Buddy → (pfn order : ℕ) → Buddy
split zero b pfn order = b
split (suc n) b pfn order = split n (add_block b (pfn + 2 ^ (order + n)) (order + n)) pfn order

-- The search of `alloc_pages` from `order + up` on, with the orders left.
unfoldable pub take_block : (left up : ℕ) → Buddy → (order : ℕ) → Option ℕ × Buddy
take_block zero up b order = (none, b)
take_block (suc n) up b order =
    let rest = take_block n (suc up) b order in
    elim (b.free (order + up)) [
      | [] ↦ rest
      | pfn ∷ pfns ↦
          let b' = split up (del_block b pfn) pfn order in
          (
            some pfn,
            with_page b' pfn
                (record (b'.pages pfn) { allocated = true; order = order; refcount = 1 }),
          )
    ]

-- The order is not negative: a negative one is refused like one that is too large.
unfoldable pub alloc_pages : (max_order : ℕ) → Buddy → (order : ℕ) → Option ℕ × Buddy
alloc_pages max_order b order =
    if leb max_order order then (none, b) else take_block (max_order - order) 0 b order

-- Are the `n` pages from `pfn + 1` on the rest of a block?
abbrev pub all_tails : ℕ → Buddy → ℕ → Bool
all_tails zero b pfn = true
all_tails (suc n) b pfn =
    let page = b.pages (pfn + suc n) in
    not (page.reserved || page.buddy || page.allocated || page.other)
    && page.order == order_none
    && page.refcount == 0
    && all_tails n b pfn

-- A page that is none of `mem_map` is given by a frame number out of range.
unfoldable pub allocated_block : (max_order : ℕ) → Buddy → (pfn order : ℕ) → Bool
allocated_block max_order b pfn order =
    let page = b.pages pfn in
    ltb order max_order
    && pfn_valid b pfn
    && bit_and pfn (2 ^ order - 1) == 0
    && leb (2 ^ order) (b.max_pfn - pfn)
    && (page.allocated && not (page.reserved || page.buddy || page.other))
    && page.order == order
    && not (page.refcount == 0)
    && all_tails (2 ^ order - 1) b pfn

unfoldable pub free_pages : (max_order : ℕ) → Buddy → Option ℕ → (order : ℕ) → Buddy
free_pages max_order b none order = b
free_pages max_order b (some pfn) order =
    let (last, count) = dec_and_test (b.pages pfn).refcount in
    let page = record (b.pages pfn) { refcount = count } in
    let released = with_page b pfn (record page { allocated = false; order = order_none }) in
    if not (allocated_block max_order b pfn order)
    then b
    else if last
    then merge_block (max_order - 1 - order) released pfn order
    else with_page b pfn page

-- The loop of `buddy_init` over the reservations; `start` is the first frame not yet looked at.
unfoldable pub release_gaps : (max_order : ℕ) → Buddy → List Region → (start : ℕ) → Buddy
release_gaps max_order b [] start = release_range max_order b start b.max_pfn
release_gaps max_order b (r ∷ rs) start =
    let end = region_end r in
    let first = r.base / page_size in
    let last = end / page_size + (if end % page_size == 0 then 0 else 1) in
    let b' = if ltb start first then release_range max_order b start first else b in
    let later = release_gaps max_order b' rs (min last b.max_pfn) in
    let same_start = release_gaps max_order b rs start in
    if leb last start
    then same_start
    else if leb b.max_pfn first
    then release_range max_order b start b.max_pfn
    else later

unfoldable pub buddy_init : (max_order : ℕ) → Buddy → List Region → Buddy
buddy_init max_order b reserved =
    let empty = record b { free = λ order. if ltb order max_order then [] else b.free order } in
    release_gaps max_order empty reserved b.min_pfn
