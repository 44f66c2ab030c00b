-- ===== src/Memblock.antt =====
-- mm/memblock.c and include/nuvix/memblock.h: the boot-time list of reserved physical ranges, and
-- the allocator that takes page ranges between them. `memblock.reserved[0 .. nr_reserved)` is a
-- list, so `nr_reserved` is its length.
pub mod Ranges
pub mod Reserve
pub mod Early
mod Tests
use Prim.Native.Nat.{bit_and}
use nuvix.Prelude.{
  ℕ, zero, suc, ◌+◌, ◌-◌, ◌*◌, ◌/◌, ◌%◌, ◌^◌, ◌≤◌, ◌<◌, min, max, ◌≡◌, refl, sym, ap, ◌∙◌, fun_ext,
  ◌≢◌, ◌↔◌, ◌⊎◌, inl, inr, Bool, true, false, ◌&&◌, ◌||◌, not, Option, none, some, List, [], ◌∷◌,
  ◌++◌, arith, ltb, leb, ◌==◌, if◌then◌else◌, ltb→lt, ltb-false, lt→ltb, leb→le, ==_iff, Bool-cases,
  Option-cases, length, get_elem?, get_or, set, take, drop, All, keep_if, length-append, length-set,
  length-take, get_or-set_self, get_or-set_ne,
}
use nuvix.Prelude.Pow.{add64, sub64}
use nuvix.Errno.{Result, ok, err, einval, eoverflow, enospc, enomem, eopnotsupp}

-- MEMBLOCK_MAX_RESERVED and PAGE_SIZE
abbrev pub max_reserved : ℕ
max_reserved = 32

abbrev pub page_size : ℕ
page_size = 4096

pub record Region : Type 0 where
  pub base : ℕ
  pub size : ℕ
  pub no_map : Bool

pub record Memblock : Type 0 where
  pub memory : Region
  pub reserved : List Region

abbrev pub region : ℕ → ℕ → Bool → Region
region b n f = record { base = b; size = n; no_map = f }

-- region->base + region->size
abbrev pub region_end : Region → ℕ
region_end r = add64 r.base r.size

abbrev pub same : Bool → Bool → Bool
same true b = b
same false b = not b

-- The negation of the test by which both loops `continue`.
abbrev pub touches : Bool → (base end : ℕ) → Region → Bool
touches no_map base end r = same r.no_map no_map && (leb r.base end && leb base (region_end r))

pub record Hull : Type 0 where
  pub base : ℕ
  pub end : ℕ
  pub merged : ℕ

-- One round of the first loop: the range is widened to a region that it touches.
pub widen : Bool → Hull → Region → Hull
widen no_map h r =
    if touches no_map h.base h.end r
    then record { base = min h.base r.base; end = max h.end (region_end r); merged = h.merged + 1 }
    else h

pub absorb : Bool → List Region → Hull → Hull
absorb no_map [] h = h
absorb no_map (r ∷ rs) h = absorb no_map rs (widen no_map h r)

-- The `while` loop and the move: in front of the first region that does not start below.
pub insert_at_base : Region → List Region → List Region
insert_at_base new [] = new ∷ []
insert_at_base new (r ∷ rs) =
    if ltb r.base new.base then r ∷ insert_at_base new rs else new ∷ r ∷ rs

pub reserve : Memblock → (base size : ℕ) → (no_map : Bool) → Result Memblock
reserve mb base size no_map =
    let h = absorb no_map mb.reserved (record { base = base; end = base + size; merged = 0 }) in
    let kept = keep_if (λ r. not (touches no_map h.base h.end r)) mb.reserved in
    if size == 0
    then err einval
    else if ltb (2 ^ 64 - 1 - base) size
    then err eoverflow
    else if length mb.reserved - h.merged == max_reserved
    then err enospc
    else ok (record mb { reserved = insert_at_base (region h.base (h.end - h.base) no_map) kept })

-- ALIGN_UP(x, a) on 64-bit words
pub align_up : ℕ → ℕ → ℕ
align_up x a = bit_and (add64 x (a - 1)) (2 ^ 64 - 1 - (a - 1))

-- The head of the loop of `early_alloc`: the tests, and the aligned base.
pub place_at : (limit size align base : ℕ) → Result ℕ
place_at limit size align base =
    let base' = align_up base align in
    if leb limit base || ltb (2 ^ 64 - 1 - base) (align - 1)
    then err enomem
    else if leb limit base' || ltb (limit - base') size
    then err enomem
    else ok base'

-- The loop from a region on; the list ends where `i == nr_reserved`.
pub find_gap : (limit size align : ℕ) → List Region → ℕ → Result ℕ
unfolding place_at
find_gap limit size align [] base = place_at limit size align base
find_gap limit size align (r ∷ rs) base = elim (place_at limit size align base) [
  | err e ↦ err e
  | ok b ↦
      let rest = find_gap limit size align rs (if leb (region_end r) b then b else region_end r) in
      if not (leb (region_end r) b) && leb (add64 b size) r.base then ok b else rest
]

-- The result is the address that goes through `paddr`.
pub early_alloc : Memblock → (size align : ℕ) → Result (ℕ × Memblock)
early_alloc mb size align =
    let pages = align_up size page_size in
    let gap =
      find_gap (region_end mb.memory) pages (max align page_size) mb.reserved mb.memory.base in
    if ltb (2 ^ 64 - 1 - (page_size - 1)) size then err eoverflow else elim gap [
      | err e ↦ err e
      | ok p ↦ elim (reserve mb p pages false) [ err e ↦ err e | ok mb' ↦ ok (p, mb') ]
    ]
