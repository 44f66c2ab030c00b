-- ===== src/Memblock/Tests.antt =====
-- Runs of the boot-time reservations, and their theorems at a table of three ranges.
use nuvix.Prelude.{
  ℕ, ◌+◌, ◌%◌, ◌^◌, ◌≤◌, ◌<◌, ◌≡◌, refl, inl, inr, Bool, true, false, ◌&&◌, ◌||◌, [], ◌∷◌, arith,
  ltb, leb,
}
use nuvix.Errno.{ok, err, einval}
use nuvix.Memblock.{
  region, Memblock, page_size, same, widen, absorb, insert_at_base, reserve, align_up, place_at,
  find_gap, early_alloc,
}
use nuvix.Memblock.Ranges.{covers}
use nuvix.Memblock.Reserve.{IsValid, reserve-IsValid, reserve-covers}
use nuvix.Memblock.Early.{IsAligned, align_up_lem, early_alloc_lem}

abbrev table : Memblock
table = record {
  memory = region 0x1000 0x9000 false;
  reserved = region 0x1000 0x800 false ∷ region 0x1400 0x100 true ∷ region 0x3000 0x1000 false ∷ [];
}

table-IsValid : IsValid table
table-IsValid = record {
  ordered = (
    omega arith,
    ((omega arith, inl refl), ((omega arith, inr (omega arith)), tt)),
    (omega arith, ((omega arith, inl refl), tt), (omega arith, tt, tt)),
  );
  few = omega arith;
}

-- A range that joins the first and the last one.
abbrev joined : Memblock
joined = record table { reserved = region 0x1000 0x3000 false ∷ region 0x1400 0x100 true ∷ [] }

reserve_joins : reserve table 0x1800 0x1800 false ≡ ok joined
unfolding reserve absorb widen insert_at_base
reserve_joins = refl

reserve_refuses : reserve table 5 0 false ≡ err einval
unfolding reserve
reserve_refuses = refl

abbrev after : Memblock
after = record table {
  reserved = region 0x1000 0x800 false ∷ region 0x1400 0x100 true ∷ region 0x3000 0x3000 false ∷ [];
}

early_alloc_runs : early_alloc table 0x1001 0x1000 ≡ ok (0x4000, after)
unfolding early_alloc find_gap place_at align_up reserve absorb widen insert_at_base
early_alloc_runs = refl

reserve-IsValid_example : IsValid joined × (joined.memory ≡ table.memory)
reserve-IsValid_example =
    reserve-IsValid table joined 0x1800 0x1800 false (omega arith) table-IsValid reserve_joins

reserve-covers_example : covers joined.reserved false 0x2000 ≡ (
    same false false && (leb 0x1800 0x2000 && ltb 0x2000 0x3000)
    || covers table.reserved false 0x2000)
reserve-covers_example =
    reserve-covers table joined 0x1800 0x1800 false (omega arith) table-IsValid reserve_joins false
      0x2000

align_up_lem_example : IsAligned 0x1001 (2 ^ 12) (align_up 0x1001 (2 ^ 12))
align_up_lem_example = align_up_lem 0x1001 12 (omega arith) (omega arith)

early_alloc_lem_example :
    IsValid after
    × ((0x4000 % 2 ^ 12 ≡ 0) × (0x1000 ≤ 0x4000) × (0x4000 + align_up 0x1001 page_size ≤ 0xa000))
    × IsAligned 0x1001 page_size (align_up 0x1001 page_size)
    × ((g : Bool) (x : ℕ)
        → 0x4000 ≤ x
        → x < 0x4000 + align_up 0x1001 page_size
        → covers table.reserved g x ≡ false)
    × ((g : Bool) (x : ℕ)
        → covers after.reserved g x ≡ (
            same false g && (leb 0x4000 x && ltb x (0x4000 + align_up 0x1001 page_size))
            || covers table.reserved g x))
early_alloc_lem_example =
    early_alloc_lem table after 0x1001 12 0x4000 (omega arith) table-IsValid (omega arith)
      (omega arith) early_alloc_runs
