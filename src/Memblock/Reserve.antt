-- ===== src/Memblock/Reserve.antt =====
-- `memblock_reserve`: the list stays ordered and apart, and covers just the new range besides what
-- it covered.
use nuvix.Prelude.{
  ◌&&◌, length-keep_if, sym, ap, ◌∙◌, refl, ◌≢◌, leb, ◌||◌, ℕ, suc, ◌+◌, ◌-◌, ◌^◌, ◌≤◌, ◌<◌, ◌≡◌,
  refl, inl, inr, Bool, true, false, ◌||◌, not, List, [], ◌∷◌, arith, ltb, ◌==◌, if◌then◌else◌,
  ltb→lt, ltb-false, Bool-cases, length, drop, All, keep_if, All-keep_if, All-map, keep_if-pass,
}
use nuvix.Errno.{ok, err, enospc}
use nuvix.Memblock.{
  Region, region, Memblock, max_reserved, region_end, touches, Hull, absorb, insert_at_base,
  reserve, same,
}
use nuvix.Memblock.Ranges.{
  IsRegion, Before, IsOrdered, within, covers, kept, absorb-grows, kept-absorb, merged-absorb,
  absorb-lt, covers-absorb,
}

pub record IsValid (mb : Memblock) : Type 0 where
  pub ordered : IsOrdered mb.reserved
  pub few : length mb.reserved ≤ max_reserved

IsOrdered-keep_if : (p : Region → Bool) (rs : List Region) → IsOrdered rs → IsOrdered (keep_if p rs)
IsOrdered-keep_if p [] h = tt
IsOrdered-keep_if p (r ∷ rs) h = elim (Bool-cases (p r)) [
  | inl pass ↦ rw pass (h.0, All-keep_if (Before r) p rs h.1, IsOrdered-keep_if p rs h.2)
  | inr drop ↦ rw drop (IsOrdered-keep_if p rs h.2)
]

All-insert {κ} :
    (P : Region → Type κ) (new : Region) (rs : List Region)
    → P new
    → All P rs
    → All P (insert_at_base new rs)
unfolding insert_at_base
All-insert P new [] h k = (h, k)
All-insert P new (r ∷ rs) h k = elim (Bool-cases (ltb r.base new.base)) [
  | inl lower ↦ rw lower (k.0, All-insert P new rs h k.1)
  | inr here ↦ rw here (h, k)
]

pub covers-insert :
    (g : Bool) (x : ℕ) (new : Region) (rs : List Region)
    → covers (insert_at_base new rs) g x ≡ (within g x new || covers rs g x)
unfolding insert_at_base
covers-insert g x new [] = refl
covers-insert g x new (r ∷ rs) = ground (arith, covers-insert g x new rs)

length-insert : (new : Region) (rs : List Region) → length (insert_at_base new rs) ≡ suc (length rs)
unfolding insert_at_base
length-insert new [] = refl
length-insert new (r ∷ rs) = ground (arith, length-insert new rs)

-- A region that the new one does not touch.
abbrev Clear : Region → Region → Type 0
Clear new r = touches new.no_map new.base (region_end new) r ≡ false

Before-new :
    (new r : Region) → IsRegion new → IsRegion r → Clear new r → r.base < new.base → Before r new
Before-new new r v w clear lt = ground arith

new-Before :
    (new r : Region) → IsRegion new → IsRegion r → Clear new r → new.base ≤ r.base → Before new r
new-Before new r v w clear le = ground arith

All-new-Before :
    (new : Region) (b : ℕ) (rs : List Region)
    → IsRegion new
    → new.base ≤ b
    → All (λ r. b ≤ r.base) rs
    → All (Clear new) rs
    → IsOrdered rs
    → All (Before new) rs
All-new-Before new b [] v le low clear ordered = tt
All-new-Before new b (r ∷ rs) v le low clear ordered = (
  new-Before new r v ordered.0 clear.0 (omega (arith, low.0)),
  All-new-Before new b rs v le low.1 clear.1 ordered.2,
)

pub insert-IsOrdered :
    (new : Region) (rs : List Region)
    → IsRegion new
    → All (Clear new) rs
    → IsOrdered rs
    → IsOrdered (insert_at_base new rs)
unfolding insert_at_base
insert-IsOrdered new [] v clear ordered = (v, tt, tt)
insert-IsOrdered new (r ∷ rs) v clear ordered = elim (Bool-cases (ltb r.base new.base)) [
  | inl lower ↦ rw lower (
    ordered.0,
    All-insert (Before r) new rs
        (Before-new new r v ordered.0 clear.0 (ltb→lt r.base new.base lower)) ordered.1,
    insert-IsOrdered new rs v clear.1 ordered.2,
  )
  | inr here ↦
      let le = ltb-false r.base new.base here in
      rw here (
        v,
        (
          new-Before new r v ordered.0 clear.0 le,
          All-new-Before new r.base rs v le
              (All-map (Before r) (λ s. r.base ≤ s.base) rs (λ s b. b.0) ordered.1) clear.1
              ordered.2,
        ),
        ordered,
      )
]

module _ (mb : Memblock) (base size : ℕ) (no_map : Bool) where
  abbrev start : Hull
  start = record { base = base; end = base + size; merged = 0 }

  abbrev hull : Hull
  hull = absorb no_map mb.reserved start

  abbrev fresh : Region
  fresh = region hull.base (hull.end - hull.base) no_map

  module _ (valid : IsValid mb) (pos : 0 < size) (fits : base + size < 2 ^ 64) where
    hull-IsRegion : IsRegion fresh × (region_end fresh ≡ hull.end)
    hull-IsRegion = omega (
      arith,
      absorb-grows no_map mb.reserved start,
      absorb-lt no_map mb.reserved start fits valid.ordered,
    )

    still : kept no_map hull mb.reserved ≡ kept no_map start mb.reserved
    still = kept-absorb no_map mb.reserved start (omega arith) valid.ordered

    clear : All (Clear fresh) (kept no_map hull mb.reserved)
    clear =
        All-map (λ r. not (touches no_map hull.base hull.end r) ≡ true) (Clear fresh)
          (kept no_map hull mb.reserved) (λ r h. ground (arith, hull-IsRegion.1))
          (keep_if-pass (λ r. not (touches no_map hull.base hull.end r)) mb.reserved)

    -- What is left of the call when its first two tests are passed.
    reserve_eq : reserve mb base size no_map ≡ (
        if length (kept no_map hull mb.reserved) == max_reserved
        then err enospc
        else ok (record mb { reserved = insert_at_base fresh (kept no_map hull mb.reserved) }))
    unfolding reserve
    reserve_eq =
        let count = merged-absorb no_map mb.reserved start (omega arith) valid.ordered in
        let zero_size : (size == 0) ≡ false = ground arith in
        let no_overflow : ltb (2 ^ 64 - 1 - base) size ≡ false = ground arith in
        let rest : length mb.reserved - hull.merged ≡ length (kept no_map hull mb.reserved) =
          rw still (omega (arith, count)) in
        rw (zero_size, no_overflow, rest)

    inserted :
        {mb' : Memblock}
        → reserve mb base size no_map ≡ ok mb'
        → (length (kept no_map hull mb.reserved) ≢ max_reserved)
          × (mb' ≡ record mb { reserved = insert_at_base fresh (kept no_map hull mb.reserved) })
    inserted {mb'} e = elim (Bool-cases (length (kept no_map hull mb.reserved) == max_reserved)) [
      | inl full ↦ let f = sym e ∙ reserve_eq ∙ pick full in cc
      | inr room ↦ let f = sym e ∙ reserve_eq ∙ pick room in (ground arith, cc)
    ]
      where
        pick :
            {b : Bool}
            → (length (kept no_map hull mb.reserved) == max_reserved) ≡ b
            → (if length (kept no_map hull mb.reserved) == max_reserved
                then err enospc
                else ok
                    (record mb { reserved = insert_at_base fresh (kept no_map hull mb.reserved) }))
              ≡ (if b
                  then err enospc
                  else ok (record mb {
                    reserved = insert_at_base fresh (kept no_map hull mb.reserved);
                  }))
        pick p = rw p

reserve_args :
    (mb mb' : Memblock) (base size : ℕ) (no_map : Bool)
    → base < 2 ^ 64
    → reserve mb base size no_map ≡ ok mb'
    → (0 < size) × (base + size < 2 ^ 64)
unfolding reserve
reserve_args mb mb' base size no_map lt e = (ground arith, ground arith)

-- A reservation that succeeds leaves a valid table: sorted by base, with a gap between any two
-- ranges of one flag, and of at most 32 entries. The RAM range is not changed.
pub reserve-IsValid :
    (mb mb' : Memblock) (base size : ℕ) (no_map : Bool)
    → base < 2 ^ 64
    → IsValid mb
    → reserve mb base size no_map ≡ ok mb'
    → IsValid mb' × (mb'.memory ≡ mb.memory)
reserve-IsValid mb mb' base size no_map lt valid e =
    let args = reserve_args mb mb' base size no_map lt e in
    let done = inserted mb base size no_map valid args.0 args.1 e in
    let h = hull mb base size no_map in
    let rest = kept no_map h mb.reserved in
    let new = fresh mb base size no_map in
    rw done.1 (
      record {
        ordered =
            insert-IsOrdered new rest (hull-IsRegion mb base size no_map valid args.0 args.1).0
              (clear mb base size no_map valid args.0 args.1)
              (IsOrdered-keep_if (λ r. not (touches no_map h.base h.end r)) mb.reserved
                valid.ordered);
        few = omega (
          arith,
          length-insert new rest,
          valid.few,
          done.0,
          length-keep_if (λ r. not (touches no_map h.base h.end r)) mb.reserved,
        );
      },
      refl,
    )

-- After a reservation that succeeds, the addresses reserved with a flag are those of before, and,
-- for the flag of the call, those of the new range: nothing is lost and nothing else is added,
-- whatever ranges are merged.
pub reserve-covers :
    (mb mb' : Memblock) (base size : ℕ) (no_map : Bool)
    → base < 2 ^ 64
    → IsValid mb
    → reserve mb base size no_map ≡ ok mb'
    → (g : Bool) (x : ℕ)
    → covers mb'.reserved g x
      ≡ (same no_map g && (leb base x && ltb x (base + size)) || covers mb.reserved g x)
reserve-covers mb mb' base size no_map lt valid e g x =
    let args = reserve_args mb mb' base size no_map lt e in
    let done = inserted mb base size no_map valid args.0 args.1 e in
    let s = start mb base size no_map in
    let new = fresh mb base size no_map in
    let h = hull mb base size no_map in
    let all = covers-absorb no_map g x mb.reserved s (omega arith) valid.ordered in
    let end_eq = (hull-IsRegion mb base size no_map valid args.0 args.1).1 in
    ap (λ (k : Memblock). covers k.reserved g x) done.1
    ∙ covers-insert g x new (kept no_map h mb.reserved)
    ∙ ap (λ e. same no_map g && (leb h.base x && ltb x e) || covers (kept no_map h mb.reserved) g x)
        end_eq
    ∙ ap (λ l. same no_map g && (leb h.base x && ltb x h.end) || covers l g x)
        (still mb base size no_map valid args.0 args.1)
    ∙ all

-- A valid range is reserved whenever the table is not full: the range is not empty, does not wrap,
-- and fewer than 32 entries are in use.
pub reserve_total :
    (mb : Memblock) (base size : ℕ) (no_map : Bool)
    → IsValid mb
    → 0 < size
    → base + size < 2 ^ 64
    → length mb.reserved < max_reserved
    → (mb' : Memblock) × (reserve mb base size no_map ≡ ok mb')
reserve_total mb base size no_map valid pos fits room =
    let h = hull mb base size no_map in
    let rest = kept no_map h mb.reserved in
    let few = length-keep_if (λ r. not (touches no_map h.base h.end r)) mb.reserved in
    let no_more : (length rest == max_reserved) ≡ false = ground (arith, few) in
    (
      record mb { reserved = insert_at_base (fresh mb base size no_map) rest },
      reserve_eq mb base size no_map valid pos fits ∙ rw no_more refl,
    )
