-- ===== src/Memblock/Ranges.antt =====
-- The order that the list of reservations keeps, and what the first loop of `memblock_reserve`
-- computes over such a list.
use nuvix.Prelude.{
  ◌∙◌, sym, ap, refl, Bool-cases, true, ◌||◌, keep_if, min, max, not, length, ℕ, ◌+◌, ◌^◌, ◌≤◌, ◌<◌,
  ◌≡◌, ◌⊎◌, inl, inr, Bool, false, ◌&&◌, ◌||◌, List, [], ◌∷◌, arith, ltb, leb, All,
}
use nuvix.Memblock.{Region, region_end, same, touches, Hull, widen, absorb, true, keep_if, not}

-- A region is not empty and ends within 64 bits.
pub record IsRegion (r : Region) : Type 0 where
  pub size_pos : 0 < r.size
  pub fits : r.base + r.size < 2 ^ 64

-- `r` may stand before `s`: it starts no later, and if both have the same flag there is a gap
-- between them.
abbrev pub Before : Region → Region → Type 0
Before r s = (r.base ≤ s.base) × ((same r.no_map s.no_map ≡ false) ⊎ (region_end r < s.base))

abbrev pub IsOrdered : List Region → Type 0
IsOrdered [] = Unit
IsOrdered (r ∷ rs) = IsRegion r × All (Before r) rs × IsOrdered rs

-- Is the address reserved with this flag?
abbrev pub within : Bool → ℕ → Region → Bool
within g x r = same r.no_map g && (leb r.base x && ltb x (region_end r))

abbrev pub covers : List Region → Bool → ℕ → Bool
covers [] g x = false
covers (r ∷ rs) g x = within g x r || covers rs g x

or_left : (a k b c w d : Bool) → (a || k) ≡ (b || c) → b ≡ (d || w) → (a || k) ≡ (d || (w || c))
or_left a k b c w d p q = ground arith

or_middle : (a k b c w d : Bool) → (a || k) ≡ (b || c) → b ≡ d → (a || (w || k)) ≡ (d || (w || c))
or_middle a k b c w d p q = ground arith

module _ (f : Bool) where
  abbrev Apart : Hull → Hull → Region → Type 0
  Apart h k s = touches f h.base h.end s ≡ touches f k.base k.end s

  -- A region apart from the absorbed one touches the wider range only if it touched before.
  touches-widen :
      (h : Hull) (r s : Region)
      → h.base ≤ h.end
      → IsRegion r
      → IsRegion s
      → Before r s ⊎ Before s r
      → Apart (widen f h r) h s
  unfolding widen
  touches-widen h r s le v w (inl (o, inl d)) = ground arith
  touches-widen h r s le v w (inl (o, inr d)) = ground arith
  touches-widen h r s le v w (inr (o, inl d)) = ground arith
  touches-widen h r s le v w (inr (o, inr d)) = ground arith

  widen_le : (h : Hull) (r : Region) → h.base ≤ h.end → (widen f h r).base ≤ (widen f h r).end
  unfolding widen
  widen_le h r le = ground arith

  widen_miss : (h : Hull) (r : Region) → touches f h.base h.end r ≡ false → widen f h r ≡ h
  unfolding widen
  widen_miss h r miss = rw miss

  widen_hit :
      (h : Hull) (r : Region)
      → touches f h.base h.end r ≡ true
      → widen f h r
        ≡ record { base = min h.base r.base; end = max h.end (region_end r); merged = h.merged + 1 }
  unfolding widen
  widen_hit h r hit = rw hit

  -- Whatever contains the widened range touches the region.
  wide :
      (h k : Hull) (r : Region)
      → k.base ≤ (widen f h r).base
      → (widen f h r).end ≤ k.end
      → IsRegion r
      → touches f h.base h.end r ≡ true
      → touches f k.base k.end r ≡ true
  unfolding widen
  wide h k r lo hi v hit = ground arith

  -- The absorbed range grows.
  pub absorb-grows :
      (rs : List Region) (h : Hull)
      → ((absorb f rs h).base ≤ h.base) × (h.end ≤ (absorb f rs h).end)
  unfolding absorb widen
  absorb-grows [] h = omega arith
  absorb-grows (r ∷ rs) h = ground (arith, absorb-grows rs (widen f h r))

  -- The absorbed range ends within 64 bits.
  pub absorb-lt :
      (rs : List Region) (h : Hull) → h.end < 2 ^ 64 → IsOrdered rs → (absorb f rs h).end < 2 ^ 64
  unfolding absorb widen
  absorb-lt [] h lt ordered = lt
  absorb-lt (r ∷ rs) h lt ordered =
      let v = ordered.0 in absorb-lt rs (widen f h r) (ground (arith, v.fits)) ordered.2

  -- A region before all of the list touches the final range only if it touches the first one.
  touches-absorb :
      (rs : List Region) (h : Hull) (s : Region)
      → h.base ≤ h.end
      → IsRegion s
      → All (Before s) rs
      → IsOrdered rs
      → Apart (absorb f rs h) h s
  unfolding absorb
  touches-absorb [] h s le w before ordered = refl
  touches-absorb (r ∷ rs) h s le w before ordered =
      touches-absorb rs (widen f h r) s (widen_le h r le) w before.1 ordered.2
      ∙ touches-widen h r s le ordered.0 w (inr before.0)

  -- The same for the regions of a list behind the absorbed one.
  All-touches-widen :
      (h : Hull) (r : Region) (rs : List Region)
      → h.base ≤ h.end
      → IsRegion r
      → All (Before r) rs
      → IsOrdered rs
      → All (Apart (widen f h r) h) rs
  All-touches-widen h r [] le v before ordered = tt
  All-touches-widen h r (s ∷ rs) le v before ordered = (
    touches-widen h r s le v ordered.0 (inl before.0),
    All-touches-widen h r rs le v before.1 ordered.2,
  )

  All-trans :
      (h k l : Hull) (rs : List Region)
      → All (Apart h k) rs
      → All (Apart k l) rs
      → All (Apart h l) rs
  All-trans h k l [] a b = tt
  All-trans h k l (r ∷ rs) a b = (a.0 ∙ b.0, All-trans h k l rs a.1 b.1)

  head-absorb :
      (rs : List Region) (h : Hull) (r : Region)
      → h.base ≤ h.end
      → IsRegion r
      → All (Before r) rs
      → IsOrdered rs
      → Apart (absorb f rs (widen f h r)) h r
  head-absorb rs h r le v before ordered = elim (Bool-cases (touches f h.base h.end r)) [
    | inl hit ↦ hit_case hit
    | inr miss ↦
        touches-absorb rs (widen f h r) r (widen_le h r le) v before ordered ∙ miss_case miss
  ]
    where
      hit_case : touches f h.base h.end r ≡ true → Apart (absorb f rs (widen f h r)) h r
      hit_case hit =
          let grows = absorb-grows rs (widen f h r) in
          wide h (absorb f rs (widen f h r)) r grows.0 grows.1 v hit ∙ sym hit

      miss_case : touches f h.base h.end r ≡ false → Apart (widen f h r) h r
      miss_case miss = ap (λ (k : Hull). touches f k.base k.end r) (widen_miss h r miss)

  -- The test that the second loop makes with the final range gives what it gives with the first.
  pub All-touches-absorb :
      (rs : List Region) (h : Hull)
      → h.base ≤ h.end
      → IsOrdered rs
      → All (Apart (absorb f rs h) h) rs
  unfolding absorb
  All-touches-absorb [] h le ordered = tt
  All-touches-absorb (r ∷ rs) h le ordered = (
    head-absorb rs h r le ordered.0 ordered.1 ordered.2,
    All-trans (absorb f rs (widen f h r)) (widen f h r) h rs
        (All-touches-absorb rs (widen f h r) (widen_le h r le) ordered.2)
        (All-touches-widen h r rs le ordered.0 ordered.1 ordered.2),
  )

  -- The regions that the second loop keeps.
  abbrev pub kept : Hull → List Region → List Region
  kept h rs = keep_if (λ r. not (touches f h.base h.end r)) rs

  kept_ext : (h k : Hull) (rs : List Region) → All (Apart h k) rs → kept h rs ≡ kept k rs
  kept_ext h k [] same_tests = refl
  kept_ext h k (r ∷ rs) same_tests = elim (Bool-cases (touches f k.base k.end r)) [
    | inl hit ↦ rw (same_tests.0, hit) (kept_ext h k rs same_tests.1)
    | inr miss ↦ rw (same_tests.0, miss) (ap (λ l. r ∷ l) (kept_ext h k rs same_tests.1))
  ]

  pub kept-absorb :
      (rs : List Region) (h : Hull)
      → h.base ≤ h.end
      → IsOrdered rs
      → kept (absorb f rs h) rs ≡ kept h rs
  kept-absorb rs h le ordered = kept_ext (absorb f rs h) h rs (All-touches-absorb rs h le ordered)

  kept-widen :
      (h : Hull) (r : Region) (rs : List Region)
      → h.base ≤ h.end
      → IsOrdered (r ∷ rs)
      → kept (widen f h r) rs ≡ kept h rs
  kept-widen h r rs le ordered =
      kept_ext (widen f h r) h rs (All-touches-widen h r rs le ordered.0 ordered.1 ordered.2)

  -- The count of the first loop is the number of regions that the second one drops.
  pub merged-absorb :
      (rs : List Region) (h : Hull)
      → h.base ≤ h.end
      → IsOrdered rs
      → (absorb f rs h).merged + length (kept h rs) ≡ h.merged + length rs
  unfolding absorb
  merged-absorb [] h le ordered = refl
  merged-absorb (r ∷ rs) h le ordered =
      let ih = merged-absorb rs (widen f h r) (widen_le h r le) ordered.2 in
      let e = kept-widen h r rs le ordered in
      elim (Bool-cases (touches f h.base h.end r)) [
        | inl hit ↦
            rw hit (omega (arith, rw e at ih, ap (λ (k : Hull). k.merged) (widen_hit h r hit)))
        | inr miss ↦
            rw miss (omega (arith, rw e at ih, ap (λ (k : Hull). k.merged) (widen_miss h r miss)))
      ]

  -- The range as a set of addresses with this flag.
  abbrev pub spans : Bool → ℕ → Hull → Bool
  spans g x h = same f g && (leb h.base x && ltb x h.end)

  spans-widen :
      (g : Bool) (x : ℕ) (h : Hull) (r : Region)
      → h.base ≤ h.end
      → IsRegion r
      → touches f h.base h.end r ≡ true
      → spans g x (widen f h r) ≡ (spans g x h || within g x r)
  unfolding widen
  spans-widen g x h r le v hit = ground arith

  -- The final range and the kept regions cover what the first range and all regions cover.
  pub covers-absorb :
      (g : Bool) (x : ℕ) (rs : List Region) (h : Hull)
      → h.base ≤ h.end
      → IsOrdered rs
      → (spans g x (absorb f rs h) || covers (kept h rs) g x) ≡ (spans g x h || covers rs g x)
  unfolding absorb
  covers-absorb g x [] h le ordered = refl
  covers-absorb g x (r ∷ rs) h le ordered =
      let ih = covers-absorb g x rs (widen f h r) (widen_le h r le) ordered.2 in
      let e = kept-widen h r rs le ordered in
      elim (Bool-cases (touches f h.base h.end r)) [
        | inl hit ↦ rw hit (
            or_left (spans g x (absorb f rs (widen f h r))) (covers (kept h rs) g x)
              (spans g x (widen f h r)) (covers rs g x) (within g x r) (spans g x h) (rw e at ih)
              (spans-widen g x h r le ordered.0 hit))
        | inr miss ↦ rw miss (
            or_middle (spans g x (absorb f rs (widen f h r))) (covers (kept h rs) g x)
              (spans g x (widen f h r)) (covers rs g x) (within g x r) (spans g x h) (rw e at ih)
              (ap (spans g x) (widen_miss h r miss)))
      ]
