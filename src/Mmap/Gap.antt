-- ===== src/Mmap/Gap.antt =====
-- That `find_unmapped` of mm/mmap.c finds a free range.
use nuvix.Prelude.{
  ℕ, zero, suc, ◌+◌, ◌-◌, ◌*◌, ◌/◌, ◌≤◌, ◌<◌, ◌≡◌, refl, sym, ap, ◌∙◌, ◌⊎◌, inl, inr, Bool, true,
  false, ◌&&◌, Option, none, some, List, [], ◌∷◌, ◌++◌, arith, ltb, leb, if◌then◌else◌, Bool-cases,
  length, All, length-append, All-map, ◌^◌, ◌%◌,
}
use mathlib.Core.Path.{subst}
use mathlib.Core.List.{append_assoc, append-nil}
use nuvix.Rbtree.{node, Way}
use nuvix.Rbtree.Order.{to_list, before}
use nuvix.Rbtree.Walk.{Precedes, rb_last, rb_last-Precedes, rb_prev, rb_next-rb_prev}
use nuvix.Vma.{Vma, Areas, Place, page_size, uvaddr_start, uvaddr_end, vma_find_intersection}
use nuvix.Vma.Areas.{IsApart, IsApart-middle, first_hit, All-append, All-split}
use nuvix.Vma.Find.{hit, intersects, vma_find-first_hit}
use nuvix.Mmap.Bounds.{IsRoom, range_allowed-IsRoom}
use nuvix.Mmap.{stack_bottom, range_allowed, gap_below, hint_fits, find_unmapped}

-- No area meets the range.
abbrev pub IsFree : ℕ → ℕ → List Vma → Type 0
IsFree a len vs = All (λ v. intersects a (a + len) v ≡ false) vs

-- The address is zero, or the range from it is free and lies where the user may map.
abbrev pub Chosen : ℕ → ℕ → List Vma → Option ℕ → Type 0
Chosen stack len vs o =
    (a : ℕ) × (o ≡ some a) × ((a ≡ 0) ⊎ (IsFree a len vs × IsRoom stack a (a + len)))

first_hit-IsFree :
    (a len : ℕ) (vs : List Vma) → first_hit (intersects a (a + len)) vs ≡ none → IsFree a len vs
first_hit-IsFree a len [] e = tt
first_hit-IsFree a len (v ∷ vs) e = elim (Bool-cases (intersects a (a + len) v)) [
  | inl h ↦
      ground (
        arith,
        subst (λ b. (if b then some v else first_hit (intersects a (a + len)) vs) ≡ none) h e,
      )
  | inr h ↦ (
    h,
    first_hit-IsFree a len vs
        (subst (λ b. (if b then some v else first_hit (intersects a (a + len)) vs) ≡ none) h e),
  )
]

unmet :
    (b : Bool) (o : Option Place)
    → (b && elim o [ none ↦ true | some p ↦ false ]) ≡ true
    → (b ≡ true) × (o ≡ none)
unmet true none e = (refl, refl)
unmet true (some p) e = ground (arith, e)
unmet false none e = ground (arith, e)
unmet false (some p) e = ground (arith, e)

both_true : (a b : Bool) → (a && b) ≡ true → b ≡ true
both_true true b e = e
both_true false b e = ground (arith, e)

module _ (stack len : ℕ) where
  allowed :
      (a end : ℕ)
      → uvaddr_start ≤ a
      → a ≤ end
      → end ≤ stack_bottom stack - page_size
      → IsRoom stack a end
  allowed a end lo up hi = (lo, omega (arith, hi), inl (omega (arith, lo, up, hi)))

  -- The top of the loop: below the guard page of the stack, and above the start of the user's range.
  abbrev IsTop : ℕ → List Vma → Type 0
  IsTop top rest =
      (uvaddr_start ≤ top) × (top ≤ stack_bottom stack - page_size) × All (λ u. top ≤ u.start) rest

  -- Room below the top and above every area before it.
  take_below :
      (top : ℕ) (ys rest : List Vma)
      → IsTop top rest
      → All (λ u. u.end + len ≤ top) ys
      → uvaddr_start + len ≤ top
      → Chosen stack len (ys ++ rest) (some (top - len))
  take_below top ys rest (lo, hi, over) under room =
      let back : top - len + len ≡ top = omega (arith, room) in
      (
        top - len,
        refl,
        inr (
          All-append _ ys rest (All-map _ _ ys (λ u e. ground (arith, e)) under)
              (All-map _ _ rest (λ u e. ground (arith, e, room)) over),
          allowed (top - len) (top - len + len) (omega (arith, room)) (omega arith)
              (omega (arith, room, hi)),
        ),
      )

  bottom-Chosen :
      (n top : ℕ) (rest : List Vma)
      → IsTop top rest
      → Chosen stack len rest (gap_below stack (suc n) none top len)
  unfolding gap_below
  bottom-Chosen n top rest (lo, hi, over) =
      elim (Bool-cases (leb len ((top + 2 ^ 64 - uvaddr_start) % 2 ^ 64))) [
        | inl k ↦ rw k (take_below top [] rest (lo, hi, over) tt (ground (arith, k, lo, hi)))
        | inr k ↦ rw k (0, refl, inl refl)
      ]

  round-Chosen :
      (n : ℕ) (c : Bool) (l : Areas) (y : Vma) (r : Areas) (fs : Way Vma) (top : ℕ)
      (ys rest : List Vma)
      → IsApart (ys ++ y ∷ rest)
      → uvaddr_start ≤ y.start
      → IsTop top rest
      → ((top' : ℕ)
          → IsTop top' (y ∷ rest)
          → Chosen stack len
              (ys ++ y ∷ rest)
              (gap_below stack n (rb_prev (node c l y r) fs) top' len))
      → Chosen stack len
          (ys ++ y ∷ rest)
          (gap_below stack (suc n) (some (node c l y r, fs)) top len)
  unfolding gap_below
  round-Chosen n c l y r fs top ys rest h base (lo, hi, over) go =
      let (ay, below, w, above, ar) = IsApart-middle ys y rest h in
      elim (Bool-cases (leb top y.start)) [
        | inl e ↦ rw e (go top (lo, hi, (ground (arith, e), over)))
        | inr e ↦ elim (Bool-cases (leb y.end top && leb len (top - y.end))) [
          | inl k ↦
              let room : y.end + len ≤ top = ground (arith, k) in
              let under : All (λ u. u.end + len ≤ top) ys =
                All-map _ _ ys (λ u m. omega (arith, m, w, room)) below in
              let chosen =
                take_below top (ys ++ y ∷ []) rest (lo, hi, over)
                  (All-append _ ys (y ∷ []) under (room, tt)) (omega (arith, room, w, base)) in
              rw (e, k)
                (subst (λ vs. Chosen stack len vs (some (top - len)))
                  (append_assoc ys (y ∷ []) rest) chosen)
          | inr k ↦
              rw (e, k)
                (go y.start (
                  base,
                  ground (arith, e, hi),
                  (omega arith, All-map _ _ rest (λ u m. omega (arith, m, w)) above),
                ))
        ]
      ]

  gap_below-Chosen :
      (n : ℕ) (o : Option Place) (top : ℕ) (pre rest : List Vma)
      → Precedes pre rest o
      → length pre < n
      → IsApart (pre ++ rest)
      → All (λ u. uvaddr_start ≤ u.start) pre
      → IsTop top rest
      → Chosen stack len (pre ++ rest) (gap_below stack n o top len)
  gap_below-Chosen zero o top pre rest p few h base over = ground (arith, few)
  gap_below-Chosen (suc n) none top pre rest p few h base (lo, hi, over) =
      let bottom : Chosen stack len rest (gap_below stack (suc n) none top len) =
        bottom-Chosen n top rest (lo, hi, over) in
      subst (λ vs. Chosen stack len (vs ++ rest) (gap_below stack (suc n) none top len)) (sym p)
        bottom
  gap_below-Chosen (suc n) (some (t, fs)) top pre rest
        (y, ys, split, (c, l, r, same, pre_l, rest_r)) few h base over =
      let whole : pre ++ rest ≡ ys ++ y ∷ rest =
        ap (λ xs. xs ++ rest) split ∙ append_assoc ys (y ∷ []) rest in
      let apart = subst IsApart whole h in
      let bases =
        All-split (λ u. uvaddr_start ≤ u.start) ys (y ∷ [])
          (subst (All (λ u. uvaddr_start ≤ u.start)) split base) in
      let prev : Precedes ys (y ∷ rest) (rb_prev (node c l y r) fs) =
        subst (λ xs. Precedes xs (y ∷ rest) (rb_prev (node c l y r) fs)) pre_l
          (subst (λ xs. Precedes (before fs ++ to_list l) (y ∷ xs) (rb_prev (node c l y r) fs))
            rest_r (rb_next-rb_prev c l y r fs).1) in
      let shorter : length ys < n =
        let long : length pre ≡ length ys + 1 = ap length split ∙ length-append ys (y ∷ []) in
        omega (arith, few, long) in
      let result = round-Chosen n c l y r fs top ys rest apart bases.1.0 over (λ top' tops.
        gap_below-Chosen n (rb_prev (node c l y r) fs) top' ys (y ∷ rest) prev shorter apart bases.0
          tops) in
      subst (λ vs. Chosen stack len vs (gap_below stack (suc n) (some (t, fs)) top len)) (sym whole)
        (subst
          (λ x. Chosen stack len (ys ++ y ∷ rest) (gap_below stack (suc n) (some (x, fs)) top len))
          (sym same) result)

  -- With at most the 256 pages that the configuration allows for the stack, and more fuel than there
  -- are areas, `find_unmapped` comes to its end in a space whose areas are apart, not empty and not
  -- below the user's range: it returns zero, or an address from which a range of the length meets
  -- no area, which lies in the user's range below the top of the stack, and which ends a page or more
  -- below the bottom of the stack or begins in the stack's own range.
  pub find_unmapped-Chosen :
      (fuel : ℕ) (t : Areas) (hint : ℕ)
      → stack ≤ 256
      → length (to_list t) < fuel
      → IsApart (to_list t)
      → All (λ u. uvaddr_start ≤ u.start) (to_list t)
      → Chosen stack len (to_list t) (find_unmapped stack fuel t hint len)
  unfolding find_unmapped
  find_unmapped-Chosen fuel t hint small few h base =
      let page = hint / page_size * page_size in
      let meets = vma_find_intersection t page (page + len) in
      let front = ltb page uvaddr_end && leb len (uvaddr_end - page) in
      elim (Bool-cases (hint_fits stack t page len)) [
        | inl k ↦
            let (fits, clear) = unmet (front && range_allowed stack page (page + len)) meets k in
            let none_there = sym ((vma_find-first_hit t h).1 page (page + len)) ∙ ap hit clear in
            rw k (
              page,
              refl,
              inr (
                first_hit-IsFree page len (to_list t) none_there,
                range_allowed-IsRoom stack page (page + len) (omega arith)
                    (both_true front (range_allowed stack page (page + len)) fits),
              ),
            )
        | inr k ↦
            let all_there : Chosen stack len (to_list t ++ [])
                (gap_below stack fuel (rb_last t) (stack_bottom stack - page_size) len) =
              gap_below-Chosen fuel (rb_last t) (stack_bottom stack - page_size) (to_list t) []
                (rb_last-Precedes t) few (subst IsApart (sym (append-nil (to_list t))) h) base
                (omega (arith, small), omega arith, tt) in
            rw k (
              subst
                (λ vs.
                  Chosen stack len vs
                    (gap_below stack fuel (rb_last t) (stack_bottom stack - page_size) len))
                (append-nil (to_list t)) all_there)
      ]
