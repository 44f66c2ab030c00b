-- ===== src/Vma/Find.antt =====
-- The searches of mm/vma.c against a search of the list of the areas.
use nuvix.Prelude.{
  ℕ, ◌≤◌, ◌<◌, ◌≡◌, refl, sym, ap, ◌∙◌, inl, inr, Bool, false, ◌&&◌, Option, none, some, List, [],
  ◌∷◌, arith, ltb, leb, Bool-cases, All, All-map,
}
use nuvix.Rbtree.{leaf, node, left, right, Way}
use nuvix.Rbtree.Order.{to_list}
use nuvix.Vma.{
  Vma, Areas, Place, area_of, find_below, vma_find, intersection_below, vma_find_intersection,
}
use nuvix.Vma.Areas.{
  IsApart, Below, Above, first_hit, or_else, first_hit-front, first_hit-behind, first_hit-here,
  or_else-some, first_hit-none, or_else-none, IsApart-middle,
}

abbrev pub contains : ℕ → Vma → Bool
contains addr v = leb v.start addr && ltb addr v.end

abbrev pub intersects : ℕ → ℕ → Vma → Bool
intersects start end v = ltb start v.end && ltb v.start end

-- The area at a place, if there is a place.
abbrev pub hit : Option Place → Option Vma
hit none = none
hit (some p) = area_of p

misses_before :
    (addr : ℕ) (v : Vma) (us : List Vma)
    → Below v us
    → v.start ≤ addr
    → All (λ u. contains addr u ≡ false) us
misses_before addr v us b h = All-map _ _ us (λ u e. ground (arith, e, h)) b

misses_after :
    (addr : ℕ) (v : Vma) (vs : List Vma)
    → Above v vs
    → v.start < v.end
    → addr < v.end
    → All (λ u. contains addr u ≡ false) vs
misses_after addr v vs a w h = All-map _ _ vs (λ u e. ground (arith, e, h)) a

find_below-first_hit :
    (t : Areas) (fs : Way Vma) (addr : ℕ)
    → IsApart (to_list t)
    → hit (find_below t fs addr) ≡ first_hit (contains addr) (to_list t)
unfolding find_below
find_below-first_hit leaf fs addr h = refl
find_below-first_hit (node c l v r) fs addr h =
    let (al, b, w, a, ar) = IsApart-middle (to_list l) v (to_list r) h in
    let on_left = find_below-first_hit l (left c v r ∷ fs) addr al in
    let on_right = find_below-first_hit r (right c v l ∷ fs) addr ar in
    let p = contains addr in
    elim (Bool-cases (ltb addr v.start)) [
      | inl early ↦
          let misses = misses_after addr v (to_list r) a w (ground (arith, early, w)) in
          rw early (
            on_left
            ∙ sym (first_hit-front p (to_list l) v (to_list r) (ground (arith, early)) misses))
      | inr reached ↦
          let misses = misses_before addr v (to_list l) b (ground (arith, reached)) in
          elim (Bool-cases (leb v.end addr)) [
            | inl past ↦
                rw (reached, past)
                  (on_right
                    ∙ sym (
                        first_hit-behind p (to_list l) v (to_list r) (ground (arith, past)) misses))
            | inr within ↦
                rw (reached, within)
                  (sym (
                    first_hit-here p (to_list l) v (to_list r) (ground (arith, within, reached))
                    ∙ ap (λ o. or_else o (some v)) (first_hit-none p (to_list l) misses)))
          ]
    ]

intersection_below-first_hit :
    (t : Areas) (fs : Way Vma) (start end : ℕ) (found : Option Place)
    → IsApart (to_list t)
    → hit (intersection_below t fs start end found)
      ≡ or_else (first_hit (intersects start end) (to_list t)) (hit found)
unfolding intersection_below
intersection_below-first_hit leaf fs start end found h = refl
intersection_below-first_hit (node c l v r) fs start end found h =
    let (al, b, w, a, ar) = IsApart-middle (to_list l) v (to_list r) h in
    let on_right = intersection_below-first_hit r (right c v l ∷ fs) start end found ar in
    let on_left =
      λ (o : Option Place). intersection_below-first_hit l (left c v r ∷ fs) start end o al in
    let p = intersects start end in
    elim (Bool-cases (leb v.end start)) [
      | inl past ↦
          let misses : All (λ u. p u ≡ false) (to_list l) =
            All-map _ _ (to_list l) (λ u e. ground (arith, e, w, past)) b in
          rw past (
            on_right
            ∙ ap (λ o. or_else o (hit found))
                (sym (first_hit-behind p (to_list l) v (to_list r) (ground (arith, past)) misses)))
      | inr reached ↦ elim (Bool-cases (ltb v.start end)) [
        | inl meets ↦
            rw (reached, meets)
              (on_left (some (node c l v r, fs))
                ∙ sym (or_else-some (first_hit p (to_list l)) v (hit found))
                ∙ ap (λ o. or_else o (hit found))
                    (sym (
                      first_hit-here p (to_list l) v (to_list r) (ground (arith, reached, meets)))))
        | inr beyond ↦
            let misses : All (λ u. p u ≡ false) (to_list r) =
              All-map _ _ (to_list r) (λ u e. ground (arith, e, w, beyond)) a in
            rw (reached, beyond)
              (on_left found
                ∙ ap (λ o. or_else o (hit found))
                    (sym (
                      first_hit-front p (to_list l) v (to_list r) (ground (arith, beyond)) misses)))
      ]
    ]

-- The two searches of the tree give what a search of the list of the areas from the lowest one on
-- gives: the area that contains the address, if there is one, and the first area that meets the
-- range, if there is one. The areas are apart and none is empty.
pub vma_find-first_hit :
    (t : Areas)
    → IsApart (to_list t)
    → ((addr : ℕ) → hit (vma_find t addr) ≡ first_hit (contains addr) (to_list t))
      × ((start end : ℕ)
          → hit (vma_find_intersection t start end) ≡ first_hit (intersects start end) (to_list t))
unfolding vma_find vma_find_intersection
vma_find-first_hit t h = (
  (λ addr. find_below-first_hit t [] addr h),
  (λ start end.
      intersection_below-first_hit t [] start end none h
      ∙ or_else-none (first_hit (intersects start end) (to_list t))),
)
