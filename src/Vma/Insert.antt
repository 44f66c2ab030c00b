-- ===== src/Vma/Insert.antt =====
-- `vma_insert` and `vma_remove` of mm/vma.c: every path, and the list of the areas.
use nuvix.Prelude.{
  ◌≤◌, ◌<◌, ◌≡◌, refl, sym, ap, ◌∙◌, ◌≢◌, inl, inr, Bool, Option, none, some, List, [], ◌∷◌, ◌++◌,
  arith, leb, Bool-cases, All-map, true, false, ◌⊎◌, ◌%◌,
}
use mathlib.Core.Path.{subst}
use nuvix.Rbtree.{leaf, node, left, right, Way, plug}
use nuvix.Rbtree.Order.{to_list, before, behind, in_order, plug-to_list}
use nuvix.Rbtree.Balance.{IsBalanced}
use nuvix.Rbtree.Update.{insert_at-Gives, rb_erase-Gives}
use nuvix.Vma.{
  link, Vma, Areas, seek, Result, err, bad_area, vma_insert, vma_remove, eexist, einval, ok,
  uvaddr_start, uvaddr_end, page_size,
}
use nuvix.Vma.Areas.{
  IsApart, Below, Above, first_hit, or_else, first_hit-front, first_hit-behind, first_hit-here,
  IsApart-middle, All-append, IsApart-join, IsApart-drop,
}
use nuvix.Vma.Find.{intersects}

-- A balanced tree whose areas are in order, apart and not empty.
abbrev pub IsMapped : Areas → Type 0
IsMapped t = IsBalanced t × IsApart (to_list t)

-- The free place of an area splits the list, or an area meets it.
abbrev Sought : Vma → Areas → Way Vma → Option (Way Vma) → Type 0
Sought v t fs none = first_hit (intersects v.start v.end) (to_list t) ≢ none
Sought v t fs (some ws) =
    (us vs : List Vma) × (to_list t ≡ us ++ vs)
    × Below v us
    × Above v vs
    × (before ws ≡ before fs ++ us)
    × (behind ws ≡ vs ++ behind fs)
    × (plug leaf ws ≡ plug t fs)

module _ (v : Vma) (w : v.start < v.end) where
  left-Sought :
      (c : Bool) (l : Areas) (u : Vma) (r : Areas) (fs : Way Vma) (o : Option (Way Vma))
      → IsApart (to_list (node c l u r))
      → v.end ≤ u.start
      → Sought v l (left c u r ∷ fs) o
      → Sought v (node c l u r) fs o
  left-Sought c l u r fs none h e s =
      let (al, b, x, a, ar) = IsApart-middle (to_list l) u (to_list r) h in
      let clear : intersects v.start v.end u ≡ false = ground (arith, e) in
      let misses = All-map _ _ (to_list r) (λ y k. ground (arith, k, x, e)) a in
      subst (λ o. o ≢ none)
        (sym (first_hit-front (intersects v.start v.end) (to_list l) u (to_list r) clear misses)) s
  left-Sought c l u r fs (some ws) h e (us, vs, split, b, a, pre, post, same) =
      let (al, bu, x, au, ar) = IsApart-middle (to_list l) u (to_list r) h in
      (
        us,
        vs ++ u ∷ to_list r,
        ap (λ xs. xs ++ u ∷ to_list r) split ∙ simp (in_order),
        b,
        All-append _ vs (u ∷ to_list r) a
            (e, All-map _ _ (to_list r) (λ y k. omega (arith, k, x, e)) au),
        pre,
        post ∙ simp (in_order),
        same,
      )

  right-Sought :
      (c : Bool) (l : Areas) (u : Vma) (r : Areas) (fs : Way Vma) (o : Option (Way Vma))
      → IsApart (to_list (node c l u r))
      → u.end ≤ v.start
      → Sought v r (right c u l ∷ fs) o
      → Sought v (node c l u r) fs o
  right-Sought c l u r fs none h e s =
      let (al, b, x, a, ar) = IsApart-middle (to_list l) u (to_list r) h in
      let clear : intersects v.start v.end u ≡ false = ground (arith, e) in
      let misses = All-map _ _ (to_list l) (λ y k. ground (arith, k, x, e)) b in
      subst (λ o. o ≢ none)
        (sym (first_hit-behind (intersects v.start v.end) (to_list l) u (to_list r) clear misses)) s
  right-Sought c l u r fs (some ws) h e (us, vs, split, b, a, pre, post, same) =
      let (al, bu, x, au, ar) = IsApart-middle (to_list l) u (to_list r) h in
      (
        to_list l ++ u ∷ us,
        vs,
        ap (λ xs. to_list l ++ u ∷ xs) split ∙ simp (in_order),
        All-append _ (to_list l) (u ∷ us)
            (All-map _ _ (to_list l) (λ y k. omega (arith, k, x, e)) bu) (e, b),
        a,
        pre ∙ simp (in_order),
        post,
        same,
      )

  one_stays : (o : Option Vma) (u : Vma) → or_else o (some u) ≢ none
  one_stays none u e = ground (arith, e)
  one_stays (some x) u e = ground (arith, e)

  seek-Sought : (t : Areas) (fs : Way Vma) → IsApart (to_list t) → Sought v t fs (seek v t fs)
  unfolding seek
  seek-Sought leaf fs h = ([], [], refl, tt, tt, simp (in_order), refl, refl)
  seek-Sought (node c l u r) fs h =
      let (al, b, x, a, ar) = IsApart-middle (to_list l) u (to_list r) h in
      let on_left = seek-Sought l (left c u r ∷ fs) al in
      let on_right = seek-Sought r (right c u l ∷ fs) ar in
      elim (Bool-cases (leb v.end u.start)) [
        | inl e ↦ rw e (left-Sought c l u r fs _ h (ground (arith, e)) on_left)
        | inr e ↦ elim (Bool-cases (leb u.end v.start)) [
          | inl k ↦ rw (e, k) (right-Sought c l u r fs _ h (ground (arith, k)) on_right)
          | inr k ↦
              rw (e, k)
                (subst (λ o. o ≢ none)
                  (sym (
                    first_hit-here (intersects v.start v.end) (to_list l) u (to_list r)
                      (ground (arith, e, k))))
                  (one_stays (first_hit (intersects v.start v.end) (to_list l)) u))
        ]
      ]

-- An area of whole pages in the user's range, with the three known flags at most.
pub record GoodArea (v : Vma) : Type 0 where
  pub low : uvaddr_start ≤ v.start
  pub high : v.end ≤ uvaddr_end
  pub filled : v.start < v.end
  pub aligned : (v.start % page_size ≡ 0) × (v.end % page_size ≡ 0)
  pub known : v.flags ≤ 7

bad_area-false : (v : Vma) → bad_area v ≡ false → GoodArea v
bad_area-false v e = record {
  low = ground (arith, e);
  high = ground (arith, e);
  filled = ground (arith, e);
  aligned = (ground (arith, e), ground (arith, e));
  known = ground (arith, e);
}

bad_area-true : (v : Vma) → bad_area v ≡ true → GoodArea v → ⊥
bad_area-true v e g = ground (arith, e, g.low, g.high, g.filled, g.aligned.0, g.aligned.1, g.known)

-- The three ways in which `vma_insert` ends.
abbrev pub Added : Vma → Areas → Option (Result (Unit {0}) × Areas) → Type 0
Added v t o =
    ((GoodArea v → ⊥) × (o ≡ some (err einval, t)))
    ⊎ (GoodArea v
        × (first_hit (intersects v.start v.end) (to_list t) ≢ none)
        × (o ≡ some (err eexist, t)))
    ⊎ (GoodArea v
        × (t' : Areas) × (us vs : List Vma) × (o ≡ some (ok tt, t'))
        × (to_list t ≡ us ++ vs)
        × (to_list t' ≡ us ++ v ∷ vs)
        × IsMapped t')

linked-Added :
    (v : Vma) (t : Areas) (o : Option (Way Vma))
    → GoodArea v
    → IsMapped t
    → Sought v t [] o
    → Added v t (link v t o)
linked-Added v t none w m s = inr (inl (w, s, refl))
linked-Added v t (some fs) w m (us, vs, split, b, a, pre, post, same) =
    let (t', e, balanced, holds) = insert_at-Gives v fs (subst IsBalanced (sym same) m.0) in
    let list : to_list t' ≡ us ++ v ∷ vs = holds ∙ rw (pre, post) (simp (in_order)) in
    let apart : IsApart (us ++ v ∷ vs) =
      IsApart-join us v vs (subst IsApart split m.1) b w.filled a in
    rw e (inr (inr (w, t', us, vs, refl, split, list, (balanced, subst IsApart (sym list) apart))))

-- `vma_insert` of any area into a mapped space returns without reading a missing node. It is refused
-- with EINVAL if it is not of whole pages in the user's range with known flags, and with EEXIST only
-- if it is and an area meets it, without a change; else it stands in its place of the list, and the space is mapped: its tree is balanced, and the
-- areas are in order, apart and not empty.
pub vma_insert-Added : (v : Vma) (t : Areas) → IsMapped t → Added v t (vma_insert v t)
unfolding vma_insert
vma_insert-Added v t m = elim (Bool-cases (bad_area v)) [
  | inl bad ↦
      let e : vma_insert v t ≡ some (err einval, t) = rw bad refl in inl (bad_area-true v bad, e)
  | inr good ↦
      let w = bad_area-false v good in
      let e : vma_insert v t ≡ link v t (seek v t []) = rw good refl in
      subst (Added v t) (sym e)
        (linked-Added v t (seek v t []) w m (seek-Sought v w.filled t [] m.1))
]

-- `vma_remove` of a linked area returns, and the space without the area is mapped.
pub vma_remove-IsMapped :
    (c : Bool) (l : Areas) (v : Vma) (r : Areas) (fs : Way Vma)
    → IsMapped (plug (node c l v r) fs)
    → (t : Areas) × (vma_remove (node c l v r, fs) ≡ some t)
      × IsMapped t
      × (to_list t ≡ (before fs ++ to_list l) ++ (to_list r ++ behind fs))
unfolding vma_remove
vma_remove-IsMapped c l v r fs m =
    let (t, e, balanced, holds) = rb_erase-Gives c l v r fs m.0 in
    let whole : to_list (plug (node c l v r) fs)
        ≡ (before fs ++ to_list l) ++ v ∷ (to_list r ++ behind fs) =
      plug-to_list (node c l v r) fs ∙ simp (in_order) in
    (
      t,
      e,
      (
        balanced,
        subst IsApart (sym holds) (
            IsApart-drop (before fs ++ to_list l) v (to_list r ++ behind fs)
              (subst IsApart whole m.1)),
      ),
      holds,
    )
