-- ===== src/Vma/Unmap.antt =====
-- The loop of `unmap_range` of mm/vma.c: it removes every area that meets the range.
use nuvix.Prelude.{
  ℕ, zero, suc, ◌<◌, ◌≡◌, refl, sym, ap, ◌∙◌, inl, inr, Option, none, some, [], ◌∷◌, ◌++◌, arith,
  ltb, leb, Bool-cases, length, length-append,
}
use mathlib.Core.Path.{subst}
use nuvix.Rbtree.{leaf, node, left, right, Way, plug}
use nuvix.Rbtree.Order.{to_list, before, behind, in_order, plug-to_list}
use nuvix.Vma.{Vma, Areas, Place, intersection_below, vma_find_intersection, vma_remove}
use nuvix.Vma.Areas.{first_hit}
use nuvix.Vma.Find.{hit, intersects, vma_find-first_hit}
use nuvix.Vma.Insert.{IsMapped, vma_remove-IsMapped}
use nuvix.Vma.Range.{remove_all, remove_found}

-- A place of the tree, if there is one.
abbrev Within : Areas → Option Place → Type 0
Within t none = Unit
Within t (some (leaf, fs)) = ⊥
Within t (some (node c l v r, fs)) = plug (node c l v r) fs ≡ t

intersection-Within :
    (t : Areas) (fs : Way Vma) (start end : ℕ) (found : Option Place)
    → Within (plug t fs) found
    → Within (plug t fs) (intersection_below t fs start end found)
unfolding intersection_below
intersection-Within leaf fs start end found h = h
intersection-Within (node c l v r) fs start end found h = elim (Bool-cases (leb v.end start)) [
  | inl past ↦ rw past (intersection-Within r (right c v l ∷ fs) start end found h)
  | inr reached ↦ elim (Bool-cases (ltb v.start end)) [
    | inl meets ↦
        rw (reached, meets)
          (intersection-Within l (left c v r ∷ fs) start end (some (node c l v r, fs)) refl)
    | inr beyond ↦ rw (reached, beyond) (intersection-Within l (left c v r ∷ fs) start end found h)
  ]
]

vma_find_intersection-Within :
    (t : Areas) (start end : ℕ) → Within t (vma_find_intersection t start end)
unfolding vma_find_intersection
vma_find_intersection-Within t start end = intersection-Within t [] start end none tt

-- What the loop leaves.
abbrev pub Cleared : ℕ → ℕ → Option Areas → Type 0
Cleared start end o =
    (t : Areas) × (o ≡ some t) × IsMapped t × (first_hit (intersects start end) (to_list t) ≡ none)

-- An area less.
abbrev Fewer : Areas → Option Areas → Type 0
Fewer t o =
    (t' : Areas) × (o ≡ some t') × IsMapped t' × (length (to_list t) ≡ suc (length (to_list t')))

remove-Fewer : (t : Areas) (p : Place) → IsMapped t → Within t (some p) → Fewer t (vma_remove p)
remove-Fewer t (leaf, fs) m h = absurd h
remove-Fewer t (node c l v r, fs) m h =
    let (t', e, mapped, list) = vma_remove-IsMapped c l v r fs (subst IsMapped (sym h) m) in
    let whole : to_list t ≡ (before fs ++ to_list l) ++ v ∷ (to_list r ++ behind fs) =
      ap to_list (sym h) ∙ plug-to_list (node c l v r) fs ∙ simp (in_order) in
    (
      t',
      e,
      mapped,
      rw (whole, list)
          (length-append (before fs ++ to_list l) (v ∷ (to_list r ++ behind fs))
            ∙ omega (arith, length-append (before fs ++ to_list l) (to_list r ++ behind fs))),
    )

found-Cleared :
    (on : Areas → Option Areas) (start end : ℕ) (o : Option Place) (t : Areas)
    → IsMapped t
    → hit o ≡ first_hit (intersects start end) (to_list t)
    → Within t o
    → ((t' : Areas)
        → IsMapped t'
        → length (to_list t) ≡ suc (length (to_list t'))
        → Cleared start end (on t'))
    → Cleared start end (remove_found on o t)
found-Cleared on start end none t m searched within go = (t, refl, m, sym searched)
found-Cleared on start end (some p) t m searched within go =
    let (t', e, mapped, less) = remove-Fewer t p m within in
    rw (e, remove_found) (go t' mapped less)

-- With as much fuel as there are areas and one more, the loop of `unmap_range` in a mapped space
-- comes to its end: the space is mapped and no area meets the range.
pub remove_all-Cleared :
    (n start end : ℕ) (t : Areas)
    → length (to_list t) < n
    → IsMapped t
    → Cleared start end (remove_all n start end t)
unfolding remove_all
remove_all-Cleared zero start end t few m = ground (arith, few)
remove_all-Cleared (suc n) start end t few m =
    found-Cleared (λ t'. remove_all n start end t') start end (vma_find_intersection t start end) t
      m ((vma_find-first_hit t m.1).1 start end) (vma_find_intersection-Within t start end)
      (λ t' mapped less. remove_all-Cleared n start end t' (omega (arith, few, less)) mapped)
