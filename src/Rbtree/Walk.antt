-- ===== src/Rbtree/Walk.antt =====
-- `rb_first`, `rb_last`, `rb_next` and `rb_prev` of lib/rbtree.c. A node is a place: the tree in focus and
-- its way up; no place is the result `none`.
use mathlib.Core.Path.{subst}
use nuvix.Rbtree.Order.{to_list, before, behind, in_order}
use nuvix.Rbtree.{Tree, Way, node, left, right}
use nuvix.Prelude.{refl, Option, none, some, [], ◌∷◌, List, Bool, ◌++◌, ◌≡◌}
use nuvix.Rbtree.{Tree, leaf, node, left, right, Way}

module _ {ℓ} {A : Type ℓ} where
  unfoldable pub first_below : Tree A → Way A → Option (Tree A × Way A)
  first_below leaf fs = none
  first_below (node c leaf x r) fs = some (node c leaf x r, fs)
  first_below (node c (node d a y b) x r) fs = first_below (node d a y b) (left c x r ∷ fs)

  unfoldable pub last_below : Tree A → Way A → Option (Tree A × Way A)
  last_below leaf fs = none
  last_below (node c l x leaf) fs = some (node c l x leaf, fs)
  last_below (node c l x (node d a y b)) fs = last_below (node d a y b) (right c x l ∷ fs)

  unfoldable pub rb_first : Tree A → Option (Tree A × Way A)
  unfolding first_below
  rb_first t = first_below t []

  unfoldable pub rb_last : Tree A → Option (Tree A × Way A)
  unfolding last_below
  rb_last t = last_below t []

  -- The climb to the first ancestor that has the node on its left, or on its right.
  unfoldable pub climb_next : Tree A → Way A → Option (Tree A × Way A)
  climb_next t [] = none
  climb_next t (left c x r ∷ fs) = some (node c t x r, fs)
  climb_next t (right c x l ∷ fs) = climb_next (node c l x t) fs

  unfoldable pub climb_prev : Tree A → Way A → Option (Tree A × Way A)
  climb_prev t [] = none
  climb_prev t (right c x l ∷ fs) = some (node c l x t, fs)
  climb_prev t (left c x r ∷ fs) = climb_prev (node c t x r) fs

  unfoldable pub rb_next : Tree A → Way A → Option (Tree A × Way A)
  unfolding first_below climb_next
  rb_next leaf fs = none
  rb_next (node c l x leaf) fs = climb_next (node c l x leaf) fs
  rb_next (node c l x (node d a y b)) fs = first_below (node d a y b) (right c x l ∷ fs)

  unfoldable pub rb_prev : Tree A → Way A → Option (Tree A × Way A)
  unfolding last_below climb_prev
  rb_prev leaf fs = none
  rb_prev (node c leaf x r) fs = climb_prev (node c leaf x r) fs
  rb_prev (node c (node d a y b) x r) fs = last_below (node d a y b) (left c x r ∷ fs)

  -- A node in focus, and what stands before it and behind it.
  abbrev pub Stands : Tree A → Way A → A → List A → List A → Type ℓ
  Stands t ws y pre rest =
      (c : Bool) × (l r : Tree A) × (t ≡ node c l y r)
      × (before ws ++ to_list l ≡ pre)
      × (to_list r ++ behind ws ≡ rest)

  -- The place after what stands before it: the first of the rest, or none if there is no rest.
  abbrev pub Follows : List A → List A → Option (Tree A × Way A) → Type ℓ
  Follows pre rest none = rest ≡ []
  Follows pre rest (some (t, ws)) = (y : A) × (ys : List A) × (rest ≡ y ∷ ys) × Stands t ws y pre ys

  abbrev pub Precedes : List A → List A → Option (Tree A × Way A) → Type ℓ
  Precedes pre rest none = pre ≡ []
  Precedes pre rest (some (t, ws)) =
      (y : A) × (ys : List A) × (pre ≡ ys ++ y ∷ []) × Stands t ws y ys rest

  Follows-Same :
      (pre pre' rest rest' : List A) (o : Option (Tree A × Way A))
      → pre ≡ pre'
      → rest ≡ rest'
      → Follows pre rest o
      → Follows pre' rest' o
  Follows-Same pre pre' rest rest' o e k h =
      subst (λ xs. Follows xs rest' o) e (subst (λ xs. Follows pre xs o) k h)

  Precedes-Same :
      (pre pre' rest rest' : List A) (o : Option (Tree A × Way A))
      → pre ≡ pre'
      → rest ≡ rest'
      → Precedes pre rest o
      → Precedes pre' rest' o
  Precedes-Same pre pre' rest rest' o e k h =
      subst (λ xs. Precedes xs rest' o) e (subst (λ xs. Precedes pre xs o) k h)

  first_below-Follows :
      (c : Bool) (l : Tree A) (x : A) (r : Tree A) (fs : Way A)
      → Follows (before fs) (to_list (node c l x r) ++ behind fs) (first_below (node c l x r) fs)
  unfolding first_below
  first_below-Follows c leaf x r fs =
      (x, to_list r ++ behind fs, refl, (c, leaf, r, refl, simp (in_order), refl))
  first_below-Follows c (node d a y b) x r fs =
      Follows-Same _ _ _ _ _ refl (simp (in_order)) (first_below-Follows d a y b (left c x r ∷ fs))

  last_below-Precedes :
      (c : Bool) (l : Tree A) (x : A) (r : Tree A) (fs : Way A)
      → Precedes (before fs ++ to_list (node c l x r)) (behind fs) (last_below (node c l x r) fs)
  unfolding last_below
  last_below-Precedes c l x leaf fs =
      (x, before fs ++ to_list l, simp (in_order), (c, l, leaf, refl, refl, refl))
  last_below-Precedes c l x (node d a y b) fs =
      Precedes-Same _ _ _ _ _ (simp (in_order)) refl
        (last_below-Precedes d a y b (right c x l ∷ fs))

  climb_next-Follows :
      (t : Tree A) (fs : Way A) → Follows (before fs ++ to_list t) (behind fs) (climb_next t fs)
  unfolding climb_next
  climb_next-Follows t [] = refl
  climb_next-Follows t (left c x r ∷ fs) =
      (x, to_list r ++ behind fs, refl, (c, t, r, refl, refl, refl))
  climb_next-Follows t (right c x l ∷ fs) =
      Follows-Same _ _ _ _ _ (simp (in_order)) refl (climb_next-Follows (node c l x t) fs)

  climb_prev-Precedes :
      (t : Tree A) (fs : Way A) → Precedes (before fs) (to_list t ++ behind fs) (climb_prev t fs)
  unfolding climb_prev
  climb_prev-Precedes t [] = refl
  climb_prev-Precedes t (right c x l ∷ fs) =
      (x, before fs ++ to_list l, refl, (c, l, t, refl, refl, refl))
  climb_prev-Precedes t (left c x r ∷ fs) =
      Precedes-Same _ _ _ _ _ refl (simp (in_order)) (climb_prev-Precedes (node c t x r) fs)

  rb_next-Follows :
      (c : Bool) (l : Tree A) (x : A) (r : Tree A) (fs : Way A)
      → Follows
          ((before fs ++ to_list l) ++ x ∷ [])
          (to_list r ++ behind fs)
          (rb_next (node c l x r) fs)
  unfolding rb_next
  rb_next-Follows c l x leaf fs =
      Follows-Same _ _ _ _ _ (simp (in_order)) refl (climb_next-Follows (node c l x leaf) fs)
  rb_next-Follows c l x (node d a y b) fs =
      Follows-Same _ _ _ _ _ (simp (in_order)) refl (first_below-Follows d a y b (right c x l ∷ fs))

  rb_prev-Precedes :
      (c : Bool) (l : Tree A) (x : A) (r : Tree A) (fs : Way A)
      → Precedes (before fs ++ to_list l) (x ∷ (to_list r ++ behind fs)) (rb_prev (node c l x r) fs)
  unfolding rb_prev
  rb_prev-Precedes c leaf x r fs =
      Precedes-Same _ _ _ _ _ (simp (in_order)) refl (climb_prev-Precedes (node c leaf x r) fs)
  rb_prev-Precedes c (node d a y b) x r fs = last_below-Precedes d a y b (left c x r ∷ fs)

  pub rb_first-Follows : (t : Tree A) → Follows [] (to_list t) (rb_first t)
  unfolding rb_first first_below
  rb_first-Follows leaf = refl
  rb_first-Follows (node c l x r) =
      Follows-Same _ _ _ _ _ refl (simp (in_order)) (first_below-Follows c l x r [])

  pub rb_last-Precedes : (t : Tree A) → Precedes (to_list t) [] (rb_last t)
  unfolding rb_last last_below
  rb_last-Precedes leaf = refl
  rb_last-Precedes (node c l x r) = last_below-Precedes c l x r []

  -- `rb_next` of a node gives the place of the element that follows it in the order of the tree,
  -- and none exactly if nothing follows; `rb_prev` gives the place of the one before it, and none
  -- exactly if nothing stands before it.
  pub rb_next-rb_prev :
      (c : Bool) (l : Tree A) (x : A) (r : Tree A) (fs : Way A)
      → Follows
          ((before fs ++ to_list l) ++ x ∷ [])
          (to_list r ++ behind fs)
          (rb_next (node c l x r) fs)
        × Precedes
            (before fs ++ to_list l)
            (x ∷ (to_list r ++ behind fs))
            (rb_prev (node c l x r) fs)
  rb_next-rb_prev c l x r fs = (rb_next-Follows c l x r fs, rb_prev-Precedes c l x r fs)
