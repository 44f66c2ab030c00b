-- ===== src/Rbtree/Erase.antt =====
-- `rb_erase` and `rb_erase_fixup` of lib/rbtree.c. A dereferenced NULL is the result `none`.
use nuvix.Rbtree.{
  Tree, Frame, node, left, Way, blacken, is_red, right, plug, rotate_left, rotate_right,
}
use nuvix.Prelude.{Bool, true, false, ◌&&◌, not, Option, none, some, [], ◌∷◌, ◌++◌, if◌then◌else◌}
use nuvix.Rbtree.{
  Tree, leaf, node, Frame, left, right, Way, is_red, plug, blacken, rotate_left, rotate_right,
}

-- What a round of `rb_erase_fixup` gives: the parent, short of a black node, is the next focus, or
-- the tree is settled.
pub data Step {ℓ} (A : Type ℓ) : Type ℓ where
  short settled : Tree A → Step A
  fault : Step A

module _ {ℓ} {A : Type ℓ} where
  -- The sibling takes the parent's colour, and its outer child turns black.
  abbrev pub outer_right : Bool → Tree A → Tree A
  outer_right c leaf = leaf
  outer_right c (node d a y b) = node c a y (blacken b)

  abbrev pub outer_left : Bool → Tree A → Tree A
  outer_left c leaf = leaf
  outer_left c (node d a y b) = node c (blacken a) y b

  -- The rest of a round, the sibling being black.
  unfoldable pub mend_left : Tree A → (c : Bool) → A → Tree A → Step A
  mend_left t c x leaf = fault
  mend_left t c x (node d a y b) =
      if not (is_red a) && not (is_red b)
      then short (node c t x (node true a y b))
      else if not (is_red b)
      then settled
          (rotate_left (node false t x (outer_right c (rotate_right (node true (blacken a) y b)))))
      else settled (rotate_left (node false t x (outer_right c (node d a y b))))

  unfoldable pub mend_right : Tree A → (c : Bool) → A → Tree A → Step A
  mend_right t c x leaf = fault
  mend_right t c x (node d a y b) =
      if not (is_red a) && not (is_red b)
      then short (node c (node true a y b) x t)
      else if not (is_red a)
      then settled
          (rotate_right (node false (outer_left c (rotate_left (node true a y (blacken b)))) x t))
      else settled (rotate_right (node false (outer_left c (node d a y b)) x t))

  unfoldable pub mend : Tree A → Frame A → Step A
  unfolding mend_left mend_right
  mend t (left c x sibling) = mend_left t c x sibling
  mend t (right c x sibling) = mend_right t c x sibling

  -- The rotation that puts a red sibling above the parent: the parent's two frames after it.
  abbrev pub turn : Frame A → Option (Frame A × Frame A)
  turn (left c x (node true a y b)) = some (left true x a, left false y b)
  turn (right c x (node true a y b)) = some (right true x b, right false y a)
  turn f = none

  -- The loop after a round: `on` is the rounds above it.
  abbrev pub after : (Tree A → Option (Tree A)) → Way A → Step A → Option (Tree A)
  after on fs (short p) = on p
  after on fs (settled p) = some (blacken (plug p fs))
  after on fs fault = none

  unfoldable pub round : (Tree A → Option (Tree A)) → Tree A → Frame A → Way A → Option (Tree A)
  round on t f fs = if is_red t then some (plug (blacken t) (f ∷ fs)) else after on fs (mend t f)

  abbrev pub rounds :
      (Tree A → Option (Tree A))
      → Tree A
      → Frame A
      → Way A
      → Option (Frame A × Frame A)
      → Option (Tree A)
  rounds on t f fs none = round on t f fs
  rounds on t f fs (some (f', g)) = round (λ p. round on p g fs) t f' (g ∷ fs)

  unfoldable pub rb_erase_fixup : Tree A → Way A → Option (Tree A)
  rb_erase_fixup t [] = some (blacken t)
  rb_erase_fixup t (f ∷ fs) =
      let on : Tree A → Option (Tree A) = λ p. rb_erase_fixup p fs in
      if is_red t then some (plug (blacken t) (f ∷ fs)) else rounds on t f fs (turn f)

  -- The leftmost node at or below a node: its colour, what it holds, its right child, and its way.
  unfoldable pub leftmost : Bool → Tree A → A → Tree A → Way A → (Bool × A × Tree A) × Way A
  leftmost c leaf x r fs = ((c, x, r), fs)
  leftmost c (node d a y b) x r fs = leftmost d a y b (left c x r ∷ fs)

  -- The removed node was red, or black.
  abbrev pub rebalance : Bool → Tree A → Way A → Option (Tree A)
  unfolding rb_erase_fixup
  rebalance red child fs = if red then some (plug child fs) else rb_erase_fixup child fs

  unfoldable pub rb_erase : Tree A → Way A → Option (Tree A)
  unfolding leftmost
  rb_erase leaf fs = none
  rb_erase (node red leaf x r) fs = rebalance red r fs
  rb_erase (node red (node d a y b) x leaf) fs = rebalance red (node d a y b) fs
  rb_erase (node red (node d a y b) x (node e u z v)) fs =
      let ((c, s, child), way) = leftmost e u z v [] in
      rebalance c child (way ++ right red s (node d a y b) ∷ fs)
