-- ===== src/Rbtree/Removal.antt =====
-- That `rb_erase` of lib/rbtree.c removes the node and keeps the order of the others.
use nuvix.Prelude.{
  ◌≡◌, refl, sym, ◌∙◌, inl, inr, Bool, true, false, ◌&&◌, not, Option, none, some, List, [], ◌∷◌,
  ◌++◌, Bool-cases,
}
use nuvix.Rbtree.{Tree, leaf, node, Frame, left, right, Way, is_red, up, plug}
use nuvix.Rbtree.Erase.{
  Step, short, settled, fault, outer_right, outer_left, mend_left, mend_right, mend, turn, round,
  rb_erase_fixup, leftmost, rebalance, rb_erase, after, rounds,
}
use nuvix.Rbtree.Order.{
  to_list, before, behind, in_order, shapes, plug-to_list, plug-Same, Holds, Holds-Same,
  blacken-to_list,
}

module _ {ℓ} {A : Type ℓ} where
  -- The tree that a round goes on with holds the list.
  abbrev Keeps : List A → Step A → Type ℓ
  Keeps xs (short t) = to_list t ≡ xs
  Keeps xs (settled t) = to_list t ≡ xs
  Keeps xs fault = Unit

  outer_right-to_list : (c : Bool) (t : Tree A) → to_list (outer_right c t) ≡ to_list t
  outer_right-to_list c leaf = refl
  outer_right-to_list c (node d l x r) = simp (shapes)

  outer_left-to_list : (c : Bool) (t : Tree A) → to_list (outer_left c t) ≡ to_list t
  outer_left-to_list c leaf = refl
  outer_left-to_list c (node d l x r) = simp (shapes)

  ruleset turns = (shapes, outer_right-to_list, outer_left-to_list)

  mend_left-Keeps :
      (t : Tree A) (c : Bool) (x : A) (s : Tree A)
      → Keeps (to_list (node c t x s)) (mend_left t c x s)
  unfolding mend_left
  mend_left-Keeps t c x leaf = tt
  mend_left-Keeps t c x (node d a y b) = elim (Bool-cases (not (is_red a) && not (is_red b))) [
    | inl h ↦ rw h refl
    | inr h ↦ elim (Bool-cases (not (is_red b))) [
      | inl k ↦ rw (h, k) (simp (turns))
      | inr k ↦ rw (h, k) (simp (turns))
    ]
  ]

  mend_right-Keeps :
      (t : Tree A) (c : Bool) (x : A) (s : Tree A)
      → Keeps (to_list (node c s x t)) (mend_right t c x s)
  unfolding mend_right
  mend_right-Keeps t c x leaf = tt
  mend_right-Keeps t c x (node d a y b) = elim (Bool-cases (not (is_red a) && not (is_red b))) [
    | inl h ↦ rw h refl
    | inr h ↦ elim (Bool-cases (not (is_red a))) [
      | inl k ↦ rw (h, k) (simp (turns))
      | inr k ↦ rw (h, k) (simp (turns))
    ]
  ]

  mend-Keeps : (t : Tree A) (f : Frame A) → Keeps (to_list (up t f)) (mend t f)
  unfolding mend
  mend-Keeps t (left c x s) = mend_left-Keeps t c x s
  mend-Keeps t (right c x s) = mend_right-Keeps t c x s

  -- The rounds above do not change the list.
  abbrev Goes : (Tree A → Option (Tree A)) → Way A → Type ℓ
  Goes on fs = (t : Tree A) → Holds (to_list (plug t fs)) (on t)

  after-Holds :
      (on : Tree A → Option (Tree A)) (fs : Way A) (t : Tree A) (s : Step A)
      → Goes on fs
      → Keeps (to_list t) s
      → Holds (to_list (plug t fs)) (after on fs s)
  after-Holds on fs t (short p) go k = Holds-Same _ _ (on p) (plug-Same p t fs k) (go p)
  after-Holds on fs t (settled p) go k = blacken-to_list (plug p fs) ∙ plug-Same p t fs k
  after-Holds on fs t fault go k = tt

  round-Holds :
      (on : Tree A → Option (Tree A)) (t : Tree A) (f : Frame A) (fs : Way A)
      → Goes on fs
      → Holds (to_list (plug t (f ∷ fs))) (round on t f fs)
  unfolding round
  round-Holds on t f fs go = elim (Bool-cases (is_red t)) [
    | inl h ↦ rw h (plug-Same _ _ (f ∷ fs) (blacken-to_list t))
    | inr h ↦ rw h (after-Holds on fs (up t f) (mend t f) go (mend-Keeps t f))
  ]

  -- The parent's two frames hold what its frame held.
  abbrev Turned : Tree A → Frame A → Option (Frame A × Frame A) → Type ℓ
  Turned t f none = Unit
  Turned t f (some (f', g)) = to_list (up (up t f') g) ≡ to_list (up t f)

  turn-Turned : (t : Tree A) (f : Frame A) → Turned t f (turn f)
  turn-Turned t (left c x leaf) = tt
  turn-Turned t (left c x (node true a y b)) = simp (in_order)
  turn-Turned t (left c x (node false a y b)) = tt
  turn-Turned t (right c x leaf) = tt
  turn-Turned t (right c x (node true a y b)) = simp (in_order)
  turn-Turned t (right c x (node false a y b)) = tt

  rounds-Holds :
      (on : Tree A → Option (Tree A)) (t : Tree A) (f : Frame A) (fs : Way A)
      (o : Option (Frame A × Frame A))
      → Goes on fs
      → Turned t f o
      → Holds (to_list (plug t (f ∷ fs))) (rounds on t f fs o)
  rounds-Holds on t f fs none go e = round-Holds on t f fs go
  rounds-Holds on t f fs (some (f', g)) go e =
      Holds-Same _ _ _ (plug-Same _ _ fs e)
        (round-Holds (λ p. round on p g fs) t f' (g ∷ fs) (λ p. round-Holds on p g fs go))

  rb_erase_fixup-Holds :
      (t : Tree A) (fs : Way A) → Holds (to_list (plug t fs)) (rb_erase_fixup t fs)
  unfolding rb_erase_fixup
  rb_erase_fixup-Holds t [] = blacken-to_list t
  rb_erase_fixup-Holds t (f ∷ fs) =
      let go : Goes (λ p. rb_erase_fixup p fs) fs = λ p. rb_erase_fixup-Holds p fs in
      elim (Bool-cases (is_red t)) [
        | inl h ↦ rw h (plug-Same _ _ (f ∷ fs) (blacken-to_list t))
        | inr h ↦ rw h (rounds-Holds _ t f fs (turn f) go (turn-Turned t f))
      ]

  rebalance-Holds :
      (c : Bool) (t : Tree A) (fs : Way A) → Holds (to_list (plug t fs)) (rebalance c t fs)
  unfolding rb_erase_fixup
  rebalance-Holds true t fs = refl
  rebalance-Holds false t fs = rb_erase_fixup-Holds t fs

  -- The leftmost node holds the first element, and its right child and way the others.
  leftmost-Same :
      (c : Bool) (l : Tree A) (x : A) (r : Tree A) (fs : Way A)
      → let ((d, s, child), way) = leftmost c l x r fs in
        (before way ≡ before fs)
        × (s ∷ (to_list child ++ behind way) ≡ to_list l ++ (x ∷ (to_list r ++ behind fs)))
  unfolding leftmost
  leftmost-Same c leaf x r fs = (refl, refl)
  leftmost-Same c (node d a y b) x r fs =
      let deeper = leftmost-Same d a y b (left c x r ∷ fs) in (deeper.0, deeper.1 ∙ simp (in_order))

  before-append : (ws fs : Way A) → before (ws ++ fs) ≡ before fs ++ before ws
  before-append [] fs = simp (in_order)
  before-append (left c x r ∷ ws) fs = before-append ws fs
  before-append (right c x l ∷ ws) fs = rw (before-append ws fs) (simp (in_order))

  behind-append : (ws fs : Way A) → behind (ws ++ fs) ≡ behind ws ++ behind fs
  behind-append [] fs = refl
  behind-append (left c x r ∷ ws) fs = rw (behind-append ws fs) (simp (in_order))
  behind-append (right c x l ∷ ws) fs = behind-append ws fs

  -- The successor stands in for the node: its place keeps the rest of the right subtree.
  successor-Same :
      (c : Bool) (l : Tree A) (s : A) (child : Tree A) (way fs : Way A) (xs : List A)
      → before way ≡ []
      → s ∷ (to_list child ++ behind way) ≡ xs
      → to_list (plug child (way ++ right c s l ∷ fs))
        ≡ (before fs ++ to_list l) ++ (xs ++ behind fs)
  successor-Same c l s child way fs xs none_before e =
      rw
        (
          plug-to_list child (way ++ right c s l ∷ fs),
          before-append way (right c s l ∷ fs),
          behind-append way (right c s l ∷ fs),
          none_before,
          sym e,
        )
        (simp (in_order))

  pub rb_erase-Holds :
      (c : Bool) (l : Tree A) (x : A) (r : Tree A) (fs : Way A)
      → Holds ((before fs ++ to_list l) ++ (to_list r ++ behind fs)) (rb_erase (node c l x r) fs)
  unfolding rb_erase
  rb_erase-Holds c leaf x r fs =
      Holds-Same _ _ _ (plug-to_list r fs ∙ simp (in_order)) (rebalance-Holds c r fs)
  rb_erase-Holds c (node d a y b) x leaf fs =
      Holds-Same _ _ _ (plug-to_list (node d a y b) fs ∙ simp (in_order))
        (rebalance-Holds c (node d a y b) fs)
  rb_erase-Holds c (node d a y b) x (node e u z v) fs =
      let ((_, s, child), way) = leftmost e u z v [] in
      let least = leftmost-Same e u z v [] in
      Holds-Same _ _ _
        (successor-Same c (node d a y b) s child way fs _ least.0 (least.1 ∙ simp (in_order)))
        (rebalance-Holds _ child (way ++ right c s (node d a y b) ∷ fs))
