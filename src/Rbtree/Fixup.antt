-- ===== src/Rbtree/Fixup.antt =====
-- That `rb_erase_fixup` of lib/rbtree.c restores the red-black shape.
use nuvix.Prelude.{
  ℕ, suc, ◌≡◌, refl, sym, ap, ◌∙◌, inl, inr, Bool, true, false, not, Option, [], ◌∷◌, ◌++◌, arith,
  Bool-cases,
}
use mathlib.Core.Path.{subst}
use nuvix.Rbtree.{Tree, leaf, node, Frame, left, right, Way, is_red, plug, blacken, frame_red}
use nuvix.Rbtree.Erase.{
  Step, short, settled, fault, mend_left, mend_right, mend, turn, round, rb_erase_fixup, leftmost,
  rebalance, rb_erase, after, rounds,
}
use nuvix.Rbtree.Balance.{
  height, IsSound, IsBalanced, has_black, Fits, Allows, Fits-Same, plug-IsBalanced, plug-Fits,
  blacken-IsBalanced, blacken-height, Yields,
}
use nuvix.Rbtree.Mend.{
  lift, Beside, Mends, node-height, left-Beside, right-Beside, mend_left-Mends, mend_right-Mends,
}

below_black : (c d : Bool) → (c ≡ true → d ≡ false) → d ≡ true → not c ≡ true
below_black true d h e = ground (arith, e, h refl)
below_black false d h e = refl

module _ {ℓ} {A : Type ℓ} where
  -- The rounds above take a focus of a colour that is short of one black node.
  abbrev Ready : Bool → (Tree A → Option (Tree A)) → Way A → Type ℓ
  Ready c on fs =
      (p : Tree A)
      → is_red p ≡ c
      → IsSound (blacken p)
      → Fits (suc (height p)) fs
      → Yields IsBalanced (on p)

  after-IsBalanced :
      (on : Tree A → Option (Tree A)) (c : Bool) (h : ℕ) (s : Step A) (fs : Way A)
      → Ready c on fs
      → (c ≡ true → has_black fs ≡ true)
      → Fits (lift c h) fs
      → Mends c h s
      → Yields IsBalanced (after on fs s)
  after-IsBalanced on c h (short p) fs go a f m = go p m.2 m.0 (Fits-Same _ _ fs (sym m.1) f)
  after-IsBalanced on c h (settled p) fs go a f m =
      blacken-IsBalanced (plug p fs)
        (plug-IsBalanced p fs m.0 (λ e. a (sym m.2 ∙ e)) (Fits-Same _ _ fs (sym m.1) f)).0
  after-IsBalanced on c h fault fs go a f m = absurd m

  blacken-black : (t : Tree A) → is_red (blacken t) ≡ false
  blacken-black leaf = refl
  blacken-black (node c l x r) = refl

  blacken-IsSound : (t : Tree A) → is_red t ≡ false → IsSound (blacken t) → IsBalanced t
  blacken-IsSound leaf e s = (s, e)
  blacken-IsSound (node true l x r) e s = ground (arith, e)
  blacken-IsSound (node false l x r) e s = (s, e)

  red_focus-IsBalanced :
      (t : Tree A) (fs : Way A)
      → is_red t ≡ true
      → IsSound (blacken t)
      → Fits (suc (height t)) fs
      → IsBalanced (plug (blacken t) fs)
  red_focus-IsBalanced t fs e s f =
      plug-IsBalanced (blacken t) fs s (λ k. ground (arith, k, blacken-black t))
        (Fits-Same _ _ fs (sym (blacken-height t e)) f)

  abbrev other : Frame A → Tree A
  other (left c x s) = s
  other (right c x s) = s

  round-IsBalanced :
      (on : Tree A → Option (Tree A)) (t : Tree A) (f : Frame A) (fs : Way A)
      → IsSound (blacken t)
      → Fits (suc (height t)) (f ∷ fs)
      → (is_red t ≡ false → is_red (other f) ≡ false)
      → Ready (frame_red f) on fs
      → Yields IsBalanced (round on t f fs)
  unfolding round mend
  round-IsBalanced on t (left c x s) fs b fit black go = elim (Bool-cases (is_red t)) [
    | inl h ↦ rw h (red_focus-IsBalanced t (left c x s ∷ fs) h b fit)
    | inr h ↦
        let beside = (left-Beside _ c x s fs).0 fit in
        rw h (
          after-IsBalanced on c _ (mend_left t c x s) fs go (λ e. (beside.2 e).1) beside.3
            (mend_left-Mends t c x s (blacken-IsSound t h b) (beside.0, black h) beside.1))
  ]
  round-IsBalanced on t (right c x s) fs b fit black go = elim (Bool-cases (is_red t)) [
    | inl h ↦ rw h (red_focus-IsBalanced t (right c x s ∷ fs) h b fit)
    | inr h ↦
        let beside = (right-Beside _ c x s fs).0 fit in
        rw h (
          after-IsBalanced on c _ (mend_right t c x s) fs go (λ e. (beside.2 e).1) beside.3
            (mend_right-Mends t c x s (blacken-IsSound t h b) (beside.0, black h) beside.1))
  ]

  -- Below a red focus the parent's frame does not matter.
  red_round-IsBalanced :
      (on : Tree A → Option (Tree A)) (t : Tree A) (f : Frame A) (fs : Way A)
      → is_red t ≡ true
      → IsSound (blacken t)
      → Fits (suc (height t)) (f ∷ fs)
      → Yields IsBalanced (round on t f fs)
  unfolding round
  red_round-IsBalanced on t f fs e b fit = rw e (red_focus-IsBalanced t (f ∷ fs) e b fit)

  -- With a red sibling the parent is black.
  red_sibling :
      (c : Bool) (h : ℕ) (s : Tree A) (fs : Way A) → Beside c h s fs → is_red s ≡ true → c ≡ false
  red_sibling true h s fs b e = ground (arith, e, (b.2 refl).0)
  red_sibling false h s fs b e = refl

  rounds-IsBalanced :
      (on : Tree A → Option (Tree A)) (t : Tree A) (f : Frame A) (fs : Way A)
      → IsSound (blacken t)
      → Fits (suc (height t)) (f ∷ fs)
      → ((c : Bool) → Ready c on fs)
      → Yields IsBalanced (rounds on t f fs (turn f))
  rounds-IsBalanced on t (left c x leaf) fs b fit go =
      round-IsBalanced on t (left c x leaf) fs b fit (λ _. refl) (go c)
  rounds-IsBalanced on t (left c x (node false l y r)) fs b fit go =
      round-IsBalanced on t (left c x (node false l y r)) fs b fit (λ _. refl) (go c)
  rounds-IsBalanced on t (right c x leaf) fs b fit go =
      round-IsBalanced on t (right c x leaf) fs b fit (λ _. refl) (go c)
  rounds-IsBalanced on t (right c x (node false l y r)) fs b fit go =
      round-IsBalanced on t (right c x (node false l y r)) fs b fit (λ _. refl) (go c)
  rounds-IsBalanced on t (left c x (node true l y r)) fs b fit go =
      let beside = (left-Beside _ c x (node true l y r) fs).0 fit in
      let (sl, sr, same, bl, br) = beside.0 in
      let top : Fits (suc (suc (height t))) fs =
        subst (λ d. Fits (lift d (suc (height t))) fs)
          (red_sibling c _ (node true l y r) fs beside refl) beside.3 in
      let fits : Fits (suc (height t)) (left true x l ∷ left false y r ∷ fs) =
        (sl, beside.1, bl, refl, (sr, sym same ∙ beside.1, top)) in
      round-IsBalanced (λ p. round on p (left false y r) fs) t (left true x l) (left false y r ∷ fs)
        b fits (λ _. bl) (λ p e s f. red_round-IsBalanced on p (left false y r) fs e s f)
  rounds-IsBalanced on t (right c x (node true l y r)) fs b fit go =
      let beside = (right-Beside _ c x (node true l y r) fs).0 fit in
      let (sl, sr, same, bl, br) = beside.0 in
      let top : Fits (suc (suc (height t))) fs =
        subst (λ d. Fits (lift d (suc (height t))) fs)
          (red_sibling c _ (node true l y r) fs beside refl) beside.3 in
      let fits : Fits (suc (height t)) (right true x r ∷ right false y l ∷ fs) =
        (sr, sym same ∙ beside.1, br, refl, (sl, beside.1, top)) in
      round-IsBalanced (λ p. round on p (right false y l) fs) t (right true x r)
        (right false y l ∷ fs) b fits (λ _. br)
        (λ p e s f. red_round-IsBalanced on p (right false y l) fs e s f)

  pub rb_erase_fixup-IsBalanced :
      (t : Tree A) (fs : Way A)
      → IsSound (blacken t)
      → Fits (suc (height t)) fs
      → Yields IsBalanced (rb_erase_fixup t fs)
  unfolding rb_erase_fixup
  rb_erase_fixup-IsBalanced t [] b fit = (b, blacken-black t)
  rb_erase_fixup-IsBalanced t (f ∷ fs) b fit =
      let go : (c : Bool) → Ready c (λ p. rb_erase_fixup p fs) fs =
        λ c p e s fits. rb_erase_fixup-IsBalanced p fs s fits in
      elim (Bool-cases (is_red t)) [
        | inl h ↦ rw h (red_focus-IsBalanced t (f ∷ fs) h b fit)
        | inr h ↦ rw h (rounds-IsBalanced _ t f fs b fit go)
      ]

  rebalance-IsBalanced :
      (c : Bool) (t : Tree A) (fs : Way A)
      → IsSound t
      → (c ≡ true → is_red t ≡ false)
      → Fits (lift c (height t)) fs
      → Yields IsBalanced (rebalance c t fs)
  unfolding rb_erase_fixup
  rebalance-IsBalanced true t fs s e fit = plug-IsBalanced t fs s (λ k. ground (arith, k, e)) fit
  rebalance-IsBalanced false t fs s e fit =
      rb_erase_fixup-IsBalanced t fs (blacken-IsBalanced t s).0 fit

  -- The parts of a sound node.
  parts :
      (c : Bool) (l : Tree A) (x : A) (r : Tree A)
      → IsSound (node c l x r)
      → IsSound l
        × IsSound r
        × (height l ≡ height r)
        × (c ≡ true → (is_red l ≡ false) × (is_red r ≡ false))
  parts true l x r s = (s.0, s.1, s.2, (λ _. (s.3, s.4)))
  parts false l x r s = (s.0, s.1, s.2, (λ e. ground (arith, e)))

  leftmost-Fits :
      (c : Bool) (l : Tree A) (x : A) (r : Tree A) (ws fs : Way A)
      → IsSound (node c l x r)
      → Allows (node c l x r) (ws ++ fs)
      → Fits (lift c (height l)) (ws ++ fs)
      → let ((d, s, child), way) = leftmost c l x r ws in
        IsSound child × (d ≡ true → is_red child ≡ false) × Fits (lift d (height child)) (way ++ fs)
  unfolding leftmost
  leftmost-Fits c leaf x r ws fs s a fit =
      let p = parts c leaf x r s in
      (p.1, (λ e. (p.3 e).1), Fits-Same _ _ (ws ++ fs) (ap (lift c) p.2) fit)
  leftmost-Fits c (node d k y m) x r ws fs s a fit =
      let p = parts c (node d k y m) x r s in
      leftmost-Fits d k y m (left c x r ∷ ws) fs p.0 (below_black c d (λ e. (p.3 e).0)) (
        (left-Beside _ c x r (ws ++ fs)).1 (
          p.1,
          sym p.2 ∙ node-height d k y m,
          (λ e. ((p.3 e).1, a e)),
          Fits-Same _ _ (ws ++ fs) (ap (lift c) (node-height d k y m)) fit,
        ))

  pub rb_erase-IsBalanced :
      (c : Bool) (l : Tree A) (x : A) (r : Tree A) (fs : Way A)
      → IsBalanced (plug (node c l x r) fs)
      → Yields IsBalanced (rb_erase (node c l x r) fs)
  unfolding rb_erase
  rb_erase-IsBalanced c leaf x r fs b =
      let (s, a, fit) = plug-Fits (node c leaf x r) fs b in
      let p = parts c leaf x r s in
      rebalance-IsBalanced c r fs p.1 (λ e. (p.3 e).1)
        (Fits-Same _ _ fs (node-height c leaf x r ∙ ap (lift c) p.2) fit)
  rb_erase-IsBalanced c (node d k y m) x leaf fs b =
      let (s, a, fit) = plug-Fits (node c (node d k y m) x leaf) fs b in
      let p = parts c (node d k y m) x leaf s in
      rebalance-IsBalanced c (node d k y m) fs p.0 (λ e. (p.3 e).0)
        (Fits-Same _ _ fs (node-height c (node d k y m) x leaf) fit)
  rb_erase-IsBalanced c (node d k y m) x (node e u z v) fs b =
      let (s, a, fit) = plug-Fits (node c (node d k y m) x (node e u z v)) fs b in
      let p = parts c (node d k y m) x (node e u z v) s in
      let ((q, w, child), way) = leftmost e u z v [] in
      let rest : Fits (height (node e u z v)) (right c w (node d k y m) ∷ fs) =
        (right-Beside _ c w (node d k y m) fs).1 (
          p.0,
          p.2,
          (λ h. ((p.3 h).0, a h)),
          Fits-Same _ _ fs (node-height c (node d k y m) x (node e u z v) ∙ ap (lift c) p.2) fit,
        ) in
      let least =
        leftmost-Fits e u z v [] (right c w (node d k y m) ∷ fs) p.1
          (below_black c e (λ h. (p.3 h).1))
          (Fits-Same _ _ (right c w (node d k y m) ∷ fs) (node-height e u z v) rest) in
      rebalance-IsBalanced q child (way ++ right c w (node d k y m) ∷ fs) least.0 least.1 least.2
