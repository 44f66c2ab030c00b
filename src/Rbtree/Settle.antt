-- ===== src/Rbtree/Settle.antt =====
-- That `rb_insert_color` of lib/rbtree.c restores the red-black shape.
use nuvix.Prelude.{
  ℕ, suc, ◌≡◌, refl, sym, ap, ◌∙◌, inl, inr, true, false, Option, none, some, [], ◌∷◌, arith,
  Bool-cases,
}
use mathlib.Core.Path.{subst}
use mathlib.Core.Option
use nuvix.Rbtree.{
  Tree, leaf, node, Frame, left, right, Way, is_red, up, plug, blacken, settle_left, settle_right,
  frame_red, insert_up, insert_at,
}
use nuvix.Rbtree.Balance.{
  height, IsSound, IsBalanced, Fits, Fits-Same, plug-IsBalanced, plug-Fits, blacken-IsBalanced,
  blacken-height, Yields,
}

module _ {ℓ} {A : Type ℓ} where
  -- A sound black tree of a height: what a round puts in the place of the grandparent.
  abbrev pub Settles : ℕ → Tree A → Type 0
  Settles h t = IsBalanced t × (height t ≡ h)

  -- The focus is red, and its parent too.
  parent-Settles :
      (t : Tree A) (p : Frame A) (fs : Way A)
      → IsSound t
      → Fits (height t) (p ∷ fs)
      → frame_red p ≡ true
      → Settles (suc (height t)) (blacken (up t p))
  parent-Settles t (left true x r) fs s f e = (((s, f.0, sym f.1), refl), refl)
  parent-Settles t (left false x r) fs s f e = ground (arith, e)
  parent-Settles t (right true x l) fs s f e = (((f.0, s, f.1), refl), ap suc f.1)
  parent-Settles t (right false x l) fs s f e = ground (arith, e)

  settle_left-Settles :
      (a : Tree A) (y : A) (b : Tree A) (p : Frame A) (g : A) (u : Tree A) (fs : Way A)
      → IsSound (node true a y b)
      → Fits (height a) (p ∷ fs)
      → frame_red p ≡ true
      → IsSound u × (height u ≡ height a) × (is_red u ≡ false)
      → Settles (suc (height a)) (settle_left (node true a y b) p g u)
  settle_left-Settles a y b (left true x r) g u fs s f e v =
      (((s, (f.0, v.0, f.1 ∙ sym v.1, f.2, v.2), sym f.1), refl), refl)
  settle_left-Settles a y b (left false x r) g u fs s f e v = ground (arith, e)
  settle_left-Settles a y b (right true x l) g u fs s f e v = (
    (((f.0, s.0, f.1, f.2, s.3), (s.1, v.0, sym s.2 ∙ sym v.1, s.4, v.2), f.1 ∙ s.2), refl),
    ap suc f.1,
  )
  settle_left-Settles a y b (right false x l) g u fs s f e v = ground (arith, e)

  settle_right-Settles :
      (a : Tree A) (y : A) (b : Tree A) (p : Frame A) (g : A) (u : Tree A) (fs : Way A)
      → IsSound (node true a y b)
      → Fits (height a) (p ∷ fs)
      → frame_red p ≡ true
      → IsSound u × (height u ≡ height a) × (is_red u ≡ false)
      → Settles (suc (height a)) (settle_right (node true a y b) p g u)
  settle_right-Settles a y b (right true x l) g u fs s f e v =
      ((((v.0, f.0, v.1 ∙ sym f.1, v.2, f.2), s, v.1), refl), ap suc v.1)
  settle_right-Settles a y b (right false x l) g u fs s f e v = ground (arith, e)
  settle_right-Settles a y b (left true x r) g u fs s f e v = (
    (((v.0, s.0, v.1, v.2, s.3), (s.1, f.0, sym s.2 ∙ sym f.1, s.4, f.2), v.1 ∙ s.2), refl),
    ap suc v.1,
  )
  settle_right-Settles a y b (left false x r) g u fs s f e v = ground (arith, e)

  -- A red parent's own parent is black.
  grand_black :
      (h : ℕ) (p f : Frame A) (fs : Way A)
      → Fits h (p ∷ f ∷ fs)
      → frame_red p ≡ true
      → frame_red f ≡ false
  grand_black h (left true x r) f fs fit e = ground (arith, fit.3)
  grand_black h (left false x r) f fs fit e = ground (arith, e)
  grand_black h (right true x l) f fs fit e = ground (arith, fit.3)
  grand_black h (right false x l) f fs fit e = ground (arith, e)

  -- What is above a red parent fits the same height.
  above-Fits : (h : ℕ) (p : Frame A) (fs : Way A) → Fits h (p ∷ fs) → frame_red p ≡ true → Fits h fs
  above-Fits h (left true x r) fs fit e = fit.4
  above-Fits h (left false x r) fs fit e = ground (arith, e)
  above-Fits h (right true x l) fs fit e = fit.4
  above-Fits h (right false x l) fs fit e = ground (arith, e)

  red_uncle-Settles :
      (u : Tree A) (h : ℕ)
      → IsSound u
      → height u ≡ h
      → is_red u ≡ true
      → Settles (suc h) (blacken u)
  red_uncle-Settles u h s e r = (blacken-IsBalanced u s, blacken-height u r ∙ ap suc e)

  -- The painted grandparent: a red node over two sound black trees of the same height.
  joined-IsSound :
      (h : ℕ) (l : Tree A) (x : A) (r : Tree A)
      → Settles h l
      → Settles h r
      → IsSound (node true l x r) × (height l ≡ h)
  joined-IsSound h l x r sl sr = ((sl.0.0, sr.0.0, sl.1 ∙ sym sr.1, sl.0.1, sr.0.1), sl.1)

  -- A settled tree in the place of the grandparent.
  placed-IsSound : (h : ℕ) (t : Tree A) (fs : Way A) → Settles h t → Fits h fs → IsSound (plug t fs)
  placed-IsSound h t fs s fit =
      (plug-IsBalanced t fs s.0.0 (λ e. ground (arith, e, s.0.1))
        (Fits-Same _ _ fs (sym s.1) fit)).0

  insert_up-IsSound :
      (a : Tree A) (y : A) (b : Tree A) (fs : Way A)
      → IsSound (node true a y b)
      → Fits (height a) fs
      → Yields IsSound (insert_up (node true a y b) fs)
  unfolding insert_up
  insert_up-IsSound a y b [] s fit = s
  insert_up-IsSound a y b (left true x r ∷ []) s fit = ground (arith, fit.3)
  insert_up-IsSound a y b (right true x l ∷ []) s fit = ground (arith, fit.3)
  insert_up-IsSound a y b (left false x r ∷ []) s fit =
      (plug-IsBalanced (node true a y b) (left false x r ∷ []) s (λ _. refl) fit).0
  insert_up-IsSound a y b (right false x l ∷ []) s fit =
      (plug-IsBalanced (node true a y b) (right false x l ∷ []) s (λ _. refl) fit).0
  insert_up-IsSound a y b (p ∷ left c g u ∷ fs) s fit =
      let t = node true a y b in
      let rec = insert_up-IsSound (blacken (up t p)) g (blacken u) fs in
      elim (Bool-cases (frame_red p)) [
        | inr h ↦ rw h (plug-IsBalanced t (p ∷ left c g u ∷ fs) s (λ _. ground (arith, h)) fit).0
        | inl h ↦
            let black : c ≡ false = grand_black _ p (left c g u) fs fit h in
            let top : Fits (height a) (left false g u ∷ fs) =
              subst (λ d. Fits (height a) (left d g u ∷ fs)) black (above-Fits _ p _ fit h) in
            elim (Bool-cases (is_red u)) [
              | inl k ↦
                  let joined =
                    joined-IsSound _ _ g _ (parent-Settles t p _ s fit h)
                      (red_uncle-Settles u _ top.0 top.1 k) in
                  rw (h, k) (rec joined.0 (Fits-Same _ _ fs (sym joined.1) top.2))
              | inr k ↦
                  rw (h, k)
                    (placed-IsSound _ _ fs
                      (settle_left-Settles a y b p g u _ s fit h (top.0, top.1, k)) top.2)
            ]
      ]
  insert_up-IsSound a y b (p ∷ right c g u ∷ fs) s fit =
      let t = node true a y b in
      let rec = insert_up-IsSound (blacken u) g (blacken (up t p)) fs in
      elim (Bool-cases (frame_red p)) [
        | inr h ↦ rw h (plug-IsBalanced t (p ∷ right c g u ∷ fs) s (λ _. ground (arith, h)) fit).0
        | inl h ↦
            let black : c ≡ false = grand_black _ p (right c g u) fs fit h in
            let top : Fits (height a) (right false g u ∷ fs) =
              subst (λ d. Fits (height a) (right d g u ∷ fs)) black (above-Fits _ p _ fit h) in
            elim (Bool-cases (is_red u)) [
              | inl k ↦
                  let joined =
                    joined-IsSound _ _ g _ (red_uncle-Settles u _ top.0 top.1 k)
                      (parent-Settles t p _ s fit h) in
                  rw (h, k) (rec joined.0 (Fits-Same _ _ fs (sym joined.1) top.2))
              | inr k ↦
                  rw (h, k)
                    (placed-IsSound _ _ fs
                      (settle_right-Settles a y b p g u _ s fit h (top.0, top.1, k)) top.2)
            ]
      ]

  blacken-Yields :
      (o : Option (Tree A)) → Yields IsSound o → Yields IsBalanced (Option.map blacken o)
  blacken-Yields none y = y
  blacken-Yields (some t) y = blacken-IsBalanced t y

  pub insert_at-IsBalanced :
      (x : A) (fs : Way A) → IsBalanced (plug leaf fs) → Yields IsBalanced (insert_at x fs)
  unfolding insert_at
  insert_at-IsBalanced x fs b =
      blacken-Yields _
        (insert_up-IsSound leaf x leaf fs (tt, tt, refl, refl, refl) (plug-Fits leaf fs b).2)
