-- ===== src/Rbtree/Mend.antt =====
-- A round of `rb_erase_fixup` of lib/rbtree.c below a black sibling, and the red-black shape.
use nuvix.Prelude.{
  ℕ, suc, ◌≡◌, refl, sym, ap, ◌∙◌, ◌↔◌, inl, inr, Bool, true, false, ◌∷◌, arith, Bool-cases,
}
use nuvix.Rbtree.{Tree, leaf, node, left, right, Way, is_red, blacken, rotate_left, rotate_right}
use nuvix.Rbtree.Erase.{Step, short, settled, fault, outer_right, outer_left, mend_left, mend_right}
use nuvix.Rbtree.Balance.{height, IsSound, IsBalanced, has_black, Fits}

-- The height above a node of a colour.
abbrev pub lift : Bool → ℕ → ℕ
lift true h = h
lift false h = suc h

module _ {ℓ} {A : Type ℓ} where
  pub node-height :
      (c : Bool) (l : Tree A) (x : A) (r : Tree A) → height (node c l x r) ≡ lift c (height l)
  node-height true l x r = refl
  node-height false l x r = refl

  -- What a way has next to a child and above the parent.
  abbrev pub Beside : Bool → ℕ → Tree A → Way A → Type 0
  Beside c h s fs =
      IsSound s
      × (height s ≡ h)
      × (c ≡ true → (is_red s ≡ false) × (has_black fs ≡ true))
      × Fits (lift c h) fs

  pub left-Beside :
      (h : ℕ) (c : Bool) (x : A) (s : Tree A) (fs : Way A)
      → Fits h (left c x s ∷ fs) ↔ Beside c h s fs
  left-Beside h true x s fs = (
    (λ f. (f.0, f.1, (λ _. (f.2, f.3)), f.4)),
    (λ b. (b.0, b.1, (b.2 refl).0, (b.2 refl).1, b.3)),
  )
  left-Beside h false x s fs =
      ((λ f. (f.0, f.1, (λ e. ground (arith, e)), f.2)), (λ b. (b.0, b.1, b.3)))

  pub right-Beside :
      (h : ℕ) (c : Bool) (x : A) (s : Tree A) (fs : Way A)
      → Fits h (right c x s ∷ fs) ↔ Beside c h s fs
  right-Beside h true x s fs = (
    (λ f. (f.0, f.1, (λ _. (f.2, f.3)), f.4)),
    (λ b. (b.0, b.1, (b.2 refl).0, (b.2 refl).1, b.3)),
  )
  right-Beside h false x s fs =
      ((λ f. (f.0, f.1, (λ e. ground (arith, e)), f.2)), (λ b. (b.0, b.1, b.3)))

  node-IsSound :
      (c : Bool) (l : Tree A) (x : A) (r : Tree A)
      → IsBalanced l
      → IsBalanced r
      → height l ≡ height r
      → IsSound (node c l x r)
  node-IsSound true l x r bl br e = (bl.0, br.0, e, bl.1, br.1)
  node-IsSound false l x r bl br e = (bl.0, br.0, e)

  -- What a round leaves: a parent of the same colour that is one short, or a settled tree.
  abbrev pub Mends : Bool → ℕ → Step A → Type 0
  Mends c h (short p) = IsSound (blacken p) × (suc (height p) ≡ lift c h) × (is_red p ≡ c)
  Mends c h (settled p) = IsSound p × (height p ≡ lift c h) × (is_red p ≡ c)
  Mends c h fault = ⊥

  crown-Mends :
      (c : Bool) (h : ℕ) (l : Tree A) (x : A) (r : Tree A)
      → IsBalanced l × (height l ≡ h)
      → IsBalanced r × (height r ≡ h)
      → Mends c h (settled (node c l x r))
  crown-Mends c h l x r bl br = (
    node-IsSound c l x r bl.0 br.0 (bl.1 ∙ sym br.1),
    node-height c l x r ∙ ap (lift c) bl.1,
    refl,
  )

  both_black :
      (t : Tree A) (c : Bool) (x : A) (a : Tree A) (y : A) (b : Tree A)
      → IsBalanced t
      → IsSound (node true a y b)
      → height a ≡ height t
      → Mends c (suc (height t)) (short (node c t x (node true a y b)))
  both_black t true x a y b bt s e = ((bt.0, s, sym e), refl, refl)
  both_black t false x a y b bt s e = ((bt.0, s, sym e), refl, refl)

  -- Two black nodes below the crown.
  pair-Mends :
      (c : Bool) (h : ℕ) (k : Tree A) (x : A) (l : Tree A) (y : A) (m : Tree A) (z : A) (n : Tree A)
      → IsSound k × (height k ≡ h)
      → IsSound l × (height l ≡ h)
      → IsSound m × (height m ≡ h)
      → IsSound n × (height n ≡ h)
      → Mends c (suc h) (settled (node c (node false k x l) y (node false m z n)))
  pair-Mends c h k x l y m z n sk sl sm sn =
      crown-Mends c (suc h) (node false k x l) y (node false m z n)
        (((sk.0, sl.0, sk.1 ∙ sym sl.1), refl), ap suc sk.1)
        (((sm.0, sn.0, sm.1 ∙ sym sn.1), refl), ap suc sm.1)

  far_right :
      (t : Tree A) (c : Bool) (x : A) (a : Tree A) (y : A) (b : Tree A)
      → IsBalanced t
      → IsSound (node false a y b)
      → height a ≡ height t
      → is_red b ≡ true
      → Mends c
          (suc (height t))
          (settled (rotate_left (node false t x (outer_right c (node false a y b)))))
  far_right t c x a y leaf bt s e k = ground (arith, k)
  far_right t c x a y (node false p z q) bt s e k = ground (arith, k)
  far_right t c x a y (node true p z q) bt s e k =
      let same : height p ≡ height t = sym s.2 ∙ e in
      pair-Mends c (height t) t x a y p z q (bt.0, refl) (s.0, e) (s.1.0, same)
        (s.1.1, sym s.1.2 ∙ same)

  near_right :
      (t : Tree A) (c : Bool) (x : A) (a : Tree A) (y : A) (b : Tree A)
      → IsBalanced t
      → IsSound (node false a y b)
      → height a ≡ height t
      → is_red a ≡ true
      → Mends c (suc (height t)) (
          settled (
            rotate_left
              (node false t x (outer_right c (rotate_right (node true (blacken a) y b))))))
  near_right t c x leaf y b bt s e k = ground (arith, k)
  near_right t c x (node false p z q) y b bt s e k = ground (arith, k)
  near_right t c x (node true p z q) y b bt s e k =
      pair-Mends c (height t) t x p z q y b (bt.0, refl) (s.0.0, e) (s.0.1, sym s.0.2 ∙ e)
        (s.1, sym s.2 ∙ e)

  far_left :
      (t : Tree A) (c : Bool) (x : A) (a : Tree A) (y : A) (b : Tree A)
      → IsBalanced t
      → IsSound (node false a y b)
      → height a ≡ height t
      → is_red a ≡ true
      → Mends c
          (suc (height t))
          (settled (rotate_right (node false (outer_left c (node false a y b)) x t)))
  far_left t c x leaf y b bt s e k = ground (arith, k)
  far_left t c x (node false p z q) y b bt s e k = ground (arith, k)
  far_left t c x (node true p z q) y b bt s e k =
      pair-Mends c (height t) p z q y b x t (s.0.0, e) (s.0.1, sym s.0.2 ∙ e) (s.1, sym s.2 ∙ e)
        (bt.0, refl)

  near_left :
      (t : Tree A) (c : Bool) (x : A) (a : Tree A) (y : A) (b : Tree A)
      → IsBalanced t
      → IsSound (node false a y b)
      → height a ≡ height t
      → is_red b ≡ true
      → Mends c (suc (height t)) (
          settled (
            rotate_right (node false (outer_left c (rotate_left (node true a y (blacken b)))) x t)))
  near_left t c x a y leaf bt s e k = ground (arith, k)
  near_left t c x a y (node false p z q) bt s e k = ground (arith, k)
  near_left t c x a y (node true p z q) bt s e k =
      let same : height p ≡ height t = sym s.2 ∙ e in
      pair-Mends c (height t) a y p z q x t (s.0, e) (s.1.0, same) (s.1.1, sym s.1.2 ∙ same)
        (bt.0, refl)

  pub mend_left-Mends :
      (t : Tree A) (c : Bool) (x : A) (s : Tree A)
      → IsBalanced t
      → IsBalanced s
      → height s ≡ suc (height t)
      → Mends c (suc (height t)) (mend_left t c x s)
  unfolding mend_left
  mend_left-Mends t c x leaf bt bs e = ground (arith, e)
  mend_left-Mends t c x (node true a y b) bt bs e = ground (arith, bs.1)
  mend_left-Mends t c x (node false a y b) bt bs e =
      let same : height a ≡ height t = ground (arith, e) in
      let far = far_right t c x a y b bt bs.0 same in
      elim (Bool-cases (is_red a)) [
        | inl j ↦ elim (Bool-cases (is_red b)) [
          | inl k ↦ rw (j, k) (far k)
          | inr k ↦ rw (j, k) (near_right t c x a y b bt bs.0 same j)
        ]
        | inr j ↦ elim (Bool-cases (is_red b)) [
          | inl k ↦ rw (j, k) (far k)
          | inr k ↦ rw (j, k) (both_black t c x a y b bt (bs.0.0, bs.0.1, bs.0.2, j, k) same)
        ]
      ]

  both_black_right :
      (t : Tree A) (c : Bool) (x : A) (a : Tree A) (y : A) (b : Tree A)
      → IsBalanced t
      → IsSound (node true a y b)
      → height a ≡ height t
      → Mends c (suc (height t)) (short (node c (node true a y b) x t))
  both_black_right t true x a y b bt s e = ((s, bt.0, e), ap (λ h. suc h) e, refl)
  both_black_right t false x a y b bt s e = ((s, bt.0, e), ap (λ h. suc (suc h)) e, refl)

  pub mend_right-Mends :
      (t : Tree A) (c : Bool) (x : A) (s : Tree A)
      → IsBalanced t
      → IsBalanced s
      → height s ≡ suc (height t)
      → Mends c (suc (height t)) (mend_right t c x s)
  unfolding mend_right
  mend_right-Mends t c x leaf bt bs e = ground (arith, e)
  mend_right-Mends t c x (node true a y b) bt bs e = ground (arith, bs.1)
  mend_right-Mends t c x (node false a y b) bt bs e =
      let same : height a ≡ height t = ground (arith, e) in
      let far = far_left t c x a y b bt bs.0 same in
      elim (Bool-cases (is_red a)) [
        | inl j ↦ rw j (far j)
        | inr j ↦ elim (Bool-cases (is_red b)) [
          | inl k ↦ rw (j, k) (near_left t c x a y b bt bs.0 same k)
          | inr k ↦ rw (j, k) (both_black_right t c x a y b bt (bs.0.0, bs.0.1, bs.0.2, j, k) same)
        ]
      ]
