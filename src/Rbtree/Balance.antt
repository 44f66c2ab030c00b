-- ===== src/Rbtree/Balance.antt =====
-- The red-black shape of the trees of lib/rbtree.c.
use nuvix.Prelude.{
  ℕ, suc, ◌≡◌, refl, sym, ap, inl, inr, Bool, true, false, not, Option, none, some, [], ◌∷◌, arith,
  Bool-cases,
}
use mathlib.Core.Path.{subst}
use nuvix.Rbtree.{Tree, leaf, node, left, right, Way, is_red, plug, blacken, frame_red}

module _ {ℓ} {A : Type ℓ} where
  -- The black nodes on the leftmost way down.
  abbrev pub height : Tree A → ℕ
  height leaf = 0
  height (node true l x r) = height l
  height (node false l x r) = suc (height l)

  -- No red node has a red child, and the two subtrees of a node have the same number of black
  -- nodes on every way down.
  abbrev pub IsSound : Tree A → Type 0
  IsSound leaf = Unit
  IsSound (node true l x r) =
      IsSound l × IsSound r × (height l ≡ height r) × (is_red l ≡ false) × (is_red r ≡ false)
  IsSound (node false l x r) = IsSound l × IsSound r × (height l ≡ height r)

  -- A tree that has these and a black root.
  abbrev pub IsBalanced : Tree A → Type 0
  IsBalanced t = IsSound t × (is_red t ≡ false)

  -- There is a parent, and it is black.
  abbrev pub has_black : Way A → Bool
  has_black [] = false
  has_black (f ∷ fs) = not (frame_red f)

  -- A way that a tree of a given height fits into.
  abbrev pub Fits : ℕ → Way A → Type 0
  Fits h [] = Unit
  Fits h (left true x r ∷ fs) =
      IsSound r × (height r ≡ h) × (is_red r ≡ false) × (has_black fs ≡ true) × Fits h fs
  Fits h (left false x r ∷ fs) = IsSound r × (height r ≡ h) × Fits (suc h) fs
  Fits h (right true x l ∷ fs) =
      IsSound l × (height l ≡ h) × (is_red l ≡ false) × (has_black fs ≡ true) × Fits h fs
  Fits h (right false x l ∷ fs) = IsSound l × (height l ≡ h) × Fits (suc h) fs

  -- A red tree stands below a black parent.
  abbrev pub Allows : Tree A → Way A → Type 0
  Allows t fs = is_red t ≡ true → has_black fs ≡ true

  pub Fits-Same : (h k : ℕ) (fs : Way A) → h ≡ k → Fits h fs → Fits k fs
  Fits-Same h k fs e f = subst (λ n. Fits n fs) e f

  pub plug-IsBalanced :
      (t : Tree A) (fs : Way A)
      → IsSound t
      → Allows t fs
      → Fits (height t) fs
      → IsBalanced (plug t fs)
  plug-IsBalanced t [] s a f =
      (s, elim (Bool-cases (is_red t)) [ inl h ↦ ground (arith, h, a) | inr h ↦ h ])
  plug-IsBalanced t (left true x r ∷ fs) s a f =
      plug-IsBalanced (node true t x r) fs (s, f.0, sym f.1, ground (arith, a), f.2) (λ _. f.3) f.4
  plug-IsBalanced t (left false x r ∷ fs) s a f =
      plug-IsBalanced (node false t x r) fs (s, f.0, sym f.1) (λ e. ground (arith, e)) f.2
  plug-IsBalanced t (right true x l ∷ fs) s a f =
      plug-IsBalanced (node true l x t) fs (f.0, s, f.1, f.2, ground (arith, a)) (λ _. f.3)
        (Fits-Same _ _ fs (sym f.1) f.4)
  plug-IsBalanced t (right false x l ∷ fs) s a f =
      plug-IsBalanced (node false l x t) fs (f.0, s, f.1) (λ e. ground (arith, e))
        (Fits-Same _ _ fs (ap suc (sym f.1)) f.2)

  -- And the other way around: what a balanced tree has at a place.
  pub plug-Fits :
      (t : Tree A) (fs : Way A)
      → IsBalanced (plug t fs)
      → IsSound t × Allows t fs × Fits (height t) fs
  plug-Fits t [] b = (b.0, (λ e. ground (arith, e, b.1)), tt)
  plug-Fits t (left true x r ∷ fs) b =
      let (s, a, f) = plug-Fits (node true t x r) fs b in
      (s.0, (λ e. ground (arith, e, s.3)), (s.1, sym s.2, s.4, a refl, f))
  plug-Fits t (left false x r ∷ fs) b =
      let (s, a, f) = plug-Fits (node false t x r) fs b in (s.0, (λ e. refl), (s.1, sym s.2, f))
  plug-Fits t (right true x l ∷ fs) b =
      let (s, a, f) = plug-Fits (node true l x t) fs b in
      (s.1, (λ e. ground (arith, e, s.4)), (s.0, s.2, s.3, a refl, Fits-Same _ _ fs s.2 f))
  plug-Fits t (right false x l ∷ fs) b =
      let (s, a, f) = plug-Fits (node false l x t) fs b in
      (s.1, (λ e. refl), (s.0, s.2, Fits-Same _ _ fs (ap suc s.2) f))

  pub blacken-IsBalanced : (t : Tree A) → IsSound t → IsBalanced (blacken t)
  blacken-IsBalanced leaf s = (s, refl)
  blacken-IsBalanced (node true l x r) s = ((s.0, s.1, s.2), refl)
  blacken-IsBalanced (node false l x r) s = (s, refl)

  pub blacken-height : (t : Tree A) → is_red t ≡ true → height (blacken t) ≡ suc (height t)
  blacken-height leaf e = ground (arith, e)
  blacken-height (node true l x r) e = refl
  blacken-height (node false l x r) e = ground (arith, e)

  -- There is a result, and it satisfies the predicate.
  abbrev pub Yields : (Tree A → Type 0) → Option (Tree A) → Type 0
  Yields P none = ⊥
  Yields P (some t) = P t
