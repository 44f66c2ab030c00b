-- ===== src/Rbtree/Order.antt =====
-- What the trees of lib/rbtree.c hold, from left to right, and that insertion and removal keep it.
use nuvix.Rbtree.{Tree, Way, node, left, plug, right}
use nuvix.Prelude.{
  ◌≡◌, refl, ◌∙◌, inl, inr, Bool, true, Option, none, some, List, [], ◌∷◌, ◌++◌, Bool-cases,
}
use nuvix.Rbtree.{
  Tree, leaf, node, Frame, left, right, Way, is_red, up, plug, blacken, rotate_left, rotate_right,
  settle_left, settle_right, frame_red, insert_up, insert_at,
}
use mathlib.Core.Option
use mathlib.Core.List.{append-nil, append_assoc}
use mathlib.Core.Path.{subst}

module _ {ℓ} {A : Type ℓ} where
  abbrev pub to_list : Tree A → List A
  to_list leaf = []
  to_list (node red l x r) = to_list l ++ x ∷ to_list r

  -- What stands before and behind the focus.
  abbrev pub before : Way A → List A
  before [] = []
  before (left c x r ∷ fs) = before fs
  before (right c x l ∷ fs) = before fs ++ to_list l ++ x ∷ []

  abbrev pub behind : Way A → List A
  behind [] = []
  behind (left c x r ∷ fs) = x ∷ to_list r ++ behind fs
  behind (right c x l ∷ fs) = behind fs

  pub ruleset in_order = (append-nil, append_assoc)

  pub plug-to_list :
      (t : Tree A) (fs : Way A) → to_list (plug t fs) ≡ before fs ++ (to_list t ++ behind fs)
  plug-to_list t [] = simp (in_order)
  plug-to_list t (left c x r ∷ fs) = plug-to_list (node c t x r) fs ∙ simp (in_order)
  plug-to_list t (right c x l ∷ fs) = plug-to_list (node c l x t) fs ∙ simp (in_order)

  -- Two trees that hold the same in a place make the same.
  pub plug-Same :
      (t u : Tree A) (fs : Way A)
      → to_list t ≡ to_list u
      → to_list (plug t fs) ≡ to_list (plug u fs)
  plug-Same t u fs e = rw (plug-to_list t fs, plug-to_list u fs, e) refl

  pub rotate_left-to_list : (t : Tree A) → to_list (rotate_left t) ≡ to_list t
  rotate_left-to_list leaf = refl
  rotate_left-to_list (node c l x leaf) = refl
  rotate_left-to_list (node c l x (node d a y b)) = simp (in_order)

  pub rotate_right-to_list : (t : Tree A) → to_list (rotate_right t) ≡ to_list t
  rotate_right-to_list leaf = refl
  rotate_right-to_list (node c leaf x r) = refl
  rotate_right-to_list (node c (node d a y b) x r) = simp (in_order)

  pub blacken-to_list : (t : Tree A) → to_list (blacken t) ≡ to_list t
  blacken-to_list leaf = refl
  blacken-to_list (node c l x r) = refl

  pub ruleset shapes =
      (rotate_left-to_list, rotate_right-to_list, blacken-to_list, append-nil, append_assoc)

  settle_left-to_list :
      (t : Tree A) (p : Frame A) (c : Bool) (g : A) (u : Tree A)
      → to_list (settle_left t p g u) ≡ to_list (node c (up t p) g u)
  settle_left-to_list t (left red x r) c g u = simp (shapes)
  settle_left-to_list t (right red x l) c g u = simp (shapes)

  settle_right-to_list :
      (t : Tree A) (p : Frame A) (c : Bool) (g : A) (u : Tree A)
      → to_list (settle_right t p g u) ≡ to_list (node c u g (up t p))
  settle_right-to_list t (left red x r) c g u = simp (shapes)
  settle_right-to_list t (right red x l) c g u = simp (shapes)

  -- A result, if there is one, holds the list.
  abbrev pub Holds : List A → Option (Tree A) → Type ℓ
  Holds xs (some t) = to_list t ≡ xs
  Holds xs none = Unit

  pub Holds-Same : (xs ys : List A) (o : Option (Tree A)) → xs ≡ ys → Holds xs o → Holds ys o
  Holds-Same xs ys o e h = subst (λ zs. Holds zs o) e h

  recolour_left-Same :
      (t : Tree A) (p : Frame A) (c : Bool) (g : A) (u : Tree A) (fs : Way A)
      → to_list (plug (node true (blacken (up t p)) g (blacken u)) fs)
        ≡ to_list (plug (node c (up t p) g u) fs)
  recolour_left-Same t p c g u fs = plug-Same _ _ fs (simp (shapes))

  recolour_right-Same :
      (t : Tree A) (p : Frame A) (c : Bool) (g : A) (u : Tree A) (fs : Way A)
      → to_list (plug (node true (blacken u) g (blacken (up t p))) fs)
        ≡ to_list (plug (node c u g (up t p)) fs)
  recolour_right-Same t p c g u fs = plug-Same _ _ fs (simp (shapes))

  insert_up-Holds : (t : Tree A) (fs : Way A) → Holds (to_list (plug t fs)) (insert_up t fs)
  unfolding insert_up
  insert_up-Holds t [] = refl
  insert_up-Holds t (p ∷ []) = elim (Bool-cases (frame_red p)) [
    | inl h ↦ rw h tt
    | inr h ↦ rw h refl
  ]
  insert_up-Holds t (p ∷ left c g u ∷ fs) =
      let above = insert_up-Holds (node true (blacken (up t p)) g (blacken u)) fs in
      elim (Bool-cases (frame_red p)) [
        | inr h ↦ rw h refl
        | inl h ↦ elim (Bool-cases (is_red u)) [
          | inl k ↦ rw (h, k) (Holds-Same _ _ _ (recolour_left-Same t p c g u fs) above)
          | inr k ↦ rw (h, k) (plug-Same _ _ fs (settle_left-to_list t p c g u))
        ]
      ]
  insert_up-Holds t (p ∷ right c g u ∷ fs) =
      let above = insert_up-Holds (node true (blacken u) g (blacken (up t p))) fs in
      elim (Bool-cases (frame_red p)) [
        | inr h ↦ rw h refl
        | inl h ↦ elim (Bool-cases (is_red u)) [
          | inl k ↦ rw (h, k) (Holds-Same _ _ _ (recolour_right-Same t p c g u fs) above)
          | inr k ↦ rw (h, k) (plug-Same _ _ fs (settle_right-to_list t p c g u))
        ]
      ]

  blacken-Holds : (xs : List A) (o : Option (Tree A)) → Holds xs o → Holds xs (Option.map blacken o)
  blacken-Holds xs none h = tt
  blacken-Holds xs (some t) h = blacken-to_list t ∙ h

  pub insert_at-Holds : (x : A) (fs : Way A) → Holds (before fs ++ x ∷ behind fs) (insert_at x fs)
  unfolding insert_at
  insert_at-Holds x fs =
      blacken-Holds _ _
        (Holds-Same _ _ _ (plug-to_list (node true leaf x leaf) fs) (insert_up-Holds _ fs))
