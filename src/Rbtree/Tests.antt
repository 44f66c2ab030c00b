-- ===== src/Rbtree/Tests.antt =====
-- Runs of lib/rbtree.c on small trees.
use nuvix.Prelude.{ℕ, ◌≡◌, refl, true, false, some, [], ◌∷◌}
use nuvix.Rbtree.{Tree, leaf, node, left, right, Way, insert_up, insert_at}
use nuvix.Rbtree.Erase.{mend_left, mend_right, mend, round, rb_erase_fixup, leftmost, rb_erase}
use nuvix.Rbtree.Update.{Gives, insert_at-Gives, rb_erase-Gives}

abbrev red_leaf : ℕ → Tree ℕ
red_leaf x = node true leaf x leaf

-- Three black nodes below each other would not do: the first is black, its children are red.
abbrev three : Tree ℕ
three = node false (red_leaf 1) 2 (red_leaf 3)

abbrev right_end : Way ℕ
right_end = right true 3 leaf ∷ right false 2 (red_leaf 1) ∷ []

-- The red uncle is painted.
fourth :
    insert_at 4 right_end
    ≡ some (node false (node false leaf 1 leaf) 2 (node false leaf 3 (red_leaf 4)))
unfolding insert_at insert_up
fourth = refl

-- The black uncle makes the tree turn.
fifth :
    insert_at 5 (right true 4 leaf ∷ right false 3 leaf ∷ [])
    ≡ some (node false (red_leaf 3) 4 (red_leaf 5))
unfolding insert_at insert_up
fifth = refl

abbrev four : Tree ℕ
four = node false (node false leaf 1 leaf) 2 (node false leaf 3 (red_leaf 4))

-- Without the black node on the left, the right side is turned over.
one_less :
    rb_erase (node false leaf 1 leaf) (left false 2 (node false leaf 3 (red_leaf 4)) ∷ [])
    ≡ some (node false (node false leaf 2 leaf) 3 (node false leaf 4 leaf))
unfolding rb_erase rb_erase_fixup round mend mend_left mend_right
one_less = refl

-- The root gives way to its successor.
without_root :
    rb_erase four [] ≡ some (node false (node false leaf 1 leaf) 3 (node false leaf 4 leaf))
unfolding rb_erase leftmost rb_erase_fixup round mend mend_left mend_right
without_root = refl

insert_at-Gives_example : Gives (1 ∷ 2 ∷ 3 ∷ 4 ∷ []) (insert_at 4 right_end)
insert_at-Gives_example =
    insert_at-Gives 4 right_end
      (((tt, tt, refl, refl, refl), (tt, tt, refl, refl, refl), refl), refl)

rb_erase-Gives_example : Gives (1 ∷ 3 ∷ 4 ∷ []) (rb_erase four [])
rb_erase-Gives_example =
    rb_erase-Gives false (node false leaf 1 leaf) 2 (node false leaf 3 (red_leaf 4)) []
      (((tt, tt, refl), (tt, (tt, tt, refl, refl, refl), refl), refl), refl)
