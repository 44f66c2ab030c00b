-- ===== src/Rbtree/Update.antt =====
-- What the callers of lib/rbtree.c rely on: the tree after an insertion and after a removal.
use nuvix.Prelude.{refl, ◌≡◌, Bool, Option, none, some, List, ◌∷◌, ◌++◌}
use nuvix.Rbtree.{Tree, leaf, node, Way, plug, insert_at}
use nuvix.Rbtree.Erase.{rb_erase}
use nuvix.Rbtree.Order.{to_list, before, behind}
use nuvix.Rbtree.Order.{Holds, insert_at-Holds}
use nuvix.Rbtree.Removal.{rb_erase-Holds}
use nuvix.Rbtree.Balance.{IsBalanced, Yields}
use nuvix.Rbtree.Settle.{insert_at-IsBalanced}
use nuvix.Rbtree.Fixup.{rb_erase-IsBalanced}

module _ {ℓ} {A : Type ℓ} where
  -- The result is there, and it is a balanced tree of the list.
  abbrev pub Gives : List A → Option (Tree A) → Type ℓ
  Gives xs o = (t : Tree A) × (o ≡ some t) × IsBalanced t × (to_list t ≡ xs)

  both : (xs : List A) (o : Option (Tree A)) → Yields IsBalanced o → Holds xs o → Gives xs o
  both xs none b h = absurd b
  both xs (some t) b h = (t, refl, b, h)

  -- A node linked at a free place of a balanced tree: `rb_insert_color` returns without reading a
  -- missing node, the tree is balanced again, and it holds the old elements in their order with
  -- the new one at that place.
  pub insert_at-Gives :
      (x : A) (fs : Way A)
      → IsBalanced (plug leaf fs)
      → Gives (before fs ++ x ∷ behind fs) (insert_at x fs)
  insert_at-Gives x fs b = both _ _ (insert_at-IsBalanced x fs b) (insert_at-Holds x fs)

  -- The removal of any node of a balanced tree: `rb_erase` returns without reading a missing node,
  -- the tree is balanced again, and it holds the other elements in their order.
  pub rb_erase-Gives :
      (c : Bool) (l : Tree A) (x : A) (r : Tree A) (fs : Way A)
      → IsBalanced (plug (node c l x r) fs)
      → Gives ((before fs ++ to_list l) ++ (to_list r ++ behind fs)) (rb_erase (node c l x r) fs)
  rb_erase-Gives c l x r fs b =
      both _ _ (rb_erase-IsBalanced c l x r fs b) (rb_erase-Holds c l x r fs)
