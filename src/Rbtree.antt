-- ===== src/Rbtree.antt =====
-- lib/rbtree.c and include/nuvix/rbtree.h. A node with its parent pointers is a tree in focus and the way up from
-- it: a list of frames, the parent's first. A dereferenced NULL is the result `none`.
pub mod Erase
pub mod Order
pub mod Walk
pub mod Balance
mod Removal
mod Settle
mod Mend
mod Fixup
pub mod Update
mod Tests
use nuvix.Prelude.{
  ℕ, zero, suc, ◌+◌, ◌-◌, ◌*◌, ◌/◌, ◌%◌, ◌^◌, ◌≤◌, ◌<◌, min, max, ◌≡◌, refl, sym, ap, ◌∙◌, fun_ext,
  ◌≢◌, ◌↔◌, ◌⊎◌, inl, inr, Bool, true, false, ◌&&◌, ◌||◌, not, Option, none, some, List, [], ◌∷◌,
  ◌++◌, arith, ltb, leb, ◌==◌, if◌then◌else◌, ltb→lt, ltb-false, lt→ltb, leb→le, ==_iff, Bool-cases,
  Option-cases, length, get_elem?, get_or, set, take, drop, All, keep_if, length-append, length-set,
  length-take, get_or-set_self, get_or-set_ne,
}
use mathlib.Core.Option

pub data Tree {ℓ} (A : Type ℓ) : Type ℓ where
  leaf : Tree A
  node : (red : Bool) → Tree A → A → Tree A → Tree A

-- A parent: is the focus its left child, is it red, what does it hold, and its other child.
pub data Frame {ℓ} (A : Type ℓ) : Type ℓ where
  left right : (red : Bool) → A → Tree A → Frame A

abbrev pub Way {ℓ} : Type ℓ → Type ℓ
Way A = List (Frame A)

module _ {ℓ} {A : Type ℓ} where
  abbrev pub is_red : Tree A → Bool
  is_red leaf = false
  is_red (node red l x r) = red

  -- `rb_change_child`: the parent with the focus as its child.
  abbrev pub up : Tree A → Frame A → Tree A
  up t (left red x r) = node red t x r
  up t (right red x l) = node red l x t

  abbrev pub plug : Tree A → Way A → Tree A
  plug t [] = t
  plug t (f ∷ fs) = plug (up t f) fs

  abbrev pub blacken : Tree A → Tree A
  blacken leaf = leaf
  blacken (node red l x r) = node false l x r

  -- A rotation of a node without the child that moves up does not arise.
  abbrev pub rotate_left : Tree A → Tree A
  rotate_left (node c l x (node d a y b)) = node d (node c l x a) y b
  rotate_left t = t

  abbrev pub rotate_right : Tree A → Tree A
  rotate_right (node c (node d a y b) x r) = node d a y (node c b x r)
  rotate_right t = t

  -- The two halves of the loop of `rb_insert_color` once the uncle is black: the focus is a child of a
  -- red parent on the given side of its grandparent.
  abbrev pub settle_left : Tree A → Frame A → A → Tree A → Tree A
  settle_left t (left red x r) g uncle =
      rotate_right (node true (blacken (up t (left red x r))) g uncle)
  settle_left t (right red x l) g uncle =
      rotate_right (node true (blacken (rotate_left (up t (right red x l)))) g uncle)

  abbrev pub settle_right : Tree A → Frame A → A → Tree A → Tree A
  settle_right t (right red x l) g uncle =
      rotate_left (node true uncle g (blacken (up t (right red x l))))
  settle_right t (left red x r) g uncle =
      rotate_left (node true uncle g (blacken (rotate_right (up t (left red x r)))))

  abbrev pub frame_red : Frame A → Bool
  frame_red (left red x r) = red
  frame_red (right red x l) = red

  -- The loop of `rb_insert_color`. A red parent without a parent of its own is dereferenced.
  unfoldable pub insert_up : Tree A → Way A → Option (Tree A)
  insert_up t [] = some t
  insert_up t (p ∷ []) = if frame_red p then none else some (up t p)
  insert_up t (p ∷ left c g uncle ∷ fs) =
      let further = insert_up (node true (blacken (up t p)) g (blacken uncle)) fs in
      if not (frame_red p)
      then some (plug t (p ∷ left c g uncle ∷ fs))
      else if is_red uncle
      then further
      else some (plug (settle_left t p g uncle) fs)
  insert_up t (p ∷ right c g uncle ∷ fs) =
      let further = insert_up (node true (blacken uncle) g (blacken (up t p))) fs in
      if not (frame_red p)
      then some (plug t (p ∷ right c g uncle ∷ fs))
      else if is_red uncle
      then further
      else some (plug (settle_right t p g uncle) fs)

  -- `rb_link_node` at the end of a way, and `rb_insert_color`.
  unfoldable pub insert_at : A → Way A → Option (Tree A)
  unfolding insert_up
  insert_at x fs = Option.map blacken (insert_up (node true leaf x leaf) fs)
