-- ===== src/Timer/Queue.antt =====
-- kernel/timer.c: the queue of a processor, and that `timer_start` keeps its order.
use nuvix.Prelude.{
  ℕ, ◌+◌, ◌%◌, ◌^◌, ◌<◌, ◌≡◌, refl, sym, ap, ◌∙◌, ◌⊎◌, inl, inr, Bool, true, false, ◌&&◌, Option,
  none, some, List, [], ◌∷◌, ◌++◌, arith, ◌==◌, if◌then◌else◌, Bool-cases, All, All-map, ◌≤◌,
}
use mathlib.Core.Path.{subst}
use nuvix.Errno.{Result, ok, err, ebusy}
use nuvix.Rbtree.{Tree, leaf, node, left, right, Way, plug}
use nuvix.Rbtree.Order.{to_list, before, behind, in_order}
use nuvix.Rbtree.Balance.{IsBalanced}
use nuvix.Rbtree.Update.{insert_at-Gives}
use nuvix.Timer.Order.{
  IsOrdered, All-append, All-split, IsOrdered-middle, IsOrdered-join, sooner_trans, later_sooner,
  IsInOrder, to_IsOrdered, to_IsInOrder, All-both, not_after, strictly_after,
}
use nuvix.Timer.{Timer, Timers, is_idle, queued, sooner, descend, enqueue, timer_start}

abbrev pub head : List Timer → Option Timer
head [] = none
head (t ∷ ts) = some t

abbrev is_empty : List Timer → Bool
is_empty [] = true
is_empty (t ∷ ts) = false

abbrev Placed : Timer → Tree Timer → Way Timer → Bool → Way Timer × Bool → Type 0
Placed t tree fs first (ws, first') =
    (us vs : List Timer) × (to_list tree ≡ us ++ vs)
    × All (λ u. sooner u t ≡ true) us
    × All (λ v. sooner t v ≡ true) vs
    × (before ws ≡ before fs ++ us)
    × (behind ws ≡ vs ++ behind fs)
    × (plug leaf ws ≡ plug tree fs)
    × (first' ≡ (first && is_empty us))

and_true : (b : Bool) → (b && true) ≡ b
and_true true = refl
and_true false = refl

module _ (t : Timer) where
  left-Placed :
      (c : Bool) (l : Tree Timer) (q : Timer) (r : Tree Timer) (fs : Way Timer) (first : Bool)
      (o : Way Timer × Bool)
      → IsOrdered (to_list (node c l q r))
      → sooner t q ≡ true
      → Placed t l (left c q r ∷ fs) first o
      → Placed t (node c l q r) fs first o
  left-Placed c l q r fs first o h e (us, vs, split, b, a, pre, post, same, start) =
      let (ol, bl, ar, or) = IsOrdered-middle (to_list l) q (to_list r) h in
      (
        us,
        vs ++ q ∷ to_list r,
        ap (λ xs. xs ++ q ∷ to_list r) split ∙ simp (in_order),
        b,
        All-append _ vs (q ∷ to_list r) a
            (e, All-map _ _ (to_list r) (λ y k. sooner_trans t q y e k) ar),
        pre,
        post ∙ simp (in_order),
        same,
        start,
      )

  right-Placed :
      (c : Bool) (l : Tree Timer) (q : Timer) (r : Tree Timer) (fs : Way Timer) (first : Bool)
      (o : Way Timer × Bool)
      → IsOrdered (to_list (node c l q r))
      → sooner q t ≡ true
      → Placed t r (right c q l ∷ fs) false o
      → Placed t (node c l q r) fs first o
  right-Placed c l q r fs first o h e (us, vs, split, b, a, pre, post, same, start) =
      let (ol, bl, ar, or) = IsOrdered-middle (to_list l) q (to_list r) h in
      (
        to_list l ++ q ∷ us,
        vs,
        ap (λ xs. to_list l ++ q ∷ xs) split ∙ simp (in_order),
        All-append _ (to_list l) (q ∷ us)
            (All-map _ _ (to_list l) (λ y k. sooner_trans y q t k e) bl) (e, b),
        a,
        pre ∙ simp (in_order),
        post,
        same,
        start ∙ not_first first (to_list l) q us,
      )
    where
      not_first :
          (first : Bool) (xs : List Timer) (q : Timer) (us : List Timer)
          → false ≡ (first && is_empty (xs ++ q ∷ us))
      not_first true [] q us = refl
      not_first true (x ∷ xs) q us = refl
      not_first false xs q us = refl

  descend-Placed :
      (tree : Tree Timer) (fs : Way Timer) (first : Bool)
      → IsOrdered (to_list tree)
      → All (λ u. u.sequence < t.sequence) (to_list tree)
      → Placed t tree fs first (descend t tree fs first)
  unfolding descend
  descend-Placed leaf fs first h n =
      ([], [], refl, tt, tt, simp (in_order), refl, refl, sym (and_true first))
  descend-Placed (node c l q r) fs first h n =
      let (ol, bl, ar, or) = IsOrdered-middle (to_list l) q (to_list r) h in
      let older = All-split (λ u. u.sequence < t.sequence) (to_list l) (q ∷ to_list r) n in
      elim (Bool-cases (sooner t q)) [
        | inl e ↦ rw e (
            left-Placed c l q r fs first (descend t l (left c q r ∷ fs) first) h e
              (descend-Placed l (left c q r ∷ fs) first ol older.0))
        | inr e ↦ rw e (
            right-Placed c l q r fs first (descend t r (right c q l ∷ fs) false) h
              (later_sooner t q e older.1.0)
              (descend-Placed r (right c q l ∷ fs) false or older.1.1))
      ]

-- A balanced tree in order, the first timer known, and the sequence numbers given out.
pub record IsQueue (b : Timers) : Type 0 where
  pub balanced : IsBalanced b.root
  pub ordered : IsInOrder (to_list b.root)
  pub leads : b.first ≡ head (to_list b.root)
  pub older : All (λ t. t.sequence < b.next_sequence) (to_list b.root)

abbrev new_timer : Timers → ℕ → ℕ → Timer
new_timer b id deadline = record { id = id; deadline = deadline; sequence = b.next_sequence }

abbrev pub Started : Timers → (id deadline : ℕ) → Option (Result (Unit {0}) × Timers) → Type 0
Started b id deadline o =
    ((is_idle (b.state id) ≡ false) × (o ≡ some (err ebusy, b)))
    ⊎ ((is_idle (b.state id) ≡ true)
        × (b' : Timers) × (us vs : List Timer) × (o ≡ some (ok tt, b'))
        × (to_list b.root ≡ us ++ vs)
        × (to_list b'.root ≡ us ++ new_timer b id deadline ∷ vs)
        × All (λ u. u.deadline ≤ deadline) us
        × All (λ v. deadline < v.deadline) vs
        × (b'.state id ≡ queued)
        × IsQueue b')

leads_after :
    (t : Timer) (first : Option Timer) (us vs : List Timer)
    → first ≡ head (us ++ vs)
    → (if is_empty us then some t else first) ≡ head (us ++ t ∷ vs)
leads_after t first [] vs e = refl
leads_after t first (u ∷ us) vs e = e

link-Started :
    (b : Timers) (id deadline : ℕ) (ws : Way Timer) (first : Bool)
    → is_idle (b.state id) ≡ true
    → b.next_sequence + 1 < 2 ^ 64
    → IsQueue b
    → Placed (new_timer b id deadline) b.root [] true (ws, first)
    → Started b id deadline (enqueue b (new_timer b id deadline) (ws, first))
link-Started b id deadline ws first is few q
      (us, vs, split, before_it, after_it, pre, post, same, start) =
    let t = new_timer b id deadline in
    let (root, e, balanced, holds) =
      insert_at-Gives t ws (subst IsBalanced (sym same) q.balanced) in
    let list : to_list root ≡ us ++ t ∷ vs = holds ∙ rw (pre, post) (simp (in_order)) in
    let older =
      All-split (λ u. u.sequence < b.next_sequence) us vs
        (subst (All (λ u. u.sequence < b.next_sequence)) split q.older) in
    let next : b.next_sequence + 1 ≡ (b.next_sequence + 1) % 2 ^ 64 = omega (arith, few) in
    let young : All (λ u. u.sequence < b.next_sequence + 1) (us ++ t ∷ vs) =
      All-append _ us (t ∷ vs) (All-map _ _ us (λ u h. omega (arith, h)) older.0)
        (omega arith, All-map _ _ vs (λ u h. omega (arith, h)) older.1) in
    rw e (
      inr (
        is,
        record {
          root = root;
          first = if first then some t else b.first;
          next_sequence = (b.next_sequence + 1) % 2 ^ 64;
          state = λ i. if i == id then queued else b.state i;
        },
        us,
        vs,
        refl,
        split,
        list,
        All-map _ _ us (λ u h. not_after u t h) before_it,
        All-both vs (λ v h k. strictly_after t v h k) after_it older.1,
        ground arith,
        record {
          balanced = balanced;
          ordered = subst IsInOrder (sym list) (
              to_IsInOrder (us ++ t ∷ vs) (
                IsOrdered-join us t vs (to_IsOrdered (us ++ vs) (subst IsInOrder split q.ordered))
                  before_it after_it));
          leads =
              ap (λ f. if f then some t else b.first) start
              ∙ leads_after t b.first us vs (q.leads ∙ ap head split)
              ∙ ap head (sym list);
          older =
              subst (All (λ u. u.sequence < (b.next_sequence + 1) % 2 ^ 64)) (sym list)
                (subst (λ n. All (λ u. u.sequence < n) (us ++ t ∷ vs)) next young);
        },
      ))

-- `timer_start` in the queue of a processor that has sequence numbers left: a timer that is not idle
-- is refused with EBUSY and nothing changes; an idle one is queued behind all timers whose deadline is
-- its own or before it, and in front of all those with a later deadline. The timers stay in the
-- order of their deadlines, and of their sequence numbers at the same one; the tree is balanced,
-- `first` is the first timer, and each sequence number in the queue is below the next one.
pub timer_start-Started :
    (b : Timers) (id deadline : ℕ)
    → b.next_sequence + 1 < 2 ^ 64
    → IsQueue b
    → Started b id deadline (timer_start b id deadline)
unfolding timer_start
timer_start-Started b id deadline few q = elim (Bool-cases (is_idle (b.state id))) [
  | inl is ↦
      let t = new_timer b id deadline in
      let (ws, first) = descend t b.root [] true in
      let e : timer_start b id deadline ≡ enqueue b t (ws, first) = rw is refl in
      subst (Started b id deadline) (sym e) (
        link-Started b id deadline ws first is few q
          (descend-Placed t b.root [] true (to_IsOrdered _ q.ordered) q.older))
  | inr busy ↦
      let e : timer_start b id deadline ≡ some (err ebusy, b) = rw busy refl in inl (busy, e)
]
