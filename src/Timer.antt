-- ===== src/Timer.antt =====
-- kernel/timer.c: the queue of a processor, in the tree of lib/rbtree.c. A timer is a number with its
-- deadline and its sequence number.
pub mod Order
pub mod Queue
mod Tests
use nuvix.Prelude.{
  ℕ, zero, suc, ◌+◌, ◌-◌, ◌*◌, ◌/◌, ◌%◌, ◌^◌, ◌≤◌, ◌<◌, min, max, ◌≡◌, refl, sym, ap, ◌∙◌, fun_ext,
  ◌≢◌, ◌↔◌, ◌⊎◌, inl, inr, Bool, true, false, ◌&&◌, ◌||◌, not, Option, none, some, List, [], ◌∷◌,
  ◌++◌, arith, ltb, leb, ◌==◌, if◌then◌else◌, ltb→lt, ltb-false, lt→ltb, leb→le, ==_iff, Bool-cases,
  Option-cases, length, get_elem?, get_or, set, take, drop, All, keep_if, length-append, length-set,
  length-take, get_or-set_self, get_or-set_ne,
}
use mathlib.Core.Option
use nuvix.Errno.{Result, ok, err, ebusy}
use nuvix.Rbtree.{Tree, leaf, node, left, right, Way, insert_at}
use nuvix.Rbtree.Erase.{rb_erase}
use nuvix.Rbtree.Walk.{rb_next}

pub record Timer : Type 0 where
  pub id : ℕ
  pub deadline : ℕ
  pub sequence : ℕ

pub data TimerState : Type 0 where
  idle queued running draining : TimerState

pub record Timers : Type 0 where
  pub root : Tree Timer
  pub first : Option Timer
  pub next_sequence : ℕ
  pub state : ℕ → TimerState

abbrev pub init : (ℕ → TimerState) → Timers
init f = record { root = leaf; first = none; next_sequence = 0; state = f }

abbrev pub is_idle : TimerState → Bool
is_idle idle = true
is_idle s = false

abbrev pub sooner : Timer → Timer → Bool
sooner t q = ltb t.deadline q.deadline || t.deadline == q.deadline && ltb t.sequence q.sequence

-- The descent of `timer_start`: the free place, and whether it is the first one.
unfoldable pub descend : Timer → Tree Timer → Way Timer → (first : Bool) → Way Timer × Bool
descend t leaf fs first = (fs, first)
descend t (node c l q r) fs first =
    let on_left = descend t l (left c q r ∷ fs) first in
    let on_right = descend t r (right c q l ∷ fs) false in if sooner t q then on_left else on_right

-- `rb_link_node` and what follows, at a free place.
abbrev pub enqueue : Timers → Timer → Way Timer × Bool → Option (Result (Unit {0}) × Timers)
enqueue b t (fs, first) =
    Option.map
      (λ root. (
        ok tt,
        record {
          root = root;
          first = if first then some t else b.first;
          next_sequence = (b.next_sequence + 1) % 2 ^ 64;
          state = λ i. if i == t.id then queued else b.state i;
        },
      ))
      (insert_at t fs)

unfoldable pub timer_start : Timers → (id deadline : ℕ) → Option (Result (Unit {0}) × Timers)
unfolding descend
timer_start b id deadline =
    let timer : Timer = record { id = id; deadline = deadline; sequence = b.next_sequence } in
    if not (is_idle (b.state id))
    then some (err ebusy, b)
    else enqueue b timer (descend timer b.root [] true)

-- The node of a timer that is in the tree: its `node` field points to it.
unfoldable pub locate : ℕ → Tree Timer → Way Timer → Option (Tree Timer × Way Timer)
locate id leaf fs = none
locate id (node c l q r) fs =
    let on_right = locate id r (right c q l ∷ fs) in
    let on_left = locate id l (left c q r ∷ fs) in
    if q.id == id
    then some (node c l q r, fs)
    else elim on_left [ some p ↦ some p | none ↦ on_right ]

abbrev pub timer_at : Option (Tree Timer × Way Timer) → Option Timer
timer_at (some (node c l q r, fs)) = some q
timer_at o = none

abbrev pub is_first : Timers → ℕ → Bool
is_first b id = elim b.first [ some q ↦ q.id == id | none ↦ false ]

-- `remove_timer_locked` of a timer that is in the tree.
unfoldable pub remove_timer : Timers → ℕ → Option Timers
unfolding locate
remove_timer b id = elim (locate id b.root []) [
  | none ↦ none
  | some (t, fs) ↦
      Option.map
        (λ root. record b {
          root = root;
          first = if is_first b id then timer_at (rb_next t fs) else b.first;
        })
        (rb_erase t fs)
]

abbrev pub with_state : Timers → ℕ → TimerState → Timers
with_state b id s = record b { state = λ i. if i == id then s else b.state i }

-- `timer_cancel_locked`: 1 if the timer was removed, 0 if it is idle.
unfoldable pub timer_cancel : Timers → ℕ → Option (Result ℕ × Timers)
unfolding remove_timer
timer_cancel b id = elim (b.state id) [
  | queued ↦ Option.map (λ b'. (ok 1, with_state b' id idle)) (remove_timer b id)
  | running ↦ some (err ebusy, with_state b id draining)
  | draining ↦ some (err ebusy, with_state b id draining)
  | idle ↦ some (ok 0, b)
]

-- A round of `timer_tick` up to the call of the timer's function, if a timer is due.
unfoldable pub tick_round : Timers → (now : ℕ) → Option (Option Timer × Timers)
unfolding remove_timer
tick_round b now = elim b.first [
  | none ↦ some (none, b)
  | some q ↦
      if ltb now q.deadline
      then some (none, b)
      else Option.map (λ b'. (some q, with_state b' q.id running)) (remove_timer b q.id)
]

abbrev pub is_draining : TimerState → Bool
is_draining draining = true
is_draining s = false

-- The end of the round: is a waiter to be woken?
unfoldable pub tick_end : Timers → (id : ℕ) → Bool × Timers
tick_end b id = (is_draining (b.state id), with_state b id idle)
