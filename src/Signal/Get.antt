-- ===== src/Signal/Get.antt =====
-- How a round of `get_signal` chooses a signal and what it makes of it, and that the rounds end.
use nuvix.Prelude.{
  ℕ, ◌+◌, ◌-◌, ◌%◌, ◌≤◌, ◌<◌, ◌≡◌, refl, sym, ap, ◌∙◌, ◌≢◌, inl, inr, true, false, arith, ltb,
  ltb→lt, Bool-cases,
}
use nuvix.Bitmap.{Word, nonzero, test_bit, test_bit_lem, find_first_bit, find_next_bit}
use nuvix.Bitmap.Find.{find_next_bit-IsFirst, any_below_hit}
use nuvix.Signal.{has}
use nuvix.Signal.Receive.{choose}
use nuvix.Signal.Inv.{has-low}

-- The signal is the one to deliver: it is pending and not blocked, and it is SIGKILL, or SIGKILL is
-- not deliverable and no lower signal is.
pub record IsChosen (w : Word) (sig : ℕ) : Type 0 where
  pub low : 0 < sig
  pub high : sig ≤ 31
  pub here : w (sig - 1) ≡ true
  pub first : sig ≢ 9 → (w 8 ≡ false) × ((i : ℕ) → i < sig - 1 → w i ≡ false)

only_word : (i : ℕ) (w : Word) → i < 64 → test_bit i (λ _. w) ≡ w i
only_word i w lt = let e : i % 64 ≡ i = omega arith in test_bit_lem i (λ _. w) ∙ ap w e

lowest :
    (w : Word)
    → ((i : ℕ) → w i ≡ true → i < 31)
    → nonzero w ≡ true
    → w 8 ≡ false
    → IsChosen w (find_first_bit (λ _. w) 31 + 1)
unfolding find_first_bit nonzero
lowest w range nz no_kill =
    let f = find_next_bit-IsFirst (λ _. w) 31 0 (omega arith) in
    let r : ℕ = find_next_bit (λ _. w) 31 0 in
    let (i, lt, hit) = any_below_hit 64 w nz in
    let small : i < 31 = range i hit in
    let found : r < 31 = elim (Bool-cases (ltb i r)) [
      | inl missed ↦
          absurd (ground (arith, hit, only_word i w lt, f.miss i (omega arith) (ltb→lt i r missed)))
      | inr low ↦ ground (arith, low, small)
    ] in
    let e : r + 1 - 1 ≡ r = omega arith in
    record {
      low = omega arith;
      high = omega arith;
      here = ap w e ∙ sym (only_word r w (omega arith)) ∙ f.hit found;
      first = λ _. (
        no_kill,
        λ j a. sym (only_word j w (omega arith)) ∙ f.miss j (omega arith) (omega arith),
      );
    }

pub choose-IsChosen :
    (w : Word) → ((i : ℕ) → w i ≡ true → i < 31) → nonzero w ≡ true → IsChosen w (choose w)
unfolding choose
choose-IsChosen w range nz = elim (Bool-cases (has w 9)) [
  | inl kill ↦ rw kill (record {
    low = omega arith;
    high = omega arith;
    here = sym (has-low w 9 (omega arith)) ∙ kill;
    first = λ ne. absurd (ne refl);
  })
  | inr other ↦ rw other (lowest w range nz (sym (has-low w 9 (omega arith)) ∙ other))
]
