-- ===== src/Pipe/Drain.antt =====
-- The pipe is a first-in first-out queue of bytes: what a read takes is the oldest bytes, in order.
-- The ring is that of the byte queue, so its lemmas are used on it.
use nuvix.Prelude.{
  ℕ, zero, suc, ◌+◌, ◌-◌, ◌≤◌, ◌<◌, min, ◌≡◌, refl, sym, ap, ◌∙◌, inl, inr, ◌||◌, List, ◌++◌, arith,
  ◌==◌, Bool-cases, Bool,
}
use Prim.Native.Nat.{bit_and}
use mathlib.Core.List.{append_assoc}
use nuvix.Prelude.Pow.{add32, sub32}
use nuvix.Prelude.Tabulate.{tabulate, tabulate_ext}
use nuvix.Kfifo.{Kfifo, len}
use nuvix.Kfifo.Inv.{IsValid, and_mask, shrink-IsValid}
use nuvix.Kfifo.Refine.{place, contents, contents-shrink}
use nuvix.Pipe.{Pipe, Copies, drain, Bool}

abbrev pub ring : Pipe → Kfifo
ring p = record { head = p.head; out = p.tail; mask = 4095; buf = 0 }

-- The bytes in the pipe, oldest first.
abbrev pub stored : Pipe → List ℕ
stored p = contents (ring p) p.buffer

-- The bytes of one chunk stand in a row in the buffer.
chunk :
    (p : Pipe) (n : ℕ)
    → IsValid (ring p)
    → bit_and p.tail 4095 + n ≤ 4096
    → n ≤ len (ring p)
    → stored p
      ≡ tabulate n (λ i. p.buffer (bit_and p.tail 4095 + i))
        ++ stored (record p { tail = add32 p.tail n })
chunk p n v fits le =
    contents-shrink v p.buffer n le
    ∙ ap (λ l. l ++ stored (record p { tail = add32 p.tail n }))
        (tabulate_ext n _ _ (λ i lt. ap p.buffer (straight i lt)))
  where
    straight : (i : ℕ) → i < n → place (ring p) (p.tail + i) ≡ bit_and p.tail 4095 + i
    straight i lt = omega (arith, and_mask v p.tail)

-- However far each copy gets, what `pipe_read` takes from the pipe and what it leaves are together
-- the bytes that the pipe held, in their order, and the counters stay valid; a copy never moves
-- more than it is asked to.
pub drain_lem :
    (n : ℕ) (copies : Copies) (p : Pipe) (want done : ℕ)
    → ((position count : ℕ) → copies position count ≤ count)
    → IsValid (ring p)
    → let (got, fault, p') = drain n copies p want done in
      IsValid (ring p') × (stored p ≡ got ++ stored p')
unfolding drain
drain_lem zero copies p want done short v = (v, refl)
drain_lem (suc n) copies p want done short v =
    let o : ℕ = bit_and p.tail 4095 in
    let count : ℕ = min (min (sub32 p.head p.tail) (4096 - o)) want in
    let copied : ℕ = copies done count in
    let p' : Pipe = record p { tail = add32 p.tail copied } in
    let le : copied ≤ count = short done count in
    let low : o < 4096 = omega (arith, and_mask v p.tail) in
    let step : stored p ≡ tabulate copied (λ i. p.buffer (o + i)) ++ stored p' =
      chunk p copied v (omega arith) (omega arith) in
    let next : IsValid (ring p') = shrink-IsValid v copied (omega arith) in
    let got : List ℕ = tabulate copied (λ i. p.buffer (o + i)) in
    let later : List ℕ × Bool × Pipe = drain n copies p' (want - copied) (done + copied) in
    let rest = drain_lem n copies p' (want - copied) (done + copied) short next in
    elim (Bool-cases (want == 0 || p.head == p.tail)) [
      | inl stop ↦ rw stop (v, refl)
      | inr go ↦ elim (Bool-cases (copied == count)) [
        | inr fault ↦ rw (go, fault) (next, step)
        | inl whole ↦
            rw (go, whole)
              (
                rest.0,
                step ∙ ap (λ l. got ++ l) rest.1 ∙ sym (append_assoc got later.0 (stored later.2)),
              )
      ]
    ]
