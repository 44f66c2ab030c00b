-- ===== src/Pipe/Tests.antt =====
-- Runs of the pipe, and its theorems at a pipe whose counters and bytes wrap.
use nuvix.Prelude.{
  ℕ, ◌+◌, ◌-◌, ◌^◌, ◌≤◌, min, ◌≡◌, refl, true, [], ◌∷◌, ◌++◌, arith, ◌==◌, if◌then◌else◌,
}
use nuvix.Kfifo.Inv.{IsValid}
use nuvix.Pipe.{Pipe, Copies, drain, write_locked}
use nuvix.Pipe.Drain.{ring, stored, drain_lem}
use nuvix.Pipe.Write.{Wrote, write_locked_lem}

-- Three bytes are stored, at 4095, 0 and 1.
abbrev pipe : Pipe
pipe = record { head = 2; tail = 2 ^ 32 - 1; readers = 1; writers = 1; buffer = λ i. i + 1 }

pipe-IsValid : IsValid (ring pipe)
pipe-IsValid = record {
  order = 12;
  order_pos = omega arith;
  order_lt = omega arith;
  mask = refl;
  head = omega arith;
  out = omega arith;
  within = omega arith;
}

-- The second copy stops after one byte.
abbrev short : Copies
short position count = if position == 0 then count else min count 1

short_le : (position count : ℕ) → short position count ≤ count
short_le position count = ground arith

drain_runs : (drain 3 short pipe 3 0).0 ≡ 4096 ∷ 1 ∷ []
unfolding drain
drain_runs = refl

drain_lem_example :
    let (got, fault, p') = drain 3 short pipe 3 0 in
    IsValid (ring p') × (stored pipe ≡ got ++ stored p')
drain_lem_example = drain_lem 3 short pipe 3 0 short_le pipe-IsValid

write_locked_lem_example :
    Wrote pipe 4000 0
      (λ i. i)
      (write_locked 4001 (λ _ count. count) (λ i. i) true true 4000 0 [] pipe)
write_locked_lem_example =
    write_locked_lem 4001 (λ i. i) true true 4000 0 [] pipe (omega arith) pipe-IsValid
      (λ e. absurd (omega arith)) (omega arith)
