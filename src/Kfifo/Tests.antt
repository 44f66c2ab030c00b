-- ===== src/Kfifo/Tests.antt =====
-- Runs of the byte queue, and its theorems at a queue of four bytes whose indices are about to wrap.
use nuvix.Prelude.{ℕ, ◌+◌, ◌-◌, ◌*◌, ◌^◌, ◌≡◌, refl, inr, false, [], ◌∷◌, ◌++◌, arith}
use nuvix.Prelude.Tabulate.{tabulate}
use nuvix.Errno.{err, einval}
use nuvix.Memory.{Memory, in_range}
use nuvix.Kfifo.{Kfifo, init, put_all, get_all}
use nuvix.Kfifo.Inv.{IsValid}
use nuvix.Kfifo.Refine.{contents, Grew}
use nuvix.Kfifo.Bulk.{put_all_lem, get_all_lem}

-- The buffer is at 16; two bytes are stored, at 18 and 19.
abbrev fifo : Kfifo
fifo = record { head = 0; out = 2 ^ 32 - 2; mask = 3; buf = 16 }

abbrev bytes : Memory
bytes a = a * 3

fifo-IsValid : IsValid fifo
fifo-IsValid = record {
  order = 2;
  order_pos = omega arith;
  order_lt = omega arith;
  mask = refl;
  head = omega arith;
  out = omega arith;
  within = omega arith;
}

init_refuses : init 16 12 ≡ err einval
unfolding init
init_refuses = refl

contents-fifo : contents fifo bytes ≡ 54 ∷ 57 ∷ []
contents-fifo = refl

put_all_counts : (put_all fifo bytes 100 7).0 ≡ 2
unfolding put_all
put_all_counts = refl

put_all_lem_example :
    ((put_all fifo bytes 100 7).0 ≡ 2)
    × Grew fifo bytes 2
        (λ j. bytes (100 + j))
        (put_all fifo bytes 100 7).1
        (put_all fifo bytes 100 7).2
put_all_lem_example = put_all_lem fifo-IsValid bytes 100 7 (inr (omega arith))

get_all_lem_example :
    let (got, f', m') = get_all fifo bytes 100 7 in
    (got ≡ 2)
    × IsValid f'
    × (contents fifo bytes ≡ tabulate 2 (λ j. m' (100 + j)) ++ contents f' bytes)
    × ((x : ℕ) → in_range 100 2 x ≡ false → m' x ≡ bytes x)
get_all_lem_example = get_all_lem fifo-IsValid bytes 100 7 (inr (omega arith))
