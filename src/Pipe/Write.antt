-- ===== src/Pipe/Write.antt =====
-- A write that fits stores all its bytes at once, behind those in the pipe.
use nuvix.Prelude.{
  ℕ, zero, suc, ◌+◌, ◌-◌, ◌≤◌, ◌<◌, min, ◌≡◌, sym, ap, ◌∙◌, ◌≢◌, inl, inr, Bool, true, false,
  Option, some, List, ◌++◌, arith, ltb, ◌==◌, if◌then◌else◌, ==_iff, Bool-cases,
}
use Prim.Native.Nat.{bit_and}
use mathlib.Core.List.{append_assoc, append-nil}
use nuvix.Prelude.Pow.{add32, sub32, mod_add_wrap}
use nuvix.Prelude.Tabulate.{tabulate, tabulate_ext, tabulate-add}
use nuvix.Errno.{ok, Result}
use nuvix.Kfifo.{len}
use nuvix.Kfifo.Inv.{IsValid, and_mask, grow-IsValid}
use nuvix.Kfifo.Refine.{place, contents-grow}
use nuvix.Pipe.{Pipe, Wake, fill, write_locked}
use nuvix.Pipe.Drain.{ring, stored}

-- The pipe after one chunk.
abbrev chunk_in : Pipe → (ℕ → ℕ) → ℕ → Pipe
chunk_in p g n = record p {
  buffer = fill p.buffer (bit_and p.head 4095) n g;
  head = add32 p.head n;
}

chunk_in_lem :
    (p : Pipe) (g : ℕ → ℕ) (n : ℕ)
    → IsValid (ring p)
    → bit_and p.head 4095 + n ≤ 4096
    → len (ring p) + n ≤ 4096
    → IsValid (ring (chunk_in p g n)) × (stored (chunk_in p g n) ≡ stored p ++ tabulate n g)
chunk_in_lem p g n v fits room = (
  grow-IsValid v n room,
  contents-grow v p.buffer (fill p.buffer (bit_and p.head 4095) n g) n g room cells,
)
  where
    cells :
        (j : ℕ)
        → j < 4096
        → fill p.buffer (bit_and p.head 4095) n g (place (ring p) (p.head + j))
          ≡ (if ltb j n then g j else p.buffer (place (ring p) (p.head + j)))
    cells j lt = ground (arith, and_mask v p.head, mod_add_wrap p.head j 4096)

-- What a write that fits gives.
abbrev pub Wrote : Pipe → (want done : ℕ) → (ℕ → ℕ) → Option (Result ℕ × Pipe) → Type 0
Wrote p want done src o =
    (p' : Pipe) × (o ≡ some (ok (done + want), p'))
    × IsValid (ring p')
    × (stored p' ≡ stored p ++ tabulate want (λ i. src (done + i)))

-- While there is a reader and the copies work, a write that fits into the free space of the pipe
-- ends at once, whatever the flags are and without a wake-up: it stores all its bytes in order
-- behind those in the pipe and returns their number.
pub write_locked_lem :
    (n : ℕ) (src : ℕ → ℕ) (atomic nonblock : Bool) (want done : ℕ) (ws : List Wake) (p : Pipe)
    → want < n
    → IsValid (ring p)
    → p.readers ≢ 0
    → len (ring p) + want ≤ 4096
    → Wrote p want done src (write_locked n (λ _ count. count) src atomic nonblock want done ws p)
unfolding write_locked
write_locked_lem zero src atomic nonblock want done ws p fuel v r room = absurd (omega arith)
write_locked_lem (suc n) src atomic nonblock want done ws p fuel v r room =
    let o : ℕ = bit_and p.head 4095 in
    let count : ℕ = min (min (sub32 4096 (sub32 p.head p.tail)) (4096 - o)) want in
    let now =
      chunk_in_lem p (λ i. src (done + i)) count v (omega (arith, and_mask v p.head))
        (omega arith) in
    let p' : Pipe = chunk_in p (λ i. src (done + i)) count in
    elim (Bool-cases (want == 0)) [
      | inl stop ↦
          let e : want ≡ 0 = (==_iff want 0).0 stop in
          let z : done ≡ done + 0 = omega arith in
          rw stop (p, rw e (ap (λ d. some (ok d, p)) z), v, rw e (sym (append-nil _)))
      | inr go ↦
          let pos : 0 < want = ground arith in
          let low : o < 4096 = omega (arith, and_mask v p.head) in
          let more : len (ring p') + (want - count) ≤ 4096 = omega (arith, low) in
          let open_end : (p.readers == 0) ≡ false = ground (arith, r) in
          let enough : ltb (sub32 4096 (sub32 p.head p.tail)) (if atomic then want else 1) ≡ false =
            need pos atomic in
          let same : (count == count) ≡ true = ground arith in
          let (q, e, w, bytes) =
            write_locked_lem n src atomic nonblock (want - count) (done + count) ws p'
              (omega (arith, low, pos)) now.0 r more in
          rw (go, open_end, enough, same)
            (
              q,
              e ∙ ap (λ d. some (ok d, q)) (total count (omega arith)),
              w,
              bytes
                  ∙ ap (λ l. l ++ tabulate (want - count) (λ i. src (done + count + i))) now.1
                  ∙ append_assoc (stored p) _ _
                  ∙ ap (λ l. stored p ++ l) (joined count (omega arith)),
            )
    ]
  where
    need :
        0 < want
        → (b : Bool) → ltb (sub32 4096 (sub32 p.head p.tail)) (if b then want else 1) ≡ false
    need pos true = ground (arith, v.within)
    need pos false = ground (arith, v.within)

    total : (k : ℕ) → k ≤ want → done + k + (want - k) ≡ done + want
    total k h = omega arith

    joined :
        (k : ℕ)
        → k ≤ want
        → tabulate k (λ i. src (done + i)) ++ tabulate (want - k) (λ i. src (done + k + i))
          ≡ tabulate want (λ i. src (done + i))
    joined k h =
        let e : k + (want - k) ≡ want = omega arith in
        sym (
          ap (λ w. tabulate w (λ i. src (done + i))) (sym e)
          ∙ tabulate-add k (want - k) (λ i. src (done + i))
          ∙ ap (λ l. tabulate k (λ i. src (done + i)) ++ l)
              (tabulate_ext (want - k) _ _ (λ i lt. ap src (omega arith))))
