-- ===== src/Pipe.antt =====
-- fs/pipe.c. The counters are `unsigned int` and run freely; `buffer` gives the bytes of the buffer by
-- their offsets. A call that sleeps goes on when it wakes, with the pipe as other tasks left it.
pub mod Drain
pub mod Write
mod Tests
use nuvix.Prelude.{
  ℕ, zero, suc, ◌+◌, ◌-◌, ◌*◌, ◌/◌, ◌%◌, ◌^◌, ◌≤◌, ◌<◌, min, max, ◌≡◌, refl, sym, ap, ◌∙◌, fun_ext,
  ◌≢◌, ◌↔◌, ◌⊎◌, inl, inr, Bool, true, false, ◌&&◌, ◌||◌, not, Option, none, some, List, [], ◌∷◌,
  ◌++◌, arith, ltb, leb, ◌==◌, if◌then◌else◌, ltb→lt, ltb-false, lt→ltb, leb→le, ==_iff, Bool-cases,
  Option-cases, length, get_elem?, get_or, set, take, drop, All, keep_if, length-append, length-set,
  length-take, get_or-set_self, get_or-set_ne,
}
use Prim.Native.Nat.{bit_and}
use nuvix.Prelude.Pow.{add32, sub32}
use nuvix.Prelude.Tabulate.{tabulate}
use nuvix.Errno.{Errno, Result, ok, err, eintr, eagain, efault, ebadf, epipe}
use nuvix.Memory.{Memory, in_range}

abbrev pub pipe_buf_size : ℕ
pipe_buf_size = 4096

pub record Pipe : Type 0 where
  pub head : ℕ
  pub tail : ℕ
  pub readers : ℕ
  pub writers : ℕ
  pub buffer : Memory

-- How a sleep ends: a signal comes, a signal comes while the mutex is taken again, or the mutex is
-- held again and the pipe is as given.
pub data Wake : Type 0 where
  interrupted : Wake
  lock_interrupted : Wake
  woken : Pipe → Wake

-- Of `count` bytes at a position of the transfer, how many the copy to or from the user moves.
abbrev pub Copies : Type 0
Copies = (position count : ℕ) → ℕ

-- The copy loop of `pipe_read`, with the rounds left: the bytes read, whether a copy failed, and
-- the pipe.
unfoldable pub drain : (rounds : ℕ) → Copies → Pipe → (want done : ℕ) → List ℕ × Bool × Pipe
drain zero copies p want done = ([], false, p)
drain (suc n) copies p want done =
    let offset = bit_and p.tail (pipe_buf_size - 1) in
    let count = min (min (sub32 p.head p.tail) (pipe_buf_size - offset)) want in
    let copied = copies done count in
    let got = tabulate copied (λ i. p.buffer (offset + i)) in
    let p' = record p { tail = add32 p.tail copied } in
    let rest = drain n copies p' (want - copied) (done + copied) in
    if want == 0 || p.head == p.tail
    then ([], false, p)
    else if copied == count
    then (got ++ rest.0, rest.1, rest.2)
    else (got, true, p')

-- `done ? done : ret`
abbrev pub transferred : List ℕ → Bool → Result (List ℕ)
transferred [] true = err efault
transferred [] false = ok []
transferred (b ∷ bs) fault = ok (b ∷ bs)

-- The rest of `pipe_read` after the wait; the rounds are as many as the bytes wanted.
abbrev pub read_now : Copies → (want : ℕ) → Pipe → Result (List ℕ) × Pipe
read_now copies want p =
    let (got, fault, p') = drain want copies p want 0 in (transferred got fault, p')

-- Does a reader wait?
abbrev pub is_dry : Pipe → Bool
is_dry p = p.head == p.tail && not (p.writers == 0)

-- `pipe_read` once it holds the mutex, on a file opened for reading; `none` is a call that still
-- sleeps after the given wake-ups.
unfoldable pub read_locked :
    Copies → (nonblock : Bool) → (want : ℕ) → List Wake → Pipe → Option (Result (List ℕ) × Pipe)
read_locked copies nonblock want [] p =
    if is_dry p
    then (if nonblock then some (err eagain, p) else none)
    else some (read_now copies want p)
read_locked copies nonblock want (w ∷ ws) p =
    let later : Option (Result (List ℕ) × Pipe) = elim w [
      | interrupted ↦ some (err eintr, p)
      | lock_interrupted ↦ some (err eintr, p)
      | woken q ↦ read_locked copies nonblock want ws q
    ] in
    if is_dry p
    then (if nonblock then some (err eagain, p) else later)
    else some (read_now copies want p)

-- `done ? done : -error`
abbrev pub done_or : ℕ → Errno → Result ℕ
done_or zero e = err e
done_or (suc n) e = ok (suc n)

-- The bytes that a chunk of the write stores at an offset.
abbrev pub fill : Memory → (offset n : ℕ) → (ℕ → ℕ) → Memory
fill m offset n src x = if in_range offset n x then src (x - offset) else m x

-- The loop of `pipe_write` from a number of bytes done on. `atomic` is fixed at the start. SIGPIPE is
-- sent in the case EPIPE.
unfoldable pub write_locked :
    (fuel : ℕ)
    → Copies
    → (src : ℕ → ℕ) → (atomic nonblock : Bool) → (want done : ℕ) → List Wake
    → Pipe
    → Option (Result ℕ × Pipe)
write_locked zero copies src atomic nonblock want done wakes p = none
write_locked (suc n) copies src atomic nonblock want done wakes p =
    let need = if atomic then want else 1 in
    let room = sub32 pipe_buf_size (sub32 p.head p.tail) in
    let offset = bit_and p.head (pipe_buf_size - 1) in
    let count = min (min room (pipe_buf_size - offset)) want in
    let copied = copies done count in
    let p' = record p {
      buffer = fill p.buffer offset copied (λ i. src (done + i));
      head = add32 p.head copied;
    } in
    let rest = write_locked n copies src atomic nonblock (want - copied) (done + copied) wakes p' in
    if want == 0
    then some (ok done, p)
    else if p.readers == 0
    then some (done_or done epipe, p)
    else if ltb room need
    then if nonblock then some (done_or done eagain, p) else elim wakes [
      | [] ↦ none
      | interrupted ∷ ws ↦ some (done_or done eintr, p)
      | lock_interrupted ∷ ws ↦ some (err eintr, p)
      | woken q ∷ ws ↦ write_locked n copies src atomic nonblock want done ws q
    ]
    else if copied == count
    then rest
    else some (done_or (done + copied) efault, p')

-- Does the mode allow reading, or writing? The mode is `f_flags & O_ACCMODE`.
abbrev pub can_read : ℕ → Bool
can_read mode = not (mode == 1)

abbrev pub can_write : ℕ → Bool
can_write mode = not (mode == 0)

pub pipe_read :
    (mode : ℕ)
    → Copies
    → (nonblock : Bool) → (want : ℕ) → (lock_ok : Bool) → List Wake
    → Pipe
    → Option (Result (List ℕ) × Pipe)
unfolding read_locked
pipe_read mode copies nonblock want lock_ok wakes p =
    if not (can_read mode)
    then some (err ebadf, p)
    else if not lock_ok
    then some (err eintr, p)
    else read_locked copies nonblock want wakes p

pub pipe_write :
    (mode : ℕ)
    → Copies
    → (src : ℕ → ℕ) → (nonblock : Bool) → (want : ℕ) → (lock_ok : Bool) → List Wake
    → Pipe
    → Option (Result ℕ × Pipe)
unfolding write_locked
pipe_write mode copies src nonblock want lock_ok wakes p =
    if not (can_write mode)
    then some (err ebadf, p)
    else if not lock_ok
    then some (err eintr, p)
    else write_locked (want + length wakes + 1) copies src (leb want pipe_buf_size) nonblock want 0
        wakes p

-- The first component says whether the pipe is dead and freed.
pub pipe_release : (mode : ℕ) → Pipe → Bool × Pipe
pipe_release mode p =
    let p' =
      if can_read mode
      then record p { readers = sub32 p.readers 1 }
      else record p { writers = sub32 p.writers 1 } in
    (p'.readers == 0 && p'.writers == 0, p')
