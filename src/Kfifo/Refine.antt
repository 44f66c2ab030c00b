-- ===== src/Kfifo/Refine.antt =====
-- A valid queue behaves as the bounded queue of the bytes that it holds, oldest first.
use nuvix.Prelude.{
  ℕ, ◌+◌, ◌-◌, ◌*◌, ◌%◌, ◌≤◌, ◌<◌, ◌≡◌, sym, ap, ◌∙◌, ◌⊎◌, inl, inr, true, false, none, some, List,
  [], ◌∷◌, ◌++◌, arith, ltb, ◌==◌, if◌then◌else◌, lt→ltb, ==_iff, Bool-cases,
}
use Prim.Native.Nat.{bit_and}
use mathlib.Core.Path.{ap₂}
use native.Mathlib.Nat.{add-mul-mod_self_left}
use nuvix.Prelude.Pow.{add32, sub32, mod_add_wrap}
use nuvix.Prelude.Tabulate.{tabulate, tabulate_ext, tabulate-add}
use nuvix.Memory.{Memory, store, in_range}
use nuvix.Kfifo.{Kfifo, size, len, put, get}
use nuvix.Kfifo.Inv.{
  grow-IsValid, shrink-IsValid, word_mod, IsValid, order_bound, size-eq, and_mask, head_mod,
}

-- The address of the byte at an index, and the bytes stored.
abbrev pub place : Kfifo → ℕ → ℕ
place f i = f.buf + i % (f.mask + 1)

abbrev pub contents : Kfifo → Memory → List ℕ
contents f m = tabulate (len f) (λ i. m (place f (f.out + i)))

module _ {f : Kfifo} (v : IsValid f) where
  -- The cell `i` places after the oldest byte, counted from the next byte to come.
  stored_place :
      (i : ℕ) → i < len f → place f (f.out + i) ≡ place f (f.head + (i + (f.mask + 1) - len f))
  stored_place i h =
      let e : f.out + len f + (i + (f.mask + 1) - len f) ≡ f.out + i + (f.mask + 1) * 1 =
        omega (arith, v.within) in
      sym (
        ap (λ r. f.buf + r)
          (head_mod v (i + (f.mask + 1) - len f)
            ∙ ap (λ r. r % (f.mask + 1)) e
            ∙ add-mul-mod_self_left (f.out + i) (f.mask + 1) 1))

  len-add : (n : ℕ) → len f + n ≤ f.mask + 1 → len (record f { head = add32 f.head n }) ≡ len f + n
  len-add n h = omega (arith, order_bound v.order v.order_lt)

  -- After `n` bytes `g` are written from the head on, they stand behind those stored.
  pub contents-grow :
      (m m' : Memory) (n : ℕ) (g : ℕ → ℕ)
      → len f + n ≤ f.mask + 1
      → ((j : ℕ)
          → j < f.mask + 1
          → m' (place f (f.head + j)) ≡ (if ltb j n then g j else m (place f (f.head + j))))
      → contents (record f { head = add32 f.head n }) m' ≡ contents f m ++ tabulate n g
  contents-grow m m' n g h cells =
      ap (λ l. tabulate l (λ i. m' (place f (f.out + i)))) (len-add n h)
      ∙ tabulate-add (len f) n (λ i. m' (place f (f.out + i)))
      ∙ ap₂ ◌++◌ (tabulate_ext (len f) _ _ old) (tabulate_ext n _ _ new)
    where
      late : (i : ℕ) → i < len f → ltb (i + (f.mask + 1) - len f) n ≡ false
      late i lt = ground (arith, v.within)

      old : (i : ℕ) → i < len f → m' (place f (f.out + i)) ≡ m (place f (f.out + i))
      old i lt = rw (stored_place i lt) (
          cells (i + (f.mask + 1) - len f) (omega (arith, v.within))
          ∙ ap
              (λ b.
                if b
                then g (i + (f.mask + 1) - len f)
                else m (place f (f.head + (i + (f.mask + 1) - len f))))
              (late i lt))

      new : (j : ℕ) → j < n → m' (place f (f.out + (len f + j))) ≡ g j
      new j lt =
          let e : f.out + (len f + j) ≡ f.out + len f + j = omega arith in
          let p : place f (f.out + (len f + j)) ≡ place f (f.head + j) =
            ap (λ r. f.buf + r) (ap (λ t. t % (f.mask + 1)) e ∙ sym (head_mod v j)) in
          rw p (
            cells j (omega arith)
            ∙ ap (λ b. if b then g j else m (place f (f.head + j))) (lt→ltb j n lt))

  len-sub : (n : ℕ) → n ≤ len f → len f ≡ n + len (record f { out = add32 f.out n })
  len-sub n h = omega (arith, v.within, order_bound v.order v.order_lt)

  -- Without its `n` oldest bytes the queue holds the rest.
  pub contents-shrink :
      (m : Memory) (n : ℕ)
      → n ≤ len f
      → contents f m
        ≡ tabulate n (λ i. m (place f (f.out + i))) ++ contents (record f { out = add32 f.out n }) m
  contents-shrink m n h =
      ap (λ l. tabulate l (λ i. m (place f (f.out + i)))) (len-sub n h)
      ∙ tabulate-add n (len rest) (λ i. m (place f (f.out + i)))
      ∙ ap (λ l. tabulate n (λ i. m (place f (f.out + i))) ++ l) (tabulate_ext (len rest) _ _ later)
    where
      rest : Kfifo
      rest = record f { out = add32 f.out n }

      later :
          (i : ℕ) → i < len rest → m (place f (f.out + (n + i))) ≡ m (place f (add32 f.out n + i))
      later i lt =
          let e : f.out + (n + i) ≡ f.out + n + i = omega arith in
          ap (λ r. m (f.buf + r)) (ap (λ t. t % (f.mask + 1)) e ∙ sym (word_mod v (f.out + n) i))

-- What a call did with `n` bytes given by `g`: how many went in, that they stand behind those
-- stored, that the queue is still valid, and that no other byte changed.
pub record Grew (f : Kfifo) (m : Memory) (n : ℕ) (g : ℕ → ℕ) (f' : Kfifo) (m' : Memory)
    : Type 0 where
  pub valid : IsValid f'
  pub bytes : contents f' m' ≡ contents f m ++ tabulate n g
  pub frame : (x : ℕ) → in_range f.buf (f.mask + 1) x ≡ false → m' x ≡ m x

-- `kfifo_put` stores the byte behind the others when there is room, and else changes nothing.
pub put_lem :
    {f : Kfifo} (m : Memory) (b : ℕ)
    → IsValid f
    → (len f < f.mask + 1)
        × ((put f m b).0 ≡ true)
        × Grew f m 1 (λ _. b) (put f m b).1 (put f m b).2
      ⊎ (len f ≡ f.mask + 1) × (put f m b ≡ (false, f, m))
unfolding put
put_lem {f} m b v = elim (Bool-cases (sub32 f.head f.out == size f)) [
  | inl full ↦ inr (omega (arith, size-eq v, (==_iff _ _).0 full), rw full)
  | inr room ↦
      let some_room : len f < f.mask + 1 = ground (arith, size-eq v, v.within) in
      inl (
        some_room,
        rw room,
        rw room (record {
          valid = grow-IsValid v 1 (omega arith);
          bytes =
              contents-grow v m (store m (f.buf + bit_and f.head f.mask) b) 1 (λ _. b) (omega arith)
                cells;
          frame = λ x out. ground (arith, and_mask v f.head);
        }),
      )
]
  where
    cells :
        (j : ℕ)
        → j < f.mask + 1
        → store m (f.buf + bit_and f.head f.mask) b (place f (f.head + j))
          ≡ (if ltb j 1 then b else m (place f (f.head + j)))
    cells j lt = ground (arith, and_mask v f.head, mod_add_wrap f.head j (f.mask + 1))

-- `kfifo_get` returns the oldest byte and leaves the rest, or says that there is none.
pub get_lem :
    {f : Kfifo} (m : Memory)
    → IsValid f
    → (contents f m ≡ []) × (get f m ≡ (none, f))
      ⊎ (b : ℕ) × ((get f m).0 ≡ some b)
        × IsValid (get f m).1
        × (contents f m ≡ b ∷ contents (get f m).1 m)
unfolding get
get_lem {f} m v = elim (Bool-cases (f.head == f.out)) [
  | inl none_left ↦
      let e : len f ≡ 0 = ground (arith, v.out) in
      inl (ap (λ l. tabulate l (λ i. m (place f (f.out + i)))) e, rw none_left)
  | inr more ↦
      let e : 1 ≤ len f = ground (arith, v.out, v.head) in
      let first : f.buf + bit_and f.out f.mask ≡ place f (f.out + 0) =
        let z : f.out + 0 ≡ f.out = omega arith in rw (and_mask v f.out, z) in
      inr (
        m (place f (f.out + 0)),
        rw more (ap (λ a. some (m a)) first),
        rw more (shrink-IsValid v 1 e),
        rw more (contents-shrink v m 1 e),
      )
]
