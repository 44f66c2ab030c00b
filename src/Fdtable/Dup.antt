-- ===== src/Fdtable/Dup.antt =====
-- `sys_dup` and `sys_dup3` keep the table valid and the reference counts in step with the slots.
use mathlib.Core.Path.{subst}
use nuvix.Prelude.{
  ℕ, ◌-◌, ◌^◌, ◌<◌, ◌≡◌, refl, sym, ap, inl, inr, Bool, true, not, Option, none, some, arith, ltb,
  leb, ◌==◌, if◌then◌else◌, ltb→lt, lt→ltb, Bool-cases,
}
use Prim.Native.Nat.{bit_and}
use nuvix.Errno.{Result, ok, err, emfile, ebadf, einval}
use nuvix.Bitmap.{test_bit, set_bit, clear_bit}
use nuvix.Fdtable.Refs.{File, Files, fget, fput}
use nuvix.Fdtable.{
  Fdtable, put, is_null, alloc, alloc_from, install, replace, open_fd, o_cloexec, sys_dup, dup_file,
  dup_into, sys_dup3, dup3_file,
}
use nuvix.Fdtable.Inv.{
  IsValid, Allocated, alloc_from_lem, alloc_from-IsValid, install-IsValid, replace-IsValid,
}
use nuvix.Fdtable.Count.{
  IsCounted, Alive, Balanced, holders-put, holders, fget-count, fput-count, one, one-is_null,
  filled_slot, Alive-grow,
}

-- What a call promises: it does not halt the kernel, the table stays valid, and the counts move with
-- the slots.
abbrev pub Keeps : Fdtable → Files → Option (Result ℕ × Fdtable × Files) → Type 0
Keeps t k o = (r : Result ℕ × Fdtable × Files) × (o ≡ some r) × IsValid r.1 × Balanced t k r.1 r.2

module _ (t : Fdtable) (k : Files) (valid : IsValid t) (counted : IsCounted t k) where
  dup_into-ok :
      (f : File) {t1 : Fdtable} {fd : ℕ}
      → 0 < k.count f
      → Allocated t 0 fd t1
      → IsValid t1
      → Keeps t k (dup_into f (ok fd, t1) (fget (some f) k).1)
  unfolding install dup_into fget
  dup_into-ok f {t1} {fd} alive a v1 =
      let inside : ltb fd 64 ≡ true = lt→ltb fd 64 a.high in
      let taken : test_bit fd t1.bitmap ≡ true = ground (arith, a.now fd) in
      let empty : is_null (t.files fd) ≡ true = ground (arith, valid.used fd a.high, a.was_free) in
      let t2 : Fdtable = record t1 { files = put t1.files fd (some f) } in
      let step : install t1 fd f ≡ some t2 = rw (inside, taken) in
      (
        (ok fd, t2, (fget (some f) k).1),
        rw (step, dup_into) refl,
        install-IsValid fd f step v1,
        λ g. omega (
          arith,
          fget-count f k g alive (counted.room f),
          holders-put 64 fd t1.files (some f) g a.high,
          one-is_null (t.files fd) g empty,
          ap (λ (s : ℕ → Option File). holders 64 s g) a.files,
          ap (λ (s : ℕ → Option File). one (s fd) g) a.files,
        ),
      )

  dup_into-full :
      (f : File) → 0 < k.count f → Keeps t k (dup_into f (err emfile, t) (fget (some f) k).1)
  unfolding dup_into
  dup_into-full f alive =
      let k1 : Files = (fget (some f) k).1 in
      let got = λ (g : File). fget-count f k g alive (counted.room f) in
      (
        (err emfile, t, (fput (some f) k1).1),
        refl,
        valid,
        λ g. omega (arith, got g, fput-count (some f) k1 g (omega (arith, got f))),
      )

  dup_into-Keeps : (f : File) → 0 < k.count f → Keeps t k (dup_into f (alloc t) (fget (some f) k).1)
  unfolding alloc
  dup_into-Keeps f alive = elim (alloc_from_lem t 0) [
    | inl (fd, e, a) ↦
        subst (λ o. Keeps t k (dup_into f o (fget (some f) k).1))
          (λ i. (sym e i, (alloc_from t 0).1))
          (dup_into-ok f alive a (alloc_from-IsValid t 0 valid))
    | inr (e, full) ↦
        subst (λ o. Keeps t k (dup_into f o (fget (some f) k).1)) (sym e) (dup_into-full f alive)
  ]

  no_file : (e : Result ℕ) → Keeps t k (some (e, t, k))
  no_file e = ((e, t, k), refl, valid, λ g. refl)

  dup_slot : (x : Option File) → Alive k x → Keeps t k (dup_file t (fget x k))
  unfolding dup_file
  dup_slot none a = unfold fget in no_file (err ebadf)
  dup_slot (some f) a = unfold fget in dup_into-Keeps f a

  -- `sys_dup` never halts the kernel and leaves a valid table, and on every path, the failing ones
  -- too, the reference count of each file moves by just as much as the number of slots that hold it.
  pub sys_dup-Keeps : (oldfd : ℕ) → Keeps t k (sys_dup t k oldfd)
  unfolding sys_dup dup_file open_fd
  sys_dup-Keeps oldfd = elim (Bool-cases (ltb oldfd 64)) [
    | inl inside ↦
        let lt = ltb→lt oldfd 64 inside in
        rw inside (dup_slot (t.files oldfd) (filled_slot t k oldfd counted lt))
    | inr outside ↦ rw outside (no_file (err ebadf))
  ]

  dup3_slot :
      (x : Option File) (newfd : ℕ) (c : Bool)
      → newfd < 64
      → Alive k x
      → Keeps t k (dup3_file t newfd c (fget x k))
  unfolding replace dup3_file set_bit clear_bit fput
  dup3_slot none newfd c lt a = unfold fget dup3_file in no_file (err ebadf)
  dup3_slot (some f) newfd c lt a =
      let inside : ltb newfd 64 ≡ true = lt→ltb newfd 64 lt in
      let t' : Fdtable = record {
        files = put t.files newfd (some f);
        bitmap = set_bit newfd t.bitmap;
        cloexec = if c then set_bit newfd t.cloexec else clear_bit newfd t.cloexec;
      } in
      let step : replace t newfd f c ≡ some (t.files newfd, t') = rw inside refl in
      let k1 : Files = (fget (some f) k).1 in
      let old : Option File = t.files newfd in
      let got = λ (g : File). fget-count f k g a (counted.room f) in
      let alive : Alive k1 old =
        Alive-grow k k1 old (λ g. omega (arith, got g)) (filled_slot t k newfd counted lt) in
      (
        (ok newfd, t', (fput old k1).1),
        (unfold fget in rw (step, dup3_file) refl),
        replace-IsValid newfd f c step valid,
        λ g.
            omega
              (arith, got g, fput-count old k1 g alive, holders-put 64 newfd t.files (some f) g lt),
      )

  dup3_open :
      (oldfd newfd : ℕ) (c : Bool)
      → newfd < 64
      → Keeps t k (dup3_file t newfd c (open_fd t oldfd k))
  unfolding open_fd
  dup3_open oldfd newfd c lt = elim (Bool-cases (ltb oldfd 64)) [
    | inl inside ↦
        let old_lt = ltb→lt oldfd 64 inside in
        rw inside (dup3_slot (t.files oldfd) newfd c lt (filled_slot t k oldfd counted old_lt))
    | inr outside ↦ rw outside (unfold dup3_file in no_file (err ebadf))
  ]

  -- `sys_dup3` never halts the kernel and leaves a valid table, whatever the descriptors and flags
  -- are, and on every path the reference count of each file moves by just as much as the number of
  -- slots that hold it: the file that was in the new slot loses the slot's reference.
  pub sys_dup3-Keeps : (oldfd newfd flags : ℕ) → Keeps t k (sys_dup3 t k oldfd newfd flags)
  unfolding sys_dup3
  sys_dup3-Keeps oldfd newfd flags =
      elim (Bool-cases (bit_and flags (2 ^ 32 - 1 - o_cloexec) == 0)) [
        | inr bad ↦ rw bad (no_file (err einval))
        | inl known ↦ elim (Bool-cases (oldfd == newfd)) [
          | inl same ↦ rw (known, same) (no_file (err einval))
          | inr other ↦ elim (Bool-cases (leb 64 newfd)) [
            | inl high ↦ rw (known, other, high) (no_file (err ebadf))
            | inr low ↦
                let c : Bool = not (bit_and flags o_cloexec == 0) in
                rw (known, other, low) (dup3_open oldfd newfd c (ground arith))
          ]
        ]
      ]
