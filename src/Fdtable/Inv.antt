-- ===== src/Fdtable/Inv.antt =====
-- The invariant of the descriptor table: a slot with a file is in use, and so is a descriptor that
-- is marked for close on exec. Every operation keeps it.
use nuvix.Prelude.{
  ℕ, ◌≤◌, ◌<◌, min, ◌≡◌, refl, ap, ◌⊎◌, inl, inr, Bool, true, false, Option, none, some, arith, ltb,
  leb, ◌==◌, if◌then◌else◌, ltb→lt, ltb-false, leb→le, Bool-cases,
}
use nuvix.Errno.{ok, err, emfile}
use nuvix.Bitmap.{
  Bitmap, bits_per_long, set_bit, clear_bit, test_bit, find_next_zero_bit, test_bit-set_bit,
  test_bit-clear_bit,
}
use nuvix.Bitmap.Find.{find_next_zero_bit-IsFirst}
use nuvix.Fdtable.Refs.{File, Files}
use nuvix.Fdtable.{Fdtable, put, is_null, alloc_from, release, install, replace, close, close_slot}

pub record IsValid (t : Fdtable) : Type 0 where
  pub used : (fd : ℕ) → fd < 64 → is_null (t.files fd) ≡ false → test_bit fd t.bitmap ≡ true
  pub marked : (fd : ℕ) → fd < 64 → test_bit fd t.cloexec ≡ true → test_bit fd t.bitmap ≡ true

-- What an allocation from `min` on gives: the lowest free descriptor, which it takes, or EMFILE
-- when every descriptor from `min` on is in use. No slot changes.
pub record Allocated (t : Fdtable) (min : ℕ) (fd : ℕ) (t' : Fdtable) : Type 0 where
  pub low : min ≤ fd
  pub high : fd < 64
  pub was_free : test_bit fd t.bitmap ≡ false
  pub lowest : (i : ℕ) → min ≤ i → i < fd → test_bit i t.bitmap ≡ true
  pub now : (i : ℕ) → test_bit i t'.bitmap ≡ (if fd == i then true else test_bit i t.bitmap)
  pub files : t'.files ≡ t.files
  pub cloexec : t'.cloexec ≡ t.cloexec

-- `fd_alloc_from` takes the lowest free descriptor from `min` on; when there is none, it fails with
-- EMFILE and changes nothing.
pub alloc_from_lem :
    (t : Fdtable) (min : ℕ)
    → ((fd : ℕ) × ((alloc_from t min).0 ≡ ok fd) × Allocated t min fd (alloc_from t min).1)
      ⊎ (alloc_from t min ≡ (err emfile, t))
        × ((i : ℕ) → min ≤ i → i < 64 → test_bit i t.bitmap ≡ true)
unfolding alloc_from
alloc_from_lem t min = elim (Bool-cases (leb 64 min)) [
  | inl high ↦ inr (rw high, λ i a b. absurd (omega (arith, leb→le 64 min high)))
  | inr low ↦
      let f = find_next_zero_bit-IsFirst t.bitmap 64 min (ground arith) in
      let fd : ℕ = find_next_zero_bit t.bitmap 64 min in
      elim (Bool-cases (ltb (find_next_zero_bit t.bitmap 64 min) 64)) [
        | inl found ↦
            let ne : (find_next_zero_bit t.bitmap 64 min == 64) ≡ false = ground arith in
            inl (
              fd,
              rw (low, ne),
              rw (low, found)
                  (record {
                    low = f.low;
                    high = ltb→lt fd 64 found;
                    was_free = ground (arith, f.hit (ltb→lt fd 64 found));
                    lowest = λ i a b. ground (arith, f.miss i a b);
                    now = λ i. test_bit-set_bit fd i t.bitmap;
                    files = refl;
                    cloexec = refl;
                  }),
            )
        | inr none_left ↦
            let at_end : (find_next_zero_bit t.bitmap 64 min == 64) ≡ true =
              ground (arith, f.high) in
            inr (
              rw (low, none_left, at_end),
              λ i a b. ground (arith, f.miss i a (omega (arith, ltb-false _ _ none_left))),
            )
      ]
]

Allocated-IsValid : {t t' : Fdtable} {min fd : ℕ} → Allocated t min fd t' → IsValid t → IsValid t'
Allocated-IsValid {t} {t'} {fd} a v = record {
  used = λ i lt h.
      ground (
        arith,
        a.now i,
        v.used i lt (rw (← ap (λ (g : ℕ → Option File). is_null (g i)) a.files) h),
      );
  marked = λ i lt h.
      ground (arith, a.now i, v.marked i lt (rw (← ap (λ (g : Bitmap). test_bit i g) a.cloexec) h));
}

pub alloc_from-IsValid : (t : Fdtable) (min : ℕ) → IsValid t → IsValid (alloc_from t min).1
alloc_from-IsValid t min v = elim (alloc_from_lem t min) [
  | inl (fd, e, a) ↦ Allocated-IsValid a v
  | inr (e, _) ↦ rw e v
]

-- `fd_release` of a descriptor that is in use without a file gives it back.
pub release-IsValid : {t t' : Fdtable} (fd : ℕ) → release t fd ≡ some t' → IsValid t → IsValid t'
unfolding release
release-IsValid {t} {t'} fd e v =
    let shape : t' ≡ record t { bitmap = clear_bit fd t.bitmap; cloexec = clear_bit fd t.cloexec } =
      ground arith in
    let free : is_null (t.files fd) ≡ true = ground arith in
    rw shape (record {
      used = λ i lt h. ground (arith, test_bit-clear_bit fd i t.bitmap, v.used i lt);
      marked = λ i lt h. ground (
        arith,
        test_bit-clear_bit fd i t.bitmap,
        test_bit-clear_bit fd i t.cloexec,
        v.marked i lt,
      );
    })

pub install-IsValid :
    {t t' : Fdtable} (fd : ℕ) (f : File) → install t fd f ≡ some t' → IsValid t → IsValid t'
unfolding install
install-IsValid {t} {t'} fd f e v =
    let shape : t' ≡ record t { files = put t.files fd (some f) } = ground arith in
    let taken : test_bit fd t.bitmap ≡ true = ground arith in
    rw shape (record { used = λ i lt h. ground (arith, v.used i lt); marked = v.marked })

pub replace-IsValid :
    {t t' : Fdtable} (fd : ℕ) (f : File) (c : Bool) {old : Option File}
    → replace t fd f c ≡ some (old, t')
    → IsValid t
    → IsValid t'
unfolding replace
replace-IsValid {t} {t'} fd f c e v =
    let shape : t' ≡ record {
      files = put t.files fd (some f);
      bitmap = set_bit fd t.bitmap;
      cloexec = if c then set_bit fd t.cloexec else clear_bit fd t.cloexec;
    } =
      ground arith in
    rw shape (record {
      used = λ i lt h. ground (arith, test_bit-set_bit fd i t.bitmap, v.used i lt);
      marked = replace_marked c;
    })
  where
    replace_marked :
        (c : Bool) (i : ℕ)
        → i < 64
        → test_bit i (if c then set_bit fd t.cloexec else clear_bit fd t.cloexec) ≡ true
        → test_bit i (set_bit fd t.bitmap) ≡ true
    replace_marked true i lt h =
        ground
          (arith, test_bit-set_bit fd i t.bitmap, test_bit-set_bit fd i t.cloexec, v.marked i lt)
    replace_marked false i lt h =
        ground
          (arith, test_bit-set_bit fd i t.bitmap, test_bit-clear_bit fd i t.cloexec, v.marked i lt)

close_slot-IsValid :
    {t : Fdtable} (fd : ℕ) (k : Files) (file : Option File)
    → IsValid t
    → IsValid (close_slot t fd k file).1
unfolding close_slot
close_slot-IsValid fd k none v = v
close_slot-IsValid {t} fd k (some f) v = record {
  used = λ i lt h. ground (arith, test_bit-clear_bit fd i t.bitmap, v.used i lt);
  marked = λ i lt h.
      ground
        (arith, test_bit-clear_bit fd i t.bitmap, test_bit-clear_bit fd i t.cloexec, v.marked i lt);
}

-- `fd_close` keeps the table valid, whatever the descriptor is and whatever the release of the file
-- returns.
pub close-IsValid : {t : Fdtable} (fd : ℕ) (k : Files) → IsValid t → IsValid (close t fd k).1
unfolding close
close-IsValid {t} fd k v =
    close_slot-IsValid fd k (if ltb fd bits_per_long then t.files fd else none) v
