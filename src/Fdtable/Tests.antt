-- ===== src/Fdtable/Tests.antt =====
-- The theorems of the descriptor table at a table in which slots 0 and 3 hold file 7 and descriptor 3
-- is closed on exec.
use nuvix.Prelude.{◌≡◌, Bool, true, false, ◌||◌, none, some, [], arith, ◌==◌, if◌then◌else◌}
use nuvix.Errno.{ok}
use nuvix.Bitmap.{set_bit, test_bit-set_bit}
use nuvix.Fdtable.Refs.{Files}
use nuvix.Fdtable.{Fdtable, alloc_from, sys_dup3}
use nuvix.Fdtable.Inv.{IsValid, alloc_from-IsValid}
use nuvix.Fdtable.Count.{IsCounted, holders}
use nuvix.Fdtable.Dup.{Keeps, sys_dup3-Keeps}

abbrev table : Fdtable
table = record {
  files = λ fd. if fd == 0 || fd == 3 then some 7 else none;
  bitmap = set_bit 0 (set_bit 3 (λ _ _. false));
  cloexec = set_bit 3 (λ _ _. false);
}

abbrev counts : Files
counts = record { count = λ f. if f == 7 then 2 else 0; freed = []; released = λ _. ok tt }

table-IsValid : IsValid table
table-IsValid = record {
  used = λ fd lt h. ground (
    arith,
    test_bit-set_bit 0 fd (set_bit 3 (λ _ _. false)),
    test_bit-set_bit 3 fd (λ _ _. false),
  );
  marked = λ fd lt h. rw (test_bit-set_bit 0 fd (set_bit 3 (λ _ _. false))) (if_true (0 == fd) h);
}
  where
    if_true : (b : Bool) {c : Bool} → c ≡ true → (if b then true else c) ≡ true
    if_true b h = ground (arith, h)

counts-IsCounted : IsCounted table counts
unfolding holders
counts-IsCounted = record { cover = λ g. ground arith; room = λ g. ground arith }

alloc_from-IsValid_example : IsValid (alloc_from table 0).1
alloc_from-IsValid_example = alloc_from-IsValid table 0 table-IsValid

sys_dup3-Keeps_example : Keeps table counts (sys_dup3 table counts 3 0 0x80000)
sys_dup3-Keeps_example = sys_dup3-Keeps table counts table-IsValid counts-IsCounted 3 0 0x80000
