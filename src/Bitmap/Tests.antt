-- ===== src/Bitmap/Tests.antt =====
-- Runs of the bitmap searches, and their theorems at a small map.
use nuvix.Prelude.{◌≡◌, refl, false, not, arith}
use nuvix.Bitmap.{Bitmap, set_bit, clear_bit, test_bit, find_next_bit, find_next_zero_bit, nonzero}
use nuvix.Bitmap.Find.{IsFirst, find_next_zero_bit-IsFirst}

-- Bits 0, 1 and 70.
abbrev three : Bitmap
three = set_bit 0 (set_bit 1 (set_bit 70 (λ _ _. false)))

find_high : find_next_bit three 128 2 ≡ 70
unfolding find_next_bit test_bit set_bit nonzero
find_high = refl

find_clear : find_next_zero_bit (clear_bit 1 three) 128 0 ≡ 1
unfolding find_next_zero_bit test_bit set_bit clear_bit nonzero
find_clear = refl

find_next_zero_bit-IsFirst_example :
    IsFirst (λ i. not (test_bit i three)) 128 0 (find_next_zero_bit three 128 0)
find_next_zero_bit-IsFirst_example = find_next_zero_bit-IsFirst three 128 0 (omega arith)
