-- ===== src/Memory/Tests.antt =====
-- Runs of lib/string.c, and its theorems at concrete memories.
use nuvix.Prelude.{ℕ, ◌+◌, ◌-◌, ◌≡◌, refl, inr, some, List, [], ◌∷◌, arith, ◌==◌, if◌then◌else◌}
use nuvix.Prelude.Int.{negsuc}
use nuvix.Memory.{
  Memory, in_range, memcpy, memmove, strlen, strnlen, strcmp, strcpy, strchr, strrchr,
}
use nuvix.Memory.Copy.{memcpy_lem, memmove_lem}
use nuvix.Memory.Text.{IsString, strlen_lem, strnlen_lem, strchr_lem, strrchr_lem, strcpy_lem}

-- "abca" at 8, and "abd" at 20.
abbrev words : Memory
words a =
    if a == 8
    then 97
    else if a == 9
    then 98
    else if a == 10
    then 99
    else if a == 11
    then 97
    else if a == 20
    then 97
    else if a == 21
    then 98
    else if a == 22
    then 100
    else 0

abbrev first : List ℕ
first = 97 ∷ 98 ∷ 99 ∷ 97 ∷ []

abbrev second : List ℕ
second = 97 ∷ 98 ∷ 100 ∷ []

first-IsString : IsString words 8 first
first-IsString = omega arith

second-IsString : IsString words 20 second
second-IsString = omega arith

-- An overlapping move upward.
memmove_up : memmove words 9 8 4 12 ≡ 97
unfolding memmove
memmove_up = refl

strcmp_less : strcmp 9 words 8 20 ≡ some (negsuc 0)
unfolding strcmp
strcmp_less = refl

memcpy_lem_example :
    memcpy words 40 8 4 42 ≡ (if in_range 40 4 42 then words (8 + (42 - 40)) else words 42)
memcpy_lem_example = memcpy_lem words 40 8 4 (inr (omega arith)) 42

strlen_lem_example : strlen 9 words 8 ≡ some 4
strlen_lem_example = strlen_lem 9 words 8 first first-IsString (omega arith)

strnlen_lem_example : strnlen words 8 2 ≡ 2
strnlen_lem_example = strnlen_lem 2 words 8 first first-IsString

strchr_lem_example : strchr 9 words 8 99 ≡ some (some 10)
strchr_lem_example = strchr_lem 9 words 8 99 first first-IsString (omega arith)

strrchr_lem_example : strrchr 9 words 8 97 ≡ some (some 11)
strrchr_lem_example = strrchr_lem 9 words 8 97 first first-IsString (omega arith)

strcpy_lem_example : strcpy 9 words 40 8 ≡ some (memcpy words 40 8 5)
strcpy_lem_example = strcpy_lem 9 words 40 8 first first-IsString (omega arith) (inr (omega arith))

memmove_lem_example :
    memmove words 9 8 4 12 ≡ (if in_range 9 4 12 then words (8 + (12 - 9)) else words 12)
memmove_lem_example = memmove_lem words 9 8 4 12
