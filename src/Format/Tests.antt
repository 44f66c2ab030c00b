-- ===== src/Format/Tests.antt =====
-- Runs of lib/vsprintf.c, and its theorems at concrete inputs.
use nuvix.Prelude.{
  ℕ, ◌-◌, ◌^◌, ◌≤◌, ◌≡◌, refl, inr, true, Option, none, some, List, [], ◌∷◌, arith, length,
}
use nuvix.Prelude.Int.{negsuc}
use nuvix.Errno.{Result, ok, err, einval}
use nuvix.Format.{Out, signed, text, unsigned, number, vsprintf}
use nuvix.Format.Digits.{read, stored, no_zero_first, number-reads}
use nuvix.Format.Length.{result_of, vsprintf-blind}

abbrev seen : Option (Result ℕ × Out) → List ℕ
seen none = []
seen (some (r, o)) = elim o.buf [ none ↦ [] | some m ↦ m 0 ∷ m 1 ∷ m 2 ∷ m 3 ∷ m 4 ∷ m 5 ∷ [] ]

abbrev blank : ℕ → ℕ
blank i = 255

-- "%d!"
abbrev bang : List ℕ
bang = 37 ∷ 100 ∷ 33 ∷ []

minus_twelve :
    seen (vsprintf (some blank) bang (signed (negsuc 11) ∷ [])) ≡ 45 ∷ 49 ∷ 50 ∷ 33 ∷ 0 ∷ 255 ∷ []
unfolding vsprintf
minus_twelve = refl

-- The least `int`, whose magnitude is no `int`.
least_int :
    seen (vsprintf (some blank) bang (signed (negsuc (2 ^ 31 - 1)) ∷ []))
    ≡ 45 ∷ 50 ∷ 49 ∷ 52 ∷ 55 ∷ 52 ∷ []
unfolding vsprintf
least_int = refl

-- "%q"
unknown_kind : result_of (vsprintf none (37 ∷ 113 ∷ []) []) ≡ some (err einval, 0)
unfolding vsprintf
unknown_kind = refl

-- "%x" of 255 after "%s" of a null pointer
counted :
    result_of (vsprintf none (37 ∷ 115 ∷ 37 ∷ 120 ∷ []) (text none ∷ unsigned 255 ∷ []))
    ≡ some (ok 8, 8)
unfolding vsprintf
counted = refl

vsprintf-blind_example :
    result_of (vsprintf none bang (signed (negsuc 11) ∷ []))
    ≡ result_of (vsprintf (some blank) bang (signed (negsuc 11) ∷ []))
vsprintf-blind_example = vsprintf-blind blank bang (signed (negsuc 11) ∷ [])

abbrev out : Out
out = record { buf = some blank; len = 3 }

number-reads_example :
    (cs : List ℕ) × (number out 4095 16 ≡ some (ok tt, stored cs out))
    × (read 16 0 cs ≡ 4095)
    × (no_zero_first 4095 cs ≡ true)
    × (length cs ≤ 24)
number-reads_example = number-reads out 4095 16 (omega arith) (inr refl) (omega arith)
