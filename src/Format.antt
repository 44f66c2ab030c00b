-- ===== src/Format.antt =====
-- lib/vsprintf.c. The buffer is a function from places to characters, or absent: then the call only
-- counts. The result `none` is what C leaves undefined: an argument that is missing or of another
-- type, or a write outside of the array of digits.
pub mod Digits
pub mod Length
mod Tests
use nuvix.Prelude.{
  ℕ, zero, suc, ◌+◌, ◌-◌, ◌*◌, ◌/◌, ◌%◌, ◌^◌, ◌≤◌, ◌<◌, min, max, ◌≡◌, refl, sym, ap, ◌∙◌, fun_ext,
  ◌≢◌, ◌↔◌, ◌⊎◌, inl, inr, Bool, true, false, ◌&&◌, ◌||◌, not, Option, none, some, List, [], ◌∷◌,
  ◌++◌, arith, ltb, leb, ◌==◌, if◌then◌else◌, ltb→lt, ltb-false, lt→ltb, leb→le, ==_iff, Bool-cases,
  Option-cases, length, get_elem?, get_or, set, take, drop, All, keep_if, length-append, length-set,
  length-take, get_or-set_self, get_or-set_ne,
}
use mathlib.Core.Option
use nuvix.Prelude.Pow.{sub32}
use nuvix.Prelude.Int.{ℤ, pos, negsuc}
use nuvix.Errno.{Result, ok, err, einval, eoverflow}

abbrev pub int_max : ℕ
int_max = 2 ^ 31 - 1

pub record Out : Type 0 where
  pub buf : Option (ℕ → ℕ)
  pub len : ℕ

pub data Arg : Type 0 where
  character : ℕ → Arg
  text : Option (List ℕ) → Arg
  signed : ℤ → Arg
  unsigned : ℕ → Arg
  pointer : ℕ → Arg

unfoldable pub append : Out → ℕ → Result (Unit {0}) × Out
append o c = if o.len == int_max then (err eoverflow, o) else (
  ok tt,
  record {
    buf = Option.map (λ (m : ℕ → ℕ). λ (i : ℕ). if i == o.len then c else m i) o.buf;
    len = o.len + 1;
  },
)

-- The next character, if there was no error.
abbrev pub go_on :
    Result (Unit {0}) × Out → (Out → Result (Unit {0}) × Out) → Result (Unit {0}) × Out
go_on (err e, o) f = (err e, o)
go_on (ok u, o) f = f o

-- The loops that append until one fails.
unfoldable pub append_all : List ℕ → Out → Result (Unit {0}) × Out
unfolding append
append_all [] o = (ok tt, o)
append_all (c ∷ cs) o = go_on (append o c) (λ o'. append_all cs o')

-- "0123456789abcdef"
unfoldable pub digit : ℕ → ℕ
digit d = if ltb d 10 then 48 + d else 87 + d

-- The loop that builds the digits backwards, with the places of `tmp` that are left.
unfoldable pub digits_from : (room value base : ℕ) → List ℕ → Option (List ℕ)
unfolding digit
digits_from zero v b ds = none
digits_from (suc n) v b ds =
    let ds' = digit (v % b) ∷ ds in
    let rest = digits_from n (v / b) b ds' in if v / b == 0 then some ds' else rest

unfoldable pub number : Out → (value base : ℕ) → Option (Result (Unit {0}) × Out)
unfolding digits_from append_all
number o v b = Option.map (λ ds. append_all ds o) (digits_from 24 v b [])

-- The next call, if there was no error.
abbrev pub and_then :
    Result (Unit {0}) × Out
    → (Out → Option (Result (Unit {0}) × Out))
    → Option (Result (Unit {0}) × Out)
and_then (err e, o) f = some (err e, o)
and_then (ok u, o) f = f o

-- "(null)"
abbrev pub null_text : List ℕ
null_text = 40 ∷ 110 ∷ 117 ∷ 108 ∷ 108 ∷ 41 ∷ []

abbrev pub print_signed : Out → ℤ → Option (Result (Unit {0}) × Out)
unfolding append number
print_signed o (pos n) = number o (n % 2 ^ 32) 10
print_signed o (negsuc n) =
    and_then (append o 45) (λ o'. number o' (sub32 0 ((2 ^ 32 - 1 - n) % 2 ^ 32)) 10)

-- The conversions that take an argument: `c`, `s`, `d`, `u`, `x` and `p`.
unfoldable pub print_arg : (kind : ℕ) → Arg → Out → Option (Result (Unit {0}) × Out)
unfolding append number append_all print_signed
print_arg k (character c) o = if k == 99 then some (append o (c % 256)) else none
print_arg k (text t) o =
    if k == 115 then some (append_all (elim t [ none ↦ null_text | some s ↦ s ]) o) else none
print_arg k (signed z) o = if k == 100 then print_signed o z else none
print_arg k (unsigned n) o =
    if k == 117
    then number o (n % 2 ^ 32) 10
    else if k == 120
    then number o (n % 2 ^ 32) 16
    else none
print_arg k (pointer p) o =
    if k == 112
    then and_then (append_all (48 ∷ 120 ∷ []) o) (λ o'. number o' (p % 2 ^ 64) 16)
    else none

abbrev pub takes_arg : (kind : ℕ) → Bool
takes_arg k = k == 99 || k == 115 || k == 100 || k == 117 || k == 120 || k == 112

abbrev pub continue :
    Option (Result (Unit {0}) × Out)
    → (Out → Option (Result (Unit {0}) × Out))
    → Option (Result (Unit {0}) × Out)
continue none f = none
continue (some r) f = and_then r f

-- The loop of `vsprintf` over the format.
unfoldable pub format : (fmt : List ℕ) → List Arg → Out → Option (Result (Unit {0}) × Out)
unfolding append print_arg
format [] args o = some (ok tt, o)
format (c ∷ []) args o = if c == 37 then some (err einval, o) else some (append o c)
format (c ∷ k ∷ fs) [] o =
    if not (c == 37)
    then and_then (append o c) (λ o'. format (k ∷ fs) [] o')
    else if k == 37
    then and_then (append o 37) (λ o'. format fs [] o')
    else if takes_arg k
    then none
    else some (err einval, o)
format (c ∷ k ∷ fs) (a ∷ args) o =
    if not (c == 37)
    then and_then (append o c) (λ o'. format (k ∷ fs) (a ∷ args) o')
    else if k == 37
    then and_then (append o 37) (λ o'. format fs (a ∷ args) o')
    else if takes_arg k
    then continue (print_arg k a o) (λ o'. format fs args o')
    else some (err einval, o)

-- The terminating zero, and the length unless there was an error.
abbrev pub terminate : Result (Unit {0}) × Out → Result ℕ × Out
terminate (err e, o) = (
  err e,
  record o { buf = Option.map (λ (m : ℕ → ℕ). λ (i : ℕ). if i == o.len then 0 else m i) o.buf },
)
terminate (ok u, o) = (
  ok o.len,
  record o { buf = Option.map (λ (m : ℕ → ℕ). λ (i : ℕ). if i == o.len then 0 else m i) o.buf },
)

unfoldable pub vsprintf :
    (buf : Option (ℕ → ℕ)) → (fmt : List ℕ) → List Arg → Option (Result ℕ × Out)
unfolding format
vsprintf buf fmt args = Option.map terminate (format fmt args record { buf = buf; len = 0 })
