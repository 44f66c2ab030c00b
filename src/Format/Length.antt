-- ===== src/Format/Length.antt =====
-- lib/vsprintf.c: a call without a buffer counts what a call with one writes.
use nuvix.Prelude.{
  ℕ, ◌≡◌, refl, ap, inl, inr, Option, none, some, List, [], ◌∷◌, ◌==◌, Bool-cases, Option-cases,
  ◌%◌, ◌^◌, ◌-◌,
}
use mathlib.Core.Option
use nuvix.Errno.{Result, ok, err}
use nuvix.Prelude.Int.{ℤ, pos, negsuc}
use nuvix.Prelude.Pow.{sub32}
use nuvix.Format.{
  signed, pointer, unsigned, text, character, null_text, Out, append, append_all, number,
  digits_from, and_then, int_max, go_on, print_signed, print_arg, continue, format, terminate,
  vsprintf, Arg, character, takes_arg, text, signed,
}

-- The same without the buffer.
abbrev pub blind : Out → Out
blind o = record o { buf = none }

abbrev both : Result (Unit {0}) × Out → Result (Unit {0}) × Out
both (r, o) = (r, blind o)

abbrev both_some : Option (Result (Unit {0}) × Out) → Option (Result (Unit {0}) × Out)
both_some none = none
both_some (some p) = some (both p)

append-blind : (o : Out) (c : ℕ) → append (blind o) c ≡ both (append o c)
unfolding append
append-blind o c = elim (Bool-cases (o.len == int_max)) [ inl h ↦ rw h refl | inr h ↦ rw h refl ]

go_on-blind :
    (p : Result (Unit {0}) × Out) (f : Out → Result (Unit {0}) × Out)
    → ((o : Out) → f (blind o) ≡ both (f o))
    → go_on (both p) f ≡ both (go_on p f)
go_on-blind (err e, o) f h = refl
go_on-blind (ok u, o) f h = h o

append_all-blind : (cs : List ℕ) (o : Out) → append_all cs (blind o) ≡ both (append_all cs o)
unfolding append_all
append_all-blind [] o = refl
append_all-blind (c ∷ cs) o =
    rw (append-blind o c) (go_on-blind (append o c) (append_all cs) (append_all-blind cs))

and_then-blind :
    (p : Result (Unit {0}) × Out) (f : Out → Option (Result (Unit {0}) × Out))
    → ((o : Out) → f (blind o) ≡ both_some (f o))
    → and_then (both p) f ≡ both_some (and_then p f)
and_then-blind (err e, o) f h = refl
and_then-blind (ok u, o) f h = h o

number-blind : (o : Out) (v b : ℕ) → number (blind o) v b ≡ both_some (number o v b)
unfolding number
number-blind o v b = elim (Option-cases (digits_from 24 v b [])) [
  | inl h ↦ rw h refl
  | inr (ds, h) ↦ rw h (ap some (append_all-blind ds o))
]

print_signed-blind : (o : Out) (z : ℤ) → print_signed (blind o) z ≡ both_some (print_signed o z)
unfolding print_signed
print_signed-blind o (pos n) = number-blind o (n % 2 ^ 32) 10
print_signed-blind o (negsuc n) =
    let m = sub32 0 ((2 ^ 32 - 1 - n) % 2 ^ 32) in
    rw (append-blind o 45)
      (and_then-blind (append o 45) (λ o'. number o' m 10) (λ o'. number-blind o' m 10))

print_arg-blind :
    (k : ℕ) (a : Arg) (o : Out) → print_arg k a (blind o) ≡ both_some (print_arg k a o)
unfolding print_arg
print_arg-blind k (character c) o = elim (Bool-cases (k == 99)) [
  | inl h ↦ rw h (ap some (append-blind o (c % 256)))
  | inr h ↦ rw h refl
]
print_arg-blind k (text t) o = elim (Bool-cases (k == 115)) [
  | inl h ↦ rw h (ap some (append_all-blind (elim t [ none ↦ null_text | some s ↦ s ]) o))
  | inr h ↦ rw h refl
]
print_arg-blind k (signed z) o = elim (Bool-cases (k == 100)) [
  | inl h ↦ rw h (print_signed-blind o z)
  | inr h ↦ rw h refl
]
print_arg-blind k (unsigned n) o = elim (Bool-cases (k == 117)) [
  | inl h ↦ rw h (number-blind o (n % 2 ^ 32) 10)
  | inr h ↦ elim (Bool-cases (k == 120)) [
    | inl g ↦ rw (h, g) (number-blind o (n % 2 ^ 32) 16)
    | inr g ↦ rw (h, g) refl
  ]
]
print_arg-blind k (pointer p) o = elim (Bool-cases (k == 112)) [
  | inl h ↦
      rw (h, append_all-blind (48 ∷ 120 ∷ []) o)
        (and_then-blind (append_all (48 ∷ 120 ∷ []) o) (λ o'. number o' (p % 2 ^ 64) 16)
          (λ o'. number-blind o' (p % 2 ^ 64) 16))
  | inr h ↦ rw h refl
]

continue-blind :
    (p : Option (Result (Unit {0}) × Out)) (f : Out → Option (Result (Unit {0}) × Out))
    → ((o : Out) → f (blind o) ≡ both_some (f o))
    → continue (both_some p) f ≡ both_some (continue p f)
continue-blind none f h = refl
continue-blind (some p) f h = and_then-blind p f h

format-blind :
    (fs : List ℕ) (args : List Arg) (o : Out)
    → format fs args (blind o) ≡ both_some (format fs args o)
unfolding format
format-blind [] args o = refl
format-blind (c ∷ []) args o = elim (Bool-cases (c == 37)) [
  | inl h ↦ rw h refl
  | inr h ↦ rw h (ap some (append-blind o c))
]
format-blind (c ∷ k ∷ fs) [] o = elim (Bool-cases (c == 37)) [
  | inr h ↦
      rw (h, append-blind o c)
        (and_then-blind (append o c) (format (k ∷ fs) []) (format-blind (k ∷ fs) []))
  | inl h ↦ elim (Bool-cases (k == 37)) [
    | inl g ↦
        rw (h, g, append-blind o 37)
          (and_then-blind (append o 37) (format fs []) (format-blind fs []))
    | inr g ↦ elim (Bool-cases (takes_arg k)) [
      | inl t ↦ rw (h, g, t) refl
      | inr t ↦ rw (h, g, t) refl
    ]
  ]
]
format-blind (c ∷ k ∷ fs) (a ∷ args) o = elim (Bool-cases (c == 37)) [
  | inr h ↦
      rw (h, append-blind o c)
        (and_then-blind (append o c) (format (k ∷ fs) (a ∷ args))
          (format-blind (k ∷ fs) (a ∷ args)))
  | inl h ↦ elim (Bool-cases (k == 37)) [
    | inl g ↦
        rw (h, g, append-blind o 37)
          (and_then-blind (append o 37) (format fs (a ∷ args)) (format-blind fs (a ∷ args)))
    | inr g ↦ elim (Bool-cases (takes_arg k)) [
      | inl t ↦
          rw (h, g, t, print_arg-blind k a o)
            (continue-blind (print_arg k a o) (format fs args) (format-blind fs args))
      | inr t ↦ rw (h, g, t) refl
    ]
  ]
]

abbrev pub result_of : Option (Result ℕ × Out) → Option (Result ℕ × ℕ)
result_of none = none
result_of (some (r, o)) = some (r, o.len)

terminate-blind :
    (p : Option (Result (Unit {0}) × Out))
    → result_of (Option.map terminate (both_some p)) ≡ result_of (Option.map terminate p)
terminate-blind none = refl
terminate-blind (some (err e, o)) = refl
terminate-blind (some (ok u, o)) = refl

-- Without a buffer `vsprintf` returns what it returns with one, the length or the error, for every
-- format and all arguments.
pub vsprintf-blind :
    (m : ℕ → ℕ) (fs : List ℕ) (args : List Arg)
    → result_of (vsprintf none fs args) ≡ result_of (vsprintf (some m) fs args)
unfolding vsprintf
vsprintf-blind m fs args =
    let o : Out = record { buf = some m; len = 0 } in
    rw (format-blind fs args o) (terminate-blind (format fs args o))
