-- ===== src/Format/Digits.antt =====
-- lib/vsprintf.c: the digits of a number fit in the array and read back as the number.
use mathlib.Core.Path.{subst}
use mathlib.Core.Option
use native.Mathlib.Nat.{
  div-add-mod, eq-zero-or-pos, mod-lt, div-eq_of_lt, pow-suc, div-lt_iff_lt-mul, pow-zero,
}
use nuvix.Prelude.{
  ℕ, zero, suc, ◌+◌, ◌-◌, ◌*◌, ◌/◌, ◌%◌, ◌^◌, ◌≤◌, ◌<◌, ◌≡◌, refl, ap, ◌∙◌, ◌⊎◌, inl, inr, Bool,
  true, false, ◌||◌, not, some, List, [], ◌∷◌, arith, ltb, ◌==◌, if◌then◌else◌, length,
}
use nuvix.Errno.{ok}
use nuvix.Format.{digit, digits_from, number, append_all, append, Out, int_max}

-- The value of a digit, and of a text of digits after a number.
abbrev pub digit_value : ℕ → ℕ
digit_value c = if ltb c 58 then c - 48 else c - 87

abbrev pub read : (base : ℕ) → ℕ → List ℕ → ℕ
read b x [] = x
read b x (c ∷ cs) = read b (x * b + digit_value c) cs

digit_value-digit : (d : ℕ) → d < 16 → digit_value (digit d) ≡ d
unfolding digit
digit_value-digit d h = ground (arith, h)

-- The digits start with a nonzero one, unless the number is zero.
abbrev pub no_zero_first : ℕ → List ℕ → Bool
no_zero_first v [] = false
no_zero_first v (c ∷ cs) = v == 0 || not (digit_value c == 0)

-- What the loop gives: the digits of the number, before those that are there.
abbrev Printed : (n v b : ℕ) → List ℕ → Type 0
Printed n v b ds =
    (cs : List ℕ) × (digits_from n v b ds ≡ some cs)
    × (read b 0 cs ≡ read b v ds)
    × (no_zero_first v cs ≡ true)
    × (length cs ≤ n + length ds)

last_digit : (n v b : ℕ) (ds : List ℕ) → 2 ≤ b → b ≤ 16 → v / b ≡ 0 → Printed (suc n) v b ds
unfolding digits_from
last_digit n v b ds lo hi h =
    let whole : b * (v / b) + v % b ≡ v = div-add-mod v b in
    let small : v % b ≡ v = omega (arith, (rw h at whole)) in
    let value : digit_value (digit (v % b)) ≡ v =
      digit_value-digit (v % b) (omega (arith, mod-lt v {m = b} (omega (arith, lo)), hi)) ∙ small in
    let out : (v / b == 0) ≡ true = ground (arith, h) in
    rw out (
      digit (v % b) ∷ ds,
      refl,
      ap (λ (t : ℕ). read b t ds) (omega (arith, value)),
      ground (arith, value),
      omega arith,
    )

first_kept : (v w : ℕ) (cs : List ℕ) → 0 < w → no_zero_first w cs ≡ true → no_zero_first v cs ≡ true
first_kept v w [] h e = e
first_kept v w (c ∷ cs) h e = ground (arith, h, e)

digits_from-Printed :
    (n v b : ℕ) (ds : List ℕ) → 2 ≤ b → b ≤ 16 → v < b ^ suc n → Printed (suc n) v b ds
unfolding digits_from
digits_from-Printed zero v b ds lo hi lt =
    let one : b ^ 0 ≡ 1 = pow-zero b in
    last_digit 0 v b ds lo hi
      (div-eq_of_lt (omega (arith, lt, pow-suc b 0, one, ap (λ (t : ℕ). t * b) one)))
digits_from-Printed (suc n) v b ds lo hi lt = elim (eq-zero-or-pos (v / b)) [
  | inl h ↦ last_digit (suc n) v b ds lo hi h
  | inr h ↦
      let value : digit_value (digit (v % b)) ≡ v % b =
        digit_value-digit (v % b) (omega (arith, mod-lt v {m = b} (omega (arith, lo)), hi)) in
      let whole : b * (v / b) + v % b ≡ v = div-add-mod v b in
      let bound : v < b ^ suc n * b = subst (λ t. v < t) (pow-suc b (suc n)) lt in
      let fewer : v / b < b ^ suc n =
        (div-lt_iff_lt-mul {k = b} {x = v} {y = b ^ suc n} (omega (arith, lo))).1 bound in
      let (cs, e, r, z, l) = digits_from-Printed n (v / b) b (digit (v % b) ∷ ds) lo hi fewer in
      let more : (v / b == 0) ≡ false = ground (arith, h) in
      rw more (
        cs,
        e,
        r ∙ ap (λ (t : ℕ). read b t ds) (omega (arith, value, whole)),
        first_kept v (v / b) cs h z,
        omega (arith, l),
      )
]

-- The buffer and the length after a character, and after a text.
abbrev pub written : Out → ℕ → Out
written o c = record {
  buf = Option.map (λ (m : ℕ → ℕ). λ (i : ℕ). if i == o.len then c else m i) o.buf;
  len = o.len + 1;
}

abbrev pub stored : List ℕ → Out → Out
stored [] o = o
stored (c ∷ cs) o = stored cs (written o c)

append-written : (o : Out) (c : ℕ) → o.len < int_max → append o c ≡ (ok tt, written o c)
unfolding append
append-written o c h = let room : (o.len == int_max) ≡ false = ground (arith, h) in rw room refl

append_all-stored :
    (cs : List ℕ) (o : Out) → o.len + length cs ≤ int_max → append_all cs o ≡ (ok tt, stored cs o)
unfolding append_all
append_all-stored [] o h = refl
append_all-stored (c ∷ cs) o h =
    rw (append-written o c (omega (arith, h)))
      (append_all-stored cs (written o c) (omega (arith, h)))

-- A number below 2^64 in base 10 or 16, with room for 24 more characters, is printed without error as a text
-- of at most 24 digits, which the array holds; they read back as the number, and the first is not
-- zero unless the number is.
pub number-reads :
    (o : Out) (v b : ℕ)
    → v < 2 ^ 64
    → (b ≡ 10) ⊎ (b ≡ 16)
    → o.len + 24 ≤ int_max
    → (cs : List ℕ) × (number o v b ≡ some (ok tt, stored cs o))
      × (read b 0 cs ≡ v)
      × (no_zero_first v cs ≡ true)
      × (length cs ≤ 24)
unfolding number
number-reads o v b h base room =
    let lo : 2 ≤ b = omega (arith, base) in
    let hi : b ≤ 16 = omega (arith, base) in
    let fits : v < b ^ 24 = elim base [
      | inl e ↦ rw e (omega (arith, h))
      | inr e ↦ rw e (omega (arith, h))
    ] in
    let (cs, e, r, z, l) = digits_from-Printed 23 v b [] lo hi fits in
    (cs, rw (e, append_all-stored cs o (omega (arith, l, room))) refl, r, z, omega (arith, l))
