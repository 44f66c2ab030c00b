-- ===== src/Timer/Order.antt =====
-- The order of the timers of kernel/timer.c: `sooner` and what it means.
use nuvix.Prelude.{
  ◌<◌, ◌≡◌, ◌⊎◌, inl, inr, true, false, List, [], ◌∷◌, ◌++◌, arith, Bool-cases, All, All-map, ltb,
  ◌≤◌,
}
use nuvix.Timer.{Timer, sooner}

abbrev pub IsOrdered : List Timer → Type 0
IsOrdered [] = Unit
IsOrdered (t ∷ ts) = All (λ u. sooner t u ≡ true) ts × IsOrdered ts

pub All-append {κ} :
    (P : Timer → Type κ) (us vs : List Timer) → All P us → All P vs → All P (us ++ vs)
All-append P [] vs h k = k
All-append P (u ∷ us) vs h k = (h.0, All-append P us vs h.1 k)

pub All-split {κ} :
    (P : Timer → Type κ) (us vs : List Timer) → All P (us ++ vs) → All P us × All P vs
All-split P [] vs h = (tt, h)
All-split P (u ∷ us) vs h = let rest = All-split P us vs h.1 in ((h.0, rest.0), rest.1)

pub IsOrdered-middle :
    (us : List Timer) (t : Timer) (vs : List Timer)
    → IsOrdered (us ++ t ∷ vs)
    → IsOrdered us
      × All (λ u. sooner u t ≡ true) us
      × All (λ v. sooner t v ≡ true) vs
      × IsOrdered vs
IsOrdered-middle [] t vs h = (tt, tt, h.0, h.1)
IsOrdered-middle (u ∷ us) t vs h =
    let rest = IsOrdered-middle us t vs h.1 in
    let over = All-split (λ w. sooner u w ≡ true) us (t ∷ vs) h.0 in
    ((over.0, rest.0), (over.1.0, rest.1), rest.2, rest.3)

pub IsOrdered-join :
    (us : List Timer) (t : Timer) (vs : List Timer)
    → IsOrdered (us ++ vs)
    → All (λ u. sooner u t ≡ true) us
    → All (λ v. sooner t v ≡ true) vs
    → IsOrdered (us ++ t ∷ vs)
IsOrdered-join [] t vs h b a = (a, h)
IsOrdered-join (u ∷ us) t vs h b a =
    let over = All-split (λ w. sooner u w ≡ true) us vs h.0 in
    (All-append _ us (t ∷ vs) over.0 (b.0, over.1), IsOrdered-join us t vs h.1 b.1 a)

pub sooner_trans : (t u v : Timer) → sooner t u ≡ true → sooner u v ≡ true → sooner t v ≡ true
sooner_trans t u v h k = ground (arith, h, k)

-- A timer that is not sooner is later if its sequence number is higher.
pub later_sooner : (t u : Timer) → sooner t u ≡ false → u.sequence < t.sequence → sooner u t ≡ true
later_sooner t u h k = ground (arith, h, k)

-- Due before the other, or at the same time and started before it.
abbrev pub Earlier : Timer → Timer → Type 0
Earlier t u = (t.deadline < u.deadline) ⊎ ((t.deadline ≡ u.deadline) × (t.sequence < u.sequence))

abbrev pub IsInOrder : List Timer → Type 0
IsInOrder [] = Unit
IsInOrder (t ∷ ts) = All (Earlier t) ts × IsInOrder ts

pub Earlier-sooner : (t u : Timer) → Earlier t u → sooner t u ≡ true
Earlier-sooner t u (inl h) = ground (arith, h)
Earlier-sooner t u (inr h) = ground (arith, h.0, h.1)

pub sooner-Earlier : (t u : Timer) → sooner t u ≡ true → Earlier t u
sooner-Earlier t u h = elim (Bool-cases (ltb t.deadline u.deadline)) [
  | inl k ↦ inl (ground (arith, k))
  | inr k ↦ inr (ground (arith, h, k), ground (arith, h, k))
]

pub to_IsOrdered : (ts : List Timer) → IsInOrder ts → IsOrdered ts
to_IsOrdered [] h = tt
to_IsOrdered (t ∷ ts) h = (All-map _ _ ts (Earlier-sooner t) h.0, to_IsOrdered ts h.1)

pub to_IsInOrder : (ts : List Timer) → IsOrdered ts → IsInOrder ts
to_IsInOrder [] h = tt
to_IsInOrder (t ∷ ts) h = (All-map _ _ ts (sooner-Earlier t) h.0, to_IsInOrder ts h.1)

pub All-both :
    {P Q R : Timer → Type 0} (ts : List Timer)
    → ((u : Timer) → P u → Q u → R u)
    → All P ts
    → All Q ts
    → All R ts
All-both [] f h k = tt
All-both (t ∷ ts) f h k = (f t h.0 k.0, All-both ts f h.1 k.1)

pub not_after : (u t : Timer) → sooner u t ≡ true → u.deadline ≤ t.deadline
not_after u t h = ground (arith, h)

pub strictly_after :
    (t v : Timer) → sooner t v ≡ true → v.sequence < t.sequence → t.deadline < v.deadline
strictly_after t v h k = ground (arith, h, k)
