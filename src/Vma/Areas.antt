-- ===== src/Vma/Areas.antt =====
-- The list of the areas of an address space: in order and apart.
use nuvix.Prelude.{
  ◌≤◌, ◌<◌, ◌≡◌, refl, inl, inr, Bool, false, Option, none, some, List, [], ◌∷◌, ◌++◌,
  if◌then◌else◌, Bool-cases, All, true, ◌∙◌, ap,
}
use nuvix.Vma.{Vma}

-- An area that `vma_insert` accepts is not empty; those behind it begin after it.
abbrev pub IsApart : List Vma → Type 0
IsApart [] = Unit
IsApart (v ∷ vs) = (v.start < v.end) × All (λ u. v.end ≤ u.start) vs × IsApart vs

abbrev pub Below : Vma → List Vma → Type 0
Below v vs = All (λ u. u.end ≤ v.start) vs

abbrev pub Above : Vma → List Vma → Type 0
Above v vs = All (λ u. v.end ≤ u.start) vs

-- The first area of a list that a test accepts.
abbrev pub first_hit : (Vma → Bool) → List Vma → Option Vma
first_hit p [] = none
first_hit p (v ∷ vs) = if p v then some v else first_hit p vs

abbrev pub or_else : Option Vma → Option Vma → Option Vma
or_else none o = o
or_else (some v) o = some v

module _ (p : Vma → Bool) where
  pub first_hit-append :
      (us vs : List Vma) → first_hit p (us ++ vs) ≡ or_else (first_hit p us) (first_hit p vs)
  first_hit-append [] vs = refl
  first_hit-append (u ∷ us) vs = elim (Bool-cases (p u)) [
    | inl h ↦ rw h refl
    | inr h ↦ rw h (first_hit-append us vs)
  ]

  pub first_hit-none : (vs : List Vma) → All (λ v. p v ≡ false) vs → first_hit p vs ≡ none
  first_hit-none [] h = refl
  first_hit-none (v ∷ vs) h = rw h.0 (first_hit-none vs h.1)

pub or_else-some :
    (o : Option Vma) (v : Vma) (x : Option Vma)
    → or_else (or_else o (some v)) x ≡ or_else o (some v)
or_else-some none v x = refl
or_else-some (some u) v x = refl

pub or_else-none : (o : Option Vma) → or_else o none ≡ o
or_else-none none = refl
or_else-none (some v) = refl

-- A hit before the middle, at it or behind it.
module _ (p : Vma → Bool) (us : List Vma) (v : Vma) (vs : List Vma) where
  pub first_hit-front :
      p v ≡ false → All (λ u. p u ≡ false) vs → first_hit p (us ++ v ∷ vs) ≡ first_hit p us
  first_hit-front e miss =
      first_hit-append p us (v ∷ vs)
      ∙ ap (or_else (first_hit p us)) (first_hit-none p (v ∷ vs) (e, miss))
      ∙ or_else-none (first_hit p us)

  pub first_hit-behind :
      p v ≡ false → All (λ u. p u ≡ false) us → first_hit p (us ++ v ∷ vs) ≡ first_hit p vs
  first_hit-behind e miss =
      first_hit-append p us (v ∷ vs)
      ∙ ap (λ o. or_else o (first_hit p (v ∷ vs))) (first_hit-none p us miss)
      ∙ ap (λ b. if b then some v else first_hit p vs) e

  pub first_hit-here : p v ≡ true → first_hit p (us ++ v ∷ vs) ≡ or_else (first_hit p us) (some v)
  first_hit-here e =
      first_hit-append p us (v ∷ vs)
      ∙ ap (λ b. or_else (first_hit p us) (if b then some v else first_hit p vs)) e

pub All-append {κ} : (P : Vma → Type κ) (us vs : List Vma) → All P us → All P vs → All P (us ++ vs)
All-append P [] vs h k = k
All-append P (u ∷ us) vs h k = (h.0, All-append P us vs h.1 k)

pub All-split {κ} : (P : Vma → Type κ) (us vs : List Vma) → All P (us ++ vs) → All P us × All P vs
All-split P [] vs h = (tt, h)
All-split P (u ∷ us) vs h = let rest = All-split P us vs h.1 in ((h.0, rest.0), rest.1)

-- The middle of a list that is apart splits it.
pub IsApart-middle :
    (us : List Vma) (v : Vma) (vs : List Vma)
    → IsApart (us ++ v ∷ vs)
    → IsApart us × Below v us × (v.start < v.end) × Above v vs × IsApart vs
IsApart-middle [] v vs h = (tt, tt, h.0, h.1, h.2)
IsApart-middle (u ∷ us) v vs h =
    let rest = IsApart-middle us v vs h.2 in
    let over = All-split (λ w. u.end ≤ w.start) us (v ∷ vs) h.1 in
    ((h.0, over.0, rest.0), (over.1.0, rest.1), rest.2, rest.3, rest.4)

pub IsApart-join :
    (us : List Vma) (v : Vma) (vs : List Vma)
    → IsApart (us ++ vs)
    → Below v us
    → v.start < v.end
    → Above v vs
    → IsApart (us ++ v ∷ vs)
IsApart-join [] v vs h b w a = (w, a, h)
IsApart-join (u ∷ us) v vs h b w a =
    let over = All-split (λ w. u.end ≤ w.start) us vs h.1 in
    (h.0, All-append _ us (v ∷ vs) over.0 (b.0, over.1), IsApart-join us v vs h.2 b.1 w a)

-- Without one of its areas.
pub IsApart-drop :
    (us : List Vma) (v : Vma) (vs : List Vma) → IsApart (us ++ v ∷ vs) → IsApart (us ++ vs)
IsApart-drop [] v vs h = h.2
IsApart-drop (u ∷ us) v vs h =
    let over = All-split (λ w. u.end ≤ w.start) us (v ∷ vs) h.1 in
    (h.0, All-append _ us vs over.0 over.1.1, IsApart-drop us v vs h.2)

-- Each area ends after it begins.
pub IsApart-ends : (vs : List Vma) → IsApart vs → All (λ u. u.start < u.end) vs
IsApart-ends [] h = tt
IsApart-ends (v ∷ vs) h = (h.0, IsApart-ends vs h.2)

pub All-and {κ ι} :
    (P : Vma → Type κ) (Q : Vma → Type ι) (vs : List Vma)
    → All P vs
    → All Q vs
    → All (λ v. P v × Q v) vs
All-and P Q [] h k = tt
All-and P Q (v ∷ vs) h k = ((h.0, k.0), All-and P Q vs h.1 k.1)
