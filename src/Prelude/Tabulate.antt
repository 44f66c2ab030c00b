-- ===== src/Prelude/Tabulate.antt =====
-- The list of a function's values, by which a buffer's contents are read off a memory.
use Prim.Native.Nat.{ℕ, zero, suc, ◌+◌, ◌<◌}
use mathlib.Core.Path.{◌≡◌, refl, ap₂, ap, ◌∙◌}
use mathlib.Core.List.{List, [], ◌∷◌, ◌++◌}
use native.Mathlib.Omega.{arith}
use nuvix.Prelude.Lists.{length}

module _ {ℓ} {A : Type ℓ} where
  abbrev pub tabulate : ℕ → (ℕ → A) → List A
  tabulate zero f = []
  tabulate (suc n) f = f 0 ∷ tabulate n (λ i. f (suc i))

  pub length-tabulate : (n : ℕ) (f : ℕ → A) → length (tabulate n f) ≡ n
  length-tabulate zero f = refl
  length-tabulate (suc n) f = ap suc (length-tabulate n (λ i. f (suc i)))

  pub tabulate_ext :
      (n : ℕ) (f g : ℕ → A) → ((i : ℕ) → i < n → f i ≡ g i) → tabulate n f ≡ tabulate n g
  tabulate_ext zero f g h = refl
  tabulate_ext (suc n) f g h =
      ap₂ ◌∷◌ (h 0 (omega arith)) (tabulate_ext n _ _ (λ i lt. h (suc i) (omega arith)))

  pub tabulate-add :
      (n k : ℕ) (f : ℕ → A) → tabulate (n + k) f ≡ tabulate n f ++ tabulate k (λ i. f (n + i))
  tabulate-add zero k f =
      let e : 0 + k ≡ k = omega arith in rw e (tabulate_ext k _ _ (λ i _. ap f (omega arith)))
  tabulate-add (suc n) k f =
      let e : suc n + k ≡ suc (n + k) = omega arith in
      rw e (
        ap (λ l. f 0 ∷ l)
          (tabulate-add n k (λ i. f (suc i))
            ∙ ap (λ l. tabulate n (λ i. f (suc i)) ++ l)
                (tabulate_ext k _ _ (λ i _. ap f (omega arith)))))
