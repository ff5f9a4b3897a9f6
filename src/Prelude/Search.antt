-- ===== src/Prelude/Search.antt =====
-- Laws of `any` and `all`.
use mathlib.Core.Path.{◌≡◌, refl, sym, ◌∙◌, ap}
use mathlib.Core.Bool.{Bool, false, ◌||◌}
use mathlib.Core.List.{List, [], ◌∷◌}
use native.Mathlib.Omega.{arith}
use ssh_worker.Prelude.Lists.{any}

module _ {ℓ} {A : Type ℓ} where
  pub any-false : (xs : List A) → any (λ x. false) xs ≡ false
  any-false [] = refl
  any-false (x ∷ xs) = any-false xs

  pub any-or : (p q : A → Bool) (xs : List A) → any (λ x. p x || q x) xs ≡ (any p xs || any q xs)
  any-or p q [] = refl
  any-or p q (x ∷ xs) = ground (arith, any-or p q xs)

module _ {ℓ κ} {A : Type ℓ} {B : Type κ} where
  -- Two nested searches may be exchanged.
  pub any-swap :
      (f : A → B → Bool) (xs : List A) (ys : List B)
      → any (λ x. any (f x) ys) xs ≡ any (λ y. any (λ x. f x y) xs) ys
  any-swap f [] ys = sym (any-false ys)
  any-swap f (x ∷ xs) ys =
      ap (λ b. any (f x) ys || b) (any-swap f xs ys)
      ∙ sym (any-or (f x) (λ y. any (λ z. f z y) xs) ys)
