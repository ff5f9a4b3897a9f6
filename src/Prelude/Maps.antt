-- ===== src/Prelude/Maps.antt =====
-- A map of Go with texts as keys: its entries, each key once. The order of the list means nothing.
use ssh_worker.Prelude.Tests.{if◌then◌else◌, Bool-cases}
use ssh_worker.Prelude.Strings.{Text, text_eq, text_eq_sound}
use mathlib.Core.Path.{◌≡◌, refl, ap, ◌∙◌}
use mathlib.Core.Logic.{inl, inr}
use mathlib.Core.Bool.{false}
use mathlib.Core.Option.{Option, none, some}
use mathlib.Core.List.{List, [], ◌∷◌, map}
use native.Mathlib.Omega.{arith}

module _ {A : Type 0} where
  abbrev pub lookup : Text → List (Text × A) → Option A
  lookup k [] = none
  lookup k ((n, a) ∷ m) = let rest = lookup k m in if text_eq n k then some a else rest

  abbrev pub delete : Text → List (Text × A) → List (Text × A)
  delete k [] = []
  delete k ((n, a) ∷ m) = let rest = delete k m in if text_eq n k then rest else (n, a) ∷ rest

  abbrev pub put : Text → A → List (Text × A) → List (Text × A)
  put k a m = (k, a) ∷ delete k m

  -- What a key holds is changed in place.
  abbrev pub modify : Text → (A → A) → List (Text × A) → List (Text × A)
  modify k f [] = []
  modify k f ((n, a) ∷ m) =
      let rest = modify k f m in if text_eq n k then (n, f a) ∷ m else (n, a) ∷ rest

  abbrev pub keys : List (Text × A) → List Text
  keys m = map (λ (p : Text × A). p.0) m

  abbrev pub IsUnique : List (Text × A) → Type 0
  IsUnique [] = Unit
  IsUnique ((n, a) ∷ m) = (lookup n m ≡ none) × IsUnique m

  pub lookup-delete : (k : Text) (m : List (Text × A)) → lookup k (delete k m) ≡ none
  lookup-delete k [] = refl
  lookup-delete k ((n, a) ∷ m) = elim (Bool-cases (text_eq n k)) [
    | inl h ↦ rw h (lookup-delete k m)
    | inr h ↦ rw (h, h) (lookup-delete k m)
  ]

  pub lookup-delete_ne :
      (j k : Text) (m : List (Text × A)) → text_eq k j ≡ false → lookup j (delete k m) ≡ lookup j m
  lookup-delete_ne j k [] h = refl
  lookup-delete_ne j k ((n, a) ∷ m) h = elim (Bool-cases (text_eq n k)) [
    | inl e ↦
        let other : text_eq n j ≡ false = rw (text_eq_sound n k e) h in
        rw (e, other) (lookup-delete_ne j k m h)
    | inr e ↦ rw (e, lookup-delete_ne j k m h) refl
  ]

  pub lookup-put :
      (j k : Text) (a : A) (m : List (Text × A))
      → lookup j (put k a m) ≡ (if text_eq k j then some a else lookup j m)
  lookup-put j k a m = elim (Bool-cases (text_eq k j)) [
    | inl h ↦ rw h refl
    | inr h ↦ rw h (lookup-delete_ne j k m h)
  ]

  pub delete-absent : (k : Text) (m : List (Text × A)) → lookup k m ≡ none → delete k m ≡ m
  delete-absent k [] h = refl
  delete-absent k ((n, a) ∷ m) h = elim (Bool-cases (text_eq n k)) [
    | inl e ↦ absurd (ground (arith, e, h))
    | inr e ↦
        let rest : lookup k m ≡ none = ground (arith, e, h) in
        rw e (ap (λ x. (n, a) ∷ x) (delete-absent k m rest))
  ]

  delete-lookup-none :
      (j k : Text) (m : List (Text × A)) → lookup j m ≡ none → lookup j (delete k m) ≡ none
  delete-lookup-none j k m h = elim (Bool-cases (text_eq k j)) [
    | inl e ↦ rw (text_eq_sound k j e) (lookup-delete j m)
    | inr e ↦ lookup-delete_ne j k m e ∙ h
  ]

  pub delete-IsUnique : (k : Text) (m : List (Text × A)) → IsUnique m → IsUnique (delete k m)
  delete-IsUnique k [] u = tt
  delete-IsUnique k ((n, a) ∷ m) u = elim (Bool-cases (text_eq n k)) [
    | inl e ↦ rw e (delete-IsUnique k m u.1)
    | inr e ↦ rw e (delete-lookup-none n k m u.0, delete-IsUnique k m u.1)
  ]

  pub put-IsUnique : (k : Text) (a : A) (m : List (Text × A)) → IsUnique m → IsUnique (put k a m)
  put-IsUnique k a m u = (lookup-delete k m, delete-IsUnique k m u)

  pub keys-modify : (k : Text) (f : A → A) (m : List (Text × A)) → keys (modify k f m) ≡ keys m
  keys-modify k f [] = refl
  keys-modify k f ((n, a) ∷ m) = elim (Bool-cases (text_eq n k)) [
    | inl e ↦ rw e refl
    | inr e ↦ rw e (ap (λ x. n ∷ x) (keys-modify k f m))
  ]

  pub lookup-modify-none :
      (j k : Text) (f : A → A) (m : List (Text × A))
      → lookup j m ≡ none
      → lookup j (modify k f m) ≡ none
  lookup-modify-none j k f [] h = refl
  lookup-modify-none j k f ((n, a) ∷ m) h = elim (Bool-cases (text_eq n j)) [
    | inl e ↦ absurd (ground (arith, e, h))
    | inr e ↦
        let rest : lookup j m ≡ none = ground (arith, e, h) in
        elim (Bool-cases (text_eq n k)) [
          | inl e' ↦ rw (e', e) rest
          | inr e' ↦ rw (e', e) (lookup-modify-none j k f m rest)
        ]
  ]

  pub modify-IsUnique :
      (k : Text) (f : A → A) (m : List (Text × A)) → IsUnique m → IsUnique (modify k f m)
  modify-IsUnique k f [] u = tt
  modify-IsUnique k f ((n, a) ∷ m) u = elim (Bool-cases (text_eq n k)) [
    | inl e ↦ rw e u
    | inr e ↦ rw e (lookup-modify-none n k f m u.0, modify-IsUnique k f m u.1)
  ]
