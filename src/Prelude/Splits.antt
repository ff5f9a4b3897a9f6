-- ===== src/Prelude/Splits.antt =====
-- Splitting and joining texts, and suffixes behind a separator.
use Prim.Native.Nat.{ℕ}
use mathlib.Core.Path.{◌≡◌, refl, ◌∙◌, ap}
use mathlib.Core.Logic.{inl, inr}
use mathlib.Core.List.{List, [], ◌∷◌}
use native.Mathlib.Omega.{arith}
use ssh_worker.Prelude.Tests.{◌==◌, ==_iff, if◌then◌else◌, Bool-cases}
use ssh_worker.Prelude.Lists.{any}
use ssh_worker.Prelude.Strings.{Text, split, join, text_eq, ends_with}

pub split_cons : (s : Text) (sep : ℕ) → (p : Text) × (ps : List Text) × (split s sep ≡ p ∷ ps)
unfolding split
split_cons [] sep = ([], [], refl)
split_cons (x ∷ xs) sep =
    let (p, ps, e) = split_cons xs sep in
    elim (Bool-cases (x == sep)) [
      | inl here ↦ ([], split xs sep, rw here refl)
      | inr other ↦ (x ∷ p, ps, rw (other, e) refl)
    ]

join-cons_head :
    (x : ℕ) (p : Text) (ps : List Text) (sep : ℕ) → join ((x ∷ p) ∷ ps) sep ≡ x ∷ join (p ∷ ps) sep
unfolding join
join-cons_head x p [] sep = refl
join-cons_head x p (q ∷ ps) sep = refl

-- Joining what a split gives, with the same separator, gives the text back.
pub join-split : (s : Text) (sep : ℕ) → join (split s sep) sep ≡ s
unfolding split join
join-split [] sep = refl
join-split (x ∷ xs) sep =
    let (p, ps, e) = split_cons xs sep in
    let ih : join (p ∷ ps) sep ≡ xs = rw e at (join-split xs sep) in
    elim (Bool-cases (x == sep)) [
      | inl here ↦ rw (here, e, ih, (==_iff x sep).0 here) refl
      | inr other ↦ rw (other, e) (join-cons_head x p ps sep ∙ ap (λ t. x ∷ t) ih)
    ]

-- What follows each separator of a text.
unfoldable pub after : ℕ → Text → List Text
after sep [] = []
after sep (x ∷ xs) = let rest = after sep xs in if x == sep then xs ∷ rest else rest

pub ends_with-after :
    (sep : ℕ) (s t : Text) → ends_with s (sep ∷ t) ≡ any (λ u. text_eq u t) (after sep s)
unfolding ends_with text_eq after
ends_with-after sep [] t = refl
ends_with-after sep (x ∷ xs) t = ground (arith, ends_with-after sep xs t)
