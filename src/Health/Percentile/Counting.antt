-- ===== src/Health/Percentile/Counting.antt =====
-- health/tracker.go, percentile: counting in lists, and the range of the index.
use ssh_worker.Prelude.{
  ℕ, zero, suc, ◌+◌, ◌*◌, ◌≤◌, ◌<◌, if◌then◌else◌, Bool, List, [], ◌∷◌, ◌++◌, reverse, length,
  get_or, ◌≡◌, refl, arith, All, All-append, length-append,
}
use mathlib.Core.List.{reverse-cons}
use ssh_worker.Health.Percentile.{rank, pick_index}

-- How many elements pass a test.
unfoldable pub count_if : {A : Type 0} → (A → Bool) → List A → ℕ
count_if f [] = 0
count_if f (x ∷ xs) = (if f x then 1 else 0) + count_if f xs

pub count_if-append :
    {A : Type 0} (f : A → Bool) (xs ys : List A)
    → count_if f (xs ++ ys) ≡ count_if f xs + count_if f ys
unfolding count_if
count_if-append f [] ys = omega arith
count_if-append f (x ∷ xs) ys = omega (arith, count_if-append f xs ys)

pub count_if-reverse :
    {A : Type 0} (f : A → Bool) (xs : List A) → count_if f (reverse xs) ≡ count_if f xs
unfolding count_if
count_if-reverse f [] = refl
count_if-reverse f (x ∷ xs) =
    rw reverse-cons (omega (arith, count_if-append f (reverse xs) (x ∷ []), count_if-reverse f xs))

pub length-reverse : {A : Type 0} (xs : List A) → length (reverse xs) ≡ length xs
length-reverse [] = refl
length-reverse (x ∷ xs) =
    rw reverse-cons (omega (arith, length-append {0} (reverse xs) (x ∷ []), length-reverse xs))

pub All-reverse : {A : Type 0} (P : A → Type 0) (xs : List A) → All P xs → All P (reverse xs)
All-reverse P [] h = tt
All-reverse P (x ∷ xs) h =
    rw reverse-cons (All-append P (reverse xs) (x ∷ []) (All-reverse P xs h.1) (h.0, tt))

pub scaled : (p n : ℕ) → p ≤ 100 → p * n ≤ 100 * n
scaled p n h = grind arith

pub product_pos : (p n : ℕ) → 0 < p → 0 < n → 0 < p * n
product_pos p n h k = grind arith

pub All-get_elem :
    {A : Type 0} (P : A → Type 0) (xs : List A) (i : ℕ) (d : A)
    → All P xs
    → i < length xs
    → P (get_or xs i d)
All-get_elem P [] i d h k = elim k [ ]
All-get_elem P (x ∷ xs) zero d h k = h.0
All-get_elem P (x ∷ xs) (suc i) d h k = All-get_elem P xs i d h.1 (omega arith)

pub rank_bounds :
    (n : ℕ)
    → 0 < n
    → (pick_index n < n) × (95 * n ≤ 100 * suc (pick_index n)) × (100 * pick_index n < 95 * n)
unfolding pick_index rank
rank_bounds n m = ground arith
