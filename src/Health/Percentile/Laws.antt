-- ===== src/Health/Percentile/Laws.antt =====
-- health/tracker.go, percentile: the sample picked is the quantile.
use ssh_worker.Prelude.{
  ℕ, zero, suc, ◌+◌, ◌*◌, ◌≤◌, ◌<◌, Bool, true, false, not, List, [], ◌∷◌, ◌++◌, reverse, length,
  take, get_or, ◌==◌, ◌≡◌, refl, ap, arith, All, All-append, Bool-cases, inl, inr, length-take,
}
use mathlib.Core.List.{reverse-cons}
use ssh_worker.Health.State.{Floats}
use ssh_worker.Health.Percentile.Counting.{
  count_if, count_if-reverse, length-reverse, All-reverse, All-get_elem, rank_bounds,
}
use ssh_worker.Health.Percentile.{pick_index, sift, sort_from, sort, percentile}

-- What the comparison of the samples is taken to be: no sample is a NaN.
pub record IsOrder (fl : Floats) : Type 0 where
  pub asym : (a b : fl.F) → fl.less a b ≡ true → fl.less b a ≡ false
  pub trans : (a b c : fl.F) → fl.less a b ≡ false → fl.less b c ≡ false → fl.less a c ≡ false

module _ (fl : Floats) (o : IsOrder fl) where
  open fl use {F, less}

  irrefl : (a : F) → less a a ≡ false
  irrefl a = elim (Bool-cases (less a a)) [ inl h ↦ o.asym a a h | inr h ↦ h ]

  abbrev Desc : List F → Type 0
  Desc [] = Unit
  Desc (y ∷ ys) = All (λ z. less y z ≡ false) ys × Desc ys

  abbrev Asc : List F → Type 0
  Asc [] = Unit
  Asc (x ∷ xs) = All (λ z. less z x ≡ false) xs × Asc xs

  All-sift : (P : F → Type 0) (ys : List F) (x : F) → All P ys → P x → All P (sift fl ys x)
  unfolding sift
  All-sift P [] x h p = (p, tt)
  All-sift P (y ∷ ys) x h p = elim (Bool-cases (less x y)) [
    | inl lt ↦ rw lt (h.0, All-sift P ys x h.1 p)
    | inr ge ↦ rw ge (p, h)
  ]

  below-All :
      (x y : F) (ys : List F)
      → less x y ≡ false
      → All (λ z. less y z ≡ false) ys
      → All (λ z. less x z ≡ false) ys
  below-All x y [] h k = tt
  below-All x y (z ∷ zs) h k = (o.trans x y z h k.0, below-All x y zs h k.1)

  sift-Desc : (ys : List F) (x : F) → Desc ys → Desc (sift fl ys x)
  unfolding sift
  sift-Desc [] x h = (tt, tt)
  sift-Desc (y ∷ ys) x h = elim (Bool-cases (less x y)) [
    | inl lt ↦ rw lt (All-sift (λ z. less y z ≡ false) ys x h.0 (o.asym x y lt), sift-Desc ys x h.1)
    | inr ge ↦ rw ge ((ge, below-All x y ys ge h.0), h)
  ]

  sort_from-Desc : (sorted xs : List F) → Desc sorted → Desc (sort_from fl sorted xs)
  unfolding sort_from
  sort_from-Desc sorted [] h = h
  sort_from-Desc sorted (x ∷ xs) h = sort_from-Desc (sift fl sorted x) xs (sift-Desc sorted x h)

  Asc-append : (xs : List F) (x : F) → Asc xs → All (λ z. less x z ≡ false) xs → Asc (xs ++ x ∷ [])
  Asc-append [] x h k = (tt, tt)
  Asc-append (y ∷ ys) x h k =
      (All-append (λ z. less z y ≡ false) ys (x ∷ []) h.0 (k.0, tt), Asc-append ys x h.1 k.1)

  reverse-Asc : (xs : List F) → Desc xs → Asc (reverse xs)
  reverse-Asc [] h = tt
  reverse-Asc (x ∷ xs) h =
      rw reverse-cons (
        Asc-append (reverse xs) x (reverse-Asc xs h.1) (All-reverse (λ z. less x z ≡ false) xs h.0))

  count_if-sift :
      (f : F → Bool) (ys : List F) (x : F) → count_if f (sift fl ys x) ≡ count_if f (x ∷ ys)
  unfolding sift count_if
  count_if-sift f [] x = refl
  count_if-sift f (y ∷ ys) x = elim (Bool-cases (less x y)) [
    | inl lt ↦ rw lt (omega (arith, count_if-sift f ys x))
    | inr ge ↦ rw ge refl
  ]

  count_if-sort_from :
      (f : F → Bool) (sorted xs : List F)
      → count_if f (sort_from fl sorted xs) ≡ count_if f sorted + count_if f xs
  unfolding sort_from count_if
  count_if-sort_from f sorted [] = omega arith
  count_if-sort_from f sorted (x ∷ xs) =
      omega (arith, count_if-sort_from f (sift fl sorted x) xs, count_if-sift f sorted x)

  above_get :
      (xs : List F) (i : ℕ) (d : F)
      → Asc xs
      → i < length xs
      → suc i ≤ count_if (λ x. not (less (get_or xs i d) x)) xs
  unfolding count_if
  above_get [] i d h k = elim k [ ]
  above_get (x ∷ xs) zero d h k = rw (irrefl x) (omega arith)
  above_get (x ∷ xs) (suc i) d h k =
      rw (All-get_elem (λ z. less z x ≡ false) xs i d h.0 (omega arith))
        (omega (arith, above_get xs i d h.1 (omega arith)))

  none_below :
      (x : F) (xs : List F) → All (λ z. less z x ≡ false) xs → count_if (λ z. less z x) xs ≡ 0
  unfolding count_if
  none_below x [] h = refl
  none_below x (z ∷ zs) h = rw (h.0) (omega (arith, none_below x zs h.1))

  below_get :
      (xs : List F) (i : ℕ) (d : F)
      → Asc xs
      → i < length xs
      → count_if (λ x. less x (get_or xs i d)) xs ≤ i
  unfolding count_if
  below_get [] i d h k = elim k [ ]
  below_get (x ∷ xs) zero d h k = rw (irrefl x) (omega (arith, none_below x xs h.0))
  below_get (x ∷ xs) (suc i) d h k = ground (arith, below_get xs i d h.1)

  length-sift : (ys : List F) (x : F) → length (sift fl ys x) ≡ suc (length ys)
  unfolding sift
  length-sift [] x = refl
  length-sift (y ∷ ys) x = ground (arith, length-sift ys x)

  length-sort_from :
      (sorted xs : List F) → length (sort_from fl sorted xs) ≡ length sorted + length xs
  unfolding sort_from
  length-sort_from sorted [] = omega arith
  length-sort_from sorted (x ∷ xs) =
      omega (arith, length-sort_from (sift fl sorted x) xs, length-sift sorted x)

  length-sort : (xs : List F) → length (sort fl xs) ≡ length xs
  unfolding sort
  length-sort xs = omega (arith, length-reverse (sort_from fl [] xs), length-sort_from [] xs)

  count_if-sort : (f : F → Bool) (xs : List F) → count_if f (sort fl xs) ≡ count_if f xs
  unfolding sort count_if
  count_if-sort f xs =
      omega (arith, count_if-reverse f (sort_from fl [] xs), count_if-sort_from f [] xs)

  sort-Asc : (xs : List F) → Asc (sort fl xs)
  unfolding sort
  sort-Asc xs = reverse-Asc (sort_from fl [] xs) (sort_from-Desc [] xs tt)

  picked :
      (xs : List F) (d : F)
      → 0 < length xs
      → let v = get_or (sort fl xs) (pick_index (length (sort fl xs))) d in
        (95 * length xs ≤ 100 * count_if (λ x. not (less v x)) xs)
        × (100 * count_if (λ x. less x v) xs < 95 * length xs)
  picked xs d m =
      let s = sort fl xs in
      let i = pick_index (length s) in
      let v = get_or s i d in
      let (inside, enough, few) = rank_bounds (length s) (omega (arith, length-sort xs)) in
      let n : length s ≡ length xs = length-sort xs in
      let above = above_get s i d (sort-Asc xs) inside in
      let below = below_get s i d (sort-Asc xs) inside in
      let same = ap (λ (t : ℕ). 95 * t) n in
      (
        omega (arith, same, count_if-sort (λ x. not (less v x)) xs),
        omega (arith, same, count_if-sort (λ x. less x v) xs),
      )

  percentile_pos :
      (window : List F) (count : ℕ)
      → 0 < count
      → percentile fl window count
        ≡ get_or
            (sort fl (take count window))
            (pick_index (length (sort fl (take count window))))
            fl.zero
  unfolding percentile
  percentile_pos window count h = elim (Bool-cases (count == 0)) [
    | inl z ↦ absurd (ground arith)
    | inr nz ↦ rw nz refl
  ]

  -- With at least one sample in the ring, at least 95 percent of the samples are not above the value
  -- that percentile gives for 0.95, and fewer than 95 percent are below it.
  -- The comparison is taken to be an order in which every two samples can be compared.
  pub percentile_lem :
      (window : List F) (count : ℕ)
      → 0 < count
      → count ≤ length window
      → let v = percentile fl window count in
        (95 * count ≤ 100 * count_if (λ x. not (less v x)) (take count window))
        × (100 * count_if (λ x. less x v) (take count window) < 95 * count)
  percentile_lem window count m w =
      let n : length (take count window) ≡ count = omega (arith, length-take {0} count window) in
      let (enough, few) = picked (take count window) fl.zero (omega arith) in
      let same = ap (λ (t : ℕ). 95 * t) n in
      rw (percentile_pos window count m) (omega arith, omega arith)
