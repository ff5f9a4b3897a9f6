-- ===== src/Health/Percentile.antt =====
-- health/tracker.go, percentile: the samples are sorted by insertion and one is picked.
pub mod Counting
pub mod Laws
use ssh_worker.Prelude.{
  ℕ, zero, suc, ◌+◌, ◌-◌, ◌*◌, ◌/◌, ltb, leb, if◌then◌else◌, Bool, true, false, List, [], ◌∷◌,
  reverse, length, take, get_or, ◌==◌,
}
use ssh_worker.Health.State.{Floats}

-- `int(math.Ceil(p*float64(n))) - 1`, and not below 0, at 0.95, the only p that the code gives. The
-- float64 of 0.95 lies below it by less than 10^-16: where 95 * n is a multiple of 100 the product is
-- rounded to that whole number or below it, and elsewhere no whole number lies between, so that Ceil
-- gives the exact one, for the number of samples of any window.
unfoldable pub rank : ℕ → ℕ
rank n = (95 * n + 99) / 100 - 1

unfoldable pub pick_index : ℕ → ℕ
unfolding rank
pick_index n = if leb n (rank n) then n - 1 else rank n

module _ (fl : Floats) where
  open fl use {F}

  -- The inner loop at one `i`: the new sample moves left past the greater ones. The first argument
  -- is the sorted part, its end first.
  unfoldable pub sift : List F → F → List F
  sift [] x = x ∷ []
  sift (y ∷ ys) x = let further = y ∷ sift ys x in if fl.less x y then further else x ∷ y ∷ ys

  unfoldable pub sort_from : List F → List F → List F
  unfolding sift
  sort_from sorted [] = sorted
  sort_from sorted (x ∷ xs) = sort_from (sift sorted x) xs

  unfoldable pub sort : List F → List F
  unfolding sort_from
  sort xs = reverse (sort_from [] xs)

  unfoldable pub percentile : List F → ℕ → F
  unfolding sort pick_index
  percentile window count =
      if count == 0
      then fl.zero
      else (let tmp = sort (take count window) in get_or tmp (pick_index (length tmp)) fl.zero)
