-- ===== src/Clashapi/Traffic/Laws.antt =====
-- clashapi/traffic.go: what the differences that the dashboards get add up to.
use ssh_worker.Prelude.{
  ℕ, zero, suc, ◌<◌, some, List, [], ◌∷◌, ◌++◌, get_elem?, All, ◌≡◌, refl, ap, subst, arith,
}
use ssh_worker.Clashapi.Connections.{int64_add}
use ssh_worker.Clashapi.Traffic.{Counter, remove_at, Step, adds, loads, swaps, Reach, here, next}

-- The sum of amounts, modulo 2^64.
abbrev pub sum_of : List ℕ → ℕ
sum_of [] = 0
sum_of (n ∷ ns) = int64_add (sum_of ns) n

-- The sum of the traffic up to some moment.
abbrev pub IsPast : List ℕ → ℕ → Type 0
IsPast traffic v = (newer older : List ℕ) × (traffic ≡ newer ++ older) × (v ≡ sum_of older)

pub record IsAccounted (c : Counter) : Type 0 where
  pub total : c.total ≡ sum_of c.traffic
  pub given : c.given ≡ c.last
  pub last : IsPast c.traffic c.last
  pub loaded : All (IsPast c.traffic) c.loaded

sum_of-fits : (ns : List ℕ) → sum_of ns < 18446744073709551616
sum_of-fits [] = omega arith
sum_of-fits (n ∷ ns) = omega arith

past-fits : (traffic : List ℕ) (v : ℕ) → IsPast traffic v → v < 18446744073709551616
past-fits traffic v (newer, older, e, s) = omega (arith, s, sum_of-fits older)

more-IsPast : (n : ℕ) (traffic : List ℕ) (v : ℕ) → IsPast traffic v → IsPast (n ∷ traffic) v
more-IsPast n traffic v (newer, older, e, s) = (n ∷ newer, older, ap (λ l. n ∷ l) e, s)

All-more : (n : ℕ) (traffic vs : List ℕ) → All (IsPast traffic) vs → All (IsPast (n ∷ traffic)) vs
All-more n traffic [] a = tt
All-more n traffic (v ∷ vs) a = (more-IsPast n traffic v a.0, All-more n traffic vs a.1)

All-remove_at : (P : ℕ → Type 0) (i : ℕ) (vs : List ℕ) → All P vs → All P (remove_at i vs)
All-remove_at P i [] a = tt
All-remove_at P zero (v ∷ vs) a = a.1
All-remove_at P (suc i) (v ∷ vs) a = (a.0, All-remove_at P i vs a.1)

All-get : (P : ℕ → Type 0) (i v : ℕ) (vs : List ℕ) → All P vs → get_elem? vs i ≡ some v → P v
All-get P i v [] a e = absurd (ground arith)
All-get P zero v (w ∷ vs) a e = subst P (cc) a.0
All-get P (suc i) v (w ∷ vs) a e = All-get P i v vs a.1 e

Step-IsAccounted : {c d : Counter} → Step c d → IsAccounted c → IsAccounted d
Step-IsAccounted (adds c n) t = record {
  total = ap (λ v. int64_add v n) t.total;
  given = t.given;
  last = more-IsPast n c.traffic c.last t.last;
  loaded = All-more n c.traffic c.loaded t.loaded;
}
Step-IsAccounted (loads c) t = record {
  total = t.total;
  given = t.given;
  last = t.last;
  loaded = (([], c.traffic, refl, t.total), t.loaded);
}
Step-IsAccounted (swaps c i v e) t =
    let past = All-get (IsPast c.traffic) i v c.loaded t.loaded e in
    record {
      total = t.total;
      given = omega (arith, t.given, past-fits c.traffic c.last t.last, past-fits c.traffic v past);
      last = past;
      loaded = All-remove_at (IsPast c.traffic) i c.loaded t.loaded;
    }

-- However many dashboards read a counter and however their loads and swaps are interleaved with the
-- traffic: the counter is the sum of all the traffic, and the differences that the dashboards get
-- are, all together, the sum of the traffic up to some moment, modulo 2^64. So is every value that
-- a dashboard has loaded and not swapped yet.
pub Reach-IsAccounted : {c d : Counter} → IsAccounted c → Reach c d → IsAccounted d
Reach-IsAccounted t here = t
Reach-IsAccounted t (next r s) = Step-IsAccounted s (Reach-IsAccounted t r)
