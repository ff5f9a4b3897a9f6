-- ===== src/Health/Examples.antt =====
-- The health of a worker: an example of each law.
use ssh_worker.Prelude.{
  ℕ, ◌*◌, ◌≤◌, ◌<◌, ltb, not, true, false, some, List, [], ◌∷◌, take, ◌≡◌, refl, arith,
}
use ssh_worker.Prelude.Int.{pos}
use ssh_worker.Samples.{thousandths}
use ssh_worker.Health.State.{State}
use ssh_worker.Health.Percentile.{percentile}
use ssh_worker.Health.Percentile.Laws.{IsOrder, percentile_lem}
use ssh_worker.Health.Percentile.Counting.{count_if}
use ssh_worker.Health.Tracker.{
  Config, Tracker, new, millisecond, second, is_degraded, is_unhealthy, evaluate, record_sample,
  judge,
}
use ssh_worker.Health.Tracker.Window.{
  Call, sample, good_probe, bad_probe, reconnect, run, IsValid, run-IsValid,
}
use ssh_worker.Health.Tracker.Ring.{samples, Holds, run-Holds}

ltb_asym : (a b : ℕ) → ltb a b ≡ true → ltb b a ≡ false
ltb_asym a b h = ground arith

ltb_trans : (a b c : ℕ) → ltb a b ≡ false → ltb b c ≡ false → ltb a c ≡ false
ltb_trans a b c h k = ground arith

abbrev order : IsOrder thousandths
order = record { asym = ltb_asym; trans = ltb_trans }

abbrev row : List ℕ
row = 30 ∷ 10 ∷ 20 ∷ 0 ∷ []

percentile_example :
    let v = percentile thousandths row 3 in
    (95 * 3 ≤ 100 * count_if (λ x. not (ltb v x)) (take 3 row))
    × (100 * count_if (λ x. ltb x v) (take 3 row) < 95 * 3)
percentile_example = percentile_lem thousandths order row 3 (omega arith) (omega arith)

abbrev small_config : Config thousandths
small_config = record {
  degraded_rtt = pos 0;
  unhealthy_rtt = pos 0;
  degraded_err = 0;
  unhealthy_err = 0;
  window_size = pos 2;
  degraded_hold = pos 0;
  heal_hold = pos 0;
}

abbrev calls : List Call
calls =
    sample (3 * millisecond) false 1 1
    ∷ bad_probe 2 2
    ∷ reconnect
    ∷ good_probe (5 * millisecond) 3 3
    ∷ []

run-IsValid_example : IsValid thousandths (run thousandths calls (new thousandths small_config 0))
run-IsValid_example = run-IsValid thousandths small_config 0 calls

run-Holds_example :
    Holds thousandths
      (run thousandths calls (new thousandths small_config 0))
      (samples thousandths calls [])
run-Holds_example = run-Holds thousandths small_config 0 calls

-- A tracker with a sample of three seconds.
abbrev slow : Tracker thousandths
slow = record (new thousandths small_config 0) { window = 3000000 ∷ 0 ∷ []; count = 1 }

-- A degraded tracker whose samples are good again.
abbrev better : Tracker thousandths
better = record (new thousandths small_config 0) { state = State.degraded; degraded_since = some 1 }

better_mends : (evaluate thousandths (20 * second) (20 * second) better).0.state ≡ State.healthy
unfolding evaluate judge is_unhealthy new percentile is_degraded
better_mends = refl

-- A healthy tracker with one sample of a second in a ring of one cell.
abbrev lagging : Tracker thousandths
lagging = record (new thousandths (record small_config { window_size = pos 1 }) 0) {
  window = 1000000 ∷ [];
  count = 1;
}

lagging_degraded : is_degraded thousandths lagging ≡ true
unfolding is_degraded new percentile
lagging_degraded = refl

lagging_not_unhealthy : is_unhealthy thousandths lagging ≡ false
unfolding is_unhealthy new percentile
lagging_not_unhealthy = refl

recovered_not_degraded :
    is_degraded thousandths (
      record_sample thousandths 0 false
        (evaluate thousandths (10 * second) (10 * second) lagging).0)
    ≡ false
unfolding evaluate judge is_unhealthy new percentile is_degraded record_sample
recovered_not_degraded = refl

recovered_not_unhealthy :
    is_unhealthy thousandths (
      record_sample thousandths 0 false
        (evaluate thousandths (10 * second) (10 * second) lagging).0)
    ≡ false
unfolding evaluate judge is_unhealthy new percentile is_degraded record_sample
recovered_not_unhealthy = refl
