-- ===== src/Median/Tests.antt =====
-- Two sorters, and the latch when the first of them is connected.
use muduo_net_zxl.Prelude.{
  ℕ, ◌+◌, ◌/◌, ◌≡◌, refl, true, none, some, List, [], ◌∷◌, length, false, arith,
}
use muduo_net_zxl.Median.{Searcher, get_kth, run}
use muduo_net_zxl.Median.Count.{smaller, same, Kth}
use muduo_net_zxl.Median.Kth.{get_kth-Kth}
use muduo_net_zxl.Median.Collector.{all, run-Kth}
use muduo_net_zxl.Median.Latch.{Connecting}

abbrev five : List ℕ
five = 2 ∷ 3 ∷ 3 ∷ 7 ∷ 9 ∷ []

abbrev five_searcher : Searcher
five_searcher x = some (smaller five x, same five x)

get_kth-Kth_example : (x : ℕ) × (get_kth five_searcher 3 0 20 ≡ some (x, true)) × Kth 3 five x
get_kth-Kth_example =
    get_kth-Kth five five_searcher (λ x. refl) (omega arith) 3 0 20 (omega arith) (omega arith)
      (omega arith) (omega arith)
      (
        omega arith,
        omega arith,
        (
          omega arith,
          omega arith,
          (omega arith, omega arith, (omega arith, omega arith, (omega arith, omega arith, tt))),
        ),
      )

abbrev two_sorters : List (List ℕ)
two_sorters = (4 ∷ 6 ∷ []) ∷ (1 ∷ []) ∷ []

run-Kth_example :
    (x : ℕ) × (run two_sorters ≡ some (some (x, true)))
    × Kth ((length (all two_sorters) + 1) / 2) (all two_sorters) x
unfolding all
run-Kth_example =
    run-Kth two_sorters
      (
        ((omega arith, tt), (tt, tt)),
        omega arith,
        (omega arith, omega arith, (omega arith, omega arith, tt)),
        ((tt, tt), omega arith, (omega arith, omega arith, tt), tt),
      )
      (omega arith) (omega arith)

abbrev one_connected : Connecting
one_connected = record {
  sorters =
      record { has_latch = false; started = true; connection = some 7 }
      ∷ record { has_latch = true; started = true; connection = none }
      ∷ [];
  count = 1;
}
