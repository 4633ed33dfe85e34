-- ===== src/Median.antt =====
-- protobuf/kth.h, protobuf/sorter.cc and protobuf/collector.cc: the median of numbers that several
-- sorters hold. An `int64_t` among those numbers is its distance from INT64_MIN, which keeps the order
-- and wraps as it does; sizes and counts are naturals. A failed `assert`, an overflow of a count and a
-- read of an empty vector are `none`. The answers of all sorters have come when a call returns.
pub mod Latch
pub mod Count
pub mod Kth
pub mod Sorter
pub mod Collector
mod Tests
use muduo_net_zxl.Prelude.{
  ℕ, zero, suc, ◌+◌, ◌-◌, ◌*◌, ◌/◌, ◌%◌, ◌^◌, Bool, true, false, not, ◌&&◌, ◌||◌, Option, none,
  some, List, [], ◌∷◌, ◌++◌, map, ◌==◌, ltb, leb, if◌then◌else◌, length, ◌>>=◌, assert,
}

abbrev pub int64_mod : ℕ
int64_mod = 2 ^ 64

-- `min + static_cast<uint64_t>(max - min) / 2`.
abbrev pub middle : ℕ → ℕ → ℕ
middle min_ max_ = (min_ + (max_ + int64_mod - min_) % int64_mod / 2) % int64_mod

abbrev pub Searcher : Type 0
Searcher = ℕ → Option (ℕ × ℕ)

-- The next round, on a new range.
abbrev pub go_on : (ℕ → ℕ → ℕ → Option (ℕ × Bool)) → ℕ → ℕ → Option (ℕ × Bool)
go_on round lo hi =
    let guess = middle lo hi in if leb lo guess && leb guess hi then round guess lo hi else none

-- One round of the loop, when the number of steps allows it.
unfoldable pub step : (ℕ → ℕ → ℕ → Option (ℕ × Bool)) → ℕ → ℕ → ℕ → ℕ → ℕ × ℕ → Option (ℕ × Bool)
step round k guess lo hi (smaller, same) =
    if ltb (smaller + same) (2 ^ 63)
    then (if ltb smaller k && leb k (smaller + same)
        then some (guess, true)
        else (if ltb (smaller + same) k
            then go_on round ((guess + 1) % int64_mod) hi
            else (if leb k smaller then go_on round lo guess else some (guess, false))))
    else none

-- The loop, with the number of steps that are left of the 100.
unfoldable pub rounds : ℕ → Searcher → ℕ → ℕ → ℕ → ℕ → Option (ℕ × Bool)
rounds zero search k guess lo hi =
    if leb lo hi then (do r ← search guess; some (guess, false)) else some (guess, false)
rounds (suc left) search k guess lo hi =
    let round = λ (g l h : ℕ). rounds left search k g l h in
    if leb lo hi then (do r ← search guess; step round k guess lo hi r) else some (guess, false)

unfoldable pub get_kth : Searcher → ℕ → ℕ → ℕ → Option (ℕ × Bool)
get_kth search k lo hi = rounds 100 search k hi lo hi

-- Sorter: `std::lower_bound` and `std::upper_bound` as distances from the begin.
unfoldable pub lower_bound : List ℕ → ℕ → ℕ
lower_bound [] x = 0
lower_bound (y ∷ ys) x = let rest = lower_bound ys x in if ltb y x then suc rest else 0

unfoldable pub upper_bound : List ℕ → ℕ → ℕ
upper_bound [] x = 0
upper_bound (y ∷ ys) x = let rest = upper_bound ys x in if ltb x y then 0 else suc rest

-- `Search`: smaller and same.
unfoldable pub search : List ℕ → ℕ → ℕ × ℕ
search data_ guess = (lower_bound data_ guess, upper_bound data_ guess - lower_bound data_ guess)

pub record QueryResponse : Type 0 where
  pub count : ℕ
  pub lowest : ℕ
  pub highest : ℕ

abbrev pub back : ℕ → List ℕ → ℕ
back x [] = x
back x (y ∷ ys) = back y ys

unfoldable pub query : List ℕ → Option QueryResponse
query [] = none
query (x ∷ xs) = some (record { count = suc (length xs); lowest = x; highest = back x xs })

-- `std::sort`.
unfoldable pub sort_insert : ℕ → List ℕ → List ℕ
sort_insert x [] = x ∷ []
sort_insert x (y ∷ ys) = let rest = sort_insert x ys in if leb x y then x ∷ y ∷ ys else y ∷ rest

unfoldable pub sort : List ℕ → List ℕ
sort [] = []
sort (x ∷ xs) = sort_insert x (sort xs)

-- `doGenerate`: `random` holds the results of `nrand48`, one for each number.
unfoldable pub generated : List ℕ → ℕ → ℕ → List ℕ
generated [] lo range = []
generated (r ∷ rs) lo range = (if ltb 1 range then lo + r % range else lo) ∷ generated rs lo range

unfoldable pub do_generate : List ℕ → ℕ → ℕ → List ℕ
do_generate random lo hi = sort (generated random lo (hi - lo))

-- Collector: `QueryDone` and `SearchDone` on one answer.
unfoldable pub query_done : QueryResponse → QueryResponse → QueryResponse
query_done result reps = record {
  count = reps.count + result.count;
  lowest = if ltb 0 reps.count && ltb reps.lowest result.lowest then reps.lowest else result.lowest;
  highest =
      if ltb 0 reps.count && ltb result.highest reps.highest then reps.highest else result.highest;
}

unfoldable pub get_stats : QueryResponse → List (List ℕ) → Option QueryResponse
get_stats result [] = some result
get_stats result (d ∷ ds) = do reps ← query d; get_stats (query_done result reps) ds

unfoldable pub search_all : List (List ℕ) → ℕ → ℕ × ℕ
search_all [] guess = (0, 0)
search_all (d ∷ ds) guess =
    let one = search d guess in let rest = search_all ds guess in (one.0 + rest.0, one.1 + rest.1)

-- `run`, with what it logs as its result: no median, or what `getKth` found.
unfoldable pub run : List (List ℕ) → Option (Option (ℕ × Bool))
run sorters = do
  stats ← get_stats (record { count = 0; lowest = int64_mod - 1; highest = 0 }) sorters
  if stats.count == 0 then some none else (do
    median ←
        get_kth (λ guess. some (search_all sorters guess)) ((stats.count + 1) / 2) stats.lowest
          stats.highest
    some (some median))
