-- ===== src/Median/Collector.antt =====
-- The collector: the statistics of all sorters, and the median of all their numbers.
use muduo_net_zxl.Prelude.{
  ℕ, suc, ◌+◌, ◌-◌, ◌/◌, ◌^◌, ◌≤◌, ◌<◌, ◌≡◌, refl, ap, ◌∙◌, true, false, none, some, List, [], ◌∷◌,
  ◌++◌, ◌==◌, ltb, length, arith, ◌>>=◌, append_assoc, length-append, append-nil,
}
use muduo_net_zxl.Median.{
  int64_mod, QueryResponse, back, query, query_done, get_stats, search_all, get_kth, run,
}
use muduo_net_zxl.Median.Count.{smaller, same, Within, Kth, smaller-append, same-append}
use muduo_net_zxl.Median.Kth.{get_kth-Kth}
use muduo_net_zxl.Median.Sorter.{Ascending, search-count, query-Within, widen}

unfoldable pub all : List (List ℕ) → List ℕ
all [] = []
all (d ∷ ds) = d ++ all ds

-- What the sorters hold: each some sorted numbers.
abbrev pub Sorters : List (List ℕ) → Type 0
Sorters [] = Unit {0}
Sorters (d ∷ ds) = Ascending d × (1 ≤ length d) × Within 0 (int64_mod - 1) d × Sorters ds

search_all-count :
    (ds : List (List ℕ)) (g : ℕ)
    → Sorters ds
    → search_all ds g ≡ (smaller (all ds) g, same (all ds) g)
unfolding search_all all smaller same
search_all-count [] g s = refl
search_all-count (d ∷ ds) g (a, l, w, s) =
    rw (search-count d g a, search_all-count ds g s)
      (rw (smaller-append d (all ds) g, same-append d (all ds) g) refl)

raise : (lo hi hi' : ℕ) (d : List ℕ) → hi ≤ hi' → Within lo hi d → Within lo hi' d
raise lo hi hi' [] h w = w
raise lo hi hi' (y ∷ d) h (a, b, w) = (a, omega (arith, b, h), raise lo hi hi' d h w)

Within-append : (lo hi : ℕ) (d e : List ℕ) → Within lo hi d → Within lo hi e → Within lo hi (d ++ e)
Within-append lo hi [] e w v = v
Within-append lo hi (y ∷ d) e (a, b, w) v = (a, b, Within-append lo hi d e w v)

-- Statistics that are right for some numbers.
record Covers (r : QueryResponse) (d : List ℕ) : Type 0 where
  counted : r.count ≡ length d
  bounds : Within r.lowest r.highest d
  in_range : r.highest < int64_mod
  ordered : 1 ≤ length d → r.lowest ≤ r.highest

query_done-Covers :
    (r q : QueryResponse) (d e : List ℕ)
    → Covers r d
    → q.count ≡ length e
    → 1 ≤ length e
    → Within q.lowest q.highest e
    → q.lowest ≤ q.highest
    → q.highest < int64_mod
    → Covers (query_done r q) (d ++ e)
unfolding query_done
query_done-Covers r q d e c n l w o h =
    let s = query_done r q in
    let p : ltb 0 q.count ≡ true = ground (arith, n, l) in
    let a1 : s.lowest ≤ r.lowest = ground (arith, p) in
    let a2 : s.lowest ≤ q.lowest = ground (arith, p) in
    let b1 : r.highest ≤ s.highest = ground (arith, p) in
    let b2 : q.highest ≤ s.highest = ground (arith, p) in
    record {
      counted = omega (arith, n, c.counted, length-append d e);
      bounds =
          Within-append s.lowest s.highest d e
            (widen r.lowest s.lowest s.highest d a1
              (raise r.lowest r.highest s.highest d b1 c.bounds))
            (widen q.lowest s.lowest s.highest e a2 (raise q.lowest q.highest s.highest e b2 w));
      in_range = ground (arith, c.in_range, h);
      ordered = λ k. omega (arith, a2, b2, o);
    }

get_stats-Covers :
    (r : QueryResponse) (d : List ℕ) (ds : List (List ℕ))
    → Covers r d
    → Sorters ds
    → (s : QueryResponse) × (get_stats r ds ≡ some s) × Covers s (d ++ all ds)
unfolding get_stats all
get_stats-Covers r d [] c s = (r, refl, rw (append-nil d) c)
get_stats-Covers r d ([] ∷ ds) c (a, l, w, s) = absurd (omega (arith, l))
get_stats-Covers r d ((x ∷ e) ∷ ds) c (a, l, w, s) =
    let (q, f, n, v, o, m) = query-Within x e a in
    let (t, g, z) =
      get_stats-Covers (query_done r q) (d ++ (x ∷ e)) ds
        (query_done-Covers r q d (x ∷ e) c n l v o (omega (arith, m (int64_mod - 1) w))) s in
    (t, rw (f, ◌>>=◌) g, rw (append_assoc d (x ∷ e) (all ds)) at z)

run_lem :
    (ds : List (List ℕ)) (r : QueryResponse) (n x : ℕ)
    → get_stats (record { count = 0; lowest = int64_mod - 1; highest = 0 }) ds ≡ some r
    → r.count ≡ n
    → (r.count == 0) ≡ false
    → get_kth (λ g. some (search_all ds g)) ((n + 1) / 2) r.lowest r.highest ≡ some (x, true)
    → run ds ≡ some (some (x, true))
unfolding run
run_lem ds r n x e m z f =
    let g : get_kth (λ g. some (search_all ds g)) ((r.count + 1) / 2) r.lowest r.highest
        ≡ some (x, true) =
      ap (λ c. get_kth (λ g. some (search_all ds g)) ((c + 1) / 2) r.lowest r.highest) m ∙ f in
    rw (e, ◌>>=◌) (rw z (rw (g, ◌>>=◌) refl))

-- With at least one sorter, at least one number in each of them, sorted there, and fewer than 2 ^ 63
-- numbers together, the collector's run logs a median: a number of the middle rank, (count + 1) / 2,
-- among all numbers of all sorters.
pub run-Kth :
    (sorters : List (List ℕ))
    → Sorters sorters
    → 1 ≤ length (all sorters)
    → length (all sorters) < 2 ^ 63
    → (x : ℕ) × (run sorters ≡ some (some (x, true)))
      × Kth ((length (all sorters) + 1) / 2) (all sorters) x
unfolding run
run-Kth ds s some_ few =
    let (r, e, c) =
      get_stats-Covers (record { count = 0; lowest = int64_mod - 1; highest = 0 }) [] ds
        (record {
          counted = refl;
          bounds = tt;
          in_range = omega arith;
          ordered = λ h. absurd (omega (arith, h));
        })
        s in
    let n = c.counted in
    let (x, f, k) =
      get_kth-Kth (all ds) (λ g. some (search_all ds g)) (λ g. ap some (search_all-count ds g s))
        few ((length (all ds) + 1) / 2) r.lowest r.highest (omega (arith, some_))
        (omega (arith, some_)) (c.ordered some_) c.in_range c.bounds in
    let z : (r.count == 0) ≡ false = ground (arith, n, some_) in
    (x, run_lem ds r (length (all ds)) x e n z f, k)

get_stats_empty_sorter :
    (before after : List (List ℕ)) (r : QueryResponse) → get_stats r (before ++ [] ∷ after) ≡ none
unfolding get_stats query
get_stats_empty_sorter [] after r = refl
get_stats_empty_sorter ([] ∷ before) after r = refl
get_stats_empty_sorter ((x ∷ d) ∷ before) after r =
    get_stats_empty_sorter before after
      (query_done r (record { count = suc (length d); lowest = x; highest = back x d }))

-- A sorter without numbers reads past its vector when it is queried, and no run gets behind that.
run_empty_sorter : (before after : List (List ℕ)) → run (before ++ [] ∷ after) ≡ none
unfolding run
run_empty_sorter before after =
    rw
      (
        get_stats_empty_sorter before after
            (record { count = 0; lowest = int64_mod - 1; highest = 0 }),
        ◌>>=◌,
      )
      refl
