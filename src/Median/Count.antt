-- ===== src/Median/Count.antt =====
-- How many numbers of a list are smaller than a number, and how many are the same.
use muduo_net_zxl.Prelude.{
  ℕ, ◌+◌, ◌≤◌, ◌<◌, ◌≡◌, refl, List, [], ◌∷◌, ◌++◌, ◌==◌, ltb, if◌then◌else◌, length, arith,
}

unfoldable pub smaller : List ℕ → ℕ → ℕ
smaller [] x = 0
smaller (y ∷ ys) x = (if ltb y x then 1 else 0) + smaller ys x

unfoldable pub same : List ℕ → ℕ → ℕ
same [] x = 0
same (y ∷ ys) x = (if y == x then 1 else 0) + same ys x

abbrev pub Within : ℕ → ℕ → List ℕ → Type 0
Within lo hi [] = Unit {0}
Within lo hi (y ∷ ys) = (lo ≤ y) × (y ≤ hi) × Within lo hi ys

-- The number `x` is the `k`-th smallest of the list.
pub record Kth (k : ℕ) (data_ : List ℕ) (x : ℕ) : Type 0 where
  pub few : smaller data_ x < k
  pub enough : k ≤ smaller data_ x + same data_ x

pub smaller_next : (d : List ℕ) (x : ℕ) → smaller d (x + 1) ≡ smaller d x + same d x
unfolding smaller same
smaller_next [] x = omega arith
smaller_next (y ∷ d) x = ground (arith, smaller_next d x)

pub smaller_least : (d : List ℕ) (lo hi : ℕ) → Within lo hi d → smaller d lo ≡ 0
unfolding smaller
smaller_least [] lo hi w = refl
smaller_least (y ∷ d) lo hi (a, b, w) = ground (arith, a, smaller_least d lo hi w)

pub smaller_greatest :
    (d : List ℕ) (lo hi : ℕ) → Within lo hi d → smaller d hi + same d hi ≡ length d
unfolding smaller same
smaller_greatest [] lo hi w = omega arith
smaller_greatest (y ∷ d) lo hi (a, b, w) = ground (arith, b, smaller_greatest d lo hi w)

pub bounded : (d : List ℕ) (x : ℕ) → smaller d x + same d x ≤ length d
unfolding smaller same
bounded [] x = omega arith
bounded (y ∷ d) x = ground (arith, bounded d x)

pub smaller-append : (d e : List ℕ) (x : ℕ) → smaller (d ++ e) x ≡ smaller d x + smaller e x
unfolding smaller
smaller-append [] e x = omega arith
smaller-append (y ∷ d) e x = omega (arith, smaller-append d e x)

pub same-append : (d e : List ℕ) (x : ℕ) → same (d ++ e) x ≡ same d x + same e x
unfolding same
same-append [] e x = omega arith
same-append (y ∷ d) e x = omega (arith, same-append d e x)
