-- ===== src/Median/Sorter.antt =====
-- `Search` on sorted data, and what `doGenerate` makes.
use muduo_net_zxl.Prelude.{
  ℕ, suc, ◌+◌, ◌-◌, ◌%◌, ◌≤◌, ◌<◌, ◌≡◌, refl, ap, ◌∙◌, some, List, [], ◌∷◌, ltb, leb, if◌then◌else◌,
  length, arith, Bool-cases, inl, inr,
}
use muduo_net_zxl.Median.{
  lower_bound, upper_bound, search, QueryResponse, back, query, sort_insert, sort, generated,
  do_generate,
}
use muduo_net_zxl.Median.Count.{smaller, same, Within}

abbrev pub From : ℕ → List ℕ → Type 0
From x [] = Unit {0}
From x (y ∷ ys) = (x ≤ y) × From x ys

abbrev pub Ascending : List ℕ → Type 0
Ascending [] = Unit {0}
Ascending (x ∷ xs) = From x xs × Ascending xs

none_smaller : (x g : ℕ) (d : List ℕ) → From x d → g ≤ x → smaller d g ≡ 0
unfolding smaller
none_smaller x g [] f h = refl
none_smaller x g (y ∷ d) (l, f) h = ground (arith, l, h, none_smaller x g d f h)

none_same : (x g : ℕ) (d : List ℕ) → From x d → g < x → same d g ≡ 0
unfolding same
none_same x g [] f h = refl
none_same x g (y ∷ d) (l, f) h = ground (arith, l, h, none_same x g d f h)

lower_bound_lem : (d : List ℕ) (g : ℕ) → Ascending d → lower_bound d g ≡ smaller d g
unfolding lower_bound smaller
lower_bound_lem [] g a = refl
lower_bound_lem (x ∷ d) g (f, a) = elim (Bool-cases (ltb x g)) [
  | inl t ↦ ground (arith, t, lower_bound_lem d g a)
  | inr t ↦ ground (arith, t, none_smaller x g d f (ground (arith, t)))
]

upper_bound_lem : (d : List ℕ) (g : ℕ) → Ascending d → upper_bound d g ≡ smaller d g + same d g
unfolding upper_bound smaller same
upper_bound_lem [] g a = omega arith
upper_bound_lem (x ∷ d) g (f, a) = elim (Bool-cases (ltb g x)) [
  | inl t ↦
      let h : g < x = ground (arith, t) in
      ground (arith, t, h, none_smaller x g d f (omega (arith, h)), none_same x g d f h)
  | inr t ↦ ground (arith, t, upper_bound_lem d g a)
]

-- On sorted data `Search` answers how many numbers are smaller than the guess, and how many are equal
-- to it.
pub search-count :
    (d : List ℕ) (guess : ℕ) → Ascending d → search d guess ≡ (smaller d guess, same d guess)
unfolding search
search-count d g a =
    let e = lower_bound_lem d g a in
    let f : upper_bound d g - lower_bound d g ≡ same d g =
      omega (arith, e, upper_bound_lem d g a) in
    rw f (ap (λ n. let p : ℕ × ℕ = (n, same d g) in p) e)

From-weaken : (x y : ℕ) (d : List ℕ) → x ≤ y → From y d → From x d
From-weaken x y [] h f = f
From-weaken x y (z ∷ d) h (l, f) = (omega (arith, h, l), From-weaken x y d h f)

back_greatest : (x : ℕ) (d : List ℕ) → From x d → Ascending d → x ≤ back x d
back_greatest x [] f a = omega arith
back_greatest x (y ∷ d) (l, f) (g, a) = omega (arith, l, back_greatest y d g a)

pub widen : (lo lo' hi : ℕ) (d : List ℕ) → lo' ≤ lo → Within lo hi d → Within lo' hi d
widen lo lo' hi [] h w = w
widen lo lo' hi (y ∷ d) h (a, b, w) = (omega (arith, a, h), b, widen lo lo' hi d h w)

Within-back : (x : ℕ) (d : List ℕ) → From x d → Ascending d → Within x (back x d) (x ∷ d)
Within-back x [] f a = (omega arith, omega arith, tt)
Within-back x (y ∷ d) (l, f) (g, a) = (
  omega arith,
  omega (arith, l, back_greatest y d g a),
  widen y x (back y d) (y ∷ d) l (Within-back y d g a),
)

back_bounded : (x : ℕ) (d : List ℕ) (top : ℕ) → Within 0 top (x ∷ d) → back x d ≤ top
back_bounded x [] top (a, b, w) = b
back_bounded x (y ∷ d) top (a, b, w) = back_bounded y d top w

-- `Query` answers with the number of the sorted data, and with the least and the greatest of them.
pub query-Within :
    (x : ℕ) (d : List ℕ)
    → Ascending (x ∷ d)
    → (r : QueryResponse) × (query (x ∷ d) ≡ some r)
      × (r.count ≡ length (x ∷ d))
      × Within r.lowest r.highest (x ∷ d)
      × (r.lowest ≤ r.highest)
      × ((top : ℕ) → Within 0 top (x ∷ d) → r.highest ≤ top)
unfolding query
query-Within x d (f, a) = (
  record { count = suc (length d); lowest = x; highest = back x d },
  refl,
  omega arith,
  Within-back x d f a,
  back_greatest x d f a,
  λ top w. back_bounded x d top w,
)

sort_insert-From : (x y : ℕ) (d : List ℕ) → x ≤ y → From x d → From x (sort_insert y d)
unfolding sort_insert
sort_insert-From x y [] h f = (h, f)
sort_insert-From x y (z ∷ d) h (l, f) = elim (Bool-cases (leb y z)) [
  | inl t ↦ rw t (h, (l, f))
  | inr t ↦ rw t (l, sort_insert-From x y d h f)
]

sort_insert-Ascending : (y : ℕ) (d : List ℕ) → Ascending d → Ascending (sort_insert y d)
unfolding sort_insert
sort_insert-Ascending y [] a = (tt, tt)
sort_insert-Ascending y (z ∷ d) (f, a) = elim (Bool-cases (leb y z)) [
  | inl t ↦ let h : y ≤ z = ground (arith, t) in rw t ((h, From-weaken y z d h f), (f, a))
  | inr t ↦
      let h : z ≤ y = ground (arith, t) in
      rw t (sort_insert-From z y d h f, sort_insert-Ascending y d a)
]

pub sort-Ascending : (d : List ℕ) → Ascending (sort d)
unfolding sort
sort-Ascending [] = tt
sort-Ascending (x ∷ d) = sort_insert-Ascending x (sort d) (sort-Ascending d)

sort_insert-Within :
    (lo hi y : ℕ) (d : List ℕ) → lo ≤ y → y ≤ hi → Within lo hi d → Within lo hi (sort_insert y d)
unfolding sort_insert
sort_insert-Within lo hi y [] a b w = (a, b, w)
sort_insert-Within lo hi y (z ∷ d) a b (c, e, w) = elim (Bool-cases (leb y z)) [
  | inl t ↦ rw t (a, b, (c, e, w))
  | inr t ↦ rw t (c, e, sort_insert-Within lo hi y d a b w)
]

length-sort_insert : (y : ℕ) (d : List ℕ) → length (sort_insert y d) ≡ suc (length d)
unfolding sort_insert
length-sort_insert y [] = refl
length-sort_insert y (z ∷ d) = ground (arith, length-sort_insert y d)

-- `doGenerate` makes as many numbers as it is asked for, sorted, from `min` to `max`.
pub do_generate-Within :
    (random : List ℕ) (lo hi : ℕ)
    → lo ≤ hi
    → Ascending (do_generate random lo hi)
      × Within lo hi (do_generate random lo hi)
      × (length (do_generate random lo hi) ≡ length random)
unfolding do_generate sort generated
do_generate-Within random lo hi h = (sort-Ascending _, within random, size random)
  where
    within : (rs : List ℕ) → Within lo hi (sort (generated rs lo (hi - lo)))
    within [] = tt
    within (r ∷ rs) =
        sort_insert-Within lo hi _ (sort (generated rs lo (hi - lo))) (low r) (high r) (within rs)
      where
        low : (r : ℕ) → lo ≤ (if ltb 1 (hi - lo) then lo + r % (hi - lo) else lo)
        low r = ground arith

        high : (r : ℕ) → (if ltb 1 (hi - lo) then lo + r % (hi - lo) else lo) ≤ hi
        high r = ground (arith, h)

    size : (rs : List ℕ) → length (sort (generated rs lo (hi - lo))) ≡ length rs
    size [] = refl
    size (r ∷ rs) = length-sort_insert _ _ ∙ ap suc (size rs)
