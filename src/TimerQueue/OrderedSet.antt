-- ===== src/TimerQueue/OrderedSet.antt =====
-- `std::set` of pairs, as the list of its elements in ascending lexicographic order.
use muduo_net_zxl.Prelude.{
  ℕ, suc, ◌≡◌, refl, ap, Bool, true, false, not, ◌&&◌, ◌||◌, List, [], ◌∷◌, ◌++◌, arith, ◌==◌, ltb,
  if◌then◌else◌, length, Bool-cases, inl, inr,
}

abbrev pub Pair : Type 0
Pair = ℕ × ℕ

abbrev pub less : Pair → Pair → Bool
less (a, b) (c, d) = ltb a c || ((a == c) && ltb b d)

abbrev pub same : Pair → Pair → Bool
same (a, b) (c, d) = (a == c) && (b == d)

-- An element that is there already is not inserted again.
unfoldable pub set_insert : Pair → List Pair → List Pair
set_insert x [] = x ∷ []
set_insert x (y ∷ ys) =
    if less x y then x ∷ y ∷ ys else (if less y x then y ∷ set_insert x ys else y ∷ ys)

unfoldable pub has : Pair → List Pair → Bool
has x [] = false
has x (y ∷ ys) = same x y || has x ys

unfoldable pub set_erase : Pair → List Pair → List Pair
set_erase x [] = []
set_erase x (y ∷ ys) = if same x y then set_erase x ys else y ∷ set_erase x ys

-- The elements in front of `lower_bound(x)`, and those from there on.
unfoldable pub split_at : Pair → List Pair → List Pair × List Pair
split_at x [] = ([], [])
split_at x (y ∷ ys) =
    let rest = split_at x ys in if less y x then (y ∷ rest.0, rest.1) else ([], y ∷ ys)

abbrev pub Above : Pair → List Pair → Type 0
Above x [] = Unit {0}
Above x (y ∷ ys) = less x y ≡ true

abbrev pub Sorted : List Pair → Type 0
Sorted [] = Unit {0}
Sorted (x ∷ xs) = Above x xs × Sorted xs

less_trans : (x y z : Pair) → less x y ≡ true → less y z ≡ true → less x z ≡ true
less_trans (a, b) (c, d) (e, f) h k = ground arith

pub same_iff : (x y : Pair) → same x y ≡ true → x ≡ y
same_iff (a, b) (c, d) h = ground arith

pub same_self : (x : Pair) → same x x ≡ true
same_self (a, b) = ground arith

pub same_sym : (x y : Pair) → same x y ≡ same y x
same_sym (a, b) (c, d) = ground arith

less_same : (x y : Pair) → less x y ≡ false → less y x ≡ false → same x y ≡ true
less_same (a, b) (c, d) h k = ground arith

less_not_same : (x y : Pair) → less x y ≡ true → same x y ≡ false
less_not_same (a, b) (c, d) h = ground arith

same_less : (x y z : Pair) → same x y ≡ true → less x z ≡ less y z
same_less (a, b) (c, d) (e, f) h = ground arith

-- Nothing below the first element is in an ascending list.
pub has-Above : (x : Pair) (ys : List Pair) → Above x ys → Sorted ys → has x ys ≡ false
unfolding has
has-Above x [] a s = refl
has-Above x (y ∷ []) a s = ground (arith, less_not_same x y a)
has-Above x (y ∷ z ∷ zs) a s =
    ground (arith, less_not_same x y a, has-Above x (z ∷ zs) (less_trans x y z a s.0) s.1)

Above-insert :
    (x y : Pair) (ys : List Pair) → less y x ≡ true → Above y ys → Above y (set_insert x ys)
unfolding set_insert
Above-insert x y [] h a = h
Above-insert x y (w ∷ ws) h a = ground arith

pub set_insert-Sorted : (x : Pair) (ys : List Pair) → Sorted ys → Sorted (set_insert x ys)
unfolding set_insert
set_insert-Sorted x [] s = (tt, tt)
set_insert-Sorted x (y ∷ ys) s = elim (Bool-cases (less x y)) [
  | inl t ↦ rw t (t, s)
  | inr f ↦ elim (Bool-cases (less y x)) [
    | inl t ↦ rw f (rw t (Above-insert x y ys t s.0, set_insert-Sorted x ys s.1))
    | inr g ↦ rw f (rw g s)
  ]
]

pub has-set_insert : (x y : Pair) (s : List Pair) → has y (set_insert x s) ≡ (same y x || has y s)
unfolding has set_insert
has-set_insert x y [] = refl
has-set_insert x y (z ∷ zs) = elim (Bool-cases (less x z)) [
  | inl t ↦ rw t
  | inr f ↦ elim (Bool-cases (less z x)) [
    | inl t ↦ rw f (rw t (ground (arith, has-set_insert x y zs)))
    | inr g ↦ rw f (rw g (rw (same_iff x z (less_same x z f g)) (ground arith)))
  ]
]

pub length-set_insert :
    (x : Pair) (s : List Pair) → has x s ≡ false → length (set_insert x s) ≡ suc (length s)
unfolding has set_insert
length-set_insert x [] h = refl
length-set_insert x (y ∷ ys) h = ground (arith, length-set_insert x ys, less_same x y)

Above-erase : (x y : Pair) (ys : List Pair) → Above y ys → Sorted ys → Above y (set_erase x ys)
unfolding set_erase
Above-erase x y [] a s = tt
Above-erase x y (z ∷ []) a s = ground arith
Above-erase x y (z ∷ w ∷ ws) a s =
    ground (arith, Above-erase x y (w ∷ ws) (less_trans y z w a s.0) s.1)

pub set_erase-Sorted : (x : Pair) (ys : List Pair) → Sorted ys → Sorted (set_erase x ys)
unfolding set_erase
set_erase-Sorted x [] s = tt
set_erase-Sorted x (y ∷ ys) s = elim (Bool-cases (same x y)) [
  | inl t ↦ rw t (set_erase-Sorted x ys s.1)
  | inr f ↦ rw f (Above-erase x y ys s.0 s.1, set_erase-Sorted x ys s.1)
]

pub has-set_erase :
    (x y : Pair) (s : List Pair) → has y (set_erase x s) ≡ (not (same x y) && has y s)
unfolding has set_erase
has-set_erase x y [] = ground arith
has-set_erase x y (z ∷ zs) = elim (Bool-cases (same x z)) [
  | inl t ↦ rw t (rw (has-set_erase x y zs) (rw (← same_iff x z t) (ground (arith, same_sym x y))))
  | inr f ↦ rw f (ground (arith, has-set_erase x y zs, same_iff y z, same_sym z x, f))
]

erase_absent : (x : Pair) (s : List Pair) → has x s ≡ false → set_erase x s ≡ s
unfolding has set_erase
erase_absent x [] h = refl
erase_absent x (y ∷ ys) h = ground (arith, erase_absent x ys)

pub length-set_erase :
    (x : Pair) (s : List Pair) → Sorted s → has x s ≡ true → suc (length (set_erase x s)) ≡ length s
unfolding has set_erase
length-set_erase x [] o h = cc
length-set_erase x (y ∷ ys) o h = elim (Bool-cases (same x y)) [
  | inl t ↦
      rw t (
        ap (λ l. suc (length l)) (erase_absent x ys (rw (same_iff x y t) (has-Above y ys o.0 o.1))))
  | inr f ↦ rw f (ap suc (length-set_erase x ys o.1 (ground arith)))
]

-- `lower_bound` splits the set in two.
pub append-split_at : (x : Pair) (s : List Pair) → (split_at x s).0 ++ (split_at x s).1 ≡ s
unfolding split_at
append-split_at x [] = refl
append-split_at x (y ∷ ys) = ground (arith, append-split_at x ys)

abbrev pub AllBelow : Pair → List Pair → Type 0
AllBelow x [] = Unit {0}
AllBelow x (y ∷ ys) = (less y x ≡ true) × AllBelow x ys

abbrev pub NoneBelow : Pair → List Pair → Type 0
NoneBelow x [] = Unit {0}
NoneBelow x (y ∷ ys) = (less y x ≡ false) × NoneBelow x ys

pub split_at-AllBelow : (x : Pair) (s : List Pair) → AllBelow x (split_at x s).0
unfolding split_at
split_at-AllBelow x [] = tt
split_at-AllBelow x (y ∷ ys) = ground (arith, split_at-AllBelow x ys)

less_trans_not : (x y z : Pair) → less y x ≡ false → less y z ≡ true → less z x ≡ false
less_trans_not (a, b) (c, d) (e, f) h k = ground arith

Above-NoneBelow :
    (x y : Pair) (s : List Pair) → less y x ≡ false → Above y s → Sorted s → NoneBelow x s
Above-NoneBelow x y [] h a o = tt
Above-NoneBelow x y (z ∷ zs) h a o =
    (less_trans_not x y z h a, Above-NoneBelow x z zs (less_trans_not x y z h a) o.0 o.1)

pub split_at-NoneBelow : (x : Pair) (s : List Pair) → Sorted s → NoneBelow x (split_at x s).1
unfolding split_at
split_at-NoneBelow x [] o = tt
split_at-NoneBelow x (y ∷ ys) o =
    ground (
      arith,
      split_at-NoneBelow x ys o.1,
      λ (h : less y x ≡ false). Above-NoneBelow x y ys h o.0 o.1,
    )

pub has-append : (x : Pair) (s t : List Pair) → has x (s ++ t) ≡ (has x s || has x t)
unfolding has
has-append x [] t = refl
has-append x (y ∷ ys) t = ground (arith, has-append x ys t)

pub AllBelow-has : (x y : Pair) (s : List Pair) → AllBelow x s → has y s ≡ true → less y x ≡ true
unfolding has
AllBelow-has x y [] b h = cc
AllBelow-has x y (z ∷ zs) b h = elim (Bool-cases (same y z)) [
  | inl e ↦ rw (same_iff y z e) b.0
  | inr n ↦ AllBelow-has x y zs b.1 (ground arith)
]

pub NoneBelow-has : (x y : Pair) (s : List Pair) → NoneBelow x s → has y s ≡ true → less y x ≡ false
unfolding has
NoneBelow-has x y [] b h = cc
NoneBelow-has x y (z ∷ zs) b h = elim (Bool-cases (same y z)) [
  | inl e ↦ rw (same_iff y z e) b.0
  | inr n ↦ NoneBelow-has x y zs b.1 (ground arith)
]

-- The front of an ascending list is ascending.
pub append-Sorted : (xs ys : List Pair) → Sorted (xs ++ ys) → Sorted xs
append-Sorted [] ys o = tt
append-Sorted (x ∷ []) ys o = (tt, tt)
append-Sorted (x ∷ y ∷ xs) ys o = (o.0, append-Sorted (y ∷ xs) ys o.1)
