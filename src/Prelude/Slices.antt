-- ===== src/Prelude/Slices.antt =====
-- Byte ranges of an array: what `memcpy` and `std::copy` read and write.
use Prim.Native.Nat.{ℕ, zero, suc, ◌+◌, ◌≤◌}
use mathlib.Core.Path.{◌≡◌, refl, ap}
use mathlib.Core.List.{List, [], ◌∷◌, ◌++◌}
use native.Mathlib.Omega.{arith}
use muduo_net_zxl.Prelude.Lists.{length, take, drop, length-take, length-drop}

module _ {ℓ} {A : Type ℓ} where
  -- The `n` elements from index `i` on.
  abbrev pub slice : List A → ℕ → ℕ → List A
  slice xs i n = take n (drop i xs)

  -- Overwrite from index `i` on. What would lie past the end is dropped.
  unfoldable pub copy_at : List A → ℕ → List A → List A
  copy_at [] i xs = []
  copy_at (b ∷ bs) zero [] = b ∷ bs
  copy_at (b ∷ bs) zero (x ∷ xs) = x ∷ copy_at bs zero xs
  copy_at (b ∷ bs) (suc i) xs = b ∷ copy_at bs i xs

  pub length-copy_at : (bs : List A) (i : ℕ) (xs : List A) → length (copy_at bs i xs) ≡ length bs
  unfolding copy_at
  length-copy_at [] i xs = refl
  length-copy_at (b ∷ bs) zero [] = refl
  length-copy_at (b ∷ bs) zero (x ∷ xs) = ap suc (length-copy_at bs zero xs)
  length-copy_at (b ∷ bs) (suc i) xs = ap suc (length-copy_at bs i xs)

  pub length-slice : (xs : List A) (i n : ℕ) → i + n ≤ length xs → length (slice xs i n) ≡ n
  length-slice xs i n h = omega (arith, length-take n (drop i xs), length-drop i xs)

  pub take-length : (xs : List A) → take (length xs) xs ≡ xs
  take-length [] = refl
  take-length (x ∷ xs) = ap (◌∷◌ x) (take-length xs)

  pub take-length-append : (xs ys : List A) → take (length xs) (xs ++ ys) ≡ xs
  take-length-append [] ys = refl
  take-length-append (x ∷ xs) ys = ap (◌∷◌ x) (take-length-append xs ys)

  pub drop-length-append : (xs ys : List A) → drop (length xs) (xs ++ ys) ≡ ys
  drop-length-append [] ys = refl
  drop-length-append (x ∷ xs) ys = drop-length-append xs ys

  take-copy_at_zero :
      (bs xs : List A) → length xs ≤ length bs → take (length xs) (copy_at bs 0 xs) ≡ xs
  unfolding copy_at
  take-copy_at_zero [] [] h = refl
  take-copy_at_zero [] (x ∷ xs) h = absurd (omega arith)
  take-copy_at_zero (b ∷ bs) [] h = refl
  take-copy_at_zero (b ∷ bs) (x ∷ xs) h = ap (◌∷◌ x) (take-copy_at_zero bs xs (omega arith))

  -- An array written behind a range that ends there: the range grows.
  take-copy_at :
      (bs xs : List A) (n m : ℕ)
      → m ≡ n + length xs
      → n + length xs ≤ length bs
      → take m (copy_at bs n xs) ≡ take n bs ++ xs
  unfolding copy_at
  take-copy_at bs xs zero m e h =
      rw (let p : m ≡ length xs = omega arith in p) (take-copy_at_zero bs xs (omega arith))
  take-copy_at [] xs (suc n) m e h = absurd (omega arith)
  take-copy_at (b ∷ bs) xs (suc n) zero e h = absurd (omega arith)
  take-copy_at (b ∷ bs) xs (suc n) (suc m) e h =
      ap (◌∷◌ b) (take-copy_at bs xs n m (omega arith) (omega arith))

  pub slice-copy_at_end :
      (bs xs : List A) (r w n m : ℕ)
      → w ≡ r + n
      → m ≡ n + length xs
      → w + length xs ≤ length bs
      → slice (copy_at bs w xs) r m ≡ slice bs r n ++ xs
  unfolding copy_at
  slice-copy_at_end bs xs zero w n m e f h =
      rw (let p : w ≡ n = omega arith in p) (take-copy_at bs xs n m f (omega arith))
  slice-copy_at_end [] xs (suc r) w n m e f h = absurd (omega arith)
  slice-copy_at_end (b ∷ bs) xs (suc r) zero n m e f h = absurd (omega arith)
  slice-copy_at_end (b ∷ bs) xs (suc r) (suc w) n m e f h =
      slice-copy_at_end bs xs r w n m (omega arith) f (omega arith)

  -- An array written in front of a range.
  take-copy_at_front :
      (bs xs : List A) (n m : ℕ)
      → m ≡ length xs + n
      → length xs + n ≤ length bs
      → take m (copy_at bs 0 xs) ≡ xs ++ slice bs (length xs) n
  unfolding copy_at
  take-copy_at_front [] [] n m e h =
      rw (let p : m ≡ 0 = omega arith in p) (rw (let q : n ≡ 0 = omega arith in q))
  take-copy_at_front (b ∷ bs) [] n m e h = rw (let p : m ≡ n = omega arith in p)
  take-copy_at_front [] (x ∷ xs) n m e h = absurd (omega arith)
  take-copy_at_front (b ∷ bs) (x ∷ xs) n zero e h = absurd (omega arith)
  take-copy_at_front (b ∷ bs) (x ∷ xs) n (suc m) e h =
      ap (◌∷◌ x) (take-copy_at_front bs xs n m (omega arith) (omega arith))

  pub slice-copy_at_front :
      (bs xs : List A) (i j n m : ℕ)
      → j ≡ i + length xs
      → m ≡ length xs + n
      → j + n ≤ length bs
      → slice (copy_at bs i xs) i m ≡ xs ++ slice bs j n
  unfolding copy_at
  slice-copy_at_front bs xs zero j n m e f h =
      rw (let p : j ≡ length xs = omega arith in p) (take-copy_at_front bs xs n m f (omega arith))
  slice-copy_at_front [] xs (suc i) zero n m e f h = absurd (omega arith)
  slice-copy_at_front [] xs (suc i) (suc j) n m e f h = absurd (omega arith)
  slice-copy_at_front (b ∷ bs) xs (suc i) zero n m e f h = absurd (omega arith)
  slice-copy_at_front (b ∷ bs) xs (suc i) (suc j) n m e f h =
      slice-copy_at_front bs xs i j n m (omega arith) f (omega arith)

  pub take_all : (xs : List A) (n : ℕ) → length xs ≤ n → take n xs ≡ xs
  take_all [] zero h = refl
  take_all [] (suc n) h = refl
  take_all (x ∷ xs) zero h = absurd (omega arith)
  take_all (x ∷ xs) (suc n) h = ap (◌∷◌ x) (take_all xs n (omega arith))

  pub drop_all : (xs : List A) (n : ℕ) → length xs ≤ n → drop n xs ≡ []
  drop_all [] zero h = refl
  drop_all [] (suc n) h = refl
  drop_all (x ∷ xs) zero h = absurd (omega arith)
  drop_all (x ∷ xs) (suc n) h = drop_all xs n (omega arith)

  pub eq_nil : (xs : List A) → length xs ≡ 0 → xs ≡ []
  eq_nil [] h = refl
  eq_nil (x ∷ xs) h = absurd (omega arith)

  take-append : (xs ys : List A) (n : ℕ) → n ≤ length xs → take n (xs ++ ys) ≡ take n xs
  take-append xs ys zero h = refl
  take-append [] ys (suc n) h = absurd (omega arith)
  take-append (x ∷ xs) ys (suc n) h = ap (◌∷◌ x) (take-append xs ys n (omega arith))

  pub slice-append :
      (xs ys : List A) (i n : ℕ) → i + n ≤ length xs → slice (xs ++ ys) i n ≡ slice xs i n
  slice-append xs ys zero n h = take-append xs ys n (omega arith)
  slice-append [] ys (suc i) n h = absurd (omega arith)
  slice-append (x ∷ xs) ys (suc i) n h = slice-append xs ys i n (omega arith)

  pub drop_nil : (n : ℕ) → drop n (let e : List A = [] in e) ≡ []
  drop_nil zero = refl
  drop_nil (suc n) = refl

  drop-take : (xs : List A) (k n m : ℕ) → n ≡ k + m → drop k (take n xs) ≡ take m (drop k xs)
  drop-take xs zero n m e = rw (let p : n ≡ m = omega arith in p)
  drop-take xs (suc k) zero m e = absurd (omega arith)
  drop-take [] (suc k) (suc n) zero e = refl
  drop-take [] (suc k) (suc n) (suc m) e = refl
  drop-take (x ∷ xs) (suc k) (suc n) m e = drop-take xs k n m (omega arith)

  -- What is left of a range when its first `k` elements are dropped.
  pub drop-slice :
      (xs : List A) (i j k n m : ℕ) → j ≡ i + k → n ≡ k + m → drop k (slice xs i n) ≡ slice xs j m
  drop-slice xs zero j k n m e f = rw (let p : j ≡ k = omega arith in p) (drop-take xs k n m f)
  drop-slice [] (suc i) zero k n m e f = absurd (omega arith)
  drop-slice [] (suc i) (suc j) k zero zero e f = drop_nil k
  drop-slice [] (suc i) (suc j) k zero (suc m) e f = absurd (omega arith)
  drop-slice [] (suc i) (suc j) k (suc n) zero e f = drop_nil k
  drop-slice [] (suc i) (suc j) k (suc n) (suc m) e f = drop_nil k
  drop-slice (x ∷ xs) (suc i) zero k n m e f = absurd (omega arith)
  drop-slice (x ∷ xs) (suc i) (suc j) k n m e f = drop-slice xs i j k n m (omega arith) f

  pub take-slice : (xs : List A) (i k n : ℕ) → k ≤ n → take k (slice xs i n) ≡ slice xs i k
  take-slice xs i k n h = take-take (drop i xs) k n h
    where
      take-take : (xs : List A) (k n : ℕ) → k ≤ n → take k (take n xs) ≡ take k xs
      take-take xs zero n h = refl
      take-take xs (suc k) zero h = absurd (omega arith)
      take-take [] (suc k) (suc n) h = refl
      take-take (x ∷ xs) (suc k) (suc n) h = ap (◌∷◌ x) (take-take xs k n (omega arith))

  pub append-slice :
      (xs : List A) (i j m n k : ℕ)
      → j ≡ i + m
      → k ≡ m + n
      → slice xs i m ++ slice xs j n ≡ slice xs i k
  append-slice xs zero j zero n k e f =
      rw (let p : j ≡ 0 = omega arith in p) (rw (let q : k ≡ n = omega arith in q))
  append-slice [] zero zero (suc m) n k e f = absurd (omega arith)
  append-slice [] zero (suc j) (suc m) zero zero e f = refl
  append-slice [] zero (suc j) (suc m) zero (suc k) e f = refl
  append-slice [] zero (suc j) (suc m) (suc n) zero e f = absurd (omega arith)
  append-slice [] zero (suc j) (suc m) (suc n) (suc k) e f = refl
  append-slice (x ∷ xs) zero zero (suc m) n k e f = absurd (omega arith)
  append-slice (x ∷ xs) zero (suc j) (suc m) n zero e f = absurd (omega arith)
  append-slice (x ∷ xs) zero (suc j) (suc m) n (suc k) e f =
      ap (◌∷◌ x) (append-slice xs zero j m n k (omega arith) (omega arith))
  append-slice xs (suc i) zero m n k e f = absurd (omega arith)
  append-slice [] (suc i) (suc j) zero n k e f = rw (let q : k ≡ n = omega arith in q)
  append-slice [] (suc i) (suc j) (suc m) zero zero e f = refl
  append-slice [] (suc i) (suc j) (suc m) zero (suc k) e f = refl
  append-slice [] (suc i) (suc j) (suc m) (suc n) zero e f = absurd (omega arith)
  append-slice [] (suc i) (suc j) (suc m) (suc n) (suc k) e f = refl
  append-slice (x ∷ xs) (suc i) (suc j) m n k e f = append-slice xs i j m n k (omega arith) f
