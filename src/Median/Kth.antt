-- ===== src/Median/Kth.antt =====
-- The bisection of `getKth`.
use muduo_net_zxl.Prelude.{
  ℕ, zero, suc, ◌+◌, ◌-◌, ◌*◌, ◌/◌, ◌^◌, ◌≤◌, ◌<◌, ◌≡◌, refl, ap, ◌∙◌, ◌⊎◌, Bool, true, Option,
  some, List, length, arith, inl, inr, dec_lt,
}
use muduo_net_zxl.Median.{int64_mod, middle, Searcher, step, rounds, get_kth}
use muduo_net_zxl.Median.Count.{
  smaller, same, Within, Kth, smaller_next, smaller_least, smaller_greatest, bounded,
}

-- The widths that so many rounds are enough for.
unfoldable widths : ℕ → ℕ
widths zero = 1
widths (suc n) = 2 * widths n

module _ (data_ : List ℕ) (search : Searcher)
    (counts : (x : ℕ) → search x ≡ some (smaller data_ x, same data_ x))
    (size : length data_ < 2 ^ 63) (k : ℕ) where
  -- The wanted number is between `lo` and `hi`.
  record Around (lo hi : ℕ) : Type 0 where
    ordered : lo ≤ hi
    in_range : hi < int64_mod
    before : smaller data_ lo < k
    until : k ≤ smaller data_ hi + same data_ hi

  abbrev Found : Option (ℕ × Bool) → Type 0
  Found o = (x : ℕ) × (o ≡ some (x, true)) × Kth k data_ x

  middle_lem : (lo hi : ℕ) → lo ≤ hi → hi < int64_mod → middle lo hi ≡ lo + (hi - lo) / 2
  middle_lem lo hi h r = omega (arith, h, r)

  -- What a step does: it ends, or goes on with one part of the range.
  abbrev Outcome : (ℕ → ℕ → ℕ → Option (ℕ × Bool)) → ℕ → ℕ → ℕ → Type 0
  Outcome round guess lo hi =
      let o = step round k guess lo hi (smaller data_ guess, same data_ guess) in
      ((o ≡ some (guess, true)) × Kth k data_ guess)
      ⊎ ((Around (guess + 1) hi × (o ≡ round (middle (guess + 1) hi) (guess + 1) hi))
          ⊎ (Around lo guess × (lo < guess) × (o ≡ round (middle lo guess) lo guess)))

  step_lem :
      (round : ℕ → ℕ → ℕ → Option (ℕ × Bool)) (guess lo hi : ℕ)
      → lo ≤ guess
      → guess ≤ hi
      → Around lo hi
      → Outcome round guess lo hi
  unfolding step
  step_lem round guess lo hi l u a =
      let s = smaller data_ guess in
      let t = s + same data_ guess in
      let b = bounded data_ guess in
      elim (dec_lt t k) [
        | yes h ↦
            let n : guess < hi = strict h in
            let r : Around (guess + 1) hi = record {
              ordered = omega (arith, n);
              in_range = a.in_range;
              before = omega (arith, h, smaller_next data_ guess);
              until = a.until;
            } in
            let m = middle_lem (guess + 1) hi (omega (arith, n)) a.in_range in
            inr (inl (r, ground (arith, b, size, h, n, m, a.in_range)))
        | no h ↦ elim (dec_lt s k) [
          | yes g ↦
              inl (ground (arith, b, size, h, g), record { few = g; enough = omega (arith, h) })
          | no g ↦
              let n : lo < guess = above g in
              let r : Around lo guess = record {
                ordered = omega (arith, n);
                in_range = omega (arith, u, a.in_range);
                before = a.before;
                until = omega (arith, g);
              } in
              let m = middle_lem lo guess l r.in_range in
              inr (inr (r, n, ground (arith, b, size, h, g, n, m, a.in_range)))
        ]
      ]
    where
      strict : smaller data_ guess + same data_ guess < k → guess < hi
      strict h = elim (dec_lt guess hi) [
        | yes n ↦ n
        | no n ↦
            let e : guess ≡ hi = omega (arith, n, u) in
            absurd (omega (arith, h, a.until, ap (λ x. smaller data_ x + same data_ x) e))
      ]

      above : (smaller data_ guess < k → ⊥) → lo < guess
      above g = elim (dec_lt lo guess) [
        | yes n ↦ n
        | no n ↦
            let e : guess ≡ lo = omega (arith, n, l) in
            absurd (g (omega (arith, a.before, ap (smaller data_) e)))
      ]

  round_lem :
      (left guess lo hi : ℕ)
      → lo ≤ hi
      → rounds (suc left) search k guess lo hi
        ≡ step (rounds left search k) k guess lo hi (smaller data_ guess, same data_ guess)
  unfolding rounds
  round_lem left guess lo hi h = ground (arith, h, counts guess)

  rounds_lem :
      (n left lo hi : ℕ)
      → n < left
      → Around lo hi
      → hi < lo + widths n
      → Found (rounds left search k (middle lo hi) lo hi)
  unfolding widths
  rounds_lem n zero lo hi h a w = absurd (omega (arith, h))
  rounds_lem zero (suc left) lo hi h a w =
      let m = middle_lem lo hi a.ordered a.in_range in
      elim (step_lem (rounds left search k) (middle lo hi) lo hi (omega (arith, m))
        (omega (arith, m, a.ordered)) a) [
          | inl (e, f) ↦ (middle lo hi, round_lem left (middle lo hi) lo hi a.ordered ∙ e, f)
          | inr (inl (r, e)) ↦ absurd (omega (arith, r.ordered, w, m, a.ordered))
          | inr (inr (r, l, e)) ↦ absurd (omega (arith, l, w, m, a.ordered))
        ]
  rounds_lem (suc n) (suc left) lo hi h a w =
      let m = middle_lem lo hi a.ordered a.in_range in
      elim (step_lem (rounds left search k) (middle lo hi) lo hi (omega (arith, m))
        (omega (arith, m, a.ordered)) a) [
          | inl (e, f) ↦ (middle lo hi, round_lem left (middle lo hi) lo hi a.ordered ∙ e, f)
          | inr (inl (r, e)) ↦
              let (x, f, t) =
                rounds_lem n left (middle lo hi + 1) hi (omega (arith, h)) r
                  (omega (arith, w, m, a.ordered)) in
              (x, round_lem left (middle lo hi) lo hi a.ordered ∙ e ∙ f, t)
          | inr (inr (r, l, e)) ↦
              let (x, f, t) =
                rounds_lem n left lo (middle lo hi) (omega (arith, h)) r
                  (omega (arith, w, m, a.ordered)) in
              (x, round_lem left (middle lo hi) lo hi a.ordered ∙ e ∙ f, t)
        ]

  range_lem : widths 64 ≡ int64_mod
  unfolding widths
  range_lem = refl

  -- The bisection finds the `k`-th smallest number, if there are that many and all are in the range
  -- that it starts with. It never exceeds its hundred steps, and no assertion fails.
  pub get_kth-Kth :
      (lo hi : ℕ)
      → 1 ≤ k
      → k ≤ length data_
      → lo ≤ hi
      → hi < int64_mod
      → Within lo hi data_
      → (x : ℕ) × (get_kth search k lo hi ≡ some (x, true)) × Kth k data_ x
  unfolding get_kth
  get_kth-Kth lo hi low high order r w =
      let a : Around lo hi = record {
        ordered = order;
        in_range = r;
        before = omega (arith, smaller_least data_ lo hi w, low);
        until = omega (arith, smaller_greatest data_ lo hi w, high);
      } in
      elim (step_lem (rounds 99 search k) hi lo hi order (omega arith) a) [
        | inl (e, f) ↦ (hi, round_lem 99 hi lo hi order ∙ e, f)
        | inr (inl (b, e)) ↦ absurd (omega (arith, b.ordered))
        | inr (inr (b, l, e)) ↦
            let (x, f, t) = rounds_lem 64 99 lo hi (omega arith) b (omega (arith, range_lem, r)) in
            (x, round_lem 99 hi lo hi order ∙ e ∙ f, t)
      ]
