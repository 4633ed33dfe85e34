-- ===== src/EventLoop/Pool.antt =====
-- `getNextLoop`, over a whole round.
use muduo_net_zxl.Prelude.{
  ℕ, zero, suc, ◌+◌, ◌≤◌, ◌<◌, ◌≡◌, refl, sym, ap, ◌∙◌, true, false, some, List, [], ◌∷◌, length,
  leb, drop, get_elem?, ◌>>=◌, ◌==◌, arith, drop_all,
}
use muduo_net_zxl.EventLoop.{EventLoopThreadPool, get_next_loop, get_next_loops}

drop_elem :
    (xs : List ℕ) (i : ℕ)
    → i < length xs
    → (x : ℕ) × (get_elem? xs i ≡ some x) × (drop i xs ≡ x ∷ drop (suc i) xs)
drop_elem [] i h = absurd (omega (arith, h))
drop_elem (x ∷ xs) zero h = (x, refl, refl)
drop_elem (x ∷ xs) (suc i) h = let (y, e, d) = drop_elem xs i (omega (arith, h)) in (y, e, d)

-- The calls that are left of a round.
rest_of_round :
    (n i : ℕ) (p : EventLoopThreadPool)
    → p.next ≡ i
    → i + suc n ≡ length p.loops
    → get_next_loops (suc n) p ≡ some (drop i p.loops, record p { next = 0 })
unfolding get_next_loops get_next_loop
rest_of_round zero i p e h =
    let (x, g, d) = drop_elem p.loops i (omega (arith, h)) in
    let z : (length p.loops == 0) ≡ false = ground (arith, h) in
    let w : leb (length p.loops) (i + 1) ≡ true = ground (arith, h) in
    let a = drop_all p.loops (suc i) (omega (arith, h)) in
    rw z (rw e (rw (g, ◌>>=◌) (rw w (rw d (rw a refl)))))
rest_of_round (suc n) i p e h =
    let (x, g, d) = drop_elem p.loops i (omega (arith, h)) in
    let z : (length p.loops == 0) ≡ false = ground (arith, h) in
    let w : leb (length p.loops) (i + 1) ≡ false = ground (arith, h) in
    let r = rest_of_round n (suc i) (record p { next = i + 1 }) (omega arith) (omega (arith, h)) in
    rw z (rw e (rw (g, ◌>>=◌) (rw w (rw (r, ◌>>=◌) (rw d refl)))))

-- As many calls as the pool has loops, from the first one on, return each loop once, in order, and
-- leave the pool as it was.
pub get_next_loops-round :
    (p : EventLoopThreadPool)
    → 1 ≤ length p.loops
    → p.next ≡ 0
    → get_next_loops (length p.loops) p ≡ some (p.loops, p)
get_next_loops-round p h e = round (length p.loops) refl
  where
    round : (n : ℕ) → n ≡ length p.loops → get_next_loops n p ≡ some (p.loops, p)
    round zero f = absurd (omega (arith, f, h))
    round (suc n) f =
        rest_of_round n 0 p e (omega (arith, f))
        ∙ ap (λ i. some (p.loops, record p { next = i })) (sym e)
