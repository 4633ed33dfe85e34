-- ===== src/TcpServer/Turns.antt =====
-- EventLoopThreadPool.cc: `getNextLoop` gives out the loops in turn, or the base loop if there are none.
use muduo_net_zxl.Prelude.{
  ℕ, zero, suc, ◌+◌, ◌≤◌, ◌<◌, ◌≡◌, sym, ◌∙◌, refl, Option, some, List, arith, length, leb, ◌==◌,
  if◌then◌else◌, get_elem?, get_elem?-exists, Bool-cases, inl, inr, ◌>>=◌,
}
use muduo_net_zxl.EventLoop.{EventLoopThreadPool, get_next_loop}

-- Whose turn it is after so many calls, among `n`.
unfoldable pub turn : ℕ → ℕ → ℕ
turn n zero = 0
turn n (suc k) = let p = turn n k in if leb n (p + 1) then 0 else p + 1

-- The loop that is given out after `k` others.
abbrev pub loop_of : ℕ → List ℕ → ℕ → Option ℕ
loop_of base loops k =
    if length loops == 0 then some base else get_elem? loops (turn (length loops) k)

turn-lt : (n k : ℕ) → 1 ≤ n → turn n k < n
unfolding turn
turn-lt n zero h = omega (arith, h)
turn-lt n (suc k) h = ground arith

turn_none : (n k : ℕ) → n ≡ 0 → turn n k ≡ 0
unfolding turn
turn_none n zero e = refl
turn_none n (suc k) e = ground (arith, e)

pub record Given (p : EventLoopThreadPool) (k l : ℕ) (q : EventLoopThreadPool) : Type 0 where
  pub loop_is : loop_of p.base_loop p.loops k ≡ some l
  pub next_is : q.next ≡ turn (length p.loops) (suc k)
  pub same_base : q.base_loop ≡ p.base_loop
  pub same_loops : q.loops ≡ p.loops
  pub same_start : q.started ≡ p.started

-- After `k` calls the next one succeeds.
pub get_next_loop-Given :
    (p : EventLoopThreadPool) (k : ℕ)
    → p.next ≡ turn (length p.loops) k
    → (l : ℕ) × (q : EventLoopThreadPool) × (get_next_loop p ≡ some (l, q)) × Given p k l q
unfolding get_next_loop turn
get_next_loop-Given p k h = elim (Bool-cases (length p.loops == 0)) [
  | inl t ↦ (
    p.base_loop,
    p,
    rw t refl,
    record {
      loop_is = rw t refl;
      next_is =
          h
          ∙ turn_none (length p.loops) k (ground (arith, t))
          ∙ sym (turn_none (length p.loops) (suc k) (ground (arith, t)));
      same_base = refl;
      same_loops = refl;
      same_start = refl;
    },
  )
  | inr f ↦
      let (l, g) =
        get_elem?-exists p.loops (turn (length p.loops) k)
          (turn-lt (length p.loops) k (ground (arith, f))) in
      (
        l,
        record p { next = if leb (length p.loops) (p.next + 1) then 0 else p.next + 1 },
        rw f (rw (h ∙ refl) (rw (g, ◌>>=◌) refl)),
        record {
          loop_is = rw f g;
          next_is = rw h refl;
          same_base = refl;
          same_loops = refl;
          same_start = refl;
        },
      )
]
