-- ===== src/TimerQueue/Valid.antt =====
-- The invariant of a timer queue: the two sets hold the same live timers, one by expiration and one
-- by address.
use muduo_net_zxl.Prelude.{ℕ, ◌≤◌, ◌≡◌, refl, true, some, arith, length}
use muduo_net_zxl.TimerQueue.OrderedSet.{Sorted, has}
use muduo_net_zxl.TimerQueue.{Timer, TimerQueue, init}

pub record IsValid (q : TimerQueue) : Type 0 where
  pub timers_sorted : Sorted q.timers
  pub active_sorted : Sorted q.active_timers
  pub sizes : length q.timers ≡ length q.active_timers
  pub timer_of :
      (when a : ℕ)
      → has (when, a) q.timers ≡ true
      → (t : Timer) × (q.heap a ≡ some t)
        × (t.expiration ≡ when)
        × (has (a, t.sequence) q.active_timers ≡ true)
  pub active_of :
      (a s : ℕ)
      → has (a, s) q.active_timers ≡ true
      → (t : Timer) × (q.heap a ≡ some t)
        × (t.sequence ≡ s)
        × (has (t.expiration, a) q.timers ≡ true)
  pub numbered : (a : ℕ) (t : Timer) → q.heap a ≡ some t → 1 ≤ t.sequence

pub init-IsValid : IsValid init
unfolding init has
init-IsValid = record {
  timers_sorted = tt;
  active_sorted = tt;
  sizes = refl;
  timer_of = λ when a h. absurd (ground arith);
  active_of = λ a s h. absurd (ground arith);
  numbered = λ a t h. absurd (ground arith);
}
