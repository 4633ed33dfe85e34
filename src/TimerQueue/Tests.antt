-- ===== src/TimerQueue/Tests.antt =====
-- The empty queue, and a queue with one timer, due at 50 and at the address 8.
use muduo_net_zxl.Prelude.{
  ℕ, ◌+◌, ◌*◌, ◌≤◌, ◌<◌, ◌≡◌, refl, false, none, some, List, [], ◌∷◌, arith,
}
use muduo_net_zxl.TimerQueue.{
  Timer, TimerQueue, init, put, timer_id, cancel_in_loop, how_much_timer_from_now, Command, cancels,
}
use muduo_net_zxl.TimerQueue.OrderedSet.{has, set_insert}
use muduo_net_zxl.TimerQueue.Valid.{IsValid, init-IsValid}
use muduo_net_zxl.TimerQueue.Insert.{
  inserted-IsValid, allocated, allocated-IsValid, new_is_Unscheduled,
}
use muduo_net_zxl.TimerQueue.Cancel.{Cancelled, cancel_in_loop-Cancelled, cancel-timer_id}
use muduo_net_zxl.TimerQueue.Settime.{how_much_timer_from_now_range}

abbrev tick : Timer
tick = record { expiration = 50; interval = 0; repeat = false; sequence = 1 }

abbrev one : TimerQueue
one = record {
  timers = (50, 8) ∷ [];
  active_timers = (8, 1) ∷ [];
  canceling_timers = [];
  calling_expired_timers = false;
  heap = put (λ a. none) 8 (some tick);
  armed = none;
  num_created = 1;
}

one-IsValid : IsValid one
unfolding init set_insert
one-IsValid =
    inserted-IsValid (allocated init 8 tick init-IsValid refl) 8 tick
      (allocated-IsValid init 8 tick init-IsValid refl (omega arith)) refl
      (new_is_Unscheduled init 8 tick init-IsValid refl)

cancel_in_loop-Cancelled_example :
    (q' : TimerQueue) × (cancel_in_loop one (record { timer = 8; sequence = 1 }) ≡ some q')
    × Cancelled one 8 q'
unfolding has
cancel_in_loop-Cancelled_example = cancel_in_loop-Cancelled one 8 1 one-IsValid refl

cancel-timer_id_example :
    (q' : TimerQueue) × (cancel_in_loop one (timer_id 8) ≡ some q')
    × (q'.timers ≡ one.timers)
    × (q'.active_timers ≡ one.active_timers)
    × (q'.heap ≡ one.heap)
    × (q'.armed ≡ one.armed)
cancel-timer_id_example = cancel-timer_id one 8 one-IsValid

how_much_timer_from_now_range_example :
    let (sec, nsec) = how_much_timer_from_now 5000 2000 in
    (nsec < 1000000000)
    × (100000 ≤ sec * 1000000000 + nsec)
    × (2100 ≤ 5000 → sec * 1000000000 + nsec ≡ 3000 * 1000)
how_much_timer_from_now_range_example = how_much_timer_from_now_range 5000 2000

-- A callback that cancels its own timer while it runs.
abbrev quits : ℕ → List Command
quits a = cancels (record { timer = a; sequence = 1 }) ∷ []
