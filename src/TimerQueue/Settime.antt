-- ===== src/TimerQueue/Settime.antt =====
-- `howMuchTimerFromNow`: the value that `timerfd_settime` is given.
use muduo_net_zxl.Prelude.{ℕ, ◌+◌, ◌-◌, ◌*◌, ◌≤◌, ◌<◌, ◌≡◌, arith}
use muduo_net_zxl.TimerQueue.{how_much_timer_from_now}

-- The nanoseconds are in range, the time is never zero (which would disarm the descriptor), it is at
-- least 100 microseconds, and it is exactly the time that is left wherever that is as long.
pub how_much_timer_from_now_range :
    (when now : ℕ)
    → let (sec, nsec) = how_much_timer_from_now when now in
      (nsec < 1000000000)
      × (100000 ≤ sec * 1000000000 + nsec)
      × (now + 100 ≤ when → sec * 1000000000 + nsec ≡ (when - now) * 1000)
unfolding how_much_timer_from_now
how_much_timer_from_now_range when now = (ground arith, ground arith, λ h. ground arith)
