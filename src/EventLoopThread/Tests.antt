-- ===== src/EventLoopThread/Tests.antt =====
-- The caller sleeps before the new thread has its loop.
use muduo_net_zxl.Prelude.{ℕ, ◌+◌, ◌*◌, ◌≤◌, ◌≡◌, ◌⊎◌, refl, Option, none, some}
use muduo_net_zxl.EventLoopThread.{
  waiting, constructing, returned, free, EventLoopThread, init, start, lock_starter, wait, Step,
  starts,
}
use muduo_net_zxl.EventLoopThread.Progress.{Run, here, steps, start_loop_returns}

abbrev asleep : EventLoopThread
asleep = record { loop_ = none; mutex = free; starter = waiting; runner = constructing }

asleep-Run : Run 9 3 0 asleep
unfolding init
asleep-Run =
    steps (steps (steps here (starts (start _ refl))) (starts (lock_starter _ refl refl)))
      (starts (wait _ refl refl))

start_loop_returns_example :
    (3 ≤ 12 + 2 * 0)
    × ((asleep.starter ≡ returned (some 9)) ⊎ ((u : EventLoopThread) × Step 9 asleep u))
    × ((x : Option ℕ) → asleep.starter ≡ returned x → x ≡ some 9)
start_loop_returns_example = start_loop_returns asleep-Run
