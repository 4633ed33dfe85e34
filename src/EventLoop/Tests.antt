-- ===== src/EventLoop/Tests.antt =====
-- A functor that queues two more, and a pool of two loops.
use muduo_net_zxl.Prelude.{ℕ, ◌+◌, ◌≡◌, true, false, List, [], ◌∷◌, length, if◌then◌else◌, ◌==◌}
use muduo_net_zxl.EventLoop.{EventLoop, do_pending_functors, EventLoopThreadPool}
use muduo_net_zxl.EventLoop.Pending.{bodies, do_pending_functors-Queued}
use muduo_net_zxl.EventLoop.Wakeup.{next}

abbrev twice : ℕ → List ℕ
twice cb = if cb == 7 then 1 ∷ 2 ∷ [] else []

abbrev busy : EventLoop
busy = record {
  looping = true;
  is_quit = false;
  calling_pending_functors = false;
  pending_functors = 7 ∷ 8 ∷ [];
  wakeups = 0;
}

do_pending_functors-Queued_example :
    let l' = do_pending_functors twice busy in
    (l'.pending_functors ≡ bodies twice (7 ∷ 8 ∷ []))
    × (l'.wakeups ≡ 0 + length (bodies twice (7 ∷ 8 ∷ [])))
    × (l'.calling_pending_functors ≡ false)
    × (l'.is_quit ≡ false)
do_pending_functors-Queued_example = do_pending_functors-Queued twice busy

abbrev two_loops : EventLoopThreadPool
two_loops = record { base_loop = 1; started = true; num_threads = 2; next = 0; loops = 5 ∷ 6 ∷ [] }
