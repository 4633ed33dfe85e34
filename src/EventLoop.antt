-- ===== src/EventLoop.antt =====
-- EventLoop.h, EventLoop.cc, EventLoopThreadPool.h and EventLoopThreadPool.cc: the functors that wait
-- for the loop's thread, the event descriptor that wakes it, and a pool of loops. A functor is a
-- number, and `body` says which functors it queues in the loop when it runs.
pub mod Pending
pub mod Wakeup
pub mod Pool
mod Tests
use muduo_net_zxl.Prelude.{
  ℕ, zero, suc, ◌+◌, Bool, true, false, not, ◌&&◌, ◌||◌, Option, none, some, List, [], ◌∷◌, ◌++◌,
  if◌then◌else◌, length, leb, get_elem?, ◌>>=◌, assert, ◌==◌,
}

-- `wakeups` is the count of the event descriptor.
pub record EventLoop : Type 0 where
  pub looping : Bool
  pub is_quit : Bool
  pub calling_pending_functors : Bool
  pub pending_functors : List ℕ
  pub wakeups : ℕ

unfoldable pub init : EventLoop
init = record {
  looping = false;
  is_quit = false;
  calling_pending_functors = false;
  pending_functors = [];
  wakeups = 0;
}

unfoldable pub wakeup : EventLoop → EventLoop
wakeup l = record l { wakeups = l.wakeups + 1 }

-- A read takes the whole count.
unfoldable pub handle_read : EventLoop → EventLoop
handle_read l = record l { wakeups = 0 }

-- `pendingFunctors_.push_back(cb)`, under the mutex.
unfoldable pub push_back : EventLoop → ℕ → EventLoop
push_back l cb = record l { pending_functors = l.pending_functors ++ cb ∷ [] }

unfoldable pub queue_in_loop : Bool → EventLoop → ℕ → EventLoop
queue_in_loop is_in_loop_thread l cb =
    let l1 = push_back l cb in
    if not is_in_loop_thread || l1.calling_pending_functors then wakeup l1 else l1

unfoldable pub quit : Bool → EventLoop → EventLoop
quit is_in_loop_thread l =
    let l1 = record l { is_quit = true } in if not is_in_loop_thread then wakeup l1 else l1

unfoldable pub queue_all : EventLoop → List ℕ → EventLoop
queue_all l [] = l
queue_all l (cb ∷ cbs) = queue_all (queue_in_loop true l cb) cbs

-- `functors.swap(pendingFunctors_)`, behind `callingPendingFunctors_ = true`.
unfoldable pub swap : EventLoop → List ℕ × EventLoop
swap l = (l.pending_functors, record l { calling_pending_functors = true; pending_functors = [] })

-- What the callback of an active channel does to the loop.
pub data Active : Type 0 where
  wakes : Active
  queues : List ℕ → Active
  quits : Active

unfoldable pub handle_event : EventLoop → Active → EventLoop
handle_event l wakes = handle_read l
handle_event l (queues cbs) = queue_all l cbs
handle_event l quits = quit true l

unfoldable pub handle_events : EventLoop → List Active → EventLoop
handle_events l [] = l
handle_events l (a ∷ as_) = handle_events (handle_event l a) as_

module _ (body : ℕ → List ℕ) where
  unfoldable pub run_in_loop : Bool → EventLoop → ℕ → EventLoop
  run_in_loop is_in_loop_thread l cb =
      if is_in_loop_thread then queue_all l (body cb) else queue_in_loop is_in_loop_thread l cb

  unfoldable pub run_functors : EventLoop → List ℕ → EventLoop
  run_functors l [] = l
  run_functors l (cb ∷ cbs) = run_functors (queue_all l (body cb)) cbs

  unfoldable pub do_pending_functors : EventLoop → EventLoop
  do_pending_functors l = record (run_functors (swap l).1 (swap l).0) {
    calling_pending_functors = false;
  }

  -- The `while`, over what each `poll` returns. Where these run out, the loop waits in `poll`.
  unfoldable pub while_not_quit : EventLoop → List (List Active) → EventLoop
  while_not_quit l [] = if l.is_quit then record l { looping = false } else l
  while_not_quit l (active_channels ∷ polls) =
      let rest = while_not_quit (do_pending_functors (handle_events l active_channels)) polls in
      if l.is_quit then record l { looping = false } else rest

  unfoldable pub loop : EventLoop → List (List Active) → Option EventLoop
  loop l polls = do
    _ ← assert (not l.looping)
    some (while_not_quit (record l { looping = true; is_quit = false }) polls)

-- A pool of loops, which are numbers.
pub record EventLoopThreadPool : Type 0 where
  pub base_loop : ℕ
  pub started : Bool
  pub num_threads : ℕ
  pub next : ℕ
  pub loops : List ℕ

unfoldable pub new_pool : ℕ → EventLoopThreadPool
new_pool base_loop = record {
  base_loop = base_loop;
  started = false;
  num_threads = 0;
  next = 0;
  loops = [];
}

unfoldable pub set_thread_num : EventLoopThreadPool → ℕ → EventLoopThreadPool
set_thread_num p num_threads = record p { num_threads = num_threads }

-- `start_loop` gives the loop of the `i`-th new thread.
unfoldable pub start_threads : (ℕ → ℕ) → ℕ → ℕ → List ℕ
start_threads start_loop i zero = []
start_threads start_loop i (suc n) = start_loop i ∷ start_threads start_loop (i + 1) n

unfoldable pub start : (ℕ → ℕ) → EventLoopThreadPool → Option EventLoopThreadPool
start start_loop p = do
  _ ← assert (not p.started)
  some (record p { started = true; loops = p.loops ++ start_threads start_loop 0 p.num_threads })

-- An index out of range is `none`.
unfoldable pub get_next_loop : EventLoopThreadPool → Option (ℕ × EventLoopThreadPool)
get_next_loop p = if length p.loops == 0 then some (p.base_loop, p) else (do
  loop_ ← get_elem? p.loops p.next
  let next_ = p.next + 1
  some (loop_, record p { next = if leb (length p.loops) next_ then 0 else next_ }))

-- So many calls, one after another.
unfoldable pub get_next_loops : ℕ → EventLoopThreadPool → Option (List ℕ × EventLoopThreadPool)
get_next_loops zero p = some ([], p)
get_next_loops (suc n) p = do
  r ← get_next_loop p
  rest ← get_next_loops n r.1
  some (r.0 ∷ rest.0, rest.1)
