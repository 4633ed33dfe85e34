-- ===== src/EventLoopThread.antt =====
-- EventLoopThread.h and EventLoopThread.cc: the thread that calls `startLoop` and the new thread that runs
-- `threadFunc`, one step of either at a time, with the mutex and the condition variable that they share.
-- A pointer is `none` when it is NULL; `own` is the address of the new thread's loop.
pub mod Handover
pub mod Progress
mod Tests
use muduo_net_zxl.Prelude.{ℕ, ◌≡◌, Option, none, some}

-- Where `startLoop` is: before `thread_.start()`, before the lock, before the test of `loop_`, in
-- `cond_.wait()`, woken there but without the lock, behind the block, and back with what it read.
pub data Starter : Type 0 where
  before_start before_lock testing waiting woken reading : Starter
  returned : Option ℕ → Starter

-- Where `threadFunc` is: not called, before the constructor of its loop is done, before the lock, before
-- the assignment, before `notify`, before the end of the block, and in `loop_->loop()`.
pub data Runner : Type 0 where
  not_called constructing locking storing notifying unlocking looping : Runner

pub data Mutex : Type 0 where
  free by_starter by_runner : Mutex

pub record EventLoopThread : Type 0 where
  pub loop_ : Option ℕ
  pub mutex : Mutex
  pub starter : Starter
  pub runner : Runner

unfoldable pub init : EventLoopThread
init = record { loop_ = none; mutex = free; starter = before_start; runner = not_called }

-- `notify` wakes the thread that waits, if one does.
abbrev pub notify : Starter → Starter
notify before_start = before_start
notify before_lock = before_lock
notify testing = testing
notify waiting = woken
notify woken = woken
notify reading = reading
notify (returned x) = returned x

module _ (own : ℕ) where
  -- The steps of `startLoop`.
  pub data StartLoop : EventLoopThread → EventLoopThread → Type 0 where
    start :
        (t : EventLoopThread)
        → t.starter ≡ before_start
        → StartLoop t (record t { starter = before_lock; runner = constructing })
    lock_starter :
        (t : EventLoopThread)
        → t.starter ≡ before_lock
        → t.mutex ≡ free
        → StartLoop t (record t { starter = testing; mutex = by_starter })
    wait :
        (t : EventLoopThread)
        → t.starter ≡ testing
        → t.loop_ ≡ none
        → StartLoop t (record t { starter = waiting; mutex = free })
    relock :
        (t : EventLoopThread)
        → t.starter ≡ woken
        → t.mutex ≡ free
        → StartLoop t (record t { starter = testing; mutex = by_starter })
    leave :
        (t : EventLoopThread) (l : ℕ)
        → t.starter ≡ testing
        → t.loop_ ≡ some l
        → StartLoop t (record t { starter = reading; mutex = free })
    return_ :
        (t : EventLoopThread)
        → t.starter ≡ reading
        → StartLoop t (record t { starter = returned t.loop_ })

  -- The steps of `threadFunc`.
  pub data ThreadFunc : EventLoopThread → EventLoopThread → Type 0 where
    construct :
        (t : EventLoopThread)
        → t.runner ≡ constructing
        → ThreadFunc t (record t { runner = locking })
    lock_runner :
        (t : EventLoopThread)
        → t.runner ≡ locking
        → t.mutex ≡ free
        → ThreadFunc t (record t { runner = storing; mutex = by_runner })
    store :
        (t : EventLoopThread)
        → t.runner ≡ storing
        → ThreadFunc t (record t { runner = notifying; loop_ = some own })
    notify_ :
        (t : EventLoopThread)
        → t.runner ≡ notifying
        → ThreadFunc t (record t { runner = unlocking; starter = notify t.starter })
    unlock :
        (t : EventLoopThread)
        → t.runner ≡ unlocking
        → ThreadFunc t (record t { runner = looping; mutex = free })

  pub data Step (t u : EventLoopThread) : Type 0 where
    starts : StartLoop t u → Step t u
    runs : ThreadFunc t u → Step t u

  -- A wake-up that nobody asked for.
  pub data Spurious : EventLoopThread → EventLoopThread → Type 0 where
    wakes : (t : EventLoopThread) → t.starter ≡ waiting → Spurious t (record t { starter = woken })
