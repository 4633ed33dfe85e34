-- ===== src/EventLoopThread/Progress.antt =====
-- Under every schedule `startLoop` returns.
use muduo_net_zxl.Prelude.{
  ℕ, ◌+◌, ◌*◌, ◌≤◌, ◌≡◌, ◌⊎◌, refl, ap, ◌∙◌, true, false, Option, some, arith, inl, inr,
  Option-cases,
}
use muduo_net_zxl.EventLoopThread.{
  Starter, before_start, before_lock, testing, waiting, woken, reading, returned, Runner,
  not_called, constructing, locking, storing, notifying, unlocking, looping, Mutex, free,
  by_starter, by_runner, EventLoopThread, init, notify, StartLoop, start, lock_starter, wait,
  relock, leave, return_, ThreadFunc, construct, lock_runner, store, notify_, unlock, Step, starts,
  runs, Spurious, wakes,
}
use muduo_net_zxl.EventLoopThread.Handover.{
  IsValid, is_testing, holds, init-IsValid, StartLoop-IsValid, ThreadFunc-IsValid,
}

-- Steps of the two threads from the beginning, and wake-ups that nobody asked for, with how many of each.
pub data Run (own : ℕ) : ℕ → ℕ → EventLoopThread → Type 0 where
  here : Run own 0 0 init
  steps : {n s : ℕ} {t u : EventLoopThread} → Run own n s t → Step own t u → Run own (n + 1) s u
  wakes_up :
      {n s : ℕ} {t u : EventLoopThread} → Run own n s t → Spurious own t u → Run own n (s + 1) u

Spurious-IsValid :
    (own : ℕ) {t u : EventLoopThread} → Spurious own t u → IsValid own t → IsValid own u
Spurious-IsValid own (wakes t s) v = record {
  starter_holds = ground (arith, v.starter_holds, s);
  runner_holds = v.runner_holds;
  loop_stored = v.loop_stored;
  called = ground (arith, v.called, s);
  awake = λ h. cc;
  seen = λ h. cc;
  result = λ x h. cc;
}

Step-IsValid : (own : ℕ) {t u : EventLoopThread} → Step own t u → IsValid own t → IsValid own u
Step-IsValid own (starts s) v = StartLoop-IsValid own s v
Step-IsValid own (runs r) v = ThreadFunc-IsValid own r v

-- What a thread has still to do.
abbrev starter_left : Starter → ℕ
starter_left before_start = 5
starter_left before_lock = 4
starter_left testing = 3
starter_left waiting = 2
starter_left woken = 4
starter_left reading = 1
starter_left (returned x) = 0

abbrev runner_left : Runner → ℕ
runner_left not_called = 7
runner_left constructing = 7
runner_left locking = 6
runner_left storing = 5
runner_left notifying = 4
runner_left unlocking = 1
runner_left looping = 0

abbrev left : EventLoopThread → ℕ
left t = starter_left t.starter + runner_left t.runner

notify_left : (s : Starter) → starter_left (notify s) ≤ starter_left s + 2
notify_left before_start = omega arith
notify_left before_lock = omega arith
notify_left testing = omega arith
notify_left waiting = omega arith
notify_left woken = omega arith
notify_left reading = omega arith
notify_left (returned x) = omega arith

StartLoop-left :
    (own : ℕ) {t u : EventLoopThread} → IsValid own t → StartLoop own t u → left u + 1 ≤ left t
StartLoop-left own v (start t s) = ground (arith, s, v.called)
StartLoop-left own v (lock_starter t s m) = ground (arith, s)
StartLoop-left own v (wait t s l) = ground (arith, s)
StartLoop-left own v (relock t s m) = ground (arith, s)
StartLoop-left own v (leave t l s e) = ground (arith, s)
StartLoop-left own v (return_ t s) = ground (arith, s)

ThreadFunc-left : (own : ℕ) {t u : EventLoopThread} → ThreadFunc own t u → left u + 1 ≤ left t
ThreadFunc-left own (construct t r) = ground (arith, r)
ThreadFunc-left own (lock_runner t r m) = ground (arith, r)
ThreadFunc-left own (store t r) = ground (arith, r)
ThreadFunc-left own (notify_ t r) =
    let z : runner_left t.runner ≡ 4 = ap runner_left r in omega (arith, notify_left t.starter, z)
ThreadFunc-left own (unlock t r) = ground (arith, r)

Step-left : (own : ℕ) {t u : EventLoopThread} → IsValid own t → Step own t u → left u + 1 ≤ left t
Step-left own v (starts s) = StartLoop-left own v s
Step-left own v (runs r) = ThreadFunc-left own r

Spurious-left : (own : ℕ) {t u : EventLoopThread} → Spurious own t u → left u ≤ left t + 2
Spurious-left own (wakes t s) = ground (arith, s)

Run-lem :
    {own n s : ℕ} {t : EventLoopThread} → Run own n s t → IsValid own t × (n + left t ≤ 12 + 2 * s)
unfolding init
Run-lem {own} here = (init-IsValid own, omega arith)
Run-lem {own} (steps r x) =
    let (v, l) = Run-lem r in (Step-IsValid own x v, omega (arith, l, Step-left own v x))
Run-lem {own} (wakes_up r x) =
    let (v, l) = Run-lem r in (Spurious-IsValid own x v, omega (arith, l, Spurious-left own x))

abbrev CanStep : ℕ → EventLoopThread → Type 0
CanStep own t = (u : EventLoopThread) × Step own t u

-- Who is inside goes on.
inside-CanStep :
    (own : ℕ) (t : EventLoopThread) (r : Runner) → t.runner ≡ r → holds r ≡ true → CanStep own t
inside-CanStep own t storing e h = (_, runs (store t e))
inside-CanStep own t notifying e h = (_, runs (notify_ t e))
inside-CanStep own t unlocking e h = (_, runs (unlock t e))
inside-CanStep own t not_called e h = cc
inside-CanStep own t constructing e h = cc
inside-CanStep own t locking e h = cc
inside-CanStep own t looping e h = cc

-- A thread that wants the lock gets it, or the other one goes on.
lock-CanStep :
    (own : ℕ) (t : EventLoopThread) (m : Mutex)
    → IsValid own t
    → t.mutex ≡ m
    → is_testing t.starter ≡ false
    → (t.mutex ≡ free → CanStep own t)
    → CanStep own t
lock-CanStep own t free v e n k = k e
lock-CanStep own t by_starter v e n k = absurd (ground (arith, v.starter_holds, e, n))
lock-CanStep own t by_runner v e n k =
    inside-CanStep own t t.runner refl (ground (arith, v.runner_holds, e))

waiting-CanStep :
    (own : ℕ) (t : EventLoopThread) (r : Runner)
    → IsValid own t
    → t.starter ≡ waiting
    → t.runner ≡ r
    → CanStep own t
waiting-CanStep own t not_called v s e = absurd (ground (arith, v.called, s, e))
waiting-CanStep own t constructing v s e = (_, runs (construct t e))
waiting-CanStep own t locking v s e =
    lock-CanStep own t t.mutex v refl (ground (arith, s)) (λ m. (_, runs (lock_runner t e m)))
waiting-CanStep own t storing v s e = (_, runs (store t e))
waiting-CanStep own t notifying v s e = (_, runs (notify_ t e))
waiting-CanStep own t unlocking v s e = absurd (ground (arith, v.awake, s, e))
waiting-CanStep own t looping v s e = absurd (ground (arith, v.awake, s, e))

goes_on :
    (own : ℕ) (t : EventLoopThread) (s : Starter)
    → IsValid own t
    → t.starter ≡ s
    → (t.starter ≡ returned (some own)) ⊎ CanStep own t
goes_on own t before_start v e = inr (_, starts (start t e))
goes_on own t before_lock v e =
    inr (
      lock-CanStep own t t.mutex v refl (ground (arith, e)) (λ m. (_, starts (lock_starter t e m))))
goes_on own t testing v e = elim (Option-cases t.loop_) [
  | inl n ↦ inr (_, starts (wait t e n))
  | inr (l, n) ↦ inr (_, starts (leave t l e n))
]
goes_on own t waiting v e = inr (waiting-CanStep own t t.runner v e refl)
goes_on own t woken v e =
    inr (lock-CanStep own t t.mutex v refl (ground (arith, e)) (λ m. (_, starts (relock t e m))))
goes_on own t reading v e = inr (_, starts (return_ t e))
goes_on own t (returned x) v e = inl (e ∙ ap returned (v.result x e))

-- Under every schedule of the two threads, `startLoop` returns, with the new thread's loop and never with
-- NULL: as long as it has not returned, one of the threads can take a step, and there are at most twelve
-- steps and two more for each wake-up that nobody asked for. No notification is lost.
pub start_loop_returns :
    {own n s : ℕ} {t : EventLoopThread}
    → Run own n s t
    → (n ≤ 12 + 2 * s)
      × ((t.starter ≡ returned (some own)) ⊎ ((u : EventLoopThread) × Step own t u))
      × ((x : Option ℕ) → t.starter ≡ returned x → x ≡ some own)
start_loop_returns {own} {t = t} r =
    let (v, l) = Run-lem r in (omega (arith, l), goes_on own t t.starter v refl, v.result)
