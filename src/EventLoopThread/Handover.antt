-- ===== src/EventLoopThread/Handover.antt =====
-- `startLoop` waits for the loop of the new thread and returns it.
use muduo_net_zxl.Prelude.{
  ℕ, ◌≡◌, refl, ◌∙◌, Bool, true, false, if◌then◌else◌, Option, none, some, arith,
}
use muduo_net_zxl.EventLoopThread.{
  Starter, before_start, before_lock, testing, waiting, woken, reading, returned, Runner,
  not_called, constructing, locking, storing, notifying, unlocking, looping, Mutex, free,
  by_starter, by_runner, EventLoopThread, init, notify, StartLoop, start, lock_starter, lock_runner,
  wait, relock, leave, return_, ThreadFunc, construct, store, notify_, unlock,
}

abbrev pub is_before : Starter → Bool
is_before before_start = true
is_before before_lock = false
is_before testing = false
is_before waiting = false
is_before woken = false
is_before reading = false
is_before (returned x) = false

abbrev pub is_testing : Starter → Bool
is_testing before_start = false
is_testing before_lock = false
is_testing testing = true
is_testing waiting = false
is_testing woken = false
is_testing reading = false
is_testing (returned x) = false

abbrev pub is_waiting : Starter → Bool
is_waiting before_start = false
is_waiting before_lock = false
is_waiting testing = false
is_waiting waiting = true
is_waiting woken = false
is_waiting reading = false
is_waiting (returned x) = false

abbrev pub is_past : Starter → Bool
is_past before_start = false
is_past before_lock = false
is_past testing = false
is_past waiting = false
is_past woken = false
is_past reading = true
is_past (returned x) = true

abbrev pub is_not_called : Runner → Bool
is_not_called not_called = true
is_not_called constructing = false
is_not_called locking = false
is_not_called storing = false
is_not_called notifying = false
is_not_called unlocking = false
is_not_called looping = false

-- Whether `threadFunc` holds the lock, has stored its loop, has notified.
abbrev pub holds : Runner → Bool
holds not_called = false
holds constructing = false
holds locking = false
holds storing = true
holds notifying = true
holds unlocking = true
holds looping = false

abbrev pub has_stored : Runner → Bool
has_stored not_called = false
has_stored constructing = false
has_stored locking = false
has_stored storing = false
has_stored notifying = true
has_stored unlocking = true
has_stored looping = true

abbrev pub has_notified : Runner → Bool
has_notified not_called = false
has_notified constructing = false
has_notified locking = false
has_notified storing = false
has_notified notifying = false
has_notified unlocking = true
has_notified looping = true

abbrev pub is_by_starter : Mutex → Bool
is_by_starter free = false
is_by_starter by_starter = true
is_by_starter by_runner = false

abbrev pub is_by_runner : Mutex → Bool
is_by_runner free = false
is_by_runner by_starter = false
is_by_runner by_runner = true

-- The lock is held by the thread that is inside; the loop is there once it was stored; nobody sleeps
-- behind the notification; and `startLoop` gets past the wait only with a loop.
pub record IsValid (own : ℕ) (t : EventLoopThread) : Type 0 where
  pub starter_holds : is_testing t.starter ≡ is_by_starter t.mutex
  pub runner_holds : holds t.runner ≡ is_by_runner t.mutex
  pub loop_stored : t.loop_ ≡ (if has_stored t.runner then some own else none)
  pub called : is_before t.starter ≡ is_not_called t.runner
  pub awake : is_waiting t.starter ≡ true → has_notified t.runner ≡ false
  pub seen : is_past t.starter ≡ true → has_stored t.runner ≡ true
  pub result : (x : Option ℕ) → t.starter ≡ returned x → x ≡ some own

pub init-IsValid : (own : ℕ) → IsValid own init
unfolding init
init-IsValid own = record {
  starter_holds = refl;
  runner_holds = refl;
  loop_stored = refl;
  called = refl;
  awake = λ h. cc;
  seen = λ h. cc;
  result = λ x h. cc;
}

not_notified : (r : Runner) → has_stored r ≡ false → has_notified r ≡ false
not_notified not_called h = refl
not_notified constructing h = refl
not_notified locking h = refl
not_notified storing h = refl
not_notified notifying h = refl
not_notified unlocking h = cc
not_notified looping h = cc

-- What a notification leaves of where `startLoop` is.
notify_testing : (s : Starter) → is_testing (notify s) ≡ is_testing s
notify_testing before_start = refl
notify_testing before_lock = refl
notify_testing testing = refl
notify_testing waiting = refl
notify_testing woken = refl
notify_testing reading = refl
notify_testing (returned x) = refl

notify_before : (s : Starter) → is_before (notify s) ≡ is_before s
notify_before before_start = refl
notify_before before_lock = refl
notify_before testing = refl
notify_before waiting = refl
notify_before woken = refl
notify_before reading = refl
notify_before (returned x) = refl

notify_waiting : (s : Starter) → is_waiting (notify s) ≡ false
notify_waiting before_start = refl
notify_waiting before_lock = refl
notify_waiting testing = refl
notify_waiting waiting = refl
notify_waiting woken = refl
notify_waiting reading = refl
notify_waiting (returned x) = refl

notify_returned : (s : Starter) (x : Option ℕ) → notify s ≡ returned x → s ≡ returned x
notify_returned before_start x h = h
notify_returned before_lock x h = h
notify_returned testing x h = h
notify_returned waiting x h = cc
notify_returned woken x h = h
notify_returned reading x h = h
notify_returned (returned y) x h = h

pub StartLoop-IsValid :
    (own : ℕ) {t u : EventLoopThread} → StartLoop own t u → IsValid own t → IsValid own u
StartLoop-IsValid own (start t s) v = record {
  starter_holds = ground (arith, v.starter_holds, s);
  runner_holds = ground (arith, v.runner_holds, v.called, s);
  loop_stored = ground (arith, v.loop_stored, v.called, s);
  called = refl;
  awake = λ h. cc;
  seen = λ h. cc;
  result = λ x h. cc;
}
StartLoop-IsValid own (lock_starter t s m) v = record {
  starter_holds = refl;
  runner_holds = ground (arith, v.runner_holds, m);
  loop_stored = v.loop_stored;
  called = ground (arith, v.called, s);
  awake = λ h. cc;
  seen = λ h. cc;
  result = λ x h. cc;
}
StartLoop-IsValid own (wait t s l) v = record {
  starter_holds = refl;
  runner_holds = ground (arith, v.runner_holds, v.starter_holds, s);
  loop_stored = v.loop_stored;
  called = ground (arith, v.called, s);
  awake = λ h. not_notified t.runner (ground (arith, v.loop_stored, l));
  seen = λ h. cc;
  result = λ x h. cc;
}
StartLoop-IsValid own (relock t s m) v = record {
  starter_holds = refl;
  runner_holds = ground (arith, v.runner_holds, m);
  loop_stored = v.loop_stored;
  called = ground (arith, v.called, s);
  awake = λ h. cc;
  seen = λ h. cc;
  result = λ x h. cc;
}
StartLoop-IsValid own (leave t l s e) v = record {
  starter_holds = refl;
  runner_holds = ground (arith, v.runner_holds, v.starter_holds, s);
  loop_stored = v.loop_stored;
  called = ground (arith, v.called, s);
  awake = λ h. cc;
  seen = λ h. ground (arith, v.loop_stored, e);
  result = λ x h. cc;
}
StartLoop-IsValid own (return_ t s) v = record {
  starter_holds = ground (arith, v.starter_holds, s);
  runner_holds = v.runner_holds;
  loop_stored = v.loop_stored;
  called = ground (arith, v.called, s);
  awake = λ h. cc;
  seen = λ h. ground (arith, v.seen, s);
  result = λ x h. ground (arith, v.seen, s, v.loop_stored, h);
}

pub ThreadFunc-IsValid :
    (own : ℕ) {t u : EventLoopThread} → ThreadFunc own t u → IsValid own t → IsValid own u
ThreadFunc-IsValid own (construct t r) v = record {
  starter_holds = v.starter_holds;
  runner_holds = ground (arith, v.runner_holds, r);
  loop_stored = ground (arith, v.loop_stored, r);
  called = ground (arith, v.called, r);
  awake = λ h. refl;
  seen = λ h. ground (arith, v.seen, h, r);
  result = v.result;
}
ThreadFunc-IsValid own (lock_runner t r m) v = record {
  starter_holds = ground (arith, v.starter_holds, m);
  runner_holds = refl;
  loop_stored = ground (arith, v.loop_stored, r);
  called = ground (arith, v.called, r);
  awake = λ h. refl;
  seen = λ h. ground (arith, v.seen, h, r);
  result = v.result;
}
ThreadFunc-IsValid own (store t r) v = record {
  starter_holds = v.starter_holds;
  runner_holds = ground (arith, v.runner_holds, r);
  loop_stored = refl;
  called = ground (arith, v.called, r);
  awake = λ h. refl;
  seen = λ h. refl;
  result = v.result;
}
ThreadFunc-IsValid own (notify_ t r) v = record {
  starter_holds = notify_testing t.starter ∙ v.starter_holds;
  runner_holds = ground (arith, v.runner_holds, r);
  loop_stored = ground (arith, v.loop_stored, r);
  called = notify_before t.starter ∙ ground (arith, v.called, r);
  awake = λ h. let k = notify_waiting t.starter in cc;
  seen = λ h. refl;
  result = λ x h. v.result x (notify_returned t.starter x h);
}
ThreadFunc-IsValid own (unlock t r) v = record {
  starter_holds = ground (arith, v.starter_holds, v.runner_holds, r);
  runner_holds = refl;
  loop_stored = ground (arith, v.loop_stored, r);
  called = ground (arith, v.called, r);
  awake = λ h. ground (arith, v.awake, h, r);
  seen = λ h. refl;
  result = v.result;
}
