-- ===== src/TimerQueue.antt =====
-- Timer.h, Timer.cc, TimerId.h, TimerQueue.h and TimerQueue.cc: timers on the heap, and the two sets
-- in which a queue keeps them. A failed `assert` and a use of a deleted timer are `none`.
-- A `Timestamp` is its microseconds, 0 if invalid; a `double` is its bit pattern, and what the code
-- does with it (`> 1.0`, `addTime`) is a parameter. `runInLoop` runs at once, in the loop's thread.
pub mod OrderedSet
pub mod Valid
pub mod Insert
pub mod Cancel
pub mod Expire
pub mod Settime
pub mod Running
pub mod Reset
pub mod Handle
mod Tests
use OrderedSet.{Pair, less, same, set_insert, set_erase, has, split_at}
use muduo_net_zxl.Prelude.{
  ℕ, zero, suc, ◌+◌, ◌-◌, ◌*◌, ◌/◌, ◌%◌, ◌^◌, ◌≡◌, Bool, true, false, not, ◌&&◌, ◌||◌, Option, none,
  some, List, [], ◌∷◌, ◌++◌, ◌==◌, ltb, leb, if◌then◌else◌, length, ◌>>=◌, assert,
}

pub record Timer : Type 0 where
  pub expiration : ℕ
  pub interval : ℕ
  pub repeat : Bool
  pub sequence : ℕ

pub record TimerId : Type 0 where
  pub timer : ℕ
  pub sequence : ℕ

-- `explicit TimerId(Timer *timer = NULL, int64_t seq = 0)`, called with the timer alone.
unfoldable pub timer_id : ℕ → TimerId
timer_id timer = record { timer = timer; sequence = 0 }

-- `heap` holds the timers that are not deleted; `armed` is the last expiration given to the timer
-- descriptor; `num_created` is the counter of all timers.
pub record TimerQueue : Type 0 where
  pub timers : List Pair
  pub active_timers : List Pair
  pub canceling_timers : List Pair
  pub calling_expired_timers : Bool
  pub heap : ℕ → Option Timer
  pub armed : Option ℕ
  pub num_created : ℕ

abbrev pub put : (ℕ → Option Timer) → ℕ → Option Timer → ℕ → Option Timer
put heap a t b = if b == a then t else heap b

unfoldable pub init : TimerQueue
init = record {
  timers = [];
  active_timers = [];
  canceling_timers = [];
  calling_expired_timers = false;
  heap = λ a. none;
  armed = none;
  num_created = 0;
}

abbrev pub invalid : ℕ
invalid = 0

abbrev pub sizes_agree : TimerQueue → Bool
sizes_agree q = length q.timers == length q.active_timers

-- `it == timers_.end() || when < it->first`.
abbrev pub is_earliest : ℕ → List Pair → Bool
is_earliest when [] = true
is_earliest when (e ∷ es) = ltb when e.0

unfoldable pub insert : TimerQueue → ℕ → Option (Bool × TimerQueue)
insert q a = do
  timer ← q.heap a
  _ ← assert (sizes_agree q)
  let when = timer.expiration
  let earliest_changed = is_earliest when q.timers
  _ ← assert (not (has (when, a) q.timers))
  _ ← assert (not (has (a, timer.sequence) q.active_timers))
  let q' = record q {
    timers = set_insert (when, a) q.timers;
    active_timers = set_insert (a, timer.sequence) q.active_timers;
  }
  _ ← assert (sizes_agree q')
  some (earliest_changed, q')

unfoldable pub add_timer_in_loop : TimerQueue → ℕ → Option TimerQueue
add_timer_in_loop q a = do
  timer ← q.heap a
  r ← insert q a
  some (if r.0 then record r.1 { armed = some timer.expiration } else r.1)

unfoldable pub cancel_in_loop : TimerQueue → TimerId → Option TimerQueue
cancel_in_loop q id = do
  _ ← assert (sizes_agree q)
  let key = let k : Pair = (id.timer, id.sequence) in k
  q' ←
      if has key q.active_timers
      then (do
        timer ← q.heap id.timer
        _ ← assert (has (timer.expiration, id.timer) q.timers)
        some (record q {
          timers = set_erase (timer.expiration, id.timer) q.timers;
          active_timers = set_erase key q.active_timers;
          heap = put q.heap id.timer none;
        }))
      else some (
          if q.calling_expired_timers
          then record q { canceling_timers = set_insert key q.canceling_timers }
          else q)
  _ ← assert (sizes_agree q')
  some q'

-- The loop of `getExpired` over the entries taken out.
unfoldable pub deactivate : (ℕ → Option Timer) → List Pair → List Pair → Option (List Pair)
deactivate heap [] active = some active
deactivate heap ((when, a) ∷ es) active = do
  timer ← heap a
  _ ← assert (has (a, timer.sequence) active)
  deactivate heap es (set_erase (a, timer.sequence) active)

-- `UINTPTR_MAX`.
abbrev pub uintptr_max : ℕ
uintptr_max = 2 ^ 64 - 1

abbrev pub starts_after : ℕ → List Pair → Bool
starts_after now [] = true
starts_after now (e ∷ es) = ltb now e.0

unfoldable pub get_expired : TimerQueue → ℕ → Option (List Pair × TimerQueue)
get_expired q now = do
  _ ← assert (sizes_agree q)
  let parts = split_at (now, uintptr_max) q.timers
  _ ← assert (starts_after now parts.1)
  active ← deactivate q.heap parts.0 q.active_timers
  let q' = record q { timers = parts.1; active_timers = active }
  _ ← assert (sizes_agree q')
  some (parts.0, q')

-- `howMuchTimerFromNow`: seconds and nanoseconds.
unfoldable pub how_much_timer_from_now : ℕ → ℕ → ℕ × ℕ
how_much_timer_from_now when now =
    let microseconds = if ltb when (now + 100) then 100 else when - now in
    (microseconds / 1000000, microseconds % 1000000 * 1000)

-- What a callback does to the queue: it adds a timer, at an address that `new` returned, or cancels
-- one.
pub data Command : Type 0 where
  adds : ℕ → ℕ → ℕ → Command
  cancels : TimerId → Command

module _ (over_one : ℕ → Bool) (add_time : ℕ → ℕ → ℕ) where
  -- The constructor takes the next number of `s_numCreated_`.
  unfoldable pub new_timer : TimerQueue → ℕ → ℕ → ℕ → TimerQueue
  new_timer q a when interval = record q {
    heap = put q.heap a (
        some (record {
          expiration = when;
          interval = interval;
          repeat = over_one interval;
          sequence = q.num_created + 1;
        }));
    num_created = q.num_created + 1;
  }

  -- `a` is the address that `new` returned.
  unfoldable pub add_timer : TimerQueue → ℕ → ℕ → ℕ → Option (TimerId × TimerQueue)
  add_timer q a when interval = do
    q' ← add_timer_in_loop (new_timer q a when interval) a
    some (timer_id a, q')

  unfoldable pub restart : Timer → ℕ → Timer
  restart timer now = record timer {
    expiration = if timer.repeat then add_time now timer.interval else invalid;
  }

  -- One round of the loop of `reset`.
  unfoldable pub reset_one : TimerQueue → ℕ → ℕ → Option TimerQueue
  reset_one q a now = do
    timer ← q.heap a
    if timer.repeat && not (has (a, timer.sequence) q.canceling_timers)
        then (do
          r ← insert (record q { heap = put q.heap a (some (restart timer now)) }) a
          some r.1)
        else some (record q { heap = put q.heap a none })

  unfoldable pub reset_all : TimerQueue → List Pair → ℕ → Option TimerQueue
  reset_all q [] now = some q
  reset_all q ((when, a) ∷ es) now = do q' ← reset_one q a now; reset_all q' es now

  abbrev pub next_expire : TimerQueue → List Pair → Option ℕ
  next_expire q [] = some invalid
  next_expire q ((when, a) ∷ es) = do timer ← q.heap a; some timer.expiration

  unfoldable pub reset : TimerQueue → List Pair → ℕ → Option TimerQueue
  reset q expired now = do
    q' ← reset_all q expired now
    next ← next_expire q' q'.timers
    some (if ltb 0 next then record q' { armed = some next } else q')

  unfoldable pub run_command : TimerQueue → Command → Option TimerQueue
  run_command q (adds a when interval) = do r ← add_timer q a when interval; some r.1
  run_command q (cancels id) = cancel_in_loop q id

  unfoldable pub run_commands : TimerQueue → List Command → Option TimerQueue
  run_commands q [] = some q
  run_commands q (c ∷ cs) = do q' ← run_command q c; run_commands q' cs

  -- `callback` is what the callback of the timer at an address does.
  unfoldable pub run_expired : (ℕ → List Command) → TimerQueue → List Pair → Option TimerQueue
  run_expired callback q [] = some q
  run_expired callback q ((when, a) ∷ es) = do
    timer ← q.heap a
    q' ← run_commands q (callback a)
    run_expired callback q' es

  unfoldable pub handle_read : (ℕ → List Command) → TimerQueue → ℕ → Option TimerQueue
  handle_read callback q now = do
    r ← get_expired q now
    q' ←
        run_expired callback (record r.1 { calling_expired_timers = true; canceling_timers = [] })
          r.0
    reset (record q' { calling_expired_timers = false }) r.0 now
