-- ===== src/TimerQueue/Insert.antt =====
-- `addTimer`, `addTimerInLoop` and `insert`.
use muduo_net_zxl.Prelude.{
  ◌≢◌, ℕ, ◌+◌, ◌≤◌, ◌≡◌, refl, Bool, true, false, Option, none, some, arith, length, ◌==◌,
  if◌then◌else◌, Bool-cases, inl, inr,
}
use muduo_net_zxl.TimerQueue.OrderedSet.{
  same, has, set_insert, set_insert-Sorted, has-set_insert, length-set_insert, same_iff,
}
use muduo_net_zxl.TimerQueue.{
  Timer, TimerQueue, timer_id, put, is_earliest, insert, add_timer_in_loop, new_timer, add_timer,
}
use muduo_net_zxl.TimerQueue.Valid.{IsValid}

-- A timer that is in neither set.
abbrev pub Unscheduled : TimerQueue → ℕ → Type 0
Unscheduled q a = (s : ℕ) → has (a, s) q.active_timers ≡ false

module _ (q : TimerQueue) (a : ℕ) (t : Timer) (v : IsValid q) (live : q.heap a ≡ some t)
    (free : Unscheduled q a) where
  abbrev pub inserted : TimerQueue
  inserted = record q {
    timers = set_insert (t.expiration, a) q.timers;
    active_timers = set_insert (a, t.sequence) q.active_timers;
  }

  not_queued : has (t.expiration, a) q.timers ≡ false
  not_queued = elim (Bool-cases (has (t.expiration, a) q.timers)) [
    | inl h ↦ let (u, l, x, y) = v.timer_of t.expiration a h in ground (arith, free u.sequence)
    | inr h ↦ h
  ]

  inserted-timer_of :
      (when b : ℕ)
      → has (when, b) inserted.timers ≡ true
      → (u : Timer) × (q.heap b ≡ some u)
        × (u.expiration ≡ when)
        × (has (b, u.sequence) inserted.active_timers ≡ true)
  inserted-timer_of when b h = elim (Bool-cases (same (t.expiration, a) (when, b))) [
    | inl e ↦ (
      t,
      ground (arith, same_iff (t.expiration, a) (when, b) e),
      ground arith,
      ground (arith, has-set_insert (a, t.sequence) (b, t.sequence) q.active_timers),
    )
    | inr n ↦
        let (u, l, x, y) =
          v.timer_of when b (ground (arith, has-set_insert (t.expiration, a) (when, b) q.timers)) in
        (u, l, x, ground (arith, has-set_insert (a, t.sequence) (b, u.sequence) q.active_timers))
  ]

  inserted-active_of :
      (b s : ℕ)
      → has (b, s) inserted.active_timers ≡ true
      → (u : Timer) × (q.heap b ≡ some u)
        × (u.sequence ≡ s)
        × (has (u.expiration, b) inserted.timers ≡ true)
  inserted-active_of b s h = elim (Bool-cases (same (a, t.sequence) (b, s))) [
    | inl e ↦ (
      t,
      ground arith,
      ground arith,
      ground (arith, has-set_insert (t.expiration, a) (t.expiration, b) q.timers),
    )
    | inr n ↦
        let (u, l, x, y) =
          v.active_of b s (ground (arith, has-set_insert (a, t.sequence) (b, s) q.active_timers)) in
        (u, l, x, ground (arith, has-set_insert (t.expiration, a) (u.expiration, b) q.timers))
  ]

  sizes_lem : length inserted.timers ≡ length inserted.active_timers
  sizes_lem = omega (
    arith,
    length-set_insert (t.expiration, a) q.timers not_queued,
    length-set_insert (a, t.sequence) q.active_timers (free t.sequence),
    v.sizes,
  )

  pub inserted-IsValid : IsValid inserted
  inserted-IsValid = record {
    timers_sorted = set_insert-Sorted (t.expiration, a) q.timers v.timers_sorted;
    active_sorted = set_insert-Sorted (a, t.sequence) q.active_timers v.active_sorted;
    sizes = sizes_lem;
    timer_of = inserted-timer_of;
    active_of = inserted-active_of;
    numbered = v.numbered;
  }

  pub insert-inserted : insert q a ≡ some (is_earliest t.expiration q.timers, inserted)
  unfolding insert
  insert-inserted = ground (arith, not_queued, free t.sequence, sizes_lem, v.sizes)

module _ (q : TimerQueue) (a : ℕ) (t : Timer) (v : IsValid q) (new : q.heap a ≡ none) where
  abbrev pub allocated : TimerQueue
  allocated = record q { heap = put q.heap a (some t); num_created = q.num_created + 1 }

  elsewhere : (b : ℕ) (u : Timer) → q.heap b ≡ some u → allocated.heap b ≡ some u
  elsewhere b u l = let n : (b == a) ≡ false = ground arith in ground arith

  pub allocated-IsValid : 1 ≤ t.sequence → IsValid allocated
  allocated-IsValid h = record {
    timers_sorted = v.timers_sorted;
    active_sorted = v.active_sorted;
    sizes = v.sizes;
    timer_of = λ when b k. let (u, l, x, y) = v.timer_of when b k in (u, elsewhere b u l, x, y);
    active_of = λ b s k. let (u, l, x, y) = v.active_of b s k in (u, elsewhere b u l, x, y);
    numbered = λ b u l. elim (Bool-cases (b == a)) [
      | inl e ↦ ground arith
      | inr n ↦ v.numbered b u (ground arith)
    ];
  }

  pub new_is_Unscheduled : Unscheduled q a
  new_is_Unscheduled s = elim (Bool-cases (has (a, s) q.active_timers)) [
    | inl h ↦ let (u, l, x, y) = v.active_of a s h in ground arith
    | inr h ↦ h
  ]

-- What adding a timer leaves: it is queued, and when no timer was due before it, the timer descriptor
-- is set to it.
pub record Added (q : TimerQueue) (a when interval : ℕ) (repeats : Bool) (q' : TimerQueue)
    : Type 0 where
  pub valid : IsValid q'
  pub queued : q'.timers ≡ set_insert (when, a) q.timers
  pub timer_is :
      q'.heap a
      ≡ some (record {
        expiration = when;
        interval = interval;
        repeat = repeats;
        sequence = q.num_created + 1;
      })
  pub active_is : q'.active_timers ≡ set_insert (a, q.num_created + 1) q.active_timers
  pub others : (b : ℕ) → b ≢ a → q'.heap b ≡ q.heap b
  pub same_calling : q'.calling_expired_timers ≡ q.calling_expired_timers
  pub armed_is : q'.armed ≡ (if is_earliest when q.timers then some when else q.armed)

pub armed-IsValid : (q : TimerQueue) (o : Option ℕ) → IsValid q → IsValid (record q { armed = o })
armed-IsValid q o v = record {
  timers_sorted = v.timers_sorted;
  active_sorted = v.active_sorted;
  sizes = v.sizes;
  timer_of = v.timer_of;
  active_of = v.active_of;
  numbered = v.numbered;
}

module _ (over_one : ℕ → Bool) (add_time : ℕ → ℕ → ℕ) where
  pub add_timer-Added :
      (q : TimerQueue) (a when interval : ℕ)
      → IsValid q
      → q.heap a ≡ none
      → (q' : TimerQueue) × (add_timer over_one add_time q a when interval ≡ some (timer_id a, q'))
        × Added q a when interval (over_one interval) q'
  unfolding add_timer add_timer_in_loop new_timer
  add_timer-Added q a when interval v new =
      let t : Timer = record {
        expiration = when;
        interval = interval;
        repeat = over_one interval;
        sequence = q.num_created + 1;
      } in
      let p = allocated q a t v new in
      let live : p.heap a ≡ some t = ground arith in
      let w = allocated-IsValid q a t v new (omega arith) in
      let free = new_is_Unscheduled q a t v new in
      let i = insert-inserted p a t w live free in
      elim (Bool-cases (is_earliest when q.timers)) [
        | inl e ↦ (
          record (inserted p a t w live free) { armed = some when },
          ground (arith, i),
          record {
            valid = armed-IsValid _ (some when) (inserted-IsValid p a t w live free);
            queued = refl;
            timer_is = live;
            active_is = refl;
            others = λ b n. let h : (b == a) ≡ false = ground arith in ground arith;
            same_calling = refl;
            armed_is = rw e;
          },
        )
        | inr e ↦ (
          inserted p a t w live free,
          ground (arith, i),
          record {
            valid = inserted-IsValid p a t w live free;
            queued = refl;
            timer_is = live;
            active_is = refl;
            others = λ b n. let h : (b == a) ≡ false = ground arith in ground arith;
            same_calling = refl;
            armed_is = rw e;
          },
        )
      ]
