-- ===== src/TimerQueue/Cancel.antt =====
-- `cancelInLoop`: what it does to a timer whose number it is given, and what it does with the ids
-- that `addTimer` returns.
use muduo_net_zxl.Prelude.{
  ℕ, ◌≡◌, ◌≢◌, refl, true, false, none, some, arith, length, ◌==◌, Bool-cases, inl, inr,
}
use muduo_net_zxl.TimerQueue.OrderedSet.{
  has, set_insert, set_erase, set_erase-Sorted, has-set_erase, length-set_erase,
}
use muduo_net_zxl.TimerQueue.{Timer, TimerQueue, timer_id, put, cancel_in_loop}
use muduo_net_zxl.TimerQueue.Valid.{IsValid}

module _ (q : TimerQueue) (a s : ℕ) (v : IsValid q) (active : has (a, s) q.active_timers ≡ true)
    (t : Timer) (live : q.heap a ≡ some t) (number : t.sequence ≡ s)
    (queued : has (t.expiration, a) q.timers ≡ true) where
  abbrev cancelled : TimerQueue
  cancelled = record q {
    timers = set_erase (t.expiration, a) q.timers;
    active_timers = set_erase (a, s) q.active_timers;
    heap = put q.heap a none;
  }

  -- The cancelled address is in neither set any more.
  not_queued : (when : ℕ) → has (when, a) cancelled.timers ≡ false
  not_queued when = elim (Bool-cases (has (when, a) q.timers)) [
    | inl h ↦
        let (u, l, x, y) = v.timer_of when a h in
        ground (arith, has-set_erase (t.expiration, a) (when, a) q.timers)
    | inr h ↦ ground (arith, has-set_erase (t.expiration, a) (when, a) q.timers)
  ]

  not_active : (r : ℕ) → has (a, r) cancelled.active_timers ≡ false
  not_active r = elim (Bool-cases (has (a, r) q.active_timers)) [
    | inl h ↦
        let (u, l, x, y) = v.active_of a r h in
        ground (arith, has-set_erase (a, s) (a, r) q.active_timers)
    | inr h ↦ ground (arith, has-set_erase (a, s) (a, r) q.active_timers)
  ]

  sizes_lem : length cancelled.timers ≡ length cancelled.active_timers
  sizes_lem = omega (
    arith,
    length-set_erase (t.expiration, a) q.timers v.timers_sorted queued,
    length-set_erase (a, s) q.active_timers v.active_sorted active,
    v.sizes,
  )

  cancelled-timer_of :
      (when b : ℕ)
      → has (when, b) cancelled.timers ≡ true
      → (u : Timer) × (cancelled.heap b ≡ some u)
        × (u.expiration ≡ when)
        × (has (b, u.sequence) cancelled.active_timers ≡ true)
  cancelled-timer_of when b h = elim (Bool-cases (b == a)) [
    | inl e ↦ absurd (ground (arith, not_queued when))
    | inr n ↦
        let (u, l, x, y) =
          v.timer_of when b (ground (arith, has-set_erase (t.expiration, a) (when, b) q.timers)) in
        (u, ground arith, x, ground (arith, has-set_erase (a, s) (b, u.sequence) q.active_timers))
  ]

  cancelled-active_of :
      (b r : ℕ)
      → has (b, r) cancelled.active_timers ≡ true
      → (u : Timer) × (cancelled.heap b ≡ some u)
        × (u.sequence ≡ r)
        × (has (u.expiration, b) cancelled.timers ≡ true)
  cancelled-active_of b r h = elim (Bool-cases (b == a)) [
    | inl e ↦ absurd (ground (arith, not_active r))
    | inr n ↦
        let (u, l, x, y) =
          v.active_of b r (ground (arith, has-set_erase (a, s) (b, r) q.active_timers)) in
        (
          u,
          ground arith,
          x,
          ground (arith, has-set_erase (t.expiration, a) (u.expiration, b) q.timers),
        )
  ]

  cancelled-IsValid : IsValid cancelled
  cancelled-IsValid = record {
    timers_sorted = set_erase-Sorted (t.expiration, a) q.timers v.timers_sorted;
    active_sorted = set_erase-Sorted (a, s) q.active_timers v.active_sorted;
    sizes = sizes_lem;
    timer_of = cancelled-timer_of;
    active_of = cancelled-active_of;
    numbered = λ b u l. v.numbered b u (ground arith);
  }

  cancel_in_loop-cancelled : cancel_in_loop q (record { timer = a; sequence = s }) ≡ some cancelled
  unfolding cancel_in_loop
  cancel_in_loop-cancelled = ground (arith, active, live, queued, sizes_lem, v.sizes)

-- What a cancellation that finds its timer leaves: the timer is deleted and in neither set, and every
-- other timer is queued as before.
pub record Cancelled (q : TimerQueue) (a : ℕ) (q' : TimerQueue) : Type 0 where
  pub valid : IsValid q'
  pub deleted : q'.heap a ≡ none
  pub unqueued : (when : ℕ) → has (when, a) q'.timers ≡ false
  pub inactive : (r : ℕ) → has (a, r) q'.active_timers ≡ false
  pub others : (when b : ℕ) → b ≢ a → has (when, b) q'.timers ≡ has (when, b) q.timers
  pub alive : (b : ℕ) → b ≢ a → q'.heap b ≡ q.heap b
  pub fewer : (b r : ℕ) → has (b, r) q'.active_timers ≡ true → has (b, r) q.active_timers ≡ true
  pub same_calling : q'.calling_expired_timers ≡ q.calling_expired_timers

-- Given the address and the number of a timer that is queued, `cancelInLoop` fails no assertion,
-- deletes that timer alone, and keeps the queue valid.
pub cancel_in_loop-Cancelled :
    (q : TimerQueue) (a s : ℕ)
    → IsValid q
    → has (a, s) q.active_timers ≡ true
    → (q' : TimerQueue) × (cancel_in_loop q (record { timer = a; sequence = s }) ≡ some q')
      × Cancelled q a q'
cancel_in_loop-Cancelled q a s v h =
    let (t, l, x, y) = v.active_of a s h in
    (
      cancelled q a s v h t l x y,
      cancel_in_loop-cancelled q a s v h t l x y,
      record {
        valid = cancelled-IsValid q a s v h t l x y;
        deleted = ground arith;
        unqueued = not_queued q a s v h t l x y;
        inactive = not_active q a s v h t l x y;
        others = λ when b n. ground (arith, has-set_erase (t.expiration, a) (when, b) q.timers);
        alive = λ b n. let k : (b == a) ≡ false = ground arith in ground arith;
        fewer = λ b r k. ground (arith, has-set_erase (a, s) (b, r) q.active_timers);
        same_calling = refl;
      },
    )

-- No queued timer has the number 0.
no_zero : (q : TimerQueue) (a : ℕ) → IsValid q → has (a, 0) q.active_timers ≡ false
no_zero q a v = elim (Bool-cases (has (a, 0) q.active_timers)) [
  | inl h ↦ let (t, l, x, y) = v.active_of a 0 h in ground (arith, v.numbered a t l)
  | inr h ↦ h
]

-- The id that `addTimer` returns never cancels anything: whatever address it names, the same timers
-- stay queued, none is deleted, and the timer descriptor is not touched.
pub cancel-timer_id :
    (q : TimerQueue) (a : ℕ)
    → IsValid q
    → (q' : TimerQueue) × (cancel_in_loop q (timer_id a) ≡ some q')
      × (q'.timers ≡ q.timers)
      × (q'.active_timers ≡ q.active_timers)
      × (q'.heap ≡ q.heap)
      × (q'.armed ≡ q.armed)
unfolding cancel_in_loop timer_id
cancel-timer_id q a v = elim (Bool-cases q.calling_expired_timers) [
  | inl c ↦ (
    record q { canceling_timers = set_insert (a, 0) q.canceling_timers },
    ground (arith, no_zero q a v, v.sizes),
    refl,
    refl,
    refl,
    refl,
  )
  | inr c ↦ (q, ground (arith, no_zero q a v, v.sizes), refl, refl, refl, refl)
]
