-- ===== src/TimerQueue/Expire.antt =====
-- `getExpired` and the timers that are due.
use muduo_net_zxl.Prelude.{
  ℕ, ◌≤◌, ◌<◌, ◌≡◌, refl, sym, ap, true, false, some, List, [], ◌∷◌, ◌++◌, arith, length,
  Bool-cases, inl, inr,
}
use muduo_net_zxl.TimerQueue.OrderedSet.{
  Pair, Sorted, same, has, set_erase, set_erase-Sorted, has-set_erase, length-set_erase, has-Above,
  same_self, split_at, append-split_at, split_at-AllBelow, split_at-NoneBelow, has-append,
  AllBelow-has, NoneBelow-has,
}
use muduo_net_zxl.TimerQueue.{Timer, TimerQueue, deactivate, get_expired, uintptr_max, starts_after}
use muduo_net_zxl.TimerQueue.Valid.{IsValid}

-- The first timer taken out of both sets.
module _ (q : TimerQueue) (when a : ℕ) (es : List Pair) (v : IsValid q)
    (first : q.timers ≡ (when, a) ∷ es) (t : Timer) (live : q.heap a ≡ some t)
    (due : t.expiration ≡ when) (active : has (a, t.sequence) q.active_timers ≡ true) where
  abbrev dropped : TimerQueue
  dropped = record q { timers = es; active_timers = set_erase (a, t.sequence) q.active_timers }

  sorted : Sorted ((when, a) ∷ es)
  sorted = subst_sorted first v.timers_sorted
    where
      subst_sorted : {xs ys : List Pair} → xs ≡ ys → Sorted xs → Sorted ys
      subst_sorted e s = rw e at s

  still_queued : (w b : ℕ) → has (w, b) es ≡ true → has (w, b) q.timers ≡ true
  unfolding has
  still_queued w b h = rw first (ground arith)

  was_queued :
      (w b : ℕ) → has (w, b) q.timers ≡ true → same (w, b) (when, a) ≡ false → has (w, b) es ≡ true
  unfolding has
  was_queued w b h n = let k : has (w, b) ((when, a) ∷ es) ≡ true = rw first at h in ground arith

  not_again : (w : ℕ) → has (w, a) es ≡ false
  not_again w = elim (Bool-cases (has (w, a) es)) [
    | inl h ↦
        let (u, l, x, y) = v.timer_of w a (still_queued w a h) in
        ground (arith, has-Above (when, a) es sorted.0 sorted.1)
    | inr h ↦ h
  ]

  gone : (r : ℕ) → has (a, r) dropped.active_timers ≡ false
  gone r = elim (Bool-cases (has (a, r) q.active_timers)) [
    | inl h ↦
        let (u, l, x, y) = v.active_of a r h in
        ground (arith, has-set_erase (a, t.sequence) (a, r) q.active_timers)
    | inr h ↦ ground (arith, has-set_erase (a, t.sequence) (a, r) q.active_timers)
  ]

  dropped-IsValid : IsValid dropped
  dropped-IsValid = record {
    timers_sorted = sorted.1;
    active_sorted = set_erase-Sorted (a, t.sequence) q.active_timers v.active_sorted;
    sizes = omega (
      arith,
      ap length first,
      length-set_erase (a, t.sequence) q.active_timers v.active_sorted active,
      v.sizes,
    );
    timer_of = λ w b h.
        let (u, l, x, y) = v.timer_of w b (still_queued w b h) in
        (
          u,
          l,
          x,
          ground
              (arith, not_again w, has-set_erase (a, t.sequence) (b, u.sequence) q.active_timers),
        );
    active_of = λ b r h.
        let (u, l, x, y) =
          v.active_of b r (ground (arith, has-set_erase (a, t.sequence) (b, r) q.active_timers)) in
        (u, l, x, was_queued u.expiration b y (ground (arith, gone r)));
    numbered = v.numbered;
  }

has_first : (x : Pair) (xs ys : List Pair) → ys ≡ x ∷ xs → has x ys ≡ true
unfolding has
has_first x xs ys e = rw e (rw same_self)

-- The loop takes a whole prefix out of the set by address.
deactivate-IsValid :
    (q : TimerQueue) (xs rest : List Pair)
    → IsValid q
    → q.timers ≡ xs ++ rest
    → (active : List Pair) × (deactivate q.heap xs q.active_timers ≡ some active)
      × IsValid (record q { timers = rest; active_timers = active })
unfolding deactivate
deactivate-IsValid q [] rest v e = (q.active_timers, refl, rw (← e) v)
deactivate-IsValid q ((when, a) ∷ es) rest v e =
    let (t, l, x, y) = v.timer_of when a (has_first (when, a) (es ++ rest) q.timers e) in
    let w = dropped-IsValid q when a (es ++ rest) v e t l x y in
    let (active, d, u) =
      deactivate-IsValid (dropped q when a (es ++ rest) v e t l x y) es rest w refl in
    (active, ground (arith, d), u)

-- What `getExpired` leaves: a valid queue that keeps every timer and loses exactly those that are due.
pub record Expired (q : TimerQueue) (now : ℕ) (expired : List Pair) (q' : TimerQueue) : Type 0 where
  pub valid : IsValid q'
  pub split : expired ++ q'.timers ≡ q.timers
  pub due : (when a : ℕ) → has (when, a) expired ≡ true → when ≤ now
  pub later : (when a : ℕ) → has (when, a) q'.timers ≡ true → now < when
  pub kept : q'.heap ≡ q.heap

module _ (q : TimerQueue) (now : ℕ) (v : IsValid q)
    (addresses : (when a : ℕ) → has (when, a) q.timers ≡ true → a < uintptr_max) where
  sentry : Pair
  sentry = (now, uintptr_max)

  due_lem : (when a : ℕ) → has (when, a) (split_at sentry q.timers).0 ≡ true → when ≤ now
  unfolding sentry
  due_lem when a h =
      let l = AllBelow-has sentry (when, a) _ (split_at-AllBelow sentry q.timers) h in ground arith

  later_lem : (when a : ℕ) → has (when, a) (split_at sentry q.timers).1 ≡ true → now < when
  unfolding sentry
  later_lem when a h =
      let l =
        NoneBelow-has sentry (when, a) _ (split_at-NoneBelow sentry q.timers v.timers_sorted) h in
      let k : has (when, a) q.timers ≡ true = rw (← append-split_at sentry q.timers) (
        rw (has-append (when, a) (split_at sentry q.timers).0 (split_at sentry q.timers).1)
          (ground (arith, h))) in
      ground (arith, addresses when a k)

  starts_lem :
      (xs : List Pair)
      → ((when a : ℕ) → has (when, a) xs ≡ true → now < when)
      → starts_after now xs ≡ true
  unfolding has
  starts_lem [] h = refl
  starts_lem ((when, a) ∷ xs) h = ground (arith, h when a (rw same_self))

  -- `getExpired` fails no assertion, if no timer lies at the very last address. It splits the queue at
  -- the present time: what it returns is due, what stays queued is due later, and the queue stays
  -- valid with all timers alive.
  pub get_expired-Expired :
      (expired : List Pair) × (q' : TimerQueue) × (get_expired q now ≡ some (expired, q'))
      × Expired q now expired q'
  unfolding get_expired sentry
  get_expired-Expired =
      let parts = split_at sentry q.timers in
      let (active, d, w) =
        deactivate-IsValid q parts.0 parts.1 v (sym (append-split_at sentry q.timers)) in
      (
        parts.0,
        record q { timers = parts.1; active_timers = active },
        ground (arith, d, starts_lem parts.1 later_lem, v.sizes, w.sizes),
        record {
          valid = w;
          split = append-split_at sentry q.timers;
          due = due_lem;
          later = later_lem;
          kept = refl;
        },
      )
