-- ===== src/TimerQueue/Reset.antt =====
-- `reset`: expired timers start again or are deleted.
use muduo_net_zxl.Prelude.{
  ℕ, ◌≤◌, ◌≡◌, ◌≢◌, refl, ap, ◌∙◌, Bool, true, false, not, ◌&&◌, Option, none, some, List, [], ◌∷◌,
  arith, ◌==◌, if◌then◌else◌, Bool-cases, inl, inr, ◌>>=◌,
}
use muduo_net_zxl.TimerQueue.OrderedSet.{
  Pair, has, has-Above, set_insert, has-set_insert, same_self,
}
use muduo_net_zxl.TimerQueue.{Timer, TimerQueue, put, restart, reset_one, reset_all}
use muduo_net_zxl.TimerQueue.Valid.{IsValid}
use muduo_net_zxl.TimerQueue.Insert.{Unscheduled, inserted, inserted-IsValid, insert-inserted}
use muduo_net_zxl.TimerQueue.Running.{Running}

-- What stands at an address that is in neither set does not matter to them.
put-IsValid :
    (q : TimerQueue) (a : ℕ) (o : Option Timer)
    → IsValid q
    → Unscheduled q a
    → ((t : Timer) → o ≡ some t → 1 ≤ t.sequence)
    → IsValid (record q { heap = put q.heap a o })
put-IsValid q a o v free n = record {
  timers_sorted = v.timers_sorted;
  active_sorted = v.active_sorted;
  sizes = v.sizes;
  timer_of = λ when b h.
      let (t, l, x, y) = v.timer_of when b h in
      (t, elsewhere b (λ k. ground (arith, free t.sequence)) ∙ l, x, y);
  active_of = λ b s h.
      let (t, l, x, y) = v.active_of b s h in
      (t, elsewhere b (λ k. ground (arith, free s)) ∙ l, x, y);
  numbered = λ b t l. elim (Bool-cases (b == a)) [
    | inl e ↦ n t (ground arith)
    | inr e ↦ v.numbered b t (ground arith)
  ];
}
  where
    elsewhere : (b : ℕ) → b ≢ a → put q.heap a o b ≡ q.heap b
    elsewhere b n = let h : (b == a) ≡ false = ground arith in ground arith

module _ (over_one : ℕ → Bool) (add_time : ℕ → ℕ → ℕ) where
  -- What becomes of one expired timer.
  abbrev again : TimerQueue → ℕ → Timer → Bool
  again q a t = t.repeat && not (has (a, t.sequence) q.canceling_timers)

  record One (q : TimerQueue) (a now : ℕ) (t : Timer) (q' : TimerQueue) : Type 0 where
    valid : IsValid q'
    heap_is :
        q'.heap
        ≡ put q.heap a (if again q a t then some (restart over_one add_time t now) else none)
    timers_are : q'.timers ≡ (
        if again q a t
        then set_insert ((restart over_one add_time t now).expiration, a) q.timers
        else q.timers)
    active_are :
        q'.active_timers
        ≡ (if again q a t then set_insert (a, t.sequence) q.active_timers else q.active_timers)
    same_canceling : q'.canceling_timers ≡ q.canceling_timers

  reset_one-One :
      (q : TimerQueue) (a now : ℕ) (t : Timer)
      → IsValid q
      → q.heap a ≡ some t
      → Unscheduled q a
      → (q' : TimerQueue) × (reset_one over_one add_time q a now ≡ some q') × One q a now t q'
  unfolding reset_one restart
  reset_one-One q a now t v l free = elim (Bool-cases (again q a t)) [
    | inl h ↦
        let t' = restart over_one add_time t now in
        let p = record q { heap = put q.heap a (some t') } in
        let w = put-IsValid q a (some t') v free (λ u e. ground (arith, v.numbered a t l)) in
        let live : p.heap a ≡ some t' = ground arith in
        let i = insert-inserted p a t' w live free in
        (
          inserted p a t' w live free,
          rw (l, ◌>>=◌) (rw h (rw (i, ◌>>=◌) refl)),
          record {
            valid = inserted-IsValid p a t' w live free;
            heap_is = rw h refl;
            timers_are = rw h refl;
            active_are = rw h refl;
            same_canceling = refl;
          },
        )
    | inr h ↦ (
      record q { heap = put q.heap a none },
      rw (l, ◌>>=◌) (rw h refl),
      record {
        valid = put-IsValid q a none v free (λ u e. absurd (ground arith));
        heap_is = rw h refl;
        timers_are = rw h refl;
        active_are = rw h refl;
        same_canceling = refl;
      },
    )
  ]

  -- The expired timers that are left wait as before.
  One-Running :
      (q q' : TimerQueue) (when a now : ℕ) (es : List Pair) (t : Timer)
      → Running q ((when, a) ∷ es)
      → q.heap a ≡ some t
      → t.expiration ≡ when
      → One q a now t q'
      → Running q' es
  unfolding has
  One-Running q q' when a now es t r l x o = record {
    valid = o.valid;
    sorted = r.sorted.1;
    waits = λ w b h.
        let (u, m, y, f) = r.waits w b (ground arith) in
        let n : b ≢ a = λ e. ground (arith, has-Above (when, a) es r.sorted.0 r.sorted.1) in
        let k : (b == a) ≡ false = ground arith in
        (
          u,
          ground (arith, o.heap_is),
          y,
          λ s.
              rw o.active_are
                (ground (arith, f s, has-set_insert (a, t.sequence) (b, s) q.active_timers)),
        );
  }

  -- What `reset` makes of all expired timers: those that repeat and were not cancelled are queued again,
  -- at the time that their interval gives, and the others are deleted; no other timer is touched.
  pub record AllReset (q : TimerQueue) (es : List Pair) (now : ℕ) (q' : TimerQueue) : Type 0 where
    pub valid : IsValid q'
    pub restarted :
        (when a : ℕ) (t : Timer)
        → has (when, a) es ≡ true
        → q.heap a ≡ some t
        → again q a t ≡ true
        → (q'.heap a ≡ some (restart over_one add_time t now))
          × (has (add_time now t.interval, a) q'.timers ≡ true)
    pub deleted :
        (when a : ℕ) (t : Timer)
        → has (when, a) es ≡ true
        → q.heap a ≡ some t
        → again q a t ≡ false
        → q'.heap a ≡ none
    pub others :
        (b : ℕ)
        → ((w : ℕ) → has (w, b) es ≡ false)
        → (q'.heap b ≡ q.heap b) × ((w : ℕ) → has (w, b) q'.timers ≡ has (w, b) q.timers)

  -- One expired timer, then those behind it.
  module _ (q q1 q2 : TimerQueue) (when a now : ℕ) (es : List Pair) (t : Timer)
      (r : Running q ((when, a) ∷ es)) (l : q.heap a ≡ some t) (x : t.expiration ≡ when)
      (o : One q a now t q1) (z : AllReset q1 es now q2) where
    not_again : (w : ℕ) → has (w, a) es ≡ false
    unfolding has
    not_again w = elim (Bool-cases (has (w, a) es)) [
      | inl h ↦
          let (u, m, y, f) = r.waits w a (ground arith) in
          ground (arith, has-Above (when, a) es r.sorted.0 r.sorted.1)
      | inr h ↦ h
    ]

    kept : (b : ℕ) → (b == a) ≡ false → q1.heap b ≡ q.heap b
    kept b n = ground (arith, o.heap_is)

    behind :
        (w b : ℕ) → has (w, b) ((when, a) ∷ es) ≡ true → (b == a) ≡ false → has (w, b) es ≡ true
    unfolding has
    behind w b h n = ground arith

    same_again : (b : ℕ) (u : Timer) → again q1 b u ≡ again q b u
    same_again b u = ap (λ c. u.repeat && not (has (b, u.sequence) c)) o.same_canceling

    cons-restarted :
        (w b : ℕ) (u : Timer)
        → has (w, b) ((when, a) ∷ es) ≡ true
        → q.heap b ≡ some u
        → again q b u ≡ true
        → (q2.heap b ≡ some (restart over_one add_time u now))
          × (has (add_time now u.interval, b) q2.timers ≡ true)
    unfolding restart
    cons-restarted w b u h m y = elim (Bool-cases (b == a)) [
      | inl e ↦
          let i : b ≡ a = ground (arith, e) in
          let j : t ≡ u = ground (arith, l, m, i) in
          let k : again q a t ≡ true = rw j (rw (← i) y) in
          let p = z.others a not_again in
          (
            rw i (rw p.0 (rw o.heap_is (rw k (ground (arith, j))))),
            rw i (
                rw (p.1 (add_time now u.interval)) (
                  rw o.timers_are (
                    rw k (
                      rw
                        (has-set_insert ((restart over_one add_time t now).expiration, a)
                          (add_time now u.interval, a) q.timers)
                        (ground (arith, j, k)))))),
          )
      | inr n ↦ z.restarted w b u (behind w b h n) (kept b n ∙ m) (same_again b u ∙ y)
    ]

    cons-deleted :
        (w b : ℕ) (u : Timer)
        → has (w, b) ((when, a) ∷ es) ≡ true
        → q.heap b ≡ some u
        → again q b u ≡ false
        → q2.heap b ≡ none
    cons-deleted w b u h m y = elim (Bool-cases (b == a)) [
      | inl e ↦
          let i : b ≡ a = ground (arith, e) in
          let j : t ≡ u = ground (arith, l, m, i) in
          let k : again q a t ≡ false = rw j (rw (← i) y) in
          rw i (rw ((z.others a not_again).0) (rw o.heap_is (rw k (ground arith))))
      | inr n ↦ z.deleted w b u (behind w b h n) (kept b n ∙ m) (same_again b u ∙ y)
    ]

    cons-others :
        (b : ℕ)
        → ((w : ℕ) → has (w, b) ((when, a) ∷ es) ≡ false)
        → (q2.heap b ≡ q.heap b) × ((w : ℕ) → has (w, b) q2.timers ≡ has (w, b) q.timers)
    unfolding has
    cons-others b h =
        let n : (b == a) ≡ false = ground (arith, h when) in
        let p = z.others b (λ w. ground (arith, h w)) in
        (
          p.0 ∙ kept b n,
          λ w.
              p.1 w
              ∙ rw o.timers_are (
                  ground (
                    arith,
                    n,
                    has-set_insert ((restart over_one add_time t now).expiration, a) (w, b)
                        q.timers,
                  )),
        )

    cons-AllReset : AllReset q ((when, a) ∷ es) now q2
    cons-AllReset = record {
      valid = z.valid;
      restarted = cons-restarted;
      deleted = cons-deleted;
      others = cons-others;
    }

  pub reset_all-AllReset :
      (q : TimerQueue) (es : List Pair) (now : ℕ)
      → Running q es
      → (q' : TimerQueue) × (reset_all over_one add_time q es now ≡ some q') × AllReset q es now q'
  unfolding reset_all has
  reset_all-AllReset q [] now r = (
    q,
    refl,
    record {
      valid = r.valid;
      restarted = λ when a t h. absurd (ground arith);
      deleted = λ when a t h. absurd (ground arith);
      others = λ b h. (refl, λ w. refl);
    },
  )
  reset_all-AllReset q ((when, a) ∷ es) now r =
      let (t, l, x, f) = r.waits when a (ground (arith, same_self (when, a))) in
      let (q1, e, o) = reset_one-One q a now t r.valid l f in
      let (q2, g, z) = reset_all-AllReset q1 es now (One-Running q q1 when a now es t r l x o) in
      (q2, rw (e, ◌>>=◌) g, cons-AllReset q q1 q2 when a now es t r l x o z)
