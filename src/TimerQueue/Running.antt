-- ===== src/TimerQueue/Running.antt =====
-- A queue whose expired timers are out of the sets and still alive, while their callbacks run.
use muduo_net_zxl.Prelude.{
  ℕ, ◌+◌, ◌≡◌, ◌≢◌, refl, ◌∙◌, Bool, true, false, none, some, List, [], ◌∷◌, arith, Bool-cases, inl,
  inr, ◌>>=◌,
}
use muduo_net_zxl.TimerQueue.OrderedSet.{Pair, Sorted, has, set_insert, has-set_insert, same_self}
use muduo_net_zxl.TimerQueue.{
  Timer, TimerQueue, TimerId, Command, adds, cancels, cancel_in_loop, run_command, run_commands,
  run_expired,
}
use muduo_net_zxl.TimerQueue.Valid.{IsValid}
use muduo_net_zxl.TimerQueue.Insert.{add_timer-Added, Unscheduled}
use muduo_net_zxl.TimerQueue.Cancel.{cancel_in_loop-Cancelled}

-- An expired timer: alive, as it was, and in neither set.
abbrev pub Waits : TimerQueue → ℕ → ℕ → Type 0
Waits q when a = (t : Timer) × (q.heap a ≡ some t) × (t.expiration ≡ when) × Unscheduled q a

pub record Running (q : TimerQueue) (expired : List Pair) : Type 0 where
  pub valid : IsValid q
  pub sorted : Sorted expired
  pub waits : (when a : ℕ) → has (when, a) expired ≡ true → Waits q when a

module _ (q : TimerQueue) (c : List Pair) where
  -- Neither set knows which timers are being cancelled.
  canceling-IsValid : IsValid q → IsValid (record q { canceling_timers = c })
  canceling-IsValid v = record {
    timers_sorted = v.timers_sorted;
    active_sorted = v.active_sorted;
    sizes = v.sizes;
    timer_of = v.timer_of;
    active_of = v.active_of;
    numbered = v.numbered;
  }

cancel_in_loop-absent :
    (q : TimerQueue) (id : TimerId)
    → IsValid q
    → has (id.timer, id.sequence) q.active_timers ≡ false
    → (c : List Pair) × (cancel_in_loop q id ≡ some (record q { canceling_timers = c }))
unfolding cancel_in_loop
cancel_in_loop-absent q id v h = elim (Bool-cases q.calling_expired_timers) [
  | inl c ↦ (set_insert (id.timer, id.sequence) q.canceling_timers, ground (arith, v.sizes))
  | inr c ↦ (q.canceling_timers, ground (arith, v.sizes))
]

module _ (over_one : ℕ → Bool) (add_time : ℕ → ℕ → ℕ) where
  -- `new` returns an address that holds no timer, whenever a callback adds one.
  abbrev pub Fresh : TimerQueue → List Command → Type 0
  Fresh q [] = Unit {0}
  Fresh q (adds a when interval ∷ cs) =
      (q.heap a ≡ none)
      × ((q' : TimerQueue)
          → run_command over_one add_time q (adds a when interval) ≡ some q'
          → Fresh q' cs)
  Fresh q (cancels id ∷ cs) =
      (q' : TimerQueue) → run_command over_one add_time q (cancels id) ≡ some q' → Fresh q' cs

  adds-Running :
      (q : TimerQueue) (es : List Pair) (a when interval : ℕ)
      → Running q es
      → q.heap a ≡ none
      → (q' : TimerQueue) × (run_command over_one add_time q (adds a when interval) ≡ some q')
        × Running q' es
  unfolding run_command
  adds-Running q es a when interval r new =
      let (q', e, d) = add_timer-Added over_one add_time q a when interval r.valid new in
      (
        q',
        rw (e, ◌>>=◌) refl,
        record {
          valid = d.valid;
          sorted = r.sorted;
          waits = λ w b h.
              let (t, l, x, u) = r.waits w b h in
              let n : b ≢ a = λ k. ground arith in
              (
                t,
                d.others b n ∙ l,
                x,
                λ s. rw d.active_is (
                    ground
                      (arith, u s, has-set_insert (a, q.num_created + 1) (b, s) q.active_timers)),
              );
        },
      )

  cancels-Running :
      (q : TimerQueue) (es : List Pair) (id : TimerId)
      → Running q es
      → (q' : TimerQueue) × (run_command over_one add_time q (cancels id) ≡ some q') × Running q' es
  unfolding run_command
  cancels-Running q es id r = elim (Bool-cases (has (id.timer, id.sequence) q.active_timers)) [
    | inl h ↦
        let (q', e, d) = cancel_in_loop-Cancelled q id.timer id.sequence r.valid h in
        (
          q',
          e,
          record {
            valid = d.valid;
            sorted = r.sorted;
            waits = λ w b k.
                let (t, l, x, u) = r.waits w b k in
                let n : b ≢ id.timer = λ z. ground (arith, u id.sequence) in
                (t, d.alive b n ∙ l, x, λ s. ground (arith, u s, d.fewer b s));
          },
        )
    | inr h ↦
        let (c, e) = cancel_in_loop-absent q id r.valid h in
        (
          record q { canceling_timers = c },
          e,
          record { valid = canceling-IsValid q c r.valid; sorted = r.sorted; waits = r.waits },
        )
  ]

  run_commands-Running :
      (q : TimerQueue) (es : List Pair) (cs : List Command)
      → Running q es
      → Fresh q cs
      → (q' : TimerQueue) × (run_commands over_one add_time q cs ≡ some q') × Running q' es
  unfolding run_commands
  run_commands-Running q es [] r f = (q, refl, r)
  run_commands-Running q es (adds a when interval ∷ cs) r (new, f) =
      let (q1, e, r1) = adds-Running q es a when interval r new in
      let (q2, g, r2) = run_commands-Running q1 es cs r1 (f q1 e) in (q2, rw (e, ◌>>=◌) g, r2)
  run_commands-Running q es (cancels id ∷ cs) r f =
      let (q1, e, r1) = cancels-Running q es id r in
      let (q2, g, r2) = run_commands-Running q1 es cs r1 (f q1 e) in (q2, rw (e, ◌>>=◌) g, r2)

  module _ (callback : ℕ → List Command) where
    abbrev pub AllFresh : TimerQueue → List Pair → Type 0
    AllFresh q [] = Unit {0}
    AllFresh q ((when, a) ∷ es) =
        Fresh q (callback a)
        × ((q' : TimerQueue)
            → run_commands over_one add_time q (callback a) ≡ some q'
            → AllFresh q' es)

    -- The callbacks of some of the expired timers, one after another.
    pub run_expired-Running :
        (q : TimerQueue) (es fs : List Pair)
        → ((when a : ℕ) → has (when, a) fs ≡ true → has (when, a) es ≡ true)
        → Running q es
        → AllFresh q fs
        → (q' : TimerQueue) × (run_expired over_one add_time callback q fs ≡ some q')
          × Running q' es
    unfolding run_expired has
    run_expired-Running q es [] i r f = (q, refl, r)
    run_expired-Running q es ((when, a) ∷ fs) i r (f, g) =
        let (t, l, x, u) = r.waits when a (i when a (ground (arith, same_self (when, a)))) in
        let (q1, e, r1) = run_commands-Running q es (callback a) r f in
        let (q2, h, r2) =
          run_expired-Running q1 es fs (λ w b k. i w b (ground arith)) r1 (g q1 e) in
        (q2, rw (l, ◌>>=◌) (rw (e, ◌>>=◌) h), r2)
