-- ===== src/TimerQueue/Handle.antt =====
-- `handleRead` as a whole: the due timers run, start again or go, and the descriptor is set again.
use muduo_net_zxl.Prelude.{
  ℕ, ◌≤◌, ◌≡◌, refl, ap, Bool, true, false, some, List, [], ◌∷◌, arith, ltb, Bool-cases, inl, inr,
  ◌>>=◌,
}
use muduo_net_zxl.TimerQueue.OrderedSet.{Pair, has, same_self}
use muduo_net_zxl.TimerQueue.{TimerQueue, Command, next_expire, reset, run_expired}
use muduo_net_zxl.TimerQueue.Valid.{IsValid}
use muduo_net_zxl.TimerQueue.Insert.{armed-IsValid}
use muduo_net_zxl.TimerQueue.Expire.{Expired}
use muduo_net_zxl.TimerQueue.Running.{Running}
use muduo_net_zxl.TimerQueue.Reset.{AllReset, reset_all-AllReset}

-- The descriptor is set to the first timer that is queued, if its time is valid.
abbrev pub NextArmed : TimerQueue → Type 0
NextArmed q =
    (when a : ℕ) (es : List Pair) → q.timers ≡ (when, a) ∷ es → 1 ≤ when → q.armed ≡ some when

module _ (over_one : ℕ → Bool) (add_time : ℕ → ℕ → ℕ) where
  next_expire_lem :
      (q : TimerQueue) (ts : List Pair)
      → IsValid q
      → ts ≡ q.timers
      → (n : ℕ) × (next_expire over_one add_time q ts ≡ some n)
        × ((when a : ℕ) (es : List Pair) → ts ≡ (when, a) ∷ es → n ≡ when)
  unfolding has
  next_expire_lem q [] v e = (0, refl, λ when a es h. absurd (ground arith))
  next_expire_lem q ((when, a) ∷ es) v e =
      let (t, l, x, y) = v.timer_of when a (rw (← e) (first when a es)) in
      (when, ground (arith, l, x), λ w b fs h. ground (arith, h))
    where
      first : (w b : ℕ) (fs : List Pair) → has (w, b) ((w, b) ∷ fs) ≡ true
      first w b fs = ground (arith, same_self (w, b))

  -- `reset`, over expired timers that wait in neither set: each is started again or deleted, and the
  -- timer descriptor is set to the first timer that is queued then.
  pub reset-AllReset :
      (q : TimerQueue) (es : List Pair) (now : ℕ)
      → Running q es
      → (q' : TimerQueue) × (reset over_one add_time q es now ≡ some q')
        × AllReset over_one add_time q es now q'
        × NextArmed q'
  unfolding reset
  reset-AllReset q es now r =
      let (q1, e, z) = reset_all-AllReset over_one add_time q es now r in
      let (n, f, g) = next_expire_lem q1 q1.timers z.valid refl in
      elim (Bool-cases (ltb 0 n)) [
        | inl h ↦ (
          record q1 { armed = some n },
          rw (e, ◌>>=◌) (rw (f, ◌>>=◌) (rw h refl)),
          record {
            valid = armed-IsValid q1 (some n) z.valid;
            restarted = z.restarted;
            deleted = z.deleted;
            others = z.others;
          },
          λ when a fs k p. ap some (g when a fs k),
        )
        | inr h ↦ (
          q1,
          rw (e, ◌>>=◌) (rw (f, ◌>>=◌) (rw h refl)),
          z,
          λ when a fs k p. absurd (ground (arith, h, p, g when a fs k)),
        )
      ]

  module _ (callback : ℕ → List Command) (q : TimerQueue) (now : ℕ) where
    -- The three parts of `handleRead`: what was due, the queue without it, and the queue after the
    -- callbacks.
    pub record Handled (q' : TimerQueue) : Type 0 where
      pub expired : List Pair
      pub rest : TimerQueue
      pub called : TimerQueue
      pub took : Expired q now expired rest
      pub ran :
          run_expired over_one add_time callback
            (record rest { calling_expired_timers = true; canceling_timers = [] })
            expired
          ≡ some called
      pub settled :
          AllReset over_one add_time
            (record called { calling_expired_timers = false })
            expired
            now
            q'
      pub next_armed : NextArmed q'
