-- ===== src/Connector/Reach.antt =====
-- Every reachable connector, and every event that it may meet.
use muduo_net_zxl.Prelude.{
  ℕ, ◌-◌, ◌≤◌, ◌≡◌, refl, sym, true, false, Option, none, some, arith, ◌>>=◌,
}
use muduo_net_zxl.Channel.{Channel}
use muduo_net_zxl.Connector.{
  States, disconnected, connecting, connected, Errno, Connector, init, start, restart, stop,
  reset_channel,
}
use muduo_net_zxl.Connector.Sockets.{created_times, given_times, held_times}
use muduo_net_zxl.Connector.Events.{
  Event, writable, broken, broken_and_writable, reset_runs, retry_fires, restarted, stopped, starts,
  run, Enabled, Reach, started, next, Free, Held, Place, IsValid,
}
use muduo_net_zxl.Connector.Settle.{free_lem}
use muduo_net_zxl.Connector.Start.{Idle, start_in_loop-IsValid}
use muduo_net_zxl.Connector.Watch.{handle_write-IsValid, handle_write_down, handle_error-IsValid}

no_channel_lem : (o : Option Channel) (n : ℕ) → Free o n → n ≡ 0 → o ≡ none
no_channel_lem none n f z = refl
no_channel_lem (some k) n f z = absurd (omega (arith, f, z))

-- When a retry is due, or a client restarts its connector, the connector is at rest.
pub retry-Idle :
    (s : States) (c : Connector)
    → Place s c
    → s ≡ c.state
    → 1 ≤ c.retries
    → c.resets ≡ 0
    → IsValid c
    → Idle (record c { retries = c.retries - 1 })
retry-Idle disconnected c (f, r) e h z v =
    let n = no_channel_lem c.channel c.resets f z in
    record {
      state_is = sym e;
      no_channel = n;
      no_resets = z;
      no_retries = omega (arith, r, h);
      delay_low = v.delay_low;
      delay_high = v.delay_high;
      sockets = λ x. omega (arith, v.sockets x, free_lem x c.channel c.resets f);
    }
retry-Idle connecting c (f, r) e h z v = absurd (omega (arith, r, h))
retry-Idle connected c (f, r) e h z v = absurd (omega (arith, r, h))

pub restart-Idle :
    (c : Connector)
    → Place connected c
    → c.resets ≡ 0
    → IsValid c
    → Idle (record c { state = disconnected; retry_delay_ms = 500; wanted = true })
restart-Idle c (f, r) z v = record {
  state_is = refl;
  no_channel = no_channel_lem c.channel c.resets f z;
  no_resets = z;
  no_retries = r;
  delay_low = omega arith;
  delay_high = omega arith;
  sockets = λ x. omega (arith, v.sockets x, free_lem x c.channel c.resets f);
}

-- A connector at rest that is started again.
pub start-Idle :
    (c : Connector)
    → Place disconnected c
    → c.state ≡ disconnected
    → c.retries ≡ 0
    → c.resets ≡ 0
    → IsValid c
    → Idle (record c { wanted = true })
start-Idle c (f, r) s n z v = record {
  state_is = s;
  no_channel = no_channel_lem c.channel c.resets f z;
  no_resets = z;
  no_retries = n;
  delay_low = v.delay_low;
  delay_high = v.delay_high;
  sockets = λ x. omega (arith, v.sockets x, free_lem x c.channel c.resets f);
}

reset_place :
    (s : States) (c : Connector)
    → Place s c
    → 1 ≤ c.resets
    → Place s (record c { channel = none; resets = c.resets - 1 })
      × ((x : ℕ) → held_times x c.channel c.resets ≡ 0)
reset_place disconnected c (f, r) h =
    ((omega (arith, one c.channel c.resets f h), r), λ x. free_lem x c.channel c.resets f)
  where
    one : (o : Option Channel) (n : ℕ) → Free o n → 1 ≤ n → n ≡ 1
    one none n f h = absurd (omega (arith, f, h))
    one (some k) n f h = f
reset_place connecting c (f, r) h = absurd (zero_resets c.channel f)
  where
    zero_resets : (o : Option Channel) → Held o c.resets → ⊥
    zero_resets none f = f
    zero_resets (some k) f = omega (arith, f, h)
reset_place connected c (f, r) h =
    ((omega (arith, one c.channel c.resets f h), r), λ x. free_lem x c.channel c.resets f)
  where
    one : (o : Option Channel) (n : ℕ) → Free o n → 1 ≤ n → n ≡ 1
    one none n f h = absurd (omega (arith, f, h))
    one (some k) n f h = f

place_wanted : (s : States) (c : Connector) → Place s c → Place s (record c { wanted = false })
place_wanted disconnected c p = p
place_wanted connecting c p = p
place_wanted connected c p = p

pub stopped-IsValid : (c : Connector) → IsValid c → IsValid (record c { wanted = false })
stopped-IsValid c v = record {
  place = place_wanted c.state c v.place;
  delay_low = v.delay_low;
  delay_high = v.delay_high;
  sockets = v.sockets;
}

pub run-IsValid :
    (c : Connector) (e : Event)
    → IsValid c
    → Enabled c e
    → (d : Connector) × (run c e ≡ some d) × IsValid d
unfolding run restart stop reset_channel start
run-IsValid c (writable err self_connect) v w = handle_write-IsValid c err self_connect v w
run-IsValid c broken v w = let (d, e, u, s) = handle_error-IsValid c v w in (d, e, u)
run-IsValid c (broken_and_writable err self_connect) v w =
    let (d, e, u, s) = handle_error-IsValid c v w in
    (d, rw (e, ◌>>=◌) (handle_write_down d err self_connect s), u)
run-IsValid c reset_runs v h =
    let (p, q) = reset_place c.state c v.place h in
    (
      record c { channel = none; resets = c.resets - 1 },
      refl,
      record {
        place = p;
        delay_low = v.delay_low;
        delay_high = v.delay_high;
        sockets = λ x. omega (arith, v.sockets x, q x);
      },
    )
run-IsValid c (retry_fires sockfd save_error) v (h, z) =
    start_in_loop-IsValid _ sockfd save_error (retry-Idle c.state c v.place refl h z v)
run-IsValid c (restarted sockfd save_error) v (e, z) =
    start_in_loop-IsValid _ sockfd save_error (restart-Idle c (rw e at (v.place)) z v)
run-IsValid c stopped v h = (record c { wanted = false }, refl, stopped-IsValid c v)
run-IsValid c (starts sockfd save_error) v (s, n, z) =
    start_in_loop-IsValid _ sockfd save_error (start-Idle c (rw s at (v.place)) s n z v)

pub started-IsValid :
    (c : Connector) (sockfd : ℕ) (save_error : Errno)
    → start init sockfd save_error ≡ some c
    → IsValid c
unfolding start init created_times given_times
started-IsValid c sockfd save_error e =
    let (d, f, v) =
      start_in_loop-IsValid (record init { wanted = true }) sockfd save_error
        (record {
          state_is = refl;
          no_channel = refl;
          no_resets = refl;
          no_retries = refl;
          delay_low = omega arith;
          delay_high = omega arith;
          sockets = λ x. refl;
        }) in
    let s : c ≡ d = ground (arith, e, f) in rw s v

-- Whatever happens to a connector after `start`, in the loop's thread and in any order that it allows,
-- where `start` is called again only while the connector is disconnected, `restart` only while it is
-- connected, and neither while a retry or a `resetChannel` waits: its state agrees with its channel and the timers that wait for it, its next delay is between half a
-- second and thirty, and every socket it ever created is held by its channel or was closed or handed to
-- the user, once for each time it was created.
pub Reach-IsValid : {d : Connector} → Reach d → IsValid d
Reach-IsValid {d} (started sockfd save_error e) = started-IsValid d sockfd save_error e
Reach-IsValid {d} (next {c} e r h s) =
    let (b, f, v) = run-IsValid c e (Reach-IsValid r) h in
    let z : d ≡ b = ground (arith, s, f) in rw z v

-- No assertion of the class fails, whatever happens next to a connector after its first `start`, in the
-- loop's thread, where `start` is called again only while the connector is disconnected, `restart` only
-- while it is connected, and neither while a retry or a `resetChannel` waits.
pub run-Reach :
    (c : Connector) (e : Event)
    → Reach c
    → Enabled c e
    → (d : Connector) × (run c e ≡ some d) × Reach d
run-Reach c e r h = let (d, s, v) = run-IsValid c e (Reach-IsValid r) h in (d, s, next e r h s)
