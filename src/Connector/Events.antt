-- ===== src/Connector/Events.antt =====
-- What can happen to a started connector, in the loop's thread, and its invariant.
use muduo_net_zxl.Prelude.{ℕ, ◌+◌, ◌-◌, ◌≤◌, ◌≡◌, Bool, Option, none, some, ◌>>=◌}
use muduo_net_zxl.Channel.{Channel}
use muduo_net_zxl.Connector.{
  States, disconnected, connecting, connected, Errno, Connector, init, start, restart, stop,
  handle_write, handle_error, reset_channel, start_in_loop,
}
use muduo_net_zxl.Connector.Sockets.{created_times, given_times, held_times}

pub data Event : Type 0 where
  writable : ℕ → Bool → Event
  broken : Event
  broken_and_writable : ℕ → Bool → Event
  reset_runs : Event
  retry_fires : ℕ → Errno → Event
  restarted : ℕ → Errno → Event
  stopped : Event
  starts : ℕ → Errno → Event

unfoldable pub run : Connector → Event → Option Connector
run c (writable err self_connect) = handle_write c err self_connect
run c broken = handle_error c
run c (broken_and_writable err self_connect) = do
  c1 ← handle_error c
  handle_write c1 err self_connect
run c reset_runs = some (record (reset_channel c) { resets = c.resets - 1 })
run c (retry_fires sockfd save_error) =
    start_in_loop (record c { retries = c.retries - 1 }) sockfd save_error
run c (restarted sockfd save_error) = restart c sockfd save_error
run c stopped = some (stop c)
run c (starts sockfd save_error) = start c sockfd save_error

abbrev pub Watched : Connector → Type 0
Watched c = (k : Channel) × (c.channel ≡ some k) × (c.resets ≡ 0)

-- The poller knows the channel until it is removed; what was queued runs before the next timer; a client
-- restarts its connector when its connection is gone. `start` is called again only on a connector at rest,
-- for which neither a retry nor a `resetChannel` waits: otherwise its assertions may fail.
abbrev pub Enabled : Connector → Event → Type 0
Enabled c (writable err self_connect) = Watched c
Enabled c broken = Watched c
Enabled c (broken_and_writable err self_connect) = Watched c
Enabled c reset_runs = 1 ≤ c.resets
Enabled c (retry_fires sockfd save_error) = (1 ≤ c.retries) × (c.resets ≡ 0)
Enabled c (restarted sockfd save_error) = (c.state ≡ connected) × (c.resets ≡ 0)
Enabled c stopped = Unit {0}
Enabled c (starts sockfd save_error) = (c.state ≡ disconnected) × (c.retries ≡ 0) × (c.resets ≡ 0)

pub data Reach : Connector → Type 0 where
  started :
      {c : Connector} (sockfd : ℕ) (save_error : Errno)
      → start init sockfd save_error ≡ some c
      → Reach c
  next : {c d : Connector} (e : Event) → Reach c → Enabled c e → run c e ≡ some d → Reach d

abbrev pub Free : Option Channel → ℕ → Type 0
Free none n = n ≡ 0
Free (some k) n = n ≡ 1

abbrev pub Held : Option Channel → ℕ → Type 0
Held none n = ⊥
Held (some k) n = n ≡ 0

-- Which state goes with which channel and which waiting timers.
abbrev pub Place : States → Connector → Type 0
Place disconnected c = Free c.channel c.resets × (c.retries ≤ 1)
Place connecting c = Held c.channel c.resets × (c.retries ≡ 0)
Place connected c = Free c.channel c.resets × (c.retries ≡ 0)

pub record IsValid (c : Connector) : Type 0 where
  pub place : Place c.state c
  pub delay_low : 500 ≤ c.retry_delay_ms
  pub delay_high : c.retry_delay_ms ≤ 30000
  pub sockets :
      (x : ℕ) → created_times x c.calls ≡ given_times x c.calls + held_times x c.channel c.resets
