-- ===== src/Connector.antt =====
-- Connector.h and Connector.cc: connecting to a server, again and again. The kernel's answers (the
-- descriptor of a new socket, `errno`, SO_ERROR, whether a socket met itself) are arguments. Calls that
-- leave the class are logged, the oldest first. A failed `assert` is `none`.
pub mod Sockets
pub mod Events
pub mod Settle
pub mod Start
pub mod Watch
pub mod Reach
pub mod Stale
mod Tests
use muduo_net_zxl.Prelude.{
  ℕ, zero, suc, ◌+◌, ◌*◌, Bool, true, false, not, ◌&&◌, ◌||◌, Option, none, some, List, [], ◌∷◌,
  ◌++◌, ◌==◌, if◌then◌else◌, min, ◌>>=◌, assert,
}
use muduo_net_zxl.Channel
use muduo_net_zxl.Channel.{Channel, enable_writing, disable_all}

pub data States : Type 0 where
  disconnected connecting connected : States

-- `sockets::connect`'s `errno`, 0 when it succeeded.
pub data Errno : Type 0 where
  succeeded einprogress eintr eisconn : Errno
  eagain eaddrinuse eaddrnotavail econnrefused enetunreach : Errno
  eacces eperm eafnosupport ealready ebadf efault enotsock unexpected : Errno

abbrev pub max_retry_delay_ms : ℕ
max_retry_delay_ms = 30 * 1000

abbrev pub init_retry_delay_ms : ℕ
init_retry_delay_ms = 500

pub data Call : Type 0 where
  created : ℕ → Call
  closed : ℕ → Call
  handed : ℕ → Call
  run_after : ℕ → Call

-- `resets` counts the `resetChannel` that wait in the loop, `retries` the `startInLoop` that wait in
-- its timer queue.
pub record Connector : Type 0 where
  pub wanted : Bool
  pub state : States
  pub channel : Option Channel
  pub retry_delay_ms : ℕ
  pub resets : ℕ
  pub retries : ℕ
  pub calls : List Call

unfoldable pub init : Connector
init = record {
  wanted = false;
  state = disconnected;
  channel = none;
  retry_delay_ms = init_retry_delay_ms;
  resets = 0;
  retries = 0;
  calls = [];
}

abbrev pub log : Connector → Call → Connector
log c x = record c { calls = c.calls ++ x ∷ [] }

abbrev pub is_none : {A : Type 0} → Option A → Bool
is_none none = true
is_none (some x) = false

abbrev pub is_disconnected : States → Bool
is_disconnected disconnected = true
is_disconnected connecting = false
is_disconnected connected = false

abbrev pub is_connecting : States → Bool
is_connecting disconnected = false
is_connecting connecting = true
is_connecting connected = false

-- `connecting(sockfd)`.
unfoldable pub begin_connecting : Connector → ℕ → Option Connector
begin_connecting c sockfd = do
  let c1 = record c { state = connecting }
  _ ← assert (is_none c1.channel)
  some (record c1 { channel = some (enable_writing (Channel.init sockfd)) })

unfoldable pub retry : Connector → ℕ → Connector
retry c sockfd =
    let c1 = record (log c (closed sockfd)) { state = disconnected } in
    if c1.wanted
    then record (log c1 (run_after c1.retry_delay_ms)) {
      retries = c1.retries + 1;
      retry_delay_ms = min (c1.retry_delay_ms * 2) max_retry_delay_ms;
    }
    else c1

-- The `switch` of `connect`.
pub data Verdict : Type 0 where
  go_on try_again give_up : Verdict

abbrev pub verdict : Errno → Verdict
verdict succeeded = go_on
verdict einprogress = go_on
verdict eintr = go_on
verdict eisconn = go_on
verdict eagain = try_again
verdict eaddrinuse = try_again
verdict eaddrnotavail = try_again
verdict econnrefused = try_again
verdict enetunreach = try_again
verdict eacces = give_up
verdict eperm = give_up
verdict eafnosupport = give_up
verdict ealready = give_up
verdict ebadf = give_up
verdict efault = give_up
verdict enotsock = give_up
verdict unexpected = give_up

abbrev pub after_connect : Verdict → Connector → ℕ → Option Connector
after_connect go_on c sockfd = begin_connecting c sockfd
after_connect try_again c sockfd = some (retry c sockfd)
after_connect give_up c sockfd = some (log c (closed sockfd))

unfoldable pub connect : Connector → ℕ → Errno → Option Connector
connect c sockfd save_error = after_connect (verdict save_error) (log c (created sockfd)) sockfd

unfoldable pub start_in_loop : Connector → ℕ → Errno → Option Connector
start_in_loop c sockfd save_error = do
  _ ← assert (is_disconnected c.state)
  if c.wanted then connect c sockfd save_error else some c

-- `start`, called in the loop's thread.
unfoldable pub start : Connector → ℕ → Errno → Option Connector
start c sockfd save_error = start_in_loop (record c { wanted = true }) sockfd save_error

unfoldable pub restart : Connector → ℕ → Errno → Option Connector
restart c sockfd save_error =
    start_in_loop
      (record c { state = disconnected; retry_delay_ms = init_retry_delay_ms; wanted = true })
      sockfd save_error

-- The `TimerId` that `runAfter` returned carries no sequence, so `cancel` finds no timer for it.
unfoldable pub stop : Connector → Connector
stop c = record c { wanted = false }

unfoldable pub remove_and_reset_channel : Connector → Option (ℕ × Connector)
remove_and_reset_channel c = do
  channel ← c.channel
  let off = disable_all channel
  some (off.fd, record c { channel = some off; resets = c.resets + 1 })

unfoldable pub reset_channel : Connector → Connector
reset_channel c = record c { channel = none }

-- The end of `handleWrite`: what becomes of the socket.
unfoldable pub settle : Connector → ℕ → ℕ → Bool → Connector
settle c sockfd err self_connect =
    if not (err == 0) || self_connect
    then retry c sockfd
    else (if c.wanted
        then log (record c { state = connected }) (handed sockfd)
        else log (record c { state = connected }) (closed sockfd))

unfoldable pub handle_write : Connector → ℕ → Bool → Option Connector
handle_write c err self_connect =
    if is_connecting c.state
    then (do r ← remove_and_reset_channel c; some (settle r.1 r.0 err self_connect))
    else (do _ ← assert (is_disconnected c.state); some c)

-- `assert(state_ = kConnecting)` assigns, and never fails.
unfoldable pub handle_error : Connector → Option Connector
handle_error c = do
  r ← remove_and_reset_channel (record c { state = connecting })
  some (retry r.1 r.0)
