-- ===== src/TcpConnection.antt =====
-- TcpConnection.h and TcpConnection.cc: the states of a connection, its two buffers and what it hands
-- to the kernel. A failed `assert` is `none`. Every function but `send` and `shutdown` runs in the
-- loop's thread; what those two leave to the loop stands in `queued`. The poller's side of the
-- channel's setters is `Poller.update_channel`. Logging is left out.
pub mod Writes
pub mod Stream
pub mod Shutdown
pub mod Calls
pub mod Lifecycle
pub mod Drain
mod Tests
use muduo_net_zxl.Prelude.{
  ℕ, zero, suc, ◌+◌, ◌-◌, Bool, true, false, not, ◌&&◌, ◌||◌, Option, none, some, List, [], ◌∷◌,
  ◌++◌, ◌==◌, ltb, if◌then◌else◌, length, take, drop, ◌>>=◌, assert,
}
use muduo_net_zxl.Buffer
use muduo_net_zxl.Buffer.{Buffer, Readv, readable_bytes, contents, retrieve, append, read_fd}
use muduo_net_zxl.Channel
use muduo_net_zxl.Channel.{
  Channel, enable_reading, enable_writing, disable_writing, disable_all, is_writing,
}

pub data StateE : Type 0 where
  connecting connected disconnecting disconnected : StateE

-- What is left to the loop by `queueInLoop` or from another thread.
pub data Functor : Type 0 where
  write_complete : Functor
  send_later : List ℕ → Functor
  shutdown_later : Functor

-- The callbacks of the user that ran, oldest first; the message callback sees the input buffer.
pub data Event : Type 0 where
  connection_event : StateE → Event
  message_event : List ℕ → Event
  close_event : Event

-- `wire` is what the kernel took, `shut` that `shutdownWrite` was called, `removed` that the channel
-- was taken from the poller.
pub record Connection : Type 0 where
  pub state : StateE
  pub channel : Channel
  pub input : Buffer
  pub output : Buffer
  pub has_write_complete : Bool
  pub queued : List Functor
  pub events : List Event
  pub wire : List ℕ
  pub shut : Bool
  pub removed : Bool

abbrev pub is_connecting : StateE → Bool
is_connecting connecting = true
is_connecting connected = false
is_connecting disconnecting = false
is_connecting disconnected = false

abbrev pub is_connected : StateE → Bool
is_connected connecting = false
is_connected connected = true
is_connected disconnecting = false
is_connected disconnected = false

abbrev pub is_disconnecting : StateE → Bool
is_disconnecting connecting = false
is_disconnecting connected = false
is_disconnecting disconnecting = true
is_disconnecting disconnected = false

-- The constructor, for the descriptor `sockfd`.
unfoldable pub init : ℕ → Bool → Connection
init sockfd has_write_complete = record {
  state = connecting;
  channel = Channel.init sockfd;
  input = Buffer.init;
  output = Buffer.init;
  has_write_complete = has_write_complete;
  queued = [];
  events = [];
  wire = [];
  shut = false;
  removed = false;
}

-- `::write` took some bytes, or failed.
pub data Write : Type 0 where
  wrote : ℕ → Write
  failed : Write

abbrev log : Connection → Event → Connection
log c e = record c { events = c.events ++ e ∷ [] }

abbrev enqueue : Connection → Functor → Connection
enqueue c f = record c { queued = c.queued ++ f ∷ [] }

unfoldable pub connect_established : Connection → Option Connection
connect_established c = do
  _ ← assert (is_connecting c.state)
  some (
      log (record c { state = connected; channel = enable_reading c.channel })
        (connection_event connected))

unfoldable pub connect_destroyed : Connection → Option Connection
connect_destroyed c = do
  _ ← assert (is_connected c.state || is_disconnecting c.state)
  some
      (record (log (record c { state = disconnected; channel = disable_all c.channel })
        (connection_event disconnected)) { removed = true })

unfoldable pub handle_close : Connection → Option Connection
handle_close c = do
  _ ← assert (is_connected c.state || is_disconnecting c.state)
  some (log (record c { channel = disable_all c.channel }) close_event)

-- `handleError` only logs.
unfoldable pub handle_error : Connection → Connection
handle_error c = c

-- What follows `readFd`, by the number that it returned.
unfoldable pub after_read : Connection → Option ℕ → Option Connection
after_read c none = some (handle_error c)
after_read c (some n) =
    if ltb 0 n then some (log c (message_event (contents c.input))) else handle_close c

unfoldable pub handle_read : Connection → Readv → Option Connection
handle_read c r = do
  (n, saved_error, input) ← read_fd c.input r
  after_read (record c { input = input }) n

unfoldable pub shutdown_in_loop : Connection → Connection
shutdown_in_loop c = if is_writing c.channel then c else record c { shut = true }

-- When the last byte is out: no more writing, and a shutdown that waited for it goes on.
unfoldable pub drained : Connection → Connection
drained c =
    let c1 = record c { channel = disable_writing c.channel } in
    let c2 = if c.has_write_complete then enqueue c1 write_complete else c1 in
    if is_disconnecting c.state then shutdown_in_loop c2 else c2

unfoldable pub wrote_some : Connection → ℕ → Option Connection
wrote_some c n = do
  output ← retrieve c.output n
  let c' = record c { output = output; wire = c.wire ++ take n (contents c.output) }
  some (if readable_bytes output == 0 then drained c' else c')

unfoldable pub handle_write : Connection → Write → Option Connection
handle_write c failed = some c
handle_write c (wrote n) = if is_writing c.channel && ltb 0 n then wrote_some c n else some c

-- The first half of `sendInLoop`: the bytes that `::write` took at once.
unfoldable pub write_directly : Connection → List ℕ → Write → ℕ × Connection
write_directly c message failed = (0, c)
write_directly c message (wrote n) =
    if is_writing c.channel || not (readable_bytes c.output == 0) then (0, c) else (
      n,
      (let c' = record c { wire = c.wire ++ take n message } in
          if not (ltb n (length message)) && c.has_write_complete
          then enqueue c' write_complete
          else c'),
    )

-- The second half: the rest goes to the output buffer.
unfoldable pub keep_rest : Connection → List ℕ → ℕ → Option Connection
keep_rest c message n =
    if ltb n (length message)
    then (do
      output ← append c.output (drop n message)
      some (record c {
        output = output;
        channel = if is_writing c.channel then c.channel else enable_writing c.channel;
      }))
    else some c

unfoldable pub send_in_loop : Connection → List ℕ → Write → Option Connection
send_in_loop c message w = let r = write_directly c message w in keep_rest r.1 message r.0

unfoldable pub send : Bool → Connection → List ℕ → Write → Option Connection
send in_loop_thread c message w =
    if is_connected c.state
    then (if in_loop_thread
        then send_in_loop c message w
        else some (enqueue c (send_later message)))
    else some c

unfoldable pub shutdown : Bool → Connection → Connection
shutdown in_loop_thread c =
    if is_connected c.state
    then (let c' = record c { state = disconnecting } in
        if in_loop_thread then shutdown_in_loop c' else enqueue c' shutdown_later)
    else c

-- What the loop does with a functor that waits; the user's write complete callback gets the connection.
unfoldable pub run_functor : Connection → Functor → Write → Option Connection
run_functor c write_complete w = some c
run_functor c (send_later message) w = send_in_loop c message w
run_functor c shutdown_later w = some (shutdown_in_loop c)
