-- ===== src/TcpConnection/Tests.antt =====
-- A connection that has sent four bytes, of which the kernel took one.
use muduo_net_zxl.Prelude.{◌≡◌, refl, [], ◌∷◌, true, false, some, arith, pos}
use muduo_net_zxl.Buffer
use muduo_net_zxl.Buffer.{Buffer, retrieve, contents}
use muduo_net_zxl.Buffer.Valid
use muduo_net_zxl.Buffer.Valid.{init-IsValid}
use muduo_net_zxl.Channel.{is_writing, enable_reading, disable_all}
use muduo_net_zxl.TcpConnection
use muduo_net_zxl.TcpConnection.{
  Connection, connected, disconnecting, connection_event, wrote, failed, handle_write, wrote_some,
  send_in_loop, shutdown, connect_established, connecting, connect_destroyed, disconnected,
  send_later, write_complete, send, run_functor, write_directly, keep_rest,
}
use muduo_net_zxl.TcpConnection.Writes.{IsValid, stream}
use muduo_net_zxl.TcpConnection.Stream.{Streamed, Step, start, next, Steps-stream}
use muduo_net_zxl.TcpConnection.Shutdown.{shutdown_waits}
use muduo_net_zxl.TcpConnection.Lifecycle.{Phase, Reach, here, Reach-Phase}
use muduo_net_zxl.TcpConnection.Lifecycle
use muduo_net_zxl.TcpConnection.Drain.{handle_writes, handle_writes_shut}

abbrev backlog : Buffer
backlog = record { buffer = 0 ∷ 7 ∷ 8 ∷ 9 ∷ []; reader_index = 1; writer_index = 4 }

abbrev waiting : Connection
waiting = record {
  state = connected;
  channel = record { fd = 3; events = 7; revents = 0; index = pos 0 };
  input = backlog;
  output = backlog;
  has_write_complete = true;
  queued = [];
  events = connection_event connected ∷ [];
  wire = 6 ∷ [];
  shut = false;
  removed = false;
}

backlog-IsValid : Valid.IsValid backlog
backlog-IsValid = record { ordered = omega arith; within = omega arith; small = omega arith }

waiting-IsValid : IsValid waiting
unfolding is_writing
waiting-IsValid = record { output_valid = backlog-IsValid; writes = λ h. refl }

-- The kernel takes two bytes more.
abbrev less_waiting : Connection
less_waiting = record waiting {
  output = record backlog { reader_index = 3 };
  wire = 6 ∷ 7 ∷ 8 ∷ [];
}

Steps-stream_example : Streamed waiting [] less_waiting
unfolding handle_write wrote_some retrieve is_writing
Steps-stream_example =
    Steps-stream (next start (Step.writes waiting less_waiting (wrote 2) (omega arith) refl) refl)
      waiting-IsValid

shutdown_waits_example :
    ((shutdown true waiting).state ≡ disconnecting)
    × ((shutdown true waiting).shut ≡ false)
    × (stream (shutdown true waiting) ≡ stream waiting)
    × ((c : Connection) × (handle_write (shutdown true waiting) (wrote 3) ≡ some c)
        × (c.shut ≡ true))
shutdown_waits_example =
    shutdown_waits waiting 3 waiting-IsValid refl refl (omega arith) (omega arith)

-- A new connection is established.
abbrev up : Connection
up = record (TcpConnection.init 3 true) {
  state = connected;
  channel = enable_reading (TcpConnection.init 3 true).channel;
  events = connection_event connected ∷ [];
}

-- Another thread sends a byte, the connection is destroyed, and only then the message is written.
abbrev sent : Connection
sent = record up { queued = send_later (9 ∷ []) ∷ [] }

abbrev down : Connection
down = record sent {
  state = disconnected;
  channel = disable_all up.channel;
  events = connection_event connected ∷ connection_event disconnected ∷ [];
  removed = true;
}

abbrev written : Connection
written = record down { queued = write_complete ∷ []; wire = 9 ∷ [] }

Reach-Phase_example : Phase disconnected written
unfolding connect_established connect_destroyed TcpConnection.init send run_functor send_in_loop
    write_directly keep_rest enable_reading disable_all is_writing Buffer.init
Reach-Phase_example = Reach-Phase 3 true (
    Lifecycle.next
      (Lifecycle.next
        (Lifecycle.next
          (Lifecycle.next here (Lifecycle.established (TcpConnection.init 3 true) up refl))
          (Lifecycle.sends false up sent (9 ∷ []) failed refl))
        (Lifecycle.destroyed sent down refl))
      (Lifecycle.runs down written (send_later (9 ∷ [])) [] (wrote 1) refl refl))

abbrev closing : Connection
closing = record waiting { state = disconnecting }

closing-IsValid : IsValid closing
closing-IsValid = record {
  output_valid = waiting-IsValid.output_valid;
  writes = waiting-IsValid.writes;
}

handle_writes_shut_example :
    (c : Connection) × (handle_writes closing (2 ∷ 1 ∷ 5 ∷ []) ≡ some c)
    × (contents c.output ≡ [])
    × (c.wire ≡ 6 ∷ 7 ∷ 8 ∷ 9 ∷ [])
    × (c.shut ≡ true)
handle_writes_shut_example =
    handle_writes_shut closing (2 ∷ 1 ∷ 5 ∷ []) closing-IsValid refl refl (omega arith)
      (omega arith, (omega arith, (omega arith, tt))) (omega arith)
