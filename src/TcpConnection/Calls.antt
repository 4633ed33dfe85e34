-- ===== src/TcpConnection/Calls.antt =====
-- What the calls of a connection leave alone: its state, what its user heard, and whether it reads.
use muduo_net_zxl.Prelude.{
  ℕ, ◌≡◌, ◌⊎◌, Bool, true, Option, none, some, List, [], ◌∷◌, ◌++◌, ltb, length, ◌≤◌, arith,
  Bool-cases, inl, inr, append-nil, Option-cases,
}
use muduo_net_zxl.Buffer.{Readv, read_fd, contents}
use muduo_net_zxl.Channel.{Channel, has_bit, is_writing, enable_writing, disable_writing}
use muduo_net_zxl.TcpConnection.{
  connected, Event, message_event, close_event, Connection, Functor, write_complete, send_later,
  shutdown_later, wrote, failed, is_connected, Write, handle_read, handle_write, wrote_some,
  drained, shutdown_in_loop, send, send_in_loop, write_directly, keep_rest, handle_close,
  after_read, handle_error, run_functor,
}

-- A call that neither changes the state nor logs, and leaves reading and the registration alone.
pub record Same (c c' : Connection) : Type 0 where
  pub state : c'.state ≡ c.state
  pub events : c'.events ≡ c.events
  pub removed : c'.removed ≡ c.removed
  pub reads : has_bit c'.channel.events 0 ≡ has_bit c.channel.events 0

enable_writing-reads : (k : Channel) → has_bit (enable_writing k).events 0 ≡ has_bit k.events 0
unfolding enable_writing
enable_writing-reads k = ground arith

disable_writing-reads : (k : Channel) → has_bit (disable_writing k).events 0 ≡ has_bit k.events 0
unfolding disable_writing
disable_writing-reads k = ground arith

send_in_loop-Same :
    (c c' : Connection) (xs : List ℕ) (w : Write) → send_in_loop c xs w ≡ some c' → Same c c'
unfolding send_in_loop write_directly keep_rest
send_in_loop-Same c c' xs w e = record {
  state = ground arith;
  events = ground arith;
  removed = ground arith;
  reads = ground (arith, enable_writing-reads c.channel);
}

pub handle_write-Same : (c c' : Connection) (w : Write) → handle_write c w ≡ some c' → Same c c'
unfolding handle_write wrote_some drained shutdown_in_loop
handle_write-Same c c' w e = record {
  state = ground arith;
  events = ground arith;
  removed = ground arith;
  reads = ground (arith, disable_writing-reads c.channel);
}

pub run_functor-Same :
    (c c' : Connection) (f : Functor) (w : Write) → run_functor c f w ≡ some c' → Same c c'
unfolding run_functor shutdown_in_loop
run_functor-Same c c' write_complete w e = record {
  state = ground arith;
  events = ground arith;
  removed = ground arith;
  reads = ground arith;
}
run_functor-Same c c' (send_later xs) w e = send_in_loop-Same c c' xs w e
run_functor-Same c c' shutdown_later w e = record {
  state = ground arith;
  events = ground arith;
  removed = ground arith;
  reads = ground arith;
}

pub send-Same :
    (b : Bool) (c c' : Connection) (xs : List ℕ) (w : Write)
    → send b c xs w ≡ some c'
    → ((c.state ≡ connected) × Same c c') ⊎ (c' ≡ c)
unfolding send
send-Same b c c' xs w e = elim (Bool-cases (is_connected c.state)) [
  | inr f ↦ inr (ground arith)
  | inl t ↦ elim (Bool-cases b) [
    | inl u ↦ inl (ground arith, send_in_loop-Same c c' xs w (ground arith))
    | inr u ↦ inl (
      ground arith,
      record {
        state = ground arith;
        events = ground arith;
        removed = ground arith;
        reads = ground arith;
      },
    )
  ]
]

after_read-step :
    (c c' : Connection) (n : Option ℕ)
    → after_read c n ≡ some c'
    → (c'.state ≡ c.state) × ((e : List Event) × (c'.events ≡ c.events ++ e))
unfolding after_read handle_close handle_error
after_read-step c c' none e = (ground arith, ([], ground (arith, append-nil c.events)))
after_read-step c c' (some n) e = elim (Bool-cases (ltb 0 n)) [
  | inl t ↦ (ground arith, (message_event (contents c.input) ∷ [], ground arith))
  | inr f ↦ (ground arith, (close_event ∷ [], ground arith))
]

pub handle_read-step :
    (c c' : Connection) (r : Readv)
    → handle_read c r ≡ some c'
    → (c'.state ≡ c.state) × ((e : List Event) × (c'.events ≡ c.events ++ e))
unfolding handle_read
handle_read-step c c' r e = elim (Option-cases (read_fd c.input r)) [
  | inl n ↦ absurd (ground (arith, n))
  | inr ((n, saved, b), q) ↦ after_read-step (record c { input = b }) c' n (ground (arith, q))
]

-- A channel that watches nothing leads to no writing.
pub handle_write-idle :
    (c c' : Connection) (w : Write) → c.channel.events ≡ 0 → handle_write c w ≡ some c' → c' ≡ c
unfolding handle_write is_writing
handle_write-idle c c' failed h e = cc
handle_write-idle c c' (wrote n) h e = ground arith

-- A message that was sent from another thread while the connection was up, and that `sendInLoop` meets
-- when it is down: what the kernel does not take is kept, and a channel that has left the poller asks
-- for it again.
late_send_watches :
    (c : Connection) (xs : List ℕ) (c' : Connection)
    → c.removed ≡ true
    → 1 ≤ length xs
    → run_functor c (send_later xs) failed ≡ some c'
    → (is_writing c'.channel ≡ true) × (c'.removed ≡ true)
unfolding run_functor send_in_loop write_directly keep_rest is_writing enable_writing
late_send_watches c xs c' r l e = (ground arith, ground arith)
