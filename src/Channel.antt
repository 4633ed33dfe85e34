-- ===== src/Channel.antt =====
-- Channel.h and Channel.cc: the events that a file descriptor is watched for, and the callbacks
-- that an event runs. `poll.h`'s constants are powers of two, so a mask is a bit test.
-- `eventHanding_`, which only the destructor's assertion reads, is left out.
pub mod Poll
pub mod Dispatch
pub mod Interest
mod Tests
use Poll
use muduo_net_zxl.Prelude.{
  ℕ, ◌+◌, ◌-◌, ◌*◌, ◌/◌, ◌%◌, ◌^◌, Bool, true, false, not, ◌&&◌, ◌||◌, Option, none, some, ◌==◌,
  if◌then◌else◌, ℤ, pos, negsuc,
}

-- `x & (1 << k)`.
abbrev pub has_bit : ℕ → ℕ → Bool
has_bit x k = x / 2 ^ k % 2 == 1

pub record Channel : Type 0 where
  pub fd : ℕ
  pub events : ℕ
  pub revents : ℕ
  pub index : ℤ

abbrev pub none_event : ℕ
none_event = 0

-- `new Channel(loop, fd)`.
unfoldable pub init : ℕ → Channel
init fd = record { fd = fd; events = 0; revents = 0; index = negsuc 0 }

-- Each of these is followed by `update()`, which is the poller's `update_channel`.
unfoldable pub enable_reading : Channel → Channel
enable_reading c = record c { events = c.events / 4 * 4 + 3 }

unfoldable pub enable_writing : Channel → Channel
enable_writing c = record c {
  events = if has_bit c.events Poll.out_bit then c.events else c.events + 4;
}

unfoldable pub disable_writing : Channel → Channel
disable_writing c = record c {
  events = if has_bit c.events Poll.out_bit then c.events - 4 else c.events;
}

unfoldable pub disable_all : Channel → Channel
disable_all c = record c { events = none_event }

unfoldable pub is_writing : Channel → Bool
is_writing c = has_bit c.events Poll.out_bit

unfoldable pub is_none_event : Channel → Bool
is_none_event c = c.events == none_event

-- The callbacks that are set, over the state `S` that they change.
pub record Callbacks (S : Type 0) : Type 0 where
  pub read_callback : Option (ℕ → S → S)
  pub write_callback : Option (S → S)
  pub error_callback : Option (S → S)
  pub close_callback : Option (S → S)

abbrev pub call : {S : Type 0} → Bool → Option (S → S) → S → S
call true (some f) s = f s
call true none s = s
call false f s = s

abbrev pub call_at : {S : Type 0} → Bool → Option (ℕ → S → S) → ℕ → S → S
call_at true (some f) t s = f t s
call_at true none t s = s
call_at false f t s = s

unfoldable pub handle_event : {S : Type 0} → Channel → Callbacks S → ℕ → S → S
handle_event c k receive_time s0 =
    let r = c.revents in
    let s1 = call (has_bit r Poll.err_bit || has_bit r Poll.nval_bit) k.error_callback s0 in
    let s2 = call (has_bit r Poll.hup_bit && not (has_bit r Poll.in_bit)) k.close_callback s1 in
    let s3 =
      call_at (has_bit r Poll.in_bit || has_bit r Poll.pri_bit || has_bit r Poll.rdhup_bit)
        k.read_callback receive_time s2 in
    call (has_bit r Poll.out_bit) k.write_callback s3
