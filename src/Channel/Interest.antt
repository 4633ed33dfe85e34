-- ===== src/Channel/Interest.antt =====
-- The interest set `events_`: what the setters change and what they leave.
use muduo_net_zxl.Prelude.{◌≡◌, true, false, arith}
use muduo_net_zxl.Channel.{
  Channel, has_bit, enable_reading, enable_writing, disable_writing, disable_all, is_writing,
  is_none_event,
}

-- Each setter changes its own flag only: `enableReading` sets the two low bits, the writing flag is
-- bit 2, and `disableAll` clears everything. No channel that reads or writes counts as idle.
pub interest :
    (c : Channel)
    → (has_bit (enable_reading c).events 0 ≡ true)
      × (has_bit (enable_reading c).events 1 ≡ true)
      × (is_writing (enable_reading c) ≡ is_writing c)
      × (is_none_event (enable_reading c) ≡ false)
      × (is_writing (enable_writing c) ≡ true)
      × (has_bit (enable_writing c).events 0 ≡ has_bit c.events 0)
      × (is_none_event (enable_writing c) ≡ false)
      × (is_writing (disable_writing c) ≡ false)
      × (has_bit (disable_writing c).events 0 ≡ has_bit c.events 0)
      × (is_none_event (disable_all c) ≡ true)
unfolding enable_reading enable_writing disable_writing disable_all is_writing is_none_event
interest c = (
  ground arith,
  ground arith,
  ground arith,
  ground arith,
  ground arith,
  ground arith,
  ground arith,
  ground arith,
  ground arith,
  ground arith,
)
