-- ===== src/Connector/Watch.antt =====
-- The callbacks of a watched channel.
use muduo_net_zxl.Prelude.{ℕ, ◌+◌, ◌≡◌, refl, Bool, some, arith}
use muduo_net_zxl.Channel.{Channel, disable_all}
use muduo_net_zxl.Connector.{
  States, disconnected, connecting, connected, Connector, handle_write, handle_error, retry, settle,
  remove_and_reset_channel,
}
use muduo_net_zxl.Connector.Events.{Watched, Place, IsValid}
use muduo_net_zxl.Connector.Settle.{Carries, held_lem, retry-IsValid, settle-IsValid}

-- A connector whose channel is watched is connecting.
pub place_watched :
    (s : States) (c : Connector) (k : Channel)
    → Place s c
    → c.channel ≡ some k
    → c.resets ≡ 0
    → (s ≡ connecting) × (c.retries ≡ 0)
place_watched disconnected c k p e z = absurd (omega (arith, z, free))
  where
    free : c.resets ≡ 1
    free = let (f, r) = p in rw e at f
place_watched connecting c k p e z = (refl, p.1)
place_watched connected c k p e z = absurd (omega (arith, z, free))
  where
    free : c.resets ≡ 1
    free = let (f, r) = p in rw e at f

-- Its channel removed, it carries the socket.
abbrev removed : Connector → Channel → Connector
removed c k = record c { channel = some (disable_all k); resets = c.resets + 1 }

removed-Carries :
    (c : Connector) (k : Channel)
    → IsValid c
    → c.channel ≡ some k
    → c.resets ≡ 0
    → Carries k.fd (removed c k)
unfolding disable_all
removed-Carries c k v e z = record {
  channel_free = omega (arith, z);
  no_retries = (place_watched c.state c k v.place e z).1;
  delay_low = v.delay_low;
  delay_high = v.delay_high;
  sockets = λ x. omega (arith, v.sockets x, held_lem x c.channel k c.resets e z);
}

state-Carries :
    (c : Connector) (n : ℕ) (s : States) → Carries n c → Carries n (record c { state = s })
state-Carries c n s v = record {
  channel_free = v.channel_free;
  no_retries = v.no_retries;
  delay_low = v.delay_low;
  delay_high = v.delay_high;
  sockets = v.sockets;
}

pub handle_write-IsValid :
    (c : Connector) (err : ℕ) (self_connect : Bool)
    → IsValid c
    → Watched c
    → (d : Connector) × (handle_write c err self_connect ≡ some d) × IsValid d
unfolding handle_write remove_and_reset_channel disable_all
handle_write-IsValid c err self_connect v (k, e, z) =
    let p = place_watched c.state c k v.place e z in
    (
      settle (removed c k) k.fd err self_connect,
      ground (arith, p.0, e),
      settle-IsValid (removed c k) k.fd err self_connect (removed-Carries c k v e z),
    )

-- The write callback does nothing to a connector that is down.
pub handle_write_down :
    (c : Connector) (err : ℕ) (self_connect : Bool)
    → c.state ≡ disconnected
    → handle_write c err self_connect ≡ some c
unfolding handle_write
handle_write_down c err self_connect e = ground (arith, e)

-- After an error the connector is down, or waits for its next attempt.
pub handle_error-IsValid :
    (c : Connector)
    → IsValid c
    → Watched c
    → (d : Connector) × (handle_error c ≡ some d) × IsValid d × (d.state ≡ disconnected)
unfolding handle_error remove_and_reset_channel disable_all retry
handle_error-IsValid c v (k, e, z) =
    let r = record (removed c k) { state = connecting } in
    (
      retry r k.fd,
      ground (arith, e),
      retry-IsValid r k.fd
          (state-Carries (removed c k) k.fd connecting (removed-Carries c k v e z)),
      ground arith,
    )
