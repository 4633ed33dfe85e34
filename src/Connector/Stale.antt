-- ===== src/Connector/Stale.antt =====
-- A retry that `stop` does not cancel.
use muduo_net_zxl.Prelude.{ℕ, ◌≤◌, ◌≡◌, refl, true, none, some, [], ◌∷◌, ◌++◌, arith}
use muduo_net_zxl.Channel
use muduo_net_zxl.Channel.{enable_writing}
use muduo_net_zxl.Connector.{
  disconnected, connecting, created, Errno, einprogress, Connector, start, start_in_loop, connect,
  begin_connecting, stop,
}
use muduo_net_zxl.Connector.Events.{retry_fires, run, Reach}
use muduo_net_zxl.Connector.Reach.{Reach-IsValid, retry-Idle}

-- While a retry waits for its timer, `stop` followed by `start` begins a new attempt, and the timer stays.
-- When it fires during the attempt, the assertion of `startInLoop` fails.
pub stale_retry_fires :
    (c : Connector) (first second : ℕ) (save_error : Errno)
    → Reach c
    → 1 ≤ c.retries
    → c.resets ≡ 0
    → (d : Connector) × (start (stop c) first einprogress ≡ some d)
      × (d.state ≡ connecting)
      × (d.retries ≡ c.retries)
      × (run d (retry_fires second save_error) ≡ none)
unfolding start stop start_in_loop connect begin_connecting run
stale_retry_fires c first second save_error r h z =
    let v = Reach-IsValid r in
    let i = retry-Idle c.state c v.place refl h z v in
    let s : c.state ≡ disconnected = i.state_is in
    let n : c.channel ≡ none = i.no_channel in
    (
      record c {
        wanted = true;
        state = connecting;
        channel = some (enable_writing (Channel.init first));
        calls = c.calls ++ created first ∷ [];
      },
      ground (arith, s, n),
      refl,
      refl,
      refl,
    )
