-- ===== src/Connector/Start.antt =====
-- `startInLoop` and `connect`, from rest.
use muduo_net_zxl.Prelude.{
  ℕ, ◌≤◌, ◌≡◌, refl, none, some, [], ◌∷◌, ◌++◌, arith, Bool-cases, inl, inr,
}
use muduo_net_zxl.Channel
use muduo_net_zxl.Channel.{Channel, enable_writing, disable_all}
use muduo_net_zxl.Connector.{
  States, disconnected, connecting, Errno, Verdict, go_on, try_again, give_up, verdict, created,
  closed, Connector, log, start_in_loop, connect, after_connect, begin_connecting, retry,
}
use muduo_net_zxl.Connector.Sockets.{
  created_times, given_times, created_times-append, given_times-append,
}
use muduo_net_zxl.Connector.Events.{Free, Place, IsValid}
use muduo_net_zxl.Connector.Settle.{free_lem, held_lem, retry-IsValid}

-- A connector at rest: it holds no socket, and nothing waits.
pub record Idle (c : Connector) : Type 0 where
  pub state_is : c.state ≡ disconnected
  pub no_channel : c.channel ≡ none
  pub no_resets : c.resets ≡ 0
  pub no_retries : c.retries ≡ 0
  pub delay_low : 500 ≤ c.retry_delay_ms
  pub delay_high : c.retry_delay_ms ≤ 30000
  pub sockets : (x : ℕ) → created_times x c.calls ≡ given_times x c.calls

pub Idle-IsValid : (c : Connector) → Idle c → IsValid c
Idle-IsValid c i = record {
  place = place_lem c.state i.state_is;
  delay_low = i.delay_low;
  delay_high = i.delay_high;
  sockets = λ x. omega (arith, i.sockets x, free_lem x c.channel c.resets free);
}
  where
    free : Free c.channel c.resets
    free = rw i.no_channel i.no_resets

    place_lem : (s : States) → s ≡ disconnected → Place s c
    place_lem s e = rw e (free, omega (arith, i.no_retries))

after_connect-IsValid :
    (c : Connector) (sockfd : ℕ) (v : Verdict)
    → Idle c
    → (d : Connector) × (after_connect v (log c (created sockfd)) sockfd ≡ some d) × IsValid d
unfolding begin_connecting created_times given_times enable_writing Channel.init
after_connect-IsValid c sockfd go_on i = (
  record c {
    state = connecting;
    calls = c.calls ++ created sockfd ∷ [];
    channel = some (enable_writing (Channel.init sockfd));
  },
  rw i.no_channel refl,
  record {
    place = (i.no_resets, i.no_retries);
    delay_low = i.delay_low;
    delay_high = i.delay_high;
    sockets = λ x. omega (
      arith,
      i.sockets x,
      created_times-append x c.calls (created sockfd ∷ []),
      given_times-append x c.calls (created sockfd ∷ []),
      held_lem x _ (enable_writing (Channel.init sockfd)) c.resets refl i.no_resets,
    );
  },
)
after_connect-IsValid c sockfd try_again i = (
  retry (log c (created sockfd)) sockfd,
  refl,
  retry-IsValid _ sockfd (record {
    channel_free = rw i.no_channel i.no_resets;
    no_retries = i.no_retries;
    delay_low = i.delay_low;
    delay_high = i.delay_high;
    sockets = λ x. omega (
      arith,
      i.sockets x,
      created_times-append x c.calls (created sockfd ∷ []),
      given_times-append x c.calls (created sockfd ∷ []),
    );
  }),
)
after_connect-IsValid c sockfd give_up i = (
  log (log c (created sockfd)) (closed sockfd),
  refl,
  Idle-IsValid _ (record {
    state_is = i.state_is;
    no_channel = i.no_channel;
    no_resets = i.no_resets;
    no_retries = i.no_retries;
    delay_low = i.delay_low;
    delay_high = i.delay_high;
    sockets = λ x. omega (
      arith,
      i.sockets x,
      created_times-append x c.calls (created sockfd ∷ []),
      given_times-append x c.calls (created sockfd ∷ []),
      created_times-append x (c.calls ++ created sockfd ∷ []) (closed sockfd ∷ []),
      given_times-append x (c.calls ++ created sockfd ∷ []) (closed sockfd ∷ []),
    );
  }),
)

pub start_in_loop-IsValid :
    (c : Connector) (sockfd : ℕ) (save_error : Errno)
    → Idle c
    → (d : Connector) × (start_in_loop c sockfd save_error ≡ some d) × IsValid d
unfolding start_in_loop connect
start_in_loop-IsValid c sockfd save_error i = elim (Bool-cases c.wanted) [
  | inl t ↦
      let (d, e, v) = after_connect-IsValid c sockfd (verdict save_error) i in
      (d, ground (arith, t, i.state_is, e), v)
  | inr f ↦ (c, ground (arith, i.state_is, f), Idle-IsValid c i)
]
