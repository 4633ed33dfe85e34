-- ===== src/Connector/Settle.antt =====
-- `retry` and the end of `handleWrite`: a socket is given back or handed on.
use muduo_net_zxl.Prelude.{
  ℕ, zero, suc, ◌+◌, ◌≤◌, ◌≡◌, refl, Bool, not, ◌||◌, Option, none, some, [], ◌∷◌, ◌++◌, ◌==◌,
  arith, Bool-cases, inl, inr, one_if,
}
use muduo_net_zxl.Channel.{Channel}
use muduo_net_zxl.Connector.{closed, handed, run_after, Connector, retry, settle}
use muduo_net_zxl.Connector.Sockets.{
  created_times, given_times, held_times, created_times-append, given_times-append,
}
use muduo_net_zxl.Connector.Events.{Free, IsValid}

-- A connector that holds a socket in its hands, created and not yet given back.
pub record Carries (sockfd : ℕ) (c : Connector) : Type 0 where
  pub channel_free : Free c.channel c.resets
  pub no_retries : c.retries ≡ 0
  pub delay_low : 500 ≤ c.retry_delay_ms
  pub delay_high : c.retry_delay_ms ≤ 30000
  pub sockets : (x : ℕ) → created_times x c.calls ≡ given_times x c.calls + one_if (x == sockfd)

pub free_lem : (x : ℕ) (o : Option Channel) (n : ℕ) → Free o n → held_times x o n ≡ 0
free_lem x none n f = refl
free_lem x (some k) zero f = absurd (omega (arith, f))
free_lem x (some k) (suc n) f = refl

pub held_lem :
    (x : ℕ) (o : Option Channel) (k : Channel) (n : ℕ)
    → o ≡ some k
    → n ≡ 0
    → held_times x o n ≡ one_if (x == k.fd)
held_lem x o k n e h = rw e (rw h refl)

pub retry-IsValid : (c : Connector) (sockfd : ℕ) → Carries sockfd c → IsValid (retry c sockfd)
unfolding retry created_times given_times
retry-IsValid c sockfd v = elim (Bool-cases c.wanted) [
  | inl t ↦ rw t (record {
    place = (v.channel_free, omega (arith, v.no_retries));
    delay_low = omega (arith, v.delay_low);
    delay_high = omega arith;
    sockets = λ x. omega (
      arith,
      v.sockets x,
      created_times-append x c.calls (closed sockfd ∷ []),
      given_times-append x c.calls (closed sockfd ∷ []),
      created_times-append x (c.calls ++ closed sockfd ∷ []) (run_after c.retry_delay_ms ∷ []),
      given_times-append x (c.calls ++ closed sockfd ∷ []) (run_after c.retry_delay_ms ∷ []),
      free_lem x c.channel c.resets v.channel_free,
    );
  })
  | inr t ↦ rw t (record {
    place = (v.channel_free, omega (arith, v.no_retries));
    delay_low = v.delay_low;
    delay_high = v.delay_high;
    sockets = λ x. omega (
      arith,
      v.sockets x,
      created_times-append x c.calls (closed sockfd ∷ []),
      given_times-append x c.calls (closed sockfd ∷ []),
      free_lem x c.channel c.resets v.channel_free,
    );
  })
]

pub settle-IsValid :
    (c : Connector) (sockfd err : ℕ) (self_connect : Bool)
    → Carries sockfd c
    → IsValid (settle c sockfd err self_connect)
unfolding settle created_times given_times
settle-IsValid c sockfd err self_connect v = elim (Bool-cases (not (err == 0) || self_connect)) [
  | inl t ↦ rw t (retry-IsValid c sockfd v)
  | inr t ↦ rw t (elim (Bool-cases c.wanted) [
    | inl u ↦ rw u (record {
      place = (v.channel_free, v.no_retries);
      delay_low = v.delay_low;
      delay_high = v.delay_high;
      sockets = λ x. omega (
        arith,
        v.sockets x,
        created_times-append x c.calls (handed sockfd ∷ []),
        given_times-append x c.calls (handed sockfd ∷ []),
        free_lem x c.channel c.resets v.channel_free,
      );
    })
    | inr u ↦ rw u (record {
      place = (v.channel_free, v.no_retries);
      delay_low = v.delay_low;
      delay_high = v.delay_high;
      sockets = λ x. omega (
        arith,
        v.sockets x,
        created_times-append x c.calls (closed sockfd ∷ []),
        given_times-append x c.calls (closed sockfd ∷ []),
        free_lem x c.channel c.resets v.channel_free,
      );
    })
  ])
]
