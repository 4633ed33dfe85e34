-- ===== src/Connector/Sockets.antt =====
-- Where the sockets of a connector are: how often the calls created, closed or handed one on.
use muduo_net_zxl.Prelude.{
  ℕ, zero, suc, ◌+◌, ◌≡◌, Option, none, some, List, [], ◌∷◌, ◌++◌, ◌==◌, arith, one_if,
}
use muduo_net_zxl.Channel.{Channel}
use muduo_net_zxl.Connector.{Call, created, closed, handed, run_after}

unfoldable pub created_times : ℕ → List Call → ℕ
created_times x [] = 0
created_times x (created y ∷ cs) = one_if (x == y) + created_times x cs
created_times x (closed y ∷ cs) = created_times x cs
created_times x (handed y ∷ cs) = created_times x cs
created_times x (run_after y ∷ cs) = created_times x cs

-- Given back to the kernel, or to the user.
unfoldable pub given_times : ℕ → List Call → ℕ
given_times x [] = 0
given_times x (created y ∷ cs) = given_times x cs
given_times x (closed y ∷ cs) = one_if (x == y) + given_times x cs
given_times x (handed y ∷ cs) = one_if (x == y) + given_times x cs
given_times x (run_after y ∷ cs) = given_times x cs

-- A channel that waits for its `resetChannel` no longer owns its socket.
abbrev pub held_times : ℕ → Option Channel → ℕ → ℕ
held_times x none n = 0
held_times x (some channel) zero = one_if (x == channel.fd)
held_times x (some channel) (suc n) = 0

pub created_times-append :
    (x : ℕ) (cs ds : List Call)
    → created_times x (cs ++ ds) ≡ created_times x cs + created_times x ds
unfolding created_times
created_times-append x [] ds = omega arith
created_times-append x (created y ∷ cs) ds = omega (arith, created_times-append x cs ds)
created_times-append x (closed y ∷ cs) ds = created_times-append x cs ds
created_times-append x (handed y ∷ cs) ds = created_times-append x cs ds
created_times-append x (run_after y ∷ cs) ds = created_times-append x cs ds

pub given_times-append :
    (x : ℕ) (cs ds : List Call) → given_times x (cs ++ ds) ≡ given_times x cs + given_times x ds
unfolding given_times
given_times-append x [] ds = omega arith
given_times-append x (created y ∷ cs) ds = given_times-append x cs ds
given_times-append x (closed y ∷ cs) ds = omega (arith, given_times-append x cs ds)
given_times-append x (handed y ∷ cs) ds = omega (arith, given_times-append x cs ds)
given_times-append x (run_after y ∷ cs) ds = given_times-append x cs ds
