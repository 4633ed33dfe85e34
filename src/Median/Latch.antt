-- ===== src/Median/Latch.antt =====
-- protobuf/collector.cc: `RcpClient`, and `Collector::connect`, which waits on a latch until every sorter is
-- connected. The thread that runs `connect` and the loop's thread take turns; the latch is a counter that
-- `countDown` makes smaller, and `wait` returns when it is 0. Connections are numbers.
use muduo_net_zxl.Prelude.{
  ℕ, ◌+◌, ◌-◌, ◌≡◌, Bool, true, false, not, ◌&&◌, ◌||◌, Option, none, some, List, [], ◌∷◌,
  if◌then◌else◌, get_elem?, set, replicate, one_if, is_some,
}

-- `has_latch` is `connectLatch_ != NULL`; `started` says that `connect` was called.
pub record RcpClient : Type 0 where
  pub has_latch : Bool
  pub started : Bool
  pub connection : Option ℕ

abbrev pub new_client : RcpClient
new_client = record { has_latch = false; started = false; connection = none }

-- The sorters, and the count of the latch.
pub record Connecting : Type 0 where
  pub sorters : List RcpClient
  pub count : ℕ

-- `CountDownLatch latch(sorters_.size())`.
unfoldable pub begin : ℕ → Connecting
begin n = record { sorters = replicate n new_client; count = n }

-- `RcpClient::connect`.
unfoldable pub connect : RcpClient → RcpClient
connect c = record c { has_latch = true; started = true }

-- `RcpClient::onConnection`: the client, and how far it counts down.
unfoldable pub on_connection : RcpClient → ℕ → Bool → RcpClient × ℕ
on_connection c conn connected =
    if connected
    then (record c { connection = some conn; has_latch = false }, one_if c.has_latch)
    else (c, 0)

-- Only a client that was started hears of connections.
pub data Step : Connecting → Connecting → Type 0 where
  starts :
      (s : Connecting) (i : ℕ) (c : RcpClient)
      → get_elem? s.sorters i ≡ some c
      → c.started ≡ false
      → Step s (record s { sorters = set s.sorters i (connect c) })
  hears :
      (s : Connecting) (i : ℕ) (c : RcpClient) (conn : ℕ) (connected : Bool)
      → get_elem? s.sorters i ≡ some c
      → c.started ≡ true
      → Step s (record s {
        sorters = set s.sorters i (on_connection c conn connected).0;
        count = s.count - (on_connection c conn connected).1;
      })

pub data Reach (n : ℕ) : Connecting → Type 0 where
  here : Reach n (begin n)
  next : {s t : Connecting} → Reach n s → Step s t → Reach n t

-- A client that is still to count down.
abbrev owes : RcpClient → ℕ
owes c = one_if (not c.started || c.has_latch)

owed : List RcpClient → ℕ
owed [] = 0
owed (c ∷ cs) = owes c + owed cs

-- Only a client that was started holds the latch; it is connected when it holds it no longer.
abbrev Good : RcpClient → Type 0
Good c =
    (c.started ≡ false → c.has_latch ≡ false)
    × (is_some c.connection ≡ (c.started && not c.has_latch))

abbrev AllGood : List RcpClient → Type 0
AllGood [] = Unit {0}
AllGood (c ∷ cs) = Good c × AllGood cs

-- The sorters that are not connected.
unfoldable pub unconnected : List RcpClient → ℕ
unconnected [] = 0
unconnected (c ∷ cs) = one_if (not (is_some c.connection)) + unconnected cs
