-- ===== src/TcpClient/Events.antt =====
-- What can happen to a client that is connecting or connected, in the loop's thread, and its invariant.
use muduo_net_zxl.Prelude.{
  ℕ, ◌+◌, ◌≡◌, Bool, true, ◌&&◌, ◌||◌, Option, none, some, List, [], ◌∷◌, ◌>>=◌, ◌==◌, leb, ltb,
  one_if,
}
use muduo_net_zxl.Connector
use muduo_net_zxl.Connector.{Errno}
use muduo_net_zxl.Connector.Events
use muduo_net_zxl.TcpConnection.{Connection, StateE, is_connected, is_disconnecting}
use muduo_net_zxl.TcpConnection.Lifecycle
use muduo_net_zxl.TcpClient.{
  Conn, TcpClient, init, connect, disconnect, stop, enable_retry, attempt, peer_closes,
  destroy_first,
}
use muduo_net_zxl.TcpClient.Handing.{IsOwn, handed_count}

-- `works` is a step of the current connection that leaves it up.
pub data Event : Type 0 where
  attempts : Events.Event → Event
  works : Connection → Event
  closes : ℕ → Errno → Event
  destroys : Event
  disconnects : Event
  stops : Event
  enables_retry : Event
  connects : ℕ → Errno → Event

abbrev pub worked : Option Conn → Connection → Option Conn
worked none connection = none
worked (some c) connection = some (record c { connection = connection })

unfoldable pub run : TcpClient → Event → Option TcpClient
run t (attempts e) = do connector ← Events.run t.connector e; attempt t connector
run t (works connection) = some (record t { current = worked t.current connection })
run t (closes sockfd save_error) = peer_closes t sockfd save_error
run t destroys = destroy_first t t.destroying
run t disconnects = some (disconnect t)
run t stops = some (stop t)
run t enables_retry = some (enable_retry t)
run t (connects sockfd save_error) = connect t sockfd save_error

abbrev pub IsUp : StateE → Type 0
IsUp s = (is_connected s || is_disconnecting s) ≡ true

-- A connection has events in the rounds of the loop behind the one that made it, when the connector's
-- `resetChannel` has run. `connect` is called again only when the connector may be started again.
abbrev pub Enabled : TcpClient → Event → Type 0
Enabled t (attempts e) = IsOwn e × Events.Enabled t.connector e
Enabled t (works connection) =
    (c : Conn) × (t.current ≡ some c)
    × Lifecycle.Step c.connection connection
    × IsUp connection.state
Enabled t (closes sockfd save_error) = (c : Conn) × (t.current ≡ some c) × (t.connector.resets ≡ 0)
Enabled t destroys = Unit {0}
Enabled t disconnects = Unit {0}
Enabled t stops = Unit {0}
Enabled t enables_retry = Unit {0}
Enabled t (connects sockfd save_error) =
    Events.Enabled t.connector (Events.starts sockfd save_error)

pub data Reach : TcpClient → Type 0 where
  started :
      {t : TcpClient} (has_write_complete : Bool) (sockfd : ℕ) (save_error : Errno)
      → connect (init has_write_complete) sockfd save_error ≡ some t
      → Reach t
  next : {t u : TcpClient} (e : Event) → Reach t → Enabled t e → run t e ≡ some u → Reach u

abbrev pub current_times : ℕ → Option Conn → ℕ
current_times i none = 0
current_times i (some c) = one_if (i == c.number)

unfoldable pub conn_times : ℕ → List Conn → ℕ
conn_times i [] = 0
conn_times i (c ∷ cs) = one_if (i == c.number) + conn_times i cs

unfoldable pub number_times : ℕ → List ℕ → ℕ
number_times i [] = 0
number_times i (n ∷ ns) = one_if (i == n) + number_times i ns

abbrev pub AllUp : List Conn → Type 0
AllUp [] = Unit {0}
AllUp (c ∷ cs) = IsUp c.connection.state × AllUp cs

-- The connections that were made are numbered from 1, one for each socket that the connector handed
-- over. Each is the current one, or waits for its end, or has ended, once.
pub record IsValid (t : TcpClient) : Type 0 where
  pub connector : Events.IsValid t.connector
  pub linked : (c : Conn) → t.current ≡ some c → t.connector.state ≡ Connector.connected
  pub current_up : (c : Conn) → t.current ≡ some c → IsUp c.connection.state
  pub destroying_up : AllUp t.destroying
  pub made : t.next_conn_id ≡ 1 + handed_count t.connector.calls
  pub once :
      (i : ℕ)
      → current_times i t.current + conn_times i t.destroying + number_times i t.ended
        ≡ one_if (leb 1 i && ltb i t.next_conn_id)
