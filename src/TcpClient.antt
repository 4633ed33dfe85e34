-- ===== src/TcpClient.antt =====
-- TcpClient.h and TcpClient.cc: a client's connector and its connection. The connector hands a new
-- socket over when it logs `handed`; a connection is told apart by the number in its name. Everything
-- runs in the loop's thread. A failed `assert`, of this class or of those below it, is `none`.
pub mod Handing
pub mod Events
pub mod Steps
pub mod Reach
pub mod Again
mod Tests
use muduo_net_zxl.Prelude.{
  ℕ, ◌+◌, Bool, true, false, ◌&&◌, Option, none, some, List, [], ◌∷◌, ◌++◌, ◌>>=◌, if◌then◌else◌,
  ◌==◌, assert, length, drop,
}
use muduo_net_zxl.Connector
use muduo_net_zxl.Connector.{Connector, Errno, Call, created, closed, handed, run_after}
use muduo_net_zxl.TcpConnection
use muduo_net_zxl.TcpConnection.{Connection, connect_established, connect_destroyed, handle_close}

-- A connection with the number in its name.
pub record Conn : Type 0 where
  pub number : ℕ
  pub connection : Connection

-- `destroying` holds the connections whose `connectDestroyed` waits in the loop, and `ended` the numbers
-- of those for which it ran.
pub record TcpClient : Type 0 where
  pub connector : Connector
  pub retry : Bool
  pub has_write_complete : Bool
  pub connect_wanted : Bool
  pub next_conn_id : ℕ
  pub current : Option Conn
  pub destroying : List Conn
  pub ended : List ℕ

unfoldable pub init : Bool → TcpClient
init has_write_complete = record {
  connector = Connector.init;
  retry = false;
  has_write_complete = has_write_complete;
  connect_wanted = false;
  next_conn_id = 1;
  current = none;
  destroying = [];
  ended = [];
}

unfoldable pub enable_retry : TcpClient → TcpClient
enable_retry t = record t { retry = true }

unfoldable pub connect : TcpClient → ℕ → Errno → Option TcpClient
connect t sockfd save_error = do
  connector ← Connector.start t.connector sockfd save_error
  some (record t { connect_wanted = true; connector = connector })

abbrev pub shut_down : Option Conn → Option Conn
shut_down none = none
shut_down (some c) = some (record c { connection = TcpConnection.shutdown true c.connection })

unfoldable pub disconnect : TcpClient → TcpClient
disconnect t = record t { connect_wanted = false; current = shut_down t.current }

unfoldable pub stop : TcpClient → TcpClient
stop t = record t { connect_wanted = false; connector = Connector.stop t.connector }

unfoldable pub new_connection : TcpClient → ℕ → Option TcpClient
new_connection t sockfd = do
  connection ← connect_established (TcpConnection.init sockfd t.has_write_complete)
  some (record t {
    next_conn_id = t.next_conn_id + 1;
    current = some (record { number = t.next_conn_id; connection = connection });
  })

abbrev pub is_current : Option Conn → Conn → Bool
is_current none c = false
is_current (some d) c = d.number == c.number

-- The socket and the `errno` are those of the attempt that `restart` makes.
unfoldable pub remove_connection : TcpClient → Conn → ℕ → Errno → Option TcpClient
remove_connection t c sockfd save_error = do
  _ ← assert (is_current t.current c)
  let t1 = record t { current = none; destroying = t.destroying ++ c ∷ [] }
  if t.retry && t.connect_wanted
      then (do
        connector ← Connector.restart t.connector sockfd save_error
        some (record t1 { connector = connector }))
      else some t1

-- The sockets that the calls hand over.
abbrev pub sockets_handed : List Call → Option ℕ
sockets_handed [] = none
sockets_handed (created x ∷ cs) = sockets_handed cs
sockets_handed (closed x ∷ cs) = sockets_handed cs
sockets_handed (handed x ∷ cs) = some x
sockets_handed (run_after x ∷ cs) = sockets_handed cs

-- An event of the connector, where `newConnectionCallback_` is `newConnection`.
unfoldable pub attempt : TcpClient → Connector → Option TcpClient
attempt t connector =
    let t1 = record t { connector = connector } in
    elim (sockets_handed (drop (length t.connector.calls) connector.calls)) [
      | none ↦ some t1
      | some sockfd ↦ new_connection t1 sockfd
    ]

-- `TcpConnection::handleClose` of the current connection, whose close callback is `removeConnection`.
unfoldable pub peer_closes : TcpClient → ℕ → Errno → Option TcpClient
peer_closes t sockfd save_error = do
  c ← t.current
  connection ← handle_close c.connection
  let d = record c { connection = connection }
  remove_connection (record t { current = some d }) d sockfd save_error

-- The first `connectDestroyed` that waits.
abbrev pub destroy_first : TcpClient → List Conn → Option TcpClient
destroy_first t [] = some t
destroy_first t (c ∷ cs) = do
  connection ← connect_destroyed c.connection
  some (record t { destroying = cs; ended = t.ended ++ c.number ∷ [] })
