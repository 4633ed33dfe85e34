-- ===== src/TcpServer.antt =====
-- TcpServer.h and TcpServer.cc: the connections of a server by name, and the loops that they run in.
-- `conn_name` is the server's name followed by what `snprintf` makes of "#%d" and a number. A failed
-- `assert` is `none`. Everything runs in the thread of the server's own loop.
pub mod Turns
pub mod Placed
pub mod Accepting
pub mod Connections
mod Tests
use muduo_net_zxl.Prelude.{
  ℕ, zero, suc, ◌+◌, Bool, true, false, not, Option, none, some, List, [], ◌∷◌, ◌++◌, if◌then◌else◌,
  ◌>>=◌, assert, Eq, lookup, insert, erase, is_some,
}
use muduo_net_zxl.EventLoop
use muduo_net_zxl.EventLoop.{EventLoopThreadPool, new_pool, set_thread_num, get_next_loop}

-- `number` tells the connections apart; `io_loop` is the loop that its events come from.
pub record Conn (Name : Type 0) : Type 0 where
  pub number : ℕ
  pub name : Name
  pub io_loop : ℕ

-- What is run or queued in a loop for a connection.
pub data Task (Name : Type 0) : Type 0 where
  connect_established : Conn Name → Task Name
  connect_destroyed : Conn Name → Task Name

-- `tasks` holds them beside their loops, the oldest first.
pub record TcpServer (Name : Type 0) : Type 0 where
  pub thread_pool : EventLoopThreadPool
  pub listening : Bool
  pub started : Bool
  pub next_conn_id : ℕ
  pub connections : List (Name × Conn Name)
  pub tasks : List (ℕ × Task Name)

module _ {Name : Type 0} ⦃e : Eq Name⦄ (conn_name : ℕ → Name) where
  unfoldable pub init : ℕ → TcpServer Name
  init loop_ = record {
    thread_pool = new_pool loop_;
    listening = false;
    started = false;
    next_conn_id = 1;
    connections = [];
    tasks = [];
  }

  unfoldable pub set_num : TcpServer Name → ℕ → TcpServer Name
  set_num s num_threads = record s { thread_pool = set_thread_num s.thread_pool num_threads }

  -- `start_loop` gives the loop of the `i`-th new thread.
  unfoldable pub start : (ℕ → ℕ) → TcpServer Name → Option (TcpServer Name)
  start start_loop s = do
    pool ← if not s.started then EventLoop.start start_loop s.thread_pool else some s.thread_pool
    some (record s { started = true; thread_pool = pool; listening = true })

  unfoldable pub new_connection : TcpServer Name → Option (TcpServer Name)
  new_connection s = do
    let number_ = s.next_conn_id
    r ← get_next_loop s.thread_pool
    let conn =
        let c : Conn Name = record { number = number_; name = conn_name number_; io_loop = r.0 } in
        c
    some (record s {
      next_conn_id = number_ + 1;
      thread_pool = r.1;
      connections = insert conn.name conn s.connections;
      tasks = s.tasks ++ (r.0, connect_established conn) ∷ [];
    })

  unfoldable pub remove_connection_in_loop : TcpServer Name → Conn Name → Option (TcpServer Name)
  remove_connection_in_loop s conn = do
    _ ← assert (is_some (lookup conn.name s.connections))
    some (record s {
      connections = erase conn.name s.connections;
      tasks = s.tasks ++ (conn.io_loop, connect_destroyed conn) ∷ [];
    })

  unfoldable pub remove_connection : TcpServer Name → Conn Name → Option (TcpServer Name)
  remove_connection s conn = remove_connection_in_loop s conn
