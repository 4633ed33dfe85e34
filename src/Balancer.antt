-- ===== src/Balancer.antt =====
-- protobuf/balancer.cc: `BackendSession`, a connection to one backend, and `Balancer`, which hands each
-- request to a backend in turn. Connections are numbers, and `lock` says which of them still exist. A
-- function returns what it gave to `codec_.send`; a failed `assert` and an index out of range are
-- `none`.
pub mod Rounds
pub mod Forward
pub mod Answered
mod Tests
use muduo_net_zxl.Prelude.{
  ℕ, zero, suc, ◌+◌, ◌%◌, ◌^◌, Bool, true, false, not, Option, none, some, List, [], ◌∷◌, ◌>>=◌,
  if◌then◌else◌, ◌==◌, assert, length, get_elem?, set, replicate, lookup, insert, erase, nat_eq,
  is_some,
}
use muduo_net_zxl.RpcChannel.{RpcMessage}

pub record Request : Type 0 where
  pub orig_id : ℕ
  pub client_conn : ℕ

pub record BackendSession : Type 0 where
  pub conn : Option ℕ
  pub next_id : ℕ
  pub outstandings : List (ℕ × Request)

-- A message and the connection that it was sent on.
abbrev pub Sent : Type 0
Sent = ℕ × RpcMessage

unfoldable pub new_session : BackendSession
new_session = record { conn = none; next_id = 0; outstandings = [] }

-- `++nextId_`, of a `uint64_t`.
abbrev pub increment : ℕ → ℕ
increment id = (id + 1) % 2 ^ 64

abbrev pub set_id : RpcMessage → ℕ → RpcMessage
set_id msg id = record msg { id = id }

-- Whether the request was handed on, what was sent, and the session then.
unfoldable pub send : BackendSession → RpcMessage → ℕ → Option (Bool × List Sent × BackendSession)
send s msg client_conn = elim s.conn [
  | none ↦ some (false, [], s)
  | some conn ↦ (do
    let id = increment s.next_id
    let r : Request = record { orig_id = msg.id; client_conn = client_conn }
    _ ← assert (not (is_some (lookup id s.outstandings)))
    some (
      true,
      (conn, set_id msg id) ∷ [],
      record s { next_id = id; outstandings = insert id r s.outstandings },
    ))
]

unfoldable pub session_on_connection : BackendSession → ℕ → Bool → BackendSession
session_on_connection s conn connected = record s { conn = if connected then some conn else none }

-- `clientConn.lock()`, and `codec_.send` if there is one.
unfoldable pub send_back : (ℕ → Bool) → RpcMessage → Option Request → List Sent
send_back lock msg none = []
send_back lock msg (some r) =
    if lock r.client_conn then (r.client_conn, set_id msg r.orig_id) ∷ [] else []

unfoldable pub session_on_rpc_message :
    (ℕ → Bool) → BackendSession → RpcMessage → List Sent × BackendSession
session_on_rpc_message lock s msg = (
  send_back lock msg (lookup msg.id s.outstandings),
  record s { outstandings = erase msg.id s.outstandings },
)

pub record PerThread : Type 0 where
  pub current : ℕ
  pub backends : List BackendSession

-- `initPerThread`, for the `count`-th thread and `size` backends; what their clients then do is
-- `TcpClient`.
unfoldable pub init_per_thread : ℕ → ℕ → Option PerThread
init_per_thread count size = do
  _ ← assert (not (size == 0))
  some (record { current = count % size; backends = replicate size new_session })

-- The loop of `onRpcMessage`, with the number of rounds that are left.
unfoldable pub try_backends : ℕ → PerThread → RpcMessage → ℕ → Option (Bool × List Sent × PerThread)
try_backends zero t msg conn = some (false, [], t)
try_backends (suc n) t msg conn = do
  s ← get_elem? t.backends t.current
  r ← send s msg conn
  let t' : PerThread = record {
    current = (t.current + 1) % length t.backends;
    backends = set t.backends t.current r.2;
  }
  let rest = try_backends n t' msg conn
  if r.0 then some (true, r.1, t') else rest

unfoldable pub on_rpc_message : PerThread → RpcMessage → ℕ → Option (Bool × List Sent × PerThread)
on_rpc_message t msg conn = try_backends (length t.backends) t msg conn
