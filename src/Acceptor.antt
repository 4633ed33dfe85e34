-- ===== src/Acceptor.antt =====
-- Acceptor.h and Acceptor.cc: the socket that a server listens on, and the connections that come in.
-- What the new connection callback and `sockets::close` are given is logged, the oldest first; so is what
-- `LOG_SYSERR` is told. An abort is `none`.
pub mod Connections
use muduo_net_zxl.Prelude.{
  ℕ, Bool, true, false, Option, none, some, List, [], ◌∷◌, ◌++◌, if◌then◌else◌, ◌>>=◌,
}
use muduo_net_zxl.Channel
use muduo_net_zxl.Channel.{Channel, enable_reading}
use muduo_net_zxl.Sockets.{SockaddrIn, Accept4, Log, any_address, socket_accept}

pub data Call : Type 0 where
  handed : ℕ → SockaddrIn → Call
  closed : ℕ → Call

pub record Acceptor : Type 0 where
  pub channel : Channel
  pub has_callback : Bool
  pub is_listening : Bool
  pub calls : List Call
  pub logs : List Log

-- The constructor, for the descriptor that `createNonblockingOrDie` returned.
unfoldable pub init : ℕ → Acceptor
init fd = record {
  channel = Channel.init fd;
  has_callback = false;
  is_listening = false;
  calls = [];
  logs = [];
}

unfoldable pub set_new_connection_callback : Acceptor → Acceptor
set_new_connection_callback a = record a { has_callback = true }

unfoldable pub listen : Acceptor → Acceptor
listen a = record a { is_listening = true; channel = enable_reading a.channel }

-- What becomes of what `accept` returned.
abbrev pub hand_on : Acceptor → Option ℕ × SockaddrIn × List Log → Acceptor
hand_on a (none, peeraddr, logs) = record a { logs = a.logs ++ logs }
hand_on a (some connfd, peeraddr, logs) = record a {
  calls = a.calls ++ (if a.has_callback then handed connfd peeraddr else closed connfd) ∷ [];
  logs = a.logs ++ logs;
}

unfoldable pub handle_read : Acceptor → Accept4 → Option Acceptor
handle_read a result = do r ← socket_accept result (any_address 0); some (hand_on a r)
