-- ===== src/Sockets.antt =====
-- SocketsOps.h, SocketsOps.cc, Socket.h, Socket.cc, InetAddress.h and InetAddress.cc: addresses, and what is
-- made of the answers of the kernel. Bytes in network order are lists, the most significant first. The
-- conversions of the C library are the fields of `Library`; `none` is its failure, and an `int` of -1.
pub mod HostPort
use muduo_net_zxl.Prelude.{
  ℕ, ◌+◌, ◌-◌, ◌*◌, ◌/◌, ◌%◌, ◌^◌, Bool, true, false, ◌&&◌, Option, none, some, List, [], ◌∷◌, ◌++◌,
  take, get_or, list_eq, nat_eq, list_beq, ◌>>=◌, assert,
}
use muduo_net_zxl.Buffer.{host_to_network32}

-- `inet_pton` and `inet_ntop` of AF_INET, and what `%u` prints.
pub record Library : Type 0 where
  pub inet_pton : List ℕ → Option (List ℕ)
  pub inet_ntop : List ℕ → Option (List ℕ)
  pub print_unsigned : ℕ → List ℕ

unfoldable pub host_to_network16 : ℕ → List ℕ
host_to_network16 x = (x / 2 ^ 8 % 256) ∷ (x % 256) ∷ []

unfoldable pub network_to_host16 : List ℕ → ℕ
network_to_host16 bs = get_or bs 0 0 * 2 ^ 8 + get_or bs 1 0

-- `sockaddr_in`, less its family, which is AF_INET.
pub record SockaddrIn : Type 0 where
  pub sin_addr : List ℕ
  pub sin_port : List ℕ

-- `bzero`.
abbrev pub zero_addr : SockaddrIn
zero_addr = record { sin_addr = 0 ∷ 0 ∷ 0 ∷ 0 ∷ []; sin_port = 0 ∷ 0 ∷ [] }

-- `InetAddress(uint16_t port)`; INADDR_ANY is 0.
unfoldable pub any_address : ℕ → SockaddrIn
any_address port = record { sin_addr = host_to_network32 0; sin_port = host_to_network16 port }

-- `getLocalAddr` and `getPeerAddr`: an error is only logged.
unfoldable pub get_addr : Option SockaddrIn → SockaddrIn
get_addr none = zero_addr
get_addr (some addr) = addr

unfoldable pub is_self_connect : Option SockaddrIn → Option SockaddrIn → Bool
is_self_connect local peer =
    list_beq (get_addr local).sin_addr (get_addr peer).sin_addr
    && list_beq (get_addr local).sin_port (get_addr peer).sin_port

-- `getsockopt` failed with an `errno`, or gave an error.
pub data Sockopt : Type 0 where
  failed : ℕ → Sockopt
  optval : ℕ → Sockopt

unfoldable pub get_socket_error : Sockopt → ℕ
get_socket_error (failed errno) = errno
get_socket_error (optval e) = e

-- The `errno` of `accept4`; `unknown` is any other.
pub data Errno : Type 0 where
  eagain econnaborted eintr eproto eperm emfile : Errno
  ebadf efault einval enfile enobufs enomem enotsock eopnotsupp unknown : Errno

pub data Accept4 : Type 0 where
  accepted : ℕ → SockaddrIn → Accept4
  refused : Errno → Accept4

pub data Log : Type 0 where
  syserr : Log

-- The `switch` of `accept`: the errors that a server has to live with.
abbrev pub is_expected : Errno → Bool
is_expected eagain = true
is_expected econnaborted = true
is_expected eintr = true
is_expected eproto = true
is_expected eperm = true
is_expected emfile = true
is_expected ebadf = false
is_expected efault = false
is_expected einval = false
is_expected enfile = false
is_expected enobufs = false
is_expected enomem = false
is_expected enotsock = false
is_expected eopnotsupp = false
is_expected unknown = false

-- `sockets::accept`: the descriptor, the address that it was given to fill, and the log. `LOG_FATAL`
-- aborts.
unfoldable pub accept : Accept4 → SockaddrIn → Option (Option ℕ × SockaddrIn × List Log)
accept (accepted connfd peer) addr = some (some connfd, peer, [])
accept (refused errno) addr = do _ ← assert (is_expected errno); some (none, addr, syserr ∷ [])

-- `Socket::accept`: the address is stored if there is a descriptor.
abbrev pub stored : SockaddrIn → Option ℕ × SockaddrIn × List Log → Option ℕ × SockaddrIn × List Log
stored old (none, addr, logs) = (none, old, logs)
stored old (some connfd, addr, logs) = (some connfd, addr, logs)

unfoldable pub socket_accept : Accept4 → SockaddrIn → Option (Option ℕ × SockaddrIn × List Log)
socket_accept a peeraddr = do r ← accept a zero_addr; some (stored peeraddr r)

module _ (lib : Library) where
  abbrev pub pton_or : Option (List ℕ) → List ℕ → List ℕ
  pton_or none old = old
  pton_or (some bytes) old = bytes

  -- A failure of `inet_pton` is only logged.
  unfoldable pub from_host_port : List ℕ → ℕ → SockaddrIn → SockaddrIn
  from_host_port ip port addr = record {
    sin_addr = pton_or (lib.inet_pton ip) addr.sin_addr;
    sin_port = host_to_network16 port;
  }

  -- `InetAddress(const std::string &ip, uint16_t port)`.
  unfoldable pub inet_address : List ℕ → ℕ → SockaddrIn
  inet_address ip port = from_host_port ip port zero_addr

  -- "INVALID".
  abbrev pub invalid_host : List ℕ
  invalid_host = 73 ∷ 78 ∷ 86 ∷ 65 ∷ 76 ∷ 73 ∷ 68 ∷ []

  abbrev pub ntop_or_invalid : Option (List ℕ) → List ℕ
  ntop_or_invalid none = invalid_host
  ntop_or_invalid (some host) = host

  -- `snprintf(buf, size, "%s:%u", host, port)` keeps one byte for the final 0; 58 is ':'.
  unfoldable pub to_host_port : ℕ → SockaddrIn → List ℕ
  to_host_port size addr = take (size - 1) (
      ntop_or_invalid (lib.inet_ntop addr.sin_addr)
      ++ 58 ∷ lib.print_unsigned (network_to_host16 addr.sin_port))

  -- `InetAddress::toHostPort`.
  unfoldable pub inet_to_host_port : SockaddrIn → List ℕ
  inet_to_host_port addr = to_host_port 32 addr
