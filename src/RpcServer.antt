-- ===== src/RpcServer.antt =====
-- protobuf/RpcServer.h and protobuf/RpcServer.cc: the services that a server offers by name, and the
-- channel that each of its connections gets. `setThreadNum` and `start` are those of `TcpServer`.
pub mod Call
mod Tests
use muduo_net_zxl.Prelude.{
  ℕ, Bool, true, false, Option, none, some, List, [], ◌∷◌, lookup, insert, nat_eq, list_eq,
}
use muduo_net_zxl.RpcChannel
use muduo_net_zxl.RpcChannel.{RpcChannel, Services, set_services}

pub record RpcServer : Type 0 where
  pub services : List (List ℕ × ℕ)

unfoldable pub new_server : RpcServer
new_server = record { services = [] }

-- What the code asks the protobuf library: a service's full name, its methods by name, and whether bytes
-- parse as the request of a method.
pub record Library : Type 0 where
  pub full_name : ℕ → List ℕ
  pub find_method_by_name : ℕ → List ℕ → Option ℕ
  pub parses_as_request : ℕ → List ℕ → Bool

module _ (lib : Library) where
  unfoldable pub register_service : RpcServer → ℕ → RpcServer
  register_service s service = record {
    services = insert (lib.full_name service) service s.services;
  }

  unfoldable pub register_all : RpcServer → List ℕ → RpcServer
  register_all s [] = s
  register_all s (service ∷ services) = register_all (register_service s service) services

  -- `&services_`, as a channel reads it.
  unfoldable pub services_of : RpcServer → Services
  services_of s = record {
    find = λ name. lookup name s.services;
    find_method_by_name = lib.find_method_by_name;
    parses_as_request = lib.parses_as_request;
  }

-- The context of a connection: its channel while it is up.
unfoldable pub on_connection : Bool → Option RpcChannel
on_connection true = some (set_services RpcChannel.init)
on_connection false = none
