-- ===== src/RpcServer/Tests.antt =====
-- A server with one service, the number 3, which is named A and has one method, the number 4, named M.
use muduo_net_zxl.Prelude.{◌≡◌, refl, true, none, some, [], ◌∷◌, arith, insert, lookup}
use muduo_net_zxl.RpcChannel
use muduo_net_zxl.RpcChannel.{RpcChannel, Services, call_method, set_services}
use muduo_net_zxl.RpcServer.{Library, new_server, on_connection}
use muduo_net_zxl.RpcServer.Call.{Call, Answered, call_method-Answered}

abbrev library : Library
library = record {
  full_name = λ s. 65 ∷ [];
  find_method_by_name = λ s n. some 4;
  parses_as_request = λ m b. true;
}

abbrev hello : Call
hello = record { service = 3; name = 77 ∷ []; argument = 1 ∷ 2 ∷ []; response_ = 100; done = 200 }

-- The channel of a client, before its first call, and with it.
abbrev client : RpcChannel
client = RpcChannel.init

abbrev calling : RpcChannel
calling = call_method client (65 ∷ []) (77 ∷ []) (1 ∷ 2 ∷ []) 100 200

abbrev serving : RpcChannel
serving = set_services RpcChannel.init

abbrev no_services : Services
no_services = record {
  find = λ n. none;
  find_method_by_name = λ s n. none;
  parses_as_request = λ m b. true;
}

serving_test : on_connection true ≡ some serving
unfolding on_connection
serving_test = refl

call_method-Answered_example :
    Answered library new_server [] hello 4 client calling serving no_services (9 ∷ [])
unfolding RpcChannel.init call_method set_services insert lookup
call_method-Answered_example =
    call_method-Answered library new_server [] hello 4 client calling serving no_services (9 ∷ [])
      tt refl refl (ground arith) refl refl
