-- ===== src/RpcChannel/Tests.antt =====
-- One call, and services with one service and one method.
use muduo_net_zxl.Prelude.{true, some, none, [], ◌∷◌, arith}
use muduo_net_zxl.RpcChannel.{RpcChannel, RpcMessage, request, Services, init, call_method}
use muduo_net_zxl.RpcChannel.Calls.{here, next, calls, Once, Reach-Once}

abbrev one_service : Services
one_service = record {
  find = λ n. some 1;
  find_method_by_name = λ s n. some 2;
  parses_as_request = λ m b. true;
}

abbrev asked : RpcMessage
asked = record {
  type_ = request;
  id = 4;
  service_name = 65 ∷ [];
  method_name = 66 ∷ [];
  request_bytes = 1 ∷ [];
  response_bytes = none;
  error_code = none;
}

Reach-Once_example : Once (call_method init [] [] [] 9 8)
Reach-Once_example =
    Reach-Once {s = one_service} (next here (calls init [] [] [] 9 8 (ground arith)))
