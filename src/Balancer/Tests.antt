-- ===== src/Balancer/Tests.antt =====
-- Two backends, of which the second has the connection 7, and a client at the connection 3.
use muduo_net_zxl.Prelude.{
  ℕ, ◌≡◌, refl, true, none, some, [], ◌∷◌, get_elem?, lookup, insert, arith, zero, suc,
}
use muduo_net_zxl.RpcChannel.{RpcMessage, request}
use muduo_net_zxl.Balancer.{
  BackendSession, PerThread, new_session, session_on_connection, on_rpc_message, send, set_id,
  try_backends,
}
use muduo_net_zxl.Balancer.Forward.{Outcome, on_rpc_message-Outcome, IsNumbered}
use muduo_net_zxl.Balancer.Answered.{
  World, sends, connection, Reach, here, next, start, after_send, Accounted, Reach-Accounted,
}

abbrev question : RpcMessage
question = record {
  type_ = request;
  id = 40;
  service_name = [];
  method_name = [];
  request_bytes = 1 ∷ [];
  response_bytes = none;
  error_code = none;
}

abbrev up : BackendSession
up = record { conn = some 7; next_id = 0; outstandings = [] }

abbrev two : PerThread
two = record { current = 0; backends = new_session ∷ up ∷ [] }

two-IsNumbered : (i : ℕ) (s : BackendSession) → get_elem? two.backends i ≡ some s → IsNumbered s
unfolding new_session lookup
two-IsNumbered zero s e = record {
  numbered = λ id r h. ground (arith, e, h);
  below = ground (arith, e);
}
two-IsNumbered (suc zero) s e = record {
  numbered = λ id r h. ground (arith, e, h);
  below = ground (arith, e);
}
two-IsNumbered (suc (suc i)) s e = cc

on_rpc_message-Outcome_example : Outcome two question 3
on_rpc_message-Outcome_example = on_rpc_message-Outcome two question 3 (omega arith) two-IsNumbered

-- The second backend is the one that was given the request, as its first.
forwarded_test :
    on_rpc_message two question 3
    ≡ some (
      true,
      (7, set_id question 1) ∷ [],
      record {
        current = 0;
        backends =
            new_session
            ∷ record {
              conn = some 7;
              next_id = 1;
              outstandings = (1, record { orig_id = 40; client_conn = 3 }) ∷ [];
            }
            ∷ [];
      },
    )
unfolding on_rpc_message try_backends send lookup insert new_session
forwarded_test = refl

abbrev connected : World
connected = record start { session = session_on_connection new_session 7 true }

abbrev asked : BackendSession
asked = record {
  conn = some 7;
  next_id = 1;
  outstandings = (1, record { orig_id = 40; client_conn = 3 }) ∷ [];
}

send_test :
    send (session_on_connection new_session 7 true) question 3
    ≡ some (true, (7, set_id question 1) ∷ [], asked)
unfolding send session_on_connection new_session lookup insert
send_test = refl

asked-Reach : Reach (after_send connected question 3 true asked)
unfolding new_session session_on_connection
asked-Reach =
    next (next here (connection start 7 true))
      (sends connected question 3 true ((7, set_id question 1) ∷ []) asked (omega arith) send_test)

Reach-Accounted_example : Accounted (after_send connected question 3 true asked)
Reach-Accounted_example = Reach-Accounted asked-Reach
