-- ===== src/RpcChannel/Answer.antt =====
-- What becomes of a request.
use muduo_net_zxl.Prelude.{◌≡◌, ◌≢◌, true, some, [], ◌∷◌, ◌++◌}
use muduo_net_zxl.RpcChannel.{
  ErrorCode, no_error, RpcMessage, Invocation, RpcChannel, Services, error_response,
}

module _ (s : Services) (c : RpcChannel) (m : RpcMessage) where
  -- The service that was asked for exists, has the method, and was called once, with what was sent and
  -- with the id of the request; nothing was sent.
  pub record Invoked (c' : RpcChannel) : Type 0 where
    pub call : Invocation
    pub registered : c.has_services ≡ true
    pub service_found : s.find m.service_name ≡ some call.service_
    pub method_found : s.find_method_by_name call.service_ m.method_name ≡ some call.method_
    pub parsed : s.parses_as_request call.method_ m.request_bytes ≡ true
    pub same_argument : call.argument ≡ m.request_bytes
    pub same_id : call.call_id ≡ m.id
    pub one_call : c'.invoked ≡ c.invoked ++ call ∷ []
    pub silent : c'.sent ≡ c.sent

  -- No service was called, and one response was sent, with the id of the request and an error.
  pub record Refused (c' : RpcChannel) : Type 0 where
    pub reason : ErrorCode
    pub is_error : reason ≢ no_error
    pub no_call : c'.invoked ≡ c.invoked
    pub one_response : c'.sent ≡ c.sent ++ error_response m reason ∷ []
