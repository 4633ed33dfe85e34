-- ===== src/RpcServer/Call.antt =====
-- A call from the channel of a client to a service of a server and back.
use muduo_net_zxl.Prelude.{
  ℕ, ◌+◌, ◌≡◌, ◌≢◌, refl, true, none, some, List, [], ◌∷◌, ◌++◌, arith, lookup, erase, nat_eq,
  list_eq, lookup-insert_same, lookup-insert_other, lookup-erase, beq_self, beq_ne, ◌∙◌,
}
use muduo_net_zxl.RpcChannel.{
  RpcChannel, Services, RpcMessage, request, response, OutstandingCall, Invocation, call_method,
  on_rpc_message, on_request, on_response, dispatch, done_callback,
}
use muduo_net_zxl.RpcServer.{RpcServer, Library, register_service, register_all, services_of}

-- One call: what is asked, and who waits for the answer.
pub record Call : Type 0 where
  pub service : ℕ
  pub name : List ℕ
  pub argument : List ℕ
  pub response_ : ℕ
  pub done : ℕ

module _ (k : Call) (method id : ℕ) (full_name : List ℕ) where
  abbrev pub invocation : Invocation
  invocation = record {
    service_ = k.service;
    method_ = method;
    argument = k.argument;
    call_id = id;
  }

  -- What the client's channel sends.
  abbrev pub asked : RpcMessage
  asked = record {
    type_ = request;
    id = id;
    service_name = full_name;
    method_name = k.name;
    request_bytes = k.argument;
    response_bytes = none;
    error_code = none;
  }

-- What the server's channel sends.
abbrev pub answer : ℕ → List ℕ → RpcMessage
answer id bytes = record {
  type_ = response;
  id = id;
  service_name = [];
  method_name = [];
  request_bytes = [];
  response_bytes = some bytes;
  error_code = none;
}

module _ (lib : Library) where
  -- None of the services has the name.
  abbrev pub NoneNamed : List ℕ → List ℕ → Type 0
  NoneNamed name [] = Unit {0}
  NoneNamed name (x ∷ xs) = (lib.full_name x ≢ name) × NoneNamed name xs

  register_all-lookup :
      (s : RpcServer) (services name : List ℕ)
      → NoneNamed name services
      → lookup name (register_all lib s services).services ≡ lookup name s.services
  unfolding register_all register_service
  register_all-lookup s [] name n = refl
  register_all-lookup s (x ∷ xs) name (n, ns) =
      register_all-lookup (register_service lib s x) xs name ns
      ∙ lookup-insert_other (lib.full_name x) name x s.services (beq_ne (lib.full_name x) name n)

  -- The server's side.
  asked-invocation :
      (t : RpcServer) (k : Call) (method id : ℕ) (c : RpcChannel)
      → lookup (lib.full_name k.service) t.services ≡ some k.service
      → c.has_services ≡ true
      → lib.find_method_by_name k.service k.name ≡ some method
      → lib.parses_as_request method k.argument ≡ true
      → on_rpc_message (services_of lib t) c (asked k method id (lib.full_name k.service))
        ≡ some (record c {
          invoked = c.invoked ++ invocation k method id (lib.full_name k.service) ∷ [];
        })
  unfolding on_rpc_message on_request dispatch services_of
  asked-invocation t k method id c l h m p = ground (arith, h, l, m, p)

-- The client's side, while the call waits.
answer-completion :
    (v : Services) (d : RpcChannel) (id : ℕ) (bytes : List ℕ) (out : OutstandingCall)
    → lookup id d.outstandings ≡ some out
    → out.response_ ≢ 0
    → on_rpc_message v d (answer id bytes)
      ≡ some (record d {
        outstandings = erase id d.outstandings;
        completed =
            d.completed ++ record { call_id = id; answer = some bytes; ran = out.done } ∷ [];
      })
unfolding on_rpc_message on_response
answer-completion v d id bytes out l r = ground (arith, l, r)

module _ (lib : Library) (s : RpcServer) (later : List ℕ) (k : Call) (method : ℕ)
    (c d e : RpcChannel) (v : Services) (bytes : List ℕ) where
  abbrev id_ : ℕ
  id_ = c.last_id + 1

  abbrev out : OutstandingCall
  out = record { response_ = k.response_; done = k.done }

  -- The server.
  abbrev server : RpcServer
  server = register_all lib (register_service lib s k.service) later

  registered_lem :
      lookup (lib.full_name k.service) (register_service lib s k.service).services ≡ some k.service
  unfolding register_service
  registered_lem =
      lookup-insert_same (lib.full_name k.service) (lib.full_name k.service) k.service s.services
        (beq_self (lib.full_name k.service))

  -- What a whole call comes to.
  pub record Answered : Type 0 where
    pub called : RpcChannel
    pub asks :
        (call_method c (lib.full_name k.service) k.name k.argument k.response_ k.done).sent
        ≡ c.sent ++ asked k method id_ (lib.full_name k.service) ∷ []
    pub receives :
        on_rpc_message (services_of lib server) e (asked k method id_ (lib.full_name k.service))
        ≡ some called
    pub invokes :
        called.invoked ≡ e.invoked ++ invocation k method id_ (lib.full_name k.service) ∷ []
    pub answers : (done_callback called bytes id_).sent ≡ e.sent ++ answer id_ bytes ∷ []
    pub finished : RpcChannel
    pub completes : on_rpc_message v d (answer id_ bytes) ≡ some finished
    pub completed_now :
        finished.completed
        ≡ d.completed ++ record { call_id = id_; answer = some bytes; ran = k.done } ∷ []
    pub no_longer_waits : lookup id_ finished.outstandings ≡ none

  -- A call that the channel `c` of a client makes to a service that the server registered, under a name
  -- that no later service took, with bytes that parse as its method's request: a channel `e` that has the
  -- server's services invokes that method of that service with these bytes; when the service is done, its
  -- response goes back under the number of the call; and the client's channel, by then in any state `d`
  -- in which the call waits, runs its closure on that response, and the call no longer waits.
  pub call_method-Answered :
      NoneNamed lib (lib.full_name k.service) later
      → lib.find_method_by_name k.service k.name ≡ some method
      → lib.parses_as_request method k.argument ≡ true
      → k.response_ ≢ 0
      → e.has_services ≡ true
      → lookup id_ d.outstandings ≡ some out
      → Answered
  unfolding call_method done_callback
  call_method-Answered n m p r x w =
      let l : lookup (lib.full_name k.service) server.services ≡ some k.service =
        register_all-lookup lib (register_service lib s k.service) later (lib.full_name k.service) n
        ∙ registered_lem in
      record {
        called = record e {
          invoked = e.invoked ++ invocation k method id_ (lib.full_name k.service) ∷ [];
        };
        asks = refl;
        receives = asked-invocation lib server k method id_ e l x m p;
        invokes = refl;
        answers = refl;
        finished = record d {
          outstandings = erase id_ d.outstandings;
          completed =
              d.completed ++ record { call_id = id_; answer = some bytes; ran = k.done } ∷ [];
        };
        completes = answer-completion v d id_ bytes out w r;
        completed_now = refl;
        no_longer_waits = lookup-erase id_ id_ d.outstandings ∙ ground arith;
      }
