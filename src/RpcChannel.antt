-- ===== src/RpcChannel.antt =====
-- protobuf/RpcChannel.h and protobuf/RpcChannel.cc: calls that wait for their responses, and requests
-- that a service answers. The protobuf library's descriptors are the fields of `Services`; pointers are
-- numbers, 0 for NULL. A failed `assert` is `none`.
pub mod Answer
pub mod Calls
mod Tests
use muduo_net_zxl.Prelude.{
  ℕ, zero, suc, ◌+◌, Bool, true, false, not, ◌&&◌, ◌||◌, Option, none, some, List, [], ◌∷◌, ◌++◌,
  if◌then◌else◌, ◌==◌, ◌>>=◌, assert, lookup, insert, erase, nat_eq, is_some,
}

-- `MessageType` and `ErrorCode` of rpc.proto.
pub data MessageType : Type 0 where
  request response error : MessageType

pub data ErrorCode : Type 0 where
  no_error wrong_proto no_service no_method invalid_request invalid_response timeout : ErrorCode

-- `RpcMessage`. Names and contents are byte strings.
pub record RpcMessage : Type 0 where
  pub type_ : MessageType
  pub id : ℕ
  pub service_name : List ℕ
  pub method_name : List ℕ
  pub request_bytes : List ℕ
  pub response_bytes : Option (List ℕ)
  pub error_code : Option ErrorCode

pub record OutstandingCall : Type 0 where
  pub response_ : ℕ
  pub done : ℕ

-- The call of a service, with the id that its `doneCallback` is bound to.
pub record Invocation : Type 0 where
  pub service_ : ℕ
  pub method_ : ℕ
  pub argument : List ℕ
  pub call_id : ℕ

-- A call that has its answer: its id, what its response was parsed from, and the closure that ran.
pub record Completion : Type 0 where
  pub call_id : ℕ
  pub answer : Option (List ℕ)
  pub ran : ℕ

pub record RpcChannel : Type 0 where
  pub last_id : ℕ
  pub outstandings : List (ℕ × OutstandingCall)
  pub has_services : Bool
  pub sent : List RpcMessage
  pub invoked : List Invocation
  pub completed : List Completion

-- The registered services by name, their methods by name, and whether bytes parse as a method's request.
pub record Services : Type 0 where
  pub find : List ℕ → Option ℕ
  pub find_method_by_name : ℕ → List ℕ → Option ℕ
  pub parses_as_request : ℕ → List ℕ → Bool

unfoldable pub init : RpcChannel
init = record {
  last_id = 0;
  outstandings = [];
  has_services = false;
  sent = [];
  invoked = [];
  completed = [];
}

unfoldable pub set_services : RpcChannel → RpcChannel
set_services c = record c { has_services = true }

abbrev pub send : RpcChannel → RpcMessage → RpcChannel
send c message = record c { sent = c.sent ++ message ∷ [] }

unfoldable pub call_method : RpcChannel → List ℕ → List ℕ → List ℕ → ℕ → ℕ → RpcChannel
call_method c full_name name request_ response_ done_ =
    let id_ = c.last_id + 1 in
    let c1 = record c {
      last_id = id_;
      outstandings = insert id_ (record { response_ = response_; done = done_ }) c.outstandings;
    } in
    send c1 (record {
      type_ = request;
      id = id_;
      service_name = full_name;
      method_name = name;
      request_bytes = request_;
      response_bytes = none;
      error_code = none;
    })

-- The end of a response, when the call was found.
abbrev pub complete : RpcChannel → RpcMessage → Option OutstandingCall → RpcChannel
complete c m none = c
complete c m (some out) = if out.response_ == 0 then c else record c {
  completed =
      c.completed ++ record { call_id = m.id; answer = m.response_bytes; ran = out.done } ∷ [];
}

unfoldable pub on_response : RpcChannel → RpcMessage → Option RpcChannel
on_response c m = do
  _ ← assert (is_some m.response_bytes || is_some m.error_code)
  let out = lookup m.id c.outstandings
  some (complete (record c { outstandings = erase m.id c.outstandings }) m out)

-- The error that a request ends with, and the call of its service if there is none.
unfoldable pub dispatch : Services → Bool → RpcMessage → ErrorCode × Option Invocation
dispatch s false m = (no_service, none)
dispatch s true m = elim (s.find m.service_name) [
  | none ↦ (no_service, none)
  | some service ↦ elim (s.find_method_by_name service m.method_name) [
    | none ↦ (no_method, none)
    | some method ↦
        (if s.parses_as_request method m.request_bytes
          then (
            no_error,
            some (record {
              service_ = service;
              method_ = method;
              argument = m.request_bytes;
              call_id = m.id;
            }),
          )
          else (invalid_request, none))
  ]
]

abbrev pub error_response : RpcMessage → ErrorCode → RpcMessage
error_response m e = record {
  type_ = response;
  id = m.id;
  service_name = [];
  method_name = [];
  request_bytes = [];
  response_bytes = none;
  error_code = some e;
}

abbrev pub invoke : RpcChannel → Option Invocation → RpcChannel
invoke c none = c
invoke c (some i) = record c { invoked = c.invoked ++ i ∷ [] }

abbrev pub reply_error : RpcChannel → RpcMessage → ErrorCode → RpcChannel
reply_error c m no_error = c
reply_error c m wrong_proto = send c (error_response m wrong_proto)
reply_error c m no_service = send c (error_response m no_service)
reply_error c m no_method = send c (error_response m no_method)
reply_error c m invalid_request = send c (error_response m invalid_request)
reply_error c m invalid_response = send c (error_response m invalid_response)
reply_error c m timeout = send c (error_response m timeout)

unfoldable pub on_request : Services → RpcChannel → RpcMessage → RpcChannel
on_request s c m = let r = dispatch s c.has_services m in reply_error (invoke c r.1) m r.0

abbrev pub by_type : Services → RpcChannel → RpcMessage → MessageType → Option RpcChannel
by_type s c m response = on_response c m
by_type s c m request = some (on_request s c m)
by_type s c m error = some c

-- `conn == conn_` holds: a channel is given the messages of its own connection.
unfoldable pub on_rpc_message : Services → RpcChannel → RpcMessage → Option RpcChannel
on_rpc_message s c m = by_type s c m m.type_

unfoldable pub done_callback : RpcChannel → List ℕ → ℕ → RpcChannel
done_callback c response_ id_ = send c (record {
  type_ = response;
  id = id_;
  service_name = [];
  method_name = [];
  request_bytes = [];
  response_bytes = some response_;
  error_code = none;
})
