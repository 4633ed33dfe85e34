-- ===== src/RpcChannel/Calls.antt =====
-- Calls, their ids and their responses.
use muduo_net_zxl.Prelude.{
  ℕ, ◌+◌, ◌≡◌, ◌≢◌, refl, ◌∙◌, ◌&&◌, Option, none, some, List, [], ◌∷◌, ◌++◌, arith, Option-cases,
  inl, inr, ◌==◌, leb, lookup, erase, nat_eq, lookup-insert, lookup-erase, one_if, is_some,
}
use muduo_net_zxl.RpcChannel.{
  RpcMessage, MessageType, request, response, error, OutstandingCall, Completion, RpcChannel,
  Services, init, call_method, on_response, on_request, by_type, on_rpc_message, done_callback,
  reply_error, invoke, dispatch, no_error, wrong_proto, no_service, no_method, invalid_request,
  invalid_response, timeout, ErrorCode, Invocation,
}

unfoldable pub completed_times : ℕ → List Completion → ℕ
completed_times i [] = 0
completed_times i (x ∷ xs) = one_if (i == x.call_id) + completed_times i xs

completed_times-append :
    (i : ℕ) (xs ys : List Completion)
    → completed_times i (xs ++ ys) ≡ completed_times i xs + completed_times i ys
unfolding completed_times
completed_times-append i [] ys = omega arith
completed_times-append i (x ∷ xs) ys = omega (arith, completed_times-append i xs ys)

-- What changes the calls of a channel. A caller gives an object for the response.
pub data Step (s : Services) : RpcChannel → RpcChannel → Type 0 where
  calls :
      (c : RpcChannel) (service method argument : List ℕ) (response_ done_ : ℕ)
      → response_ ≢ 0
      → Step s c (call_method c service method argument response_ done_)
  receives : (c c' : RpcChannel) (m : RpcMessage) → on_rpc_message s c m ≡ some c' → Step s c c'
  answers : (c : RpcChannel) (bytes : List ℕ) (id : ℕ) → Step s c (done_callback c bytes id)

pub data Reach (s : Services) : RpcChannel → Type 0 where
  here : Reach s init
  next : {c d : RpcChannel} → Reach s c → Step s c d → Reach s d

-- The ids up to the last one are those of the calls: each waits, or was completed, once.
pub record Once (c : RpcChannel) : Type 0 where
  pub once :
      (i : ℕ)
      → completed_times i c.completed + one_if (is_some (lookup i c.outstandings))
        ≡ one_if (leb 1 i && leb i c.last_id)
  pub given : (i : ℕ) (o : OutstandingCall) → lookup i c.outstandings ≡ some o → o.response_ ≢ 0

call_method-Once :
    (c : RpcChannel) (x y z : List ℕ) (response_ done_ : ℕ)
    → response_ ≢ 0
    → Once c
    → Once (call_method c x y z response_ done_)
unfolding call_method
call_method-Once c x y z response_ done_ h v =
    let o : OutstandingCall = record { response_ = response_; done = done_ } in
    record {
      once = λ i. ground (arith, v.once i, lookup-insert (c.last_id + 1) i o c.outstandings);
      given = λ i p e.
          ground (arith, h, v.given i p, lookup-insert (c.last_id + 1) i o c.outstandings, e);
    }

on_response-Once :
    (c c' : RpcChannel) (m : RpcMessage) → on_response c m ≡ some c' → Once c → Once c'
unfolding on_response completed_times
on_response-Once c c' m e v = elim (Option-cases (lookup m.id c.outstandings)) [
  | inl n ↦
      let z : c' ≡ record c { outstandings = erase m.id c.outstandings } = ground (arith, e, n) in
      rw z (record {
        once = λ i. ground (arith, v.once i, lookup-erase m.id i c.outstandings, n);
        given = λ i p l. ground (arith, v.given i p, lookup-erase m.id i c.outstandings, l);
      })
  | inr (o, n) ↦
      let x : Completion = record { call_id = m.id; answer = m.response_bytes; ran = o.done } in
      let h = v.given m.id o n in
      let z : c' ≡ record c {
        outstandings = erase m.id c.outstandings;
        completed = c.completed ++ x ∷ [];
      } =
        ground (arith, e, n, h) in
      rw z (record {
        once = λ i. ground (
          arith,
          v.once i,
          lookup-erase m.id i c.outstandings,
          n,
          completed_times-append i c.completed (x ∷ []),
        );
        given = λ i p l. ground (arith, v.given i p, lookup-erase m.id i c.outstandings, l);
      })
]

-- Requests and answers do not touch the calls.
abbrev Untouched : RpcChannel → RpcChannel → Type 0
Untouched c c' =
    (c'.last_id ≡ c.last_id) × (c'.outstandings ≡ c.outstandings) × (c'.completed ≡ c.completed)

Untouched-Once : (c c' : RpcChannel) → Untouched c c' → Once c → Once c'
Untouched-Once c c' (a, b, d) v = record {
  once = λ i. rw (a, b, d) (v.once i);
  given = λ i o e. v.given i o (rw b at e);
}

invoke-Untouched : (c : RpcChannel) (o : Option Invocation) → Untouched c (invoke c o)
invoke-Untouched c none = (refl, refl, refl)
invoke-Untouched c (some i) = (refl, refl, refl)

reply_error-Untouched :
    (c : RpcChannel) (m : RpcMessage) (e : ErrorCode) → Untouched c (reply_error c m e)
reply_error-Untouched c m no_error = (refl, refl, refl)
reply_error-Untouched c m wrong_proto = (refl, refl, refl)
reply_error-Untouched c m no_service = (refl, refl, refl)
reply_error-Untouched c m no_method = (refl, refl, refl)
reply_error-Untouched c m invalid_request = (refl, refl, refl)
reply_error-Untouched c m invalid_response = (refl, refl, refl)
reply_error-Untouched c m timeout = (refl, refl, refl)

on_request-Untouched :
    (s : Services) (c : RpcChannel) (m : RpcMessage) → Untouched c (on_request s c m)
unfolding on_request
on_request-Untouched s c m =
    let d = dispatch s c.has_services m in
    let (a1, a2, a3) = invoke-Untouched c d.1 in
    let (b1, b2, b3) = reply_error-Untouched (invoke c d.1) m d.0 in (b1 ∙ a1, b2 ∙ a2, b3 ∙ a3)

by_type-Once :
    (s : Services) (c c' : RpcChannel) (m : RpcMessage) (t : MessageType)
    → by_type s c m t ≡ some c'
    → Once c
    → Once c'
by_type-Once s c c' m response e v = on_response-Once c c' m e v
by_type-Once s c c' m request e v =
    let z : c' ≡ on_request s c m = ground (arith, e) in
    rw z (Untouched-Once c (on_request s c m) (on_request-Untouched s c m) v)
by_type-Once s c c' m error e v = let z : c' ≡ c = ground (arith, e) in rw z v

Step-Once : {s : Services} {c d : RpcChannel} → Step s c d → Once c → Once d
unfolding on_rpc_message done_callback
Step-Once (calls c x y z r d h) v = call_method-Once c x y z r d h v
Step-Once {s} (receives c c' m e) v = by_type-Once s c c' m m.type_ e v
Step-Once (answers c bytes id) v = Untouched-Once c _ (refl, refl, refl) v

-- Whatever responses arrive, repeated, in any order and with any ids, among requests and new calls that each
-- give an object for their response: every call that was made either still waits or was completed
-- exactly once, and nothing else was completed.
pub Reach-Once : {s : Services} {c : RpcChannel} → Reach s c → Once c
unfolding init lookup completed_times
Reach-Once here = record { once = λ i. ground arith; given = λ i o e. ground (arith, e) }
Reach-Once (next r t) = Step-Once t (Reach-Once r)
