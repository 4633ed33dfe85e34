-- ===== src/Balancer/Answered.antt =====
-- Replies of a backend, and the clients that they are handed back to.
use native.Mathlib.Nat.{mod-eq_of_lt}
use muduo_net_zxl.Prelude.{
  ℕ, ◌+◌, ◌^◌, ◌≤◌, ◌<◌, ◌≡◌, ◌⊎◌, refl, sym, ◌∙◌, Bool, true, false, ◌&&◌, Option, none, some,
  List, [], ◌∷◌, arith, ◌==◌, leb, length, lookup, nat_eq, lookup-insert, lookup-erase, Bool-cases,
  Option-cases, inl, inr, if◌then◌else◌, one_if, is_some,
}
use muduo_net_zxl.RpcChannel.{RpcMessage}
use muduo_net_zxl.Balancer.{
  Request, BackendSession, Sent, new_session, send, set_id, session_on_connection, send_back,
  session_on_rpc_message,
}
use muduo_net_zxl.Balancer.Rounds.{HasRoom, handed_on, send-up, send-down}
use muduo_net_zxl.Balancer.Forward.{IsNumbered-HasRoom}

-- A session, the requests that it handed on by their numbers, and what each reply made it send, by the
-- number of the reply.
pub record World : Type 0 where
  pub session : BackendSession
  pub forwarded : List (ℕ × Request)
  pub returned : List (ℕ × List Sent)

abbrev pub start : World
start = record { session = new_session; forwarded = []; returned = [] }

abbrev pub after_send : World → RpcMessage → ℕ → Bool → BackendSession → World
after_send w msg client_conn false s = record w { session = s }
after_send w msg client_conn true s = record w {
  session = s;
  forwarded = (s.next_id, record { orig_id = msg.id; client_conn = client_conn }) ∷ w.forwarded;
}

abbrev pub after_reply : World → (ℕ → Bool) → RpcMessage → World
after_reply w lock msg =
    let r = session_on_rpc_message lock w.session msg in
    record w { session = r.1; returned = (msg.id, r.0) ∷ w.returned }

-- What happens to a session. Which clients still exist may change from one reply to the next, and
-- fewer than 2 ^ 64 requests are handed on.
pub data Step : World → World → Type 0 where
  sends :
      (w : World) (msg : RpcMessage) (client_conn : ℕ) (ok : Bool) (sent : List Sent)
      (s : BackendSession)
      → w.session.next_id + 1 < 2 ^ 64
      → send w.session msg client_conn ≡ some (ok, sent, s)
      → Step w (after_send w msg client_conn ok s)
  connection :
      (w : World) (conn : ℕ) (connected : Bool)
      → Step w (record w { session = session_on_connection w.session conn connected })
  replies : (w : World) (lock : ℕ → Bool) (msg : RpcMessage) → Step w (after_reply w lock msg)

pub data Reach : World → Type 0 where
  here : Reach start
  next : {v w : World} → Reach v → Step v w → Reach w

-- How many messages were sent because of replies with the number `i`.
unfoldable pub returned_times : ℕ → List (ℕ × List Sent) → ℕ
returned_times i [] = 0
returned_times i ((j, sent) ∷ log) = (if i == j then length sent else 0) + returned_times i log

-- What a reply with the number `i` made the session send: nothing, or one message, to the client of the
-- request that was handed on under this number, with the number that the client gave.
abbrev pub Fits : List (ℕ × Request) → ℕ → List Sent → Type 0
Fits forwarded i sent =
    (sent ≡ [])
    ⊎ ((r : Request) × (m : RpcMessage) × (lookup i forwarded ≡ some r)
        × (sent ≡ (r.client_conn, m) ∷ [])
        × (m.id ≡ r.orig_id))

unfoldable pub AllFit : List (ℕ × Request) → List (ℕ × List Sent) → Type 0
AllFit forwarded [] = Unit {0}
AllFit forwarded ((i, sent) ∷ log) = Fits forwarded i sent × AllFit forwarded log

pub record Accounted (w : World) : Type 0 where
  pub numbered : (i : ℕ) → is_some (lookup i w.forwarded) ≡ leb 1 i && leb i w.session.next_id
  pub waiting :
      (i : ℕ) (r : Request)
      → lookup i w.session.outstandings ≡ some r
      → lookup i w.forwarded ≡ some r
  pub unanswered :
      (i : ℕ) (r : Request)
      → lookup i w.forwarded ≡ some r
      → lookup i w.returned ≡ none
      → lookup i w.session.outstandings ≡ some r
  pub at_most_once :
      (i : ℕ)
      → returned_times i w.returned + one_if (is_some (lookup i w.session.outstandings))
        ≤ one_if (is_some (lookup i w.forwarded))
  pub matching : AllFit w.forwarded w.returned

AllFit-more :
    (f : List (ℕ × Request)) (log : List (ℕ × List Sent)) (k : ℕ) (r : Request)
    → lookup k f ≡ none
    → AllFit f log
    → AllFit ((k, r) ∷ f) log
unfolding AllFit lookup
AllFit-more f [] k r h x = tt
AllFit-more f ((i, sent) ∷ log) k r h (y, x) = (
  elim y [
    | inl e ↦ inl e
    | inr (q, m, e, d, c) ↦ inr (q, m, ground (arith, h, e, nat_eq.beq_iff k i), d, c)
  ],
  AllFit-more f log k r h x,
)

Accounted-fresh : (w : World) → Accounted w → lookup (w.session.next_id + 1) w.forwarded ≡ none
Accounted-fresh w v = ground (arith, v.numbered (w.session.next_id + 1))

Accounted-HasRoom : (w : World) → Accounted w → w.session.next_id + 1 < 2 ^ 64 → HasRoom w.session
Accounted-HasRoom w v l =
    IsNumbered-HasRoom w.session
      (record { numbered = λ i r e. ground (arith, v.waiting i r e, v.numbered i); below = l })

handed_on-Accounted :
    (w : World) (msg : RpcMessage) (client_conn : ℕ)
    → w.session.next_id + 1 < 2 ^ 64
    → Accounted w
    → Accounted (after_send w msg client_conn true (handed_on w.session msg client_conn))
unfolding lookup
handed_on-Accounted w msg client_conn l v =
    let n = w.session.next_id in
    let r : Request = record { orig_id = msg.id; client_conn = client_conn } in
    let k = mod-eq_of_lt l in
    let new = Accounted-fresh w v in
    rw k (record {
      numbered = λ i. ground (arith, v.numbered i, nat_eq.beq_iff (n + 1) i);
      waiting = λ i q e.
          ground (arith, v.waiting i q, e, lookup-insert (n + 1) i r w.session.outstandings, new);
      unanswered = λ i q e d. ground (
        arith,
        v.unanswered i q,
        e,
        d,
        lookup-insert (n + 1) i r w.session.outstandings,
        nat_eq.beq_iff (n + 1) i,
      );
      at_most_once = λ i.
          ground (arith, v.at_most_once i, lookup-insert (n + 1) i r w.session.outstandings, new);
      matching = AllFit-more w.forwarded w.returned (n + 1) r new v.matching;
    })

send_back-length :
    (lock : ℕ → Bool) (msg : RpcMessage) (o : Option Request)
    → length (send_back lock msg o) ≤ one_if (is_some o)
unfolding send_back
send_back-length lock msg none = omega arith
send_back-length lock msg (some r) = ground arith

send_back-Fits :
    (lock : ℕ → Bool) (msg : RpcMessage) (f : List (ℕ × Request)) (i : ℕ) (o : Option Request)
    → ((r : Request) → o ≡ some r → lookup i f ≡ some r)
    → Fits f i (send_back lock msg o)
unfolding send_back
send_back-Fits lock msg f i none h = inl refl
send_back-Fits lock msg f i (some r) h = elim (Bool-cases (lock r.client_conn)) [
  | inl t ↦ inr (r, set_id msg r.orig_id, h r refl, rw t refl, refl)
  | inr t ↦ inl (rw t refl)
]

after_reply-Accounted :
    (w : World) (lock : ℕ → Bool) (msg : RpcMessage)
    → Accounted w
    → Accounted (after_reply w lock msg)
unfolding session_on_rpc_message returned_times AllFit lookup
after_reply-Accounted w lock msg v =
    let o = lookup msg.id w.session.outstandings in
    record {
      numbered = v.numbered;
      waiting =
          λ i r e. ground (arith, v.waiting i r, e, lookup-erase msg.id i w.session.outstandings);
      unanswered = λ i r e d. ground (
        arith,
        v.unanswered i r,
        e,
        d,
        lookup-erase msg.id i w.session.outstandings,
        nat_eq.beq_iff msg.id i,
      );
      at_most_once = λ i. ground (
        arith,
        v.at_most_once i,
        lookup-erase msg.id i w.session.outstandings,
        send_back-length lock msg o,
        nat_eq.beq_iff msg.id i,
      );
      matching = (send_back-Fits lock msg w.forwarded msg.id o (v.waiting msg.id), v.matching);
    }

Step-Accounted : {v w : World} → Step v w → Accounted v → Accounted w
unfolding session_on_connection
Step-Accounted (sends w msg client_conn ok sent s l e) v = elim (Option-cases w.session.conn) [
  | inl d ↦ let (x, y) = Sent-equal (sym e ∙ send-down w.session msg client_conn d) in rw (x, y) v
  | inr (conn, u) ↦
      let z = send-up w.session msg client_conn conn u (Accounted-HasRoom w v l) in
      let (x, y) = Sent-equal (sym e ∙ z) in rw (x, y) (handed_on-Accounted w msg client_conn l v)
]
  where
    Sent-equal :
        {a b : Bool} {x y : List Sent} {s t : BackendSession}
        → ◌≡◌ {A = Option (Bool × List Sent × BackendSession)} (some (a, x, s)) (some (b, y, t))
        → (a ≡ b) × (s ≡ t)
    Sent-equal e = (cc, cc)
Step-Accounted (connection w conn connected) v = record {
  numbered = v.numbered;
  waiting = v.waiting;
  unanswered = v.unanswered;
  at_most_once = v.at_most_once;
  matching = v.matching;
}
Step-Accounted (replies w lock msg) v = after_reply-Accounted w lock msg v

-- However the backend numbers its replies, repeats them or loses them, and whenever it disconnects and
-- returns: a request that was handed on is answered at most once, never while it still waits; every
-- message that a reply made the session send answers a request that was handed on under the reply's
-- number, and goes to the client that sent it, with the number that the client gave.
pub Reach-Accounted : {w : World} → Reach w → Accounted w
unfolding new_session lookup returned_times AllFit
Reach-Accounted here = record {
  numbered = λ i. ground arith;
  waiting = λ i r e. ground (arith, e);
  unanswered = λ i r e d. ground (arith, e);
  at_most_once = λ i. ground arith;
  matching = tt;
}
Reach-Accounted (next r s) = Step-Accounted s (Reach-Accounted r)

-- The first reply with the number of a request that was handed on is sent to the client of that
-- request, if it still exists, as the answer to the number that the client gave, whatever else the
-- session did since.
pub session_on_rpc_message_first :
    {w : World} (lock : ℕ → Bool) (msg : RpcMessage) (r : Request)
    → Reach w
    → lookup msg.id w.forwarded ≡ some r
    → lookup msg.id w.returned ≡ none
    → lock r.client_conn ≡ true
    → (session_on_rpc_message lock w.session msg).0 ≡ (r.client_conn, set_id msg r.orig_id) ∷ []
unfolding session_on_rpc_message send_back
session_on_rpc_message_first {w} lock msg r x f n l =
    let h = (Reach-Accounted x).unanswered msg.id r f n in rw (h, l) refl
