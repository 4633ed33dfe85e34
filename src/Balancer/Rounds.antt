-- ===== src/Balancer/Rounds.antt =====
-- Which backend is given a request.
use native.Mathlib.Nat.{mod-add-mod, mod-lt, mod-eq_of_lt}
use muduo_net_zxl.Prelude.{
  ℕ, zero, suc, ◌+◌, ◌%◌, ◌<◌, ◌≡◌, ◌⊎◌, refl, sym, ap, ◌∙◌, Bool, true, false, Option, none, some,
  List, [], ◌∷◌, ◌>>=◌, arith, length, get_elem?, set, lookup, insert, nat_eq, get_elem?-exists,
  Option-cases, inl, inr,
}
use muduo_net_zxl.RpcChannel.{RpcMessage}
use muduo_net_zxl.Balancer.{BackendSession, Sent, PerThread, send, set_id, increment, try_backends}

-- The number that a request is given next is not taken.
abbrev pub HasRoom : BackendSession → Type 0
HasRoom s = lookup (increment s.next_id) s.outstandings ≡ none

-- The session, once it has handed a request of `client_conn` on.
abbrev pub handed_on : BackendSession → RpcMessage → ℕ → BackendSession
handed_on s msg client_conn = record s {
  next_id = increment s.next_id;
  outstandings =
      insert (increment s.next_id) (record { orig_id = msg.id; client_conn = client_conn })
        s.outstandings;
}

pub send-up :
    (s : BackendSession) (msg : RpcMessage) (client_conn conn : ℕ)
    → s.conn ≡ some conn
    → HasRoom s
    → send s msg client_conn
      ≡ some (true, (conn, set_id msg (increment s.next_id)) ∷ [], handed_on s msg client_conn)
unfolding send
send-up s msg client_conn conn e h = rw e (rw h refl)

pub send-down :
    (s : BackendSession) (msg : RpcMessage) (client_conn : ℕ)
    → s.conn ≡ none
    → send s msg client_conn ≡ some (false, [], s)
unfolding send
send-down s msg client_conn e = rw e refl

set_same :
    (xs : List BackendSession) (i : ℕ) (x : BackendSession)
    → get_elem? xs i ≡ some x
    → set xs i x ≡ xs
set_same [] i x h = refl
set_same (y ∷ xs) zero x h = ground (arith, h)
set_same (y ∷ xs) (suc i) x h = ap (λ (zs : List BackendSession). y ∷ zs) (set_same xs i x h)

-- The backend of the `k`-th round from now.
abbrev pub turn : PerThread → ℕ → ℕ
turn t k = (t.current + k) % length t.backends

module _ (t : PerThread) (msg : RpcMessage) (client_conn : ℕ) where
  -- After `k` rounds in vain, the backend whose turn it is had a connection, and is the only one that
  -- was given the message, with its own number for it; the next request begins with the one behind.
  pub record HandedOn (n : ℕ) (sent : List Sent) (t' : PerThread) : Type 0 where
    pub k : ℕ
    pub session : BackendSession
    pub conn : ℕ
    pub round : k < n
    pub in_vain :
        (i : ℕ) (s : BackendSession)
        → i < k
        → get_elem? t.backends (turn t i) ≡ some s
        → s.conn ≡ none
    pub chosen : get_elem? t.backends (turn t k) ≡ some session
    pub connected : session.conn ≡ some conn
    pub one_message : sent ≡ (conn, set_id msg (increment session.next_id)) ∷ []
    pub one_session : t'.backends ≡ set t.backends (turn t k) (handed_on session msg client_conn)
    pub moved_on : t'.current ≡ turn t (suc k)

  -- No backend of the first `n` rounds had a connection.
  pub record AllDown (n : ℕ) (sent : List Sent) (t' : PerThread) : Type 0 where
    pub down :
        (i : ℕ) (s : BackendSession)
        → i < n
        → get_elem? t.backends (turn t i) ≡ some s
        → s.conn ≡ none
    pub nothing_sent : sent ≡ []
    pub nothing_changed : t'.backends ≡ t.backends
    pub turned : t'.current ≡ turn t n

  unfoldable pub Tried : ℕ → Option (Bool × List Sent × PerThread) → Type 0
  Tried n r =
      (sent : List Sent) × (t' : PerThread) × (((r ≡ some (true, sent, t')) × HandedOn n sent t')
        ⊎ ((r ≡ some (false, sent, t')) × AllDown n sent t'))

abbrev next_turn : PerThread → PerThread
next_turn t = record t { current = (t.current + 1) % length t.backends }

turn-next : (t : PerThread) (i : ℕ) → turn (next_turn t) i ≡ turn t (suc i)
turn-next t i =
    mod-add-mod (t.current + 1) (length t.backends) i
    ∙ ap (λ (j : ℕ). j % length t.backends) (omega arith)

turn-zero : (t : PerThread) → t.current < length t.backends → turn t 0 ≡ t.current
turn-zero t h = ap (λ (j : ℕ). j % length t.backends) (omega arith) ∙ mod-eq_of_lt h

module _ (t : PerThread) (msg : RpcMessage) (client_conn : ℕ) where
  -- One more round in vain, before those of `next_turn t`.
  later :
      (n : ℕ) (s : BackendSession) (r : Option (Bool × List Sent × PerThread))
      → t.current < length t.backends
      → get_elem? t.backends t.current ≡ some s
      → s.conn ≡ none
      → Tried (next_turn t) msg client_conn n r
      → Tried t msg client_conn (suc n) r
  unfolding Tried
  later n s r h g d (sent, t', x) = (
    sent,
    t',
    elim x [
      | inl (e, w) ↦ inl (
        e,
        record {
          k = suc w.k;
          session = w.session;
          conn = w.conn;
          round = omega (arith, w.round);
          in_vain = λ i z l m. before w.k w.in_vain i z l m;
          chosen = rw (← turn-next t w.k) w.chosen;
          connected = w.connected;
          one_message = w.one_message;
          one_session = rw (← turn-next t w.k) w.one_session;
          moved_on = w.moved_on ∙ turn-next t (suc w.k);
        },
      )
      | inr (e, w) ↦ inr (
        e,
        record {
          down = λ i z l m. before n w.down i z l m;
          nothing_sent = w.nothing_sent;
          nothing_changed = w.nothing_changed;
          turned = w.turned ∙ turn-next t n;
        },
      )
    ],
  )
    where
      before :
          (k : ℕ)
          → ((i : ℕ) (z : BackendSession)
              → i < k
              → get_elem? t.backends (turn (next_turn t) i) ≡ some z
              → z.conn ≡ none)
          → (i : ℕ) (z : BackendSession) → i < suc k
          → get_elem? t.backends (turn t i) ≡ some z
          → z.conn ≡ none
      before k f zero z l m = ground (arith, d, g, rw (turn-zero t h) at m)
      before k f (suc i) z l m = f i z (omega arith) (rw (turn-next t i) m)

module _ (n : ℕ) (t : PerThread) (msg : RpcMessage) (client_conn : ℕ) (s : BackendSession) where
  try_backends-down :
      get_elem? t.backends t.current ≡ some s
      → s.conn ≡ none
      → try_backends (suc n) t msg client_conn ≡ try_backends n (next_turn t) msg client_conn
  unfolding try_backends
  try_backends-down g d =
      rw (g, ◌>>=◌)
        (rw (send-down s msg client_conn d, ◌>>=◌) (rw (set_same t.backends t.current s g) refl))

  try_backends-up :
      (conn : ℕ)
      → get_elem? t.backends t.current ≡ some s
      → s.conn ≡ some conn
      → HasRoom s
      → try_backends (suc n) t msg client_conn
        ≡ some (
          true,
          (conn, set_id msg (increment s.next_id)) ∷ [],
          record {
            current = (t.current + 1) % length t.backends;
            backends = set t.backends t.current (handed_on s msg client_conn);
          },
        )
  unfolding try_backends
  try_backends-up conn g u r = rw (g, ◌>>=◌) (rw (send-up s msg client_conn conn u r, ◌>>=◌) refl)

pub try_backends-Tried :
    (n : ℕ) (t : PerThread) (msg : RpcMessage) (client_conn : ℕ)
    → t.current < length t.backends
    → ((i : ℕ) (s : BackendSession) → get_elem? t.backends i ≡ some s → HasRoom s)
    → Tried t msg client_conn n (try_backends n t msg client_conn)
unfolding try_backends Tried
try_backends-Tried zero t msg client_conn h room = (
  [],
  t,
  inr (
    refl,
    record {
      down = λ i s l m. absurd (omega (arith, l));
      nothing_sent = refl;
      nothing_changed = refl;
      turned = sym (turn-zero t h);
    },
  ),
)
try_backends-Tried (suc n) t msg client_conn h room =
    let (s, g) = get_elem?-exists t.backends t.current h in
    elim (Option-cases s.conn) [
      | inl d ↦ later t msg client_conn n s (try_backends (suc n) t msg client_conn) h g d (
          rw (try_backends-down n t msg client_conn s g d) (
            try_backends-Tried n (next_turn t) msg client_conn
              (mod-lt (t.current + 1) (omega (arith, h))) room))
      | inr (conn, u) ↦ (
        (conn, set_id msg (increment s.next_id)) ∷ [],
        _,
        inl (
          try_backends-up n t msg client_conn s conn g u (room t.current s g),
          record {
            k = 0;
            session = s;
            conn = conn;
            round = omega arith;
            in_vain = λ i z l m. absurd (omega (arith, l));
            chosen = rw (turn-zero t h) g;
            connected = u;
            one_message = refl;
            one_session = rw (turn-zero t h) refl;
            moved_on = refl;
          },
        ),
      )
    ]
