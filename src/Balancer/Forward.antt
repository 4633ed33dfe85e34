-- ===== src/Balancer/Forward.antt =====
-- Which backend is given a request, whatever backend's turn it is.
use native.Mathlib.Nat.{mod-eq_of_lt, add-mod_right}
use muduo_net_zxl.Prelude.{
  ℕ, ◌+◌, ◌%◌, ◌^◌, ◌≤◌, ◌<◌, ◌≡◌, ◌⊎◌, ap, ◌∙◌, true, false, none, some, List, [], arith, length,
  get_elem?, lookup, nat_eq, Option-cases, inl, inr, get_elem?-lt, leb, Bool-cases, tests, ◌-◌,
}
use muduo_net_zxl.RpcChannel.{RpcMessage}
use muduo_net_zxl.Balancer.{Request, BackendSession, Sent, PerThread, increment, on_rpc_message}
use muduo_net_zxl.Balancer.Rounds.{turn, HasRoom, HandedOn, AllDown, Tried, try_backends-Tried}

-- The numbers of the requests that wait are not above the last one, and the next one is a `uint64_t`.
pub record IsNumbered (s : BackendSession) : Type 0 where
  pub numbered : (id : ℕ) (r : Request) → lookup id s.outstandings ≡ some r → id ≤ s.next_id
  pub below : s.next_id + 1 < 2 ^ 64

pub IsNumbered-HasRoom : (s : BackendSession) → IsNumbered s → HasRoom s
IsNumbered-HasRoom s v = elim (Option-cases (lookup (increment s.next_id) s.outstandings)) [
  | inl n ↦ n
  | inr (r, e) ↦
      absurd (omega (arith, v.numbered (increment s.next_id) r e, mod-eq_of_lt v.below, v.below))
]

-- Each backend is some round's.
round_of :
    (t : PerThread) (j : ℕ)
    → t.current < length t.backends
    → j < length t.backends
    → (i : ℕ) × (i < length t.backends) × (turn t i ≡ j)
round_of t j c l = elim (Bool-cases (leb t.current j)) [
  | inl h ↦ (
    j - t.current,
    omega (tests, h, l),
    ap (λ (k : ℕ). k % length t.backends) (ground (arith, h)) ∙ mod-eq_of_lt l,
  )
  | inr h ↦ (
    j + length t.backends - t.current,
    ground (arith, h, l, c),
    ap (λ (k : ℕ). k % length t.backends) (ground (arith, h, c))
        ∙ add-mod_right j (length t.backends)
        ∙ mod-eq_of_lt l,
  )
]

AllDown-same :
    (t t' : PerThread) (msg : RpcMessage) (client_conn : ℕ) (sent : List Sent)
    → t.current < length t.backends
    → AllDown t msg client_conn (length t.backends) sent t'
    → t' ≡ t
AllDown-same t t' msg client_conn sent h w =
    let turned : t'.current ≡ t.current =
      w.turned ∙ add-mod_right t.current (length t.backends) ∙ mod-eq_of_lt h in
    ground (arith, turned, w.nothing_changed)

-- The outcomes of `Balancer::onRpcMessage`.
unfoldable pub Outcome : PerThread → RpcMessage → ℕ → Type 0
Outcome t msg client_conn =
    ((sent : List Sent) × (t' : PerThread) × (on_rpc_message t msg client_conn
        ≡ some (true, sent, t'))
      × HandedOn t msg client_conn (length t.backends) sent t')
    ⊎ ((on_rpc_message t msg client_conn ≡ some (false, [], t))
        × ((j : ℕ) (s : BackendSession) → get_elem? t.backends j ≡ some s → s.conn ≡ none))

-- `Balancer::onRpcMessage` hands a request on to exactly one backend: the first, from the one whose turn
-- it is, that has a connection. It is sent once, under a number of that backend's own, and the turn moves
-- behind that backend. If no backend has a connection, nothing is sent and nothing changes.
pub on_rpc_message-Outcome :
    (t : PerThread) (msg : RpcMessage) (client_conn : ℕ)
    → t.current < length t.backends
    → ((i : ℕ) (s : BackendSession) → get_elem? t.backends i ≡ some s → IsNumbered s)
    → Outcome t msg client_conn
unfolding Outcome on_rpc_message Tried
on_rpc_message-Outcome t msg client_conn h v =
    let (sent, t', x) =
      try_backends-Tried (length t.backends) t msg client_conn h
        (λ i s g. IsNumbered-HasRoom s (v i s g)) in
    elim x [
      | inl (e, w) ↦ inl (sent, t', e, w)
      | inr (e, w) ↦ inr (
        e ∙ ground (arith, w.nothing_sent, AllDown-same t t' msg client_conn sent h w),
        λ j s g.
            let (i, l, k) = round_of t j h (get_elem?-lt t.backends j s g) in w.down i s l (rw k g),
      )
    ]
