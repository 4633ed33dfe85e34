-- ===== src/TcpClient/Handing.antt =====
-- What an event of the connector hands to the client.
use muduo_net_zxl.Prelude.{
  ℕ, ◌+◌, ◌-◌, ◌≡◌, ◌≢◌, refl, sym, ap, ◌∙◌, Bool, not, ◌||◌, Option, none, some, List, [], ◌∷◌,
  ◌++◌, ◌==◌, arith, length, drop, drop-length-append, append_assoc, append-nil, Bool-cases,
  Option-cases, inl, inr, ◌>>=◌, some_equal,
}
use muduo_net_zxl.Channel.{disable_all}
use muduo_net_zxl.Connector.{
  disconnected, connecting, connected, Errno, Connector, Call, created, closed, handed, run_after,
  retry, settle, handle_write, handle_error, start_in_loop, connect, after_connect, Verdict, go_on,
  try_again, give_up, verdict, begin_connecting, remove_and_reset_channel, reset_channel,
}
use muduo_net_zxl.Connector.Events.{
  Event, writable, broken, broken_and_writable, reset_runs, retry_fires, restarted, stopped, starts,
  run, Enabled, Watched, IsValid,
}
use muduo_net_zxl.Connector.Watch.{place_watched, handle_error-IsValid, handle_write_down}
use muduo_net_zxl.Connector.Reach.{retry-Idle}
use muduo_net_zxl.TcpClient.{sockets_handed}

abbrev pub one_if_some : Option ℕ → ℕ
one_if_some none = 0
one_if_some (some x) = 1

unfoldable pub handed_count : List Call → ℕ
handed_count [] = 0
handed_count (created x ∷ cs) = handed_count cs
handed_count (closed x ∷ cs) = handed_count cs
handed_count (handed x ∷ cs) = 1 + handed_count cs
handed_count (run_after x ∷ cs) = handed_count cs

pub handed_count-append :
    (cs ds : List Call) → handed_count (cs ++ ds) ≡ handed_count cs + handed_count ds
unfolding handed_count
handed_count-append [] ds = omega arith
handed_count-append (created x ∷ cs) ds = handed_count-append cs ds
handed_count-append (closed x ∷ cs) ds = handed_count-append cs ds
handed_count-append (handed x ∷ cs) ds = omega (arith, handed_count-append cs ds)
handed_count-append (run_after x ∷ cs) ds = handed_count-append cs ds

-- The calls that an event logs, and what they hand over.
pub record Effect (c d : Connector) : Type 0 where
  pub news : List Call
  pub appended : d.calls ≡ c.calls ++ news
  pub quiet : sockets_handed news ≡ none → c.state ≡ connected → d.state ≡ connected
  pub hands :
      (x : ℕ) → sockets_handed news ≡ some x → (c.state ≡ connecting) × (d.state ≡ connected)
  pub count : handed_count news ≡ one_if_some (sockets_handed news)

-- Calls that hand nothing over.
abbrev Silent : List Call → Type 0
Silent pre =
    (xs : List Call)
    → (sockets_handed (pre ++ xs) ≡ sockets_handed xs)
      × (handed_count (pre ++ xs) ≡ handed_count xs)

retry-Effect :
    (c b : Connector) (sockfd : ℕ) (pre : List Call)
    → Silent pre
    → b.calls ≡ c.calls ++ pre
    → c.state ≢ connected
    → Effect c (retry b sockfd)
unfolding retry handed_count
retry-Effect c b sockfd pre p e n = elim (Bool-cases b.wanted) [
  | inl t ↦
      let new = closed sockfd ∷ run_after b.retry_delay_ms ∷ [] in
      rw t (record {
        news = pre ++ new;
        appended =
            append_assoc b.calls (closed sockfd ∷ []) (run_after b.retry_delay_ms ∷ [])
            ∙ ap (λ l. l ++ new) e
            ∙ append_assoc c.calls pre new;
        quiet = λ h k. absurd (n k);
        hands = λ x h. let (z, w) = p new in cc;
        count = let (z, w) = p new in w ∙ ap one_if_some (sym z);
      })
  | inr t ↦ rw t (record {
    news = pre ++ closed sockfd ∷ [];
    appended = ap (λ l. l ++ closed sockfd ∷ []) e ∙ append_assoc c.calls pre (closed sockfd ∷ []);
    quiet = λ h k. absurd (n k);
    hands = λ x h. let (z, w) = p (closed sockfd ∷ []) in cc;
    count = let (z, w) = p (closed sockfd ∷ []) in w ∙ ap one_if_some (sym z);
  })
]

settle-Effect :
    (c b : Connector) (sockfd err : ℕ) (self_connect : Bool)
    → b.calls ≡ c.calls
    → c.state ≡ connecting
    → Effect c (settle b sockfd err self_connect)
unfolding settle handed_count
settle-Effect c b sockfd err self_connect e n = elim (Bool-cases (not (err == 0) || self_connect)) [
  | inl t ↦
      rw t
        (retry-Effect c b sockfd [] (λ xs. (refl, refl)) (e ∙ sym (append-nil c.calls)) (λ k. cc))
  | inr t ↦ rw t (elim (Bool-cases b.wanted) [
    | inl u ↦ rw u (record {
      news = handed sockfd ∷ [];
      appended = ap (λ l. l ++ handed sockfd ∷ []) e;
      quiet = λ h k. cc;
      hands = λ x h. (n, refl);
      count = refl;
    })
    | inr u ↦ rw u (record {
      news = closed sockfd ∷ [];
      appended = ap (λ l. l ++ closed sockfd ∷ []) e;
      quiet = λ h k. refl;
      hands = λ x h. cc;
      count = refl;
    })
  ])
]

after_connect-Effect :
    (c b d : Connector) (sockfd : ℕ) (v : Verdict)
    → b.calls ≡ c.calls ++ created sockfd ∷ []
    → b.channel ≡ none
    → c.state ≢ connected
    → after_connect v b sockfd ≡ some d
    → Effect c d
unfolding begin_connecting handed_count
after_connect-Effect c b d sockfd go_on e z n h = record {
  news = created sockfd ∷ [];
  appended = ground (arith, e, z, h);
  quiet = λ x k. absurd (n k);
  hands = λ x k. cc;
  count = refl;
}
after_connect-Effect c b d sockfd try_again e z n h =
    let g : d ≡ retry b sockfd = cc in
    rw g (retry-Effect c b sockfd (created sockfd ∷ []) (λ xs. (refl, refl)) e n)
after_connect-Effect c b d sockfd give_up e z n h = record {
  news = created sockfd ∷ closed sockfd ∷ [];
  appended = ground (arith, e, h, append_assoc c.calls (created sockfd ∷ []) (closed sockfd ∷ []));
  quiet = λ x k. absurd (n k);
  hands = λ x k. cc;
  count = refl;
}

start_in_loop-Effect :
    (c b d : Connector) (sockfd : ℕ) (save_error : Errno)
    → b.calls ≡ c.calls
    → b.channel ≡ none
    → b.state ≡ disconnected
    → c.state ≢ connected
    → start_in_loop b sockfd save_error ≡ some d
    → Effect c d
unfolding start_in_loop connect handed_count
start_in_loop-Effect c b d sockfd save_error e z s n h = elim (Bool-cases b.wanted) [
  | inl t ↦
      after_connect-Effect c (record b { calls = b.calls ++ created sockfd ∷ [] }) d sockfd
        (verdict save_error) (ap (λ l. l ++ created sockfd ∷ []) e) z n (ground (arith, h, s, t))
  | inr f ↦ record {
    news = [];
    appended = ground (arith, h, s, f, e, append-nil c.calls);
    quiet = λ x k. absurd (n k);
    hands = λ x k. cc;
    count = refl;
  }
]

-- What a connector does by itself.
abbrev pub IsOwn : Event → Type 0
IsOwn (writable err self_connect) = Unit {0}
IsOwn broken = Unit {0}
IsOwn (broken_and_writable err self_connect) = Unit {0}
IsOwn reset_runs = Unit {0}
IsOwn (retry_fires sockfd save_error) = Unit {0}
IsOwn (restarted sockfd save_error) = ⊥
IsOwn stopped = ⊥
IsOwn (starts sockfd save_error) = ⊥

Watched-connecting : (c : Connector) → IsValid c → Watched c → c.state ≡ connecting
Watched-connecting c v (k, e, z) = (place_watched c.state c k v.place e z).0

handle_write-Effect :
    (c d : Connector) (err : ℕ) (self_connect : Bool)
    → c.state ≡ connecting
    → handle_write c err self_connect ≡ some d
    → Effect c d
unfolding handle_write remove_and_reset_channel
handle_write-Effect c d err self_connect s e = elim (Option-cases c.channel) [
  | inl n ↦ absurd (ground (arith, s, e, n))
  | inr (k, n) ↦
      let b = record c { channel = some (disable_all k); resets = c.resets + 1 } in
      let g : d ≡ settle b (disable_all k).fd err self_connect = ground (arith, s, e, n) in
      rw g (settle-Effect c b (disable_all k).fd err self_connect refl s)
]

handle_error-Effect :
    (c d : Connector) → c.state ≡ connecting → handle_error c ≡ some d → Effect c d
unfolding handle_error remove_and_reset_channel handed_count
handle_error-Effect c d s e = elim (Option-cases c.channel) [
  | inl n ↦ absurd (ground (arith, s, e, n))
  | inr (k, n) ↦
      let b = record c {
        state = connecting;
        channel = some (disable_all k);
        resets = c.resets + 1;
      } in
      let g : d ≡ retry b (disable_all k).fd = ground (arith, e, n) in
      rw g (
        retry-Effect c b (disable_all k).fd [] (λ xs. (refl, refl)) (sym (append-nil c.calls))
          (λ k. cc))
]

-- An event of the connector's own hands over at most one socket; then it was connecting, and is
-- connected. Otherwise it stays connected if it was.
pub run-Effect :
    (c d : Connector) (e : Event)
    → IsOwn e
    → IsValid c
    → Enabled c e
    → run c e ≡ some d
    → Effect c d
unfolding run reset_channel handed_count
run-Effect c d (writable err self_connect) o v h e =
    handle_write-Effect c d err self_connect (Watched-connecting c v h) e
run-Effect c d broken o v h e = handle_error-Effect c d (Watched-connecting c v h) e
run-Effect c d (broken_and_writable err self_connect) o v h e =
    let (b, f, u, s) = handle_error-IsValid c v h in
    let g : d ≡ b = some_equal (sym e ∙ rw (f, ◌>>=◌) (handle_write_down b err self_connect s)) in
    rw g (handle_error-Effect c b (Watched-connecting c v h) f)
run-Effect c d reset_runs o v h e = record {
  news = [];
  appended = ground (arith, e, append-nil c.calls);
  quiet = λ x k. ground (arith, e, k);
  hands = λ x k. cc;
  count = refl;
}
run-Effect c d (retry_fires sockfd save_error) o v (h, z) e =
    let i = retry-Idle c.state c v.place refl h z v in
    let s : c.state ≡ disconnected = i.state_is in
    start_in_loop-Effect c (record c { retries = c.retries - 1 }) d sockfd save_error refl
      i.no_channel s (λ k. cc) e
run-Effect c d (restarted sockfd save_error) o v h e = absurd o
run-Effect c d stopped o v h e = absurd o
run-Effect c d (starts sockfd save_error) o v h e = elim o [ ]

-- What the client sees of it.
pub handed_lem : (c d : Connector) (f : Effect c d) → drop (length c.calls) d.calls ≡ f.news
handed_lem c d f = ap (drop (length c.calls)) f.appended ∙ drop-length-append c.calls f.news

-- An attempt from rest hands nothing over.
pub start_in_loop-handed_count :
    (b d : Connector) (sockfd : ℕ) (save_error : Errno)
    → b.channel ≡ none
    → b.state ≡ disconnected
    → start_in_loop b sockfd save_error ≡ some d
    → handed_count d.calls ≡ handed_count b.calls
start_in_loop-handed_count b d sockfd save_error z s h =
    let f = start_in_loop-Effect b b d sockfd save_error refl z s (λ k. cc) h in
    let n = ap handed_count f.appended ∙ handed_count-append b.calls f.news in
    elim (Option-cases (sockets_handed f.news)) [
      | inl e ↦ omega (arith, n, f.count ∙ ap one_if_some e)
      | inr (x, e) ↦ let (p, q) = f.hands x e in let r : disconnected ≡ connecting = sym s ∙ p in cc
    ]
