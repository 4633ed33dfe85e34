-- ===== src/Acceptor/Connections.antt =====
-- Any number of readable events of a listening socket.
use muduo_net_zxl.Prelude.{
  ◌≡◌, refl, sym, ap, ◌∙◌, Bool, true, false, ◌&&◌, Option, none, some, List, [], ◌∷◌, ◌++◌,
  if◌then◌else◌, append_assoc, append-nil, ◌>>=◌, Bool-cases, inl, inr, arith,
}
use muduo_net_zxl.Sockets.{
  Accept4, accepted, refused, Log, syserr, is_expected, accept, socket_accept,
}
use muduo_net_zxl.Acceptor.{Call, handed, closed, Acceptor, handle_read}

unfoldable pub handle_all : Acceptor → List Accept4 → Option Acceptor
handle_all a [] = some a
handle_all a (r ∷ rs) = do b ← handle_read a r; handle_all b rs

-- What should become of the connections, with and without somebody who wants them.
unfoldable pub expected_calls : Bool → List Accept4 → List Call
expected_calls wanted [] = []
expected_calls wanted (accepted fd peer ∷ rs) =
    (if wanted then handed fd peer else closed fd) ∷ expected_calls wanted rs
expected_calls wanted (refused e ∷ rs) = expected_calls wanted rs

unfoldable pub expected_logs : List Accept4 → List Log
expected_logs [] = []
expected_logs (accepted fd peer ∷ rs) = expected_logs rs
expected_logs (refused e ∷ rs) = syserr ∷ expected_logs rs

unfoldable pub all_expected : List Accept4 → Bool
all_expected [] = true
all_expected (accepted fd peer ∷ rs) = all_expected rs
all_expected (refused e ∷ rs) = is_expected e && all_expected rs

pub record Handled (a : Acceptor) (rs : List Accept4) (b : Acceptor) : Type 0 where
  pub calls : b.calls ≡ a.calls ++ expected_calls a.has_callback rs
  pub logs : b.logs ≡ a.logs ++ expected_logs rs
  pub channel : b.channel ≡ a.channel
  pub is_listening : b.is_listening ≡ a.is_listening

-- Over any answers of the kernel without an unexpected error: every descriptor that it accepted is handed
-- to the new connection callback with its peer's address, or closed if there is no callback, once and in
-- order; a failed `accept` hands nothing over, and is logged. The acceptor goes on listening.
handle_all-calls :
    (a : Acceptor) (rs : List Accept4)
    → all_expected rs ≡ true
    → (b : Acceptor) × (handle_all a rs ≡ some b) × Handled a rs b
unfolding handle_all handle_read expected_calls expected_logs all_expected socket_accept accept
handle_all-calls a [] h = (
  a,
  refl,
  record {
    calls = sym (append-nil a.calls);
    logs = sym (append-nil a.logs);
    channel = refl;
    is_listening = refl;
  },
)
handle_all-calls a (accepted fd peer ∷ rs) h =
    let call = if a.has_callback then handed fd peer else closed fd in
    let (b, e, k) =
      handle_all-calls (record a { calls = a.calls ++ call ∷ []; logs = a.logs ++ [] }) rs h in
    (
      b,
      e,
      record {
        calls = k.calls ∙ append_assoc a.calls (call ∷ []) (expected_calls a.has_callback rs);
        logs = k.logs ∙ ap (λ (x : List Log). x ++ expected_logs rs) (append-nil a.logs);
        channel = k.channel;
        is_listening = k.is_listening;
      },
    )
handle_all-calls a (refused n ∷ rs) h =
    let t : is_expected n ≡ true = ground (arith, h) in
    let (b, e, k) =
      handle_all-calls (record a { logs = a.logs ++ syserr ∷ [] }) rs (ground (arith, h, t)) in
    (
      b,
      rw t e,
      record {
        calls = k.calls;
        logs = k.logs ∙ append_assoc a.logs (syserr ∷ []) (expected_logs rs);
        channel = k.channel;
        is_listening = k.is_listening;
      },
    )

-- An unexpected error ends the program.
handle_all-unexpected :
    (a : Acceptor) (rs : List Accept4) → all_expected rs ≡ false → handle_all a rs ≡ none
unfolding handle_all handle_read all_expected socket_accept accept
handle_all-unexpected a [] h = cc
handle_all-unexpected a (accepted fd peer ∷ rs) h = handle_all-unexpected _ rs h
handle_all-unexpected a (refused n ∷ rs) h = elim (Bool-cases (is_expected n)) [
  | inl t ↦ rw t (handle_all-unexpected _ rs (ground (arith, h, t)))
  | inr t ↦ rw t refl
]
