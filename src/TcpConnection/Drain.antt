-- ===== src/TcpConnection/Drain.antt =====
-- A connection that is shutting down, while the kernel goes on taking bytes.
use muduo_net_zxl.Prelude.{
  ℕ, ◌-◌, ◌≤◌, ◌<◌, ◌≡◌, ◌⊎◌, refl, sym, ap, ◌∙◌, true, false, Option, some, List, [], ◌∷◌, ◌++◌,
  ◌==◌, length, min, arith, inl, inr, ◌>>=◌, append-nil, length-drop, eq_nil, dec_lt, some_equal,
}
use muduo_net_zxl.Buffer.{contents}
use muduo_net_zxl.TcpConnection.{Connection, disconnecting, wrote, handle_write}
use muduo_net_zxl.TcpConnection.Writes.{IsValid, stream, wrote_some-stream}
use muduo_net_zxl.TcpConnection.Shutdown.{wrote_some-shut}
use muduo_net_zxl.TcpConnection.Calls.{handle_write-Same}

-- Writable events, at each of which the kernel has room for so many bytes.
unfoldable pub handle_writes : Connection → List ℕ → Option Connection
handle_writes c [] = some c
handle_writes c (room ∷ rooms) = do
  c' ← handle_write c (wrote (min room (length (contents c.output))))
  handle_writes c' rooms

abbrev pub AllPositive : List ℕ → Type 0
AllPositive [] = Unit {0}
AllPositive (k ∷ ks) = (1 ≤ k) × AllPositive ks

-- Bytes wait and the writing half is open, or none wait and it is closed.
record Closing (c : Connection) : Type 0 where
  valid : IsValid c
  state_is : c.state ≡ disconnecting
  open_or_shut :
      ((0 < length (contents c.output)) × (c.shut ≡ false))
      ⊎ ((contents c.output ≡ []) × (c.shut ≡ true))

-- One event.
one_write :
    (c : Connection) (room : ℕ)
    → Closing c
    → 1 ≤ room
    → (c' : Connection) × (handle_write c (wrote (min room (length (contents c.output)))) ≡ some c')
      × Closing c'
      × (stream c' ≡ stream c)
      × (length (contents c'.output) ≤ length (contents c.output) - 1)
unfolding handle_write
one_write c room k h = elim k.open_or_shut [
  | inl (more, s) ↦
      let n = min room (length (contents c.output)) in
      let (c', e, v, t, q) = wrote_some-stream c n k.valid (omega arith) in
      let (d, f, z) = wrote_some-shut c n k.valid k.state_is s (omega arith) in
      let same : d ≡ c' = some_equal (sym f ∙ e) in
      let w = k.valid.writes (λ x. absurd (omega (arith, more, ap length x))) in
      let g : handle_write c (wrote n) ≡ some c' = ground (arith, w, more, h, e) in
      let l = ap length q ∙ length-drop n (contents c.output) in
      let y : c'.shut ≡ (n == length (contents c.output)) =
        ap (λ (x : Connection). x.shut) (sym same) ∙ z in
      (
        c',
        g,
        record {
          valid = v;
          state_is = (handle_write-Same c c' (wrote n) g).state ∙ k.state_is;
          open_or_shut = elim (dec_lt room (length (contents c.output))) [
            | yes p ↦ inl (omega (arith, l), ground (arith, y, p))
            | no p ↦ inr (eq_nil (contents c'.output) (omega (arith, l)), ground (arith, y, p))
          ];
        },
        t,
        omega (arith, l, h, more),
      )
  | inr (none_left, s) ↦
      (c, ground (arith, ap length none_left), k, refl, omega (arith, ap length none_left))
]

handle_writes-lem :
    (c : Connection) (rooms : List ℕ)
    → Closing c
    → AllPositive rooms
    → length (contents c.output) ≤ length rooms
    → (c' : Connection) × (handle_writes c rooms ≡ some c')
      × (contents c'.output ≡ [])
      × (c'.wire ≡ stream c)
      × (c'.shut ≡ true)
unfolding handle_writes
handle_writes-lem c [] k p l = elim k.open_or_shut [
  | inl (more, s) ↦ absurd (omega (arith, more, l))
  | inr (none_left, s) ↦
      (c, refl, none_left, sym (append-nil c.wire) ∙ ap (◌++◌ c.wire) (sym none_left), s)
]
handle_writes-lem c (room ∷ rooms) k (h, p) l =
    let (d, e, x, t, m) = one_write c room k h in
    let (c', f, n, w, s) = handle_writes-lem d rooms x p (omega (arith, l, m)) in
    (c', rw (e, ◌>>=◌) f, n, w ∙ t, s)

-- A shutdown that waits for bytes comes to its end: if the kernel has room for at least one byte at each
-- writable event, then within as many events as there are bytes waiting all of them are out, in order and
-- behind what was out before, and the writing half is closed. Further events change nothing of this.
pub handle_writes_shut :
    (c : Connection) (rooms : List ℕ)
    → IsValid c
    → c.state ≡ disconnecting
    → c.shut ≡ false
    → 0 < length (contents c.output)
    → AllPositive rooms
    → length (contents c.output) ≤ length rooms
    → (c' : Connection) × (handle_writes c rooms ≡ some c')
      × (contents c'.output ≡ [])
      × (c'.wire ≡ stream c)
      × (c'.shut ≡ true)
handle_writes_shut c rooms v s f more p l =
    handle_writes-lem c rooms (record { valid = v; state_is = s; open_or_shut = inl (more, f) }) p l
