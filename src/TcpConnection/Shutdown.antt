-- ===== src/TcpConnection/Shutdown.antt =====
-- When `shutdown` closes the writing half.
use muduo_net_zxl.Prelude.{
  ℕ, ◌-◌, ◌≤◌, ◌<◌, ◌≡◌, refl, ap, ◌∙◌, true, false, some, ◌==◌, ◌++◌, length, take, arith,
  Bool-cases, inl, inr, length-drop,
}
use muduo_net_zxl.Buffer.{readable_bytes, contents}
use muduo_net_zxl.Buffer.Valid.{length-contents}
use muduo_net_zxl.Buffer.Queue.{retrieve-contents}
use muduo_net_zxl.Channel.{Channel, is_writing, disable_writing}
use muduo_net_zxl.TcpConnection.{
  Connection, connected, disconnecting, wrote, handle_write, wrote_some, drained, shutdown_in_loop,
  shutdown,
}
use muduo_net_zxl.TcpConnection.Writes.{IsValid, stream}

disable_writing_lem : (c : Channel) → is_writing (disable_writing c) ≡ false
unfolding is_writing disable_writing
disable_writing_lem c = ground arith

-- With nothing waiting, `shutdown` of a connected connection closes at once.
pub shutdown_idle :
    (c : Connection)
    → c.state ≡ connected
    → is_writing c.channel ≡ false
    → ((shutdown true c).state ≡ disconnecting) × ((shutdown true c).shut ≡ true)
unfolding shutdown shutdown_in_loop
shutdown_idle c s w = (ground arith, ground arith)

drained-shut : (c : Connection) → c.state ≡ disconnecting → (drained c).shut ≡ true
unfolding drained shutdown_in_loop
drained-shut c s = elim (Bool-cases c.has_write_complete) [
  | inl t ↦ ground (arith, disable_writing_lem c.channel)
  | inr f ↦ ground (arith, disable_writing_lem c.channel)
]

pub wrote_some-shut :
    (c : Connection) (n : ℕ)
    → IsValid c
    → c.state ≡ disconnecting
    → c.shut ≡ false
    → n ≤ length (contents c.output)
    → (c' : Connection) × (wrote_some c n ≡ some c') × (c'.shut ≡ (n == length (contents c.output)))
unfolding wrote_some
wrote_some-shut c n v s f h =
    let (b, r, w, q) = retrieve-contents c.output n v.output_valid h in
    let l : length (contents b) ≡ length (contents c.output) - n =
      ap length q ∙ length-drop n (contents c.output) in
    let k = length-contents w in
    let c1 = record c { output = b; wire = c.wire ++ take n (contents c.output) } in
    elim (Bool-cases (readable_bytes b == 0)) [
      | inl t ↦ (drained c1, ground (arith, r), drained-shut c1 s ∙ ground (arith, l, k))
      | inr g ↦ (c1, ground (arith, r), ground (arith, l, k))
    ]

-- While bytes wait, `shutdown` only notes the wish. The writing half is closed by exactly that
-- `handleWrite` in which the kernel takes the last of them.
pub shutdown_waits :
    (c : Connection) (n : ℕ)
    → IsValid c
    → c.state ≡ connected
    → c.shut ≡ false
    → 0 < n
    → n ≤ length (contents c.output)
    → ((shutdown true c).state ≡ disconnecting)
      × ((shutdown true c).shut ≡ false)
      × (stream (shutdown true c) ≡ stream c)
      × ((c' : Connection) × (handle_write (shutdown true c) (wrote n) ≡ some c')
          × (c'.shut ≡ (n == length (contents c.output))))
unfolding shutdown shutdown_in_loop handle_write
shutdown_waits c n v s f p h =
    let w : is_writing c.channel ≡ true = v.writes (λ e. absurd (omega (arith, ap length e))) in
    let d = record c { state = disconnecting } in
    let (c', e, q) =
      wrote_some-shut d n (record { output_valid = v.output_valid; writes = v.writes }) refl f h in
    (ground arith, ground arith, ground arith, (c', ground (arith, e), q))
