-- ===== src/Codec/Deliver.antt =====
-- Messages from the codec of one connection to the codec of another, through the output buffer of the
-- one, the kernel, and the input buffer of the other.
use muduo_net_zxl.Prelude.{
  ℕ, ◌+◌, ◌≤◌, ◌≡◌, refl, sym, ap, ◌∙◌, inl, inr, Bool-cases, true, some, List, [], ◌∷◌, ◌++◌, map,
  arith, length, append_assoc, append-nil, ◌>>=◌, same_result,
}
use muduo_net_zxl.Buffer.{contents, max_size, extra_size}
use muduo_net_zxl.Buffer.Valid
use muduo_net_zxl.TcpConnection
use muduo_net_zxl.TcpConnection.{
  Connection, Write, connected, disconnecting, is_connected, handle_write, shutdown,
}
use muduo_net_zxl.TcpConnection.Writes.{
  IsValid, Fits, stream, send_in_loop-stream, handle_write-stream, shutdown_in_loop-same,
}
use muduo_net_zxl.Codec.{Library, Outcome, message, send}
use muduo_net_zxl.Codec.Frame.{frame, Known}
use muduo_net_zxl.Codec.Fill.{fill_empty_buffer-frame}
use muduo_net_zxl.Codec.Receive.{AllKnown, Incomplete, frames}
use muduo_net_zxl.Codec.Chunks.{receive, receive_lem, joined, Pieces, frames-Incomplete}

module _ {Message : Type 0} (lib : Library Message) where
  -- What the sender's loop does: it sends messages while it is connected, hands bytes to the kernel when
  -- it can, and shuts its side down.
  pub data Sending (a : Connection) : List Message → Connection → Type 0 where
    start : Sending a [] a
    sends :
        {b c : Connection} {ms ns : List Message} (m : Message) (w : Write)
        → Sending a ms b
        → Known lib m
        → b.state ≡ connected
        → Fits w (length (frame lib m))
        → b.output.writer_index + length (frame lib m) ≤ max_size
        → send lib true b m w ≡ some c
        → ns ≡ ms ++ m ∷ []
        → Sending a ns c
    writes :
        {b c : Connection} {ms : List Message} (w : Write)
        → Sending a ms b
        → Fits w (length (contents b.output))
        → handle_write b w ≡ some c
        → Sending a ms c
    shuts : {b : Connection} {ms : List Message} → Sending a ms b → Sending a ms (shutdown true b)

  frames-append :
      (ms : List Message) (m : Message) → frames lib (ms ++ m ∷ []) ≡ frames lib ms ++ frame lib m
  unfolding frames
  frames-append [] m = append-nil (frame lib m)
  frames-append (n ∷ ms) m =
      ap (◌++◌ (frame lib n)) (frames-append ms m)
      ∙ sym (append_assoc (frame lib n) (frames lib ms) (frame lib m))

  AllKnown-append :
      (ms : List Message) (m : Message)
      → AllKnown lib ms
      → Known lib m
      → AllKnown lib (ms ++ m ∷ [])
  AllKnown-append [] m k h = (h, tt)
  AllKnown-append (n ∷ ms) m (k, ks) h = (k, AllKnown-append ms m ks h)

  send_connected :
      (b : Connection) (xs : List ℕ) (w : Write)
      → b.state ≡ connected
      → TcpConnection.send true b xs w ≡ TcpConnection.send_in_loop b xs w
  unfolding TcpConnection.send
  send_connected b xs w s = ground (arith, s)

  -- `send` of a connected sender gives the frame to the stream.
  pub send-frame :
      (b : Connection) (m : Message) (w : Write)
      → Known lib m
      → IsValid b
      → b.state ≡ connected
      → Fits w (length (frame lib m))
      → b.output.writer_index + length (frame lib m) ≤ max_size
      → (c : Connection) × (send lib true b m w ≡ some c)
        × IsValid c
        × (stream c ≡ stream b ++ frame lib m)
  unfolding send
  send-frame b m w k v s f h =
      let (buf, e, u, x) = fill_empty_buffer-frame lib m k.small in
      let (c, p, q, z) = send_in_loop-stream b (frame lib m) w v f h in
      (c, rw (e, ◌>>=◌) (rw x (send_connected b (frame lib m) w s ∙ p)), q, z)

  shutdown-stream :
      (b : Connection)
      → IsValid b
      → IsValid (shutdown true b) × (stream (shutdown true b) ≡ stream b)
  unfolding shutdown
  shutdown-stream b v = elim (Bool-cases (is_connected b.state)) [
    | inl t ↦
        let (o, w, h, s) = shutdown_in_loop-same (record b { state = disconnecting }) in
        rw t (
          record { output_valid = rw o v.output_valid; writes = rw (o, h) v.writes },
          (rw (o, w) refl),
        )
    | inr f ↦ rw f (v, refl)
  ]

  Sending-stream :
      {a b : Connection} {ms : List Message}
      → Sending a ms b
      → IsValid a
      → IsValid b × (stream b ≡ stream a ++ frames lib ms) × AllKnown lib ms
  unfolding frames
  Sending-stream {a} start v = (v, sym (append-nil (stream a)), tt)
  Sending-stream {a} (sends {b} {c} {ms} {ns} m w r k s f h e n) v =
      let (u, p, ks) = Sending-stream r v in
      let (d, q, x, z) = send-frame b m w k u s f h in
      let t : d ≡ c = same_result q e in
      rw n (
        rw t at x,
        (rw t at z)
            ∙ ap (λ l. l ++ frame lib m) p
            ∙ append_assoc (stream a) (frames lib ms) (frame lib m)
            ∙ ap (◌++◌ (stream a)) (sym (frames-append ms m)),
        AllKnown-append ms m ks k,
      )
  Sending-stream (writes {b} {c} w r f e) v =
      let (u, p, ks) = Sending-stream r v in
      let (d, q, x, z) = handle_write-stream b w u f in
      let t : d ≡ c = same_result q e in (rw t at x, (rw t at z) ∙ p, ks)
  Sending-stream (shuts {b} r) v =
      let (u, p, ks) = Sending-stream r v in let (x, z) = shutdown-stream b u in (x, z ∙ p, ks)

  -- What the receiver was given of what was sent on `b`, and that the next step of the sender fails no
  -- assertion.
  pub record Delivered (b : Connection) (ms : List Message) (o : List (Outcome lib)) (all : Type 0)
      : Type 0 where
    pub whole : List Message
    pub later : List Message
    pub both : ms ≡ whole ++ later
    pub given : o ≡ map message whole
    pub complete : all → later ≡ []
    pub sends_on :
        (m : Message) (w : Write)
        → Known lib m
        → b.state ≡ connected
        → Fits w (length (frame lib m))
        → b.output.writer_index + length (frame lib m) ≤ max_size
        → (c : Connection) × (send lib true b m w ≡ some c)
    pub writes_on :
        (w : Write)
        → Fits w (length (contents b.output))
        → (c : Connection) × (handle_write b w ≡ some c)

  nothing_later :
      (p rest out : List ℕ) (later : List Message)
      → AllKnown lib later
      → rest ≡ []
      → out ≡ []
      → p ++ (rest ++ out) ≡ frames lib later
      → Incomplete p
      → later ≡ []
  nothing_later p rest out later k e f g i =
      let h : p ≡ frames lib later = sym (append-nil p) ∙ ap (◌++◌ p) (sym (rw (e, f) refl)) ∙ g in
      frames-Incomplete lib later k (rw h at i)

  -- Messages that the codec sends on one connection, over any interleaving with writable events and a
  -- shutdown, are given to the owner of the codec on the other side, each whole and in the order of the
  -- sends, however the kernel takes the bytes and however it cuts them into the pieces that arrive. What
  -- is given is a beginning of the messages; it is all of them, once the sender has nothing left to
  -- write and nothing is under way. The next send of a connected sender whose output buffer has room, and
  -- its next writable event, fail no assertion. The messages are of known types; every piece has between
  -- one and 65536 bytes; the receiver begins with nothing in its input buffer, and all the pieces and
  -- one of the largest more fit behind it within the largest vector.
  pub send-receive :
      {a b : Connection} {ms : List Message} (c : Connection) (xss : List (List ℕ)) (rest : List ℕ)
      → Sending a ms b
      → IsValid a
      → stream a ≡ []
      → b.wire ≡ joined xss ++ rest
      → Pieces xss
      → Valid.IsValid c.input
      → contents c.input ≡ []
      → length c.input.buffer + length (joined xss) + extra_size ≤ max_size
      → (o : List (Outcome lib)) × (c' : Connection) × (receive lib xss c ≡ some (o, c'))
        × Delivered b ms o ((rest ≡ []) × (contents b.output ≡ []))
  send-receive {b} {ms} c xss rest r v z wire x u e small =
      let (w, p, ks) = Sending-stream r v in
      let all : joined xss ++ (rest ++ contents b.output) ≡ frames lib ms =
        sym (append_assoc (joined xss) rest (contents b.output))
        ∙ ap (λ l. l ++ contents b.output) (sym wire)
        ∙ p
        ∙ ap (λ l. l ++ frames lib ms) z in
      let (o, c', f, d) =
        receive_lem lib xss c [] ms (rest ++ contents b.output)
          (record { valid = u; bytes = e; small = omega (arith, small) }) (inl (omega arith)) x all
          ks in
      (
        o,
        c',
        f,
        record {
          whole = d.whole;
          later = d.later;
          both = d.both;
          given = d.given;
          complete = λ (n, k).
              nothing_later (contents c'.input) rest (contents b.output) d.later d.known_later n k
                d.waiting d.incomplete;
          sends_on = λ m y k s f h. let (e', q, i, j) = send-frame b m y k w s f h in (e', q);
          writes_on = λ y f. let (e', q, i, j) = handle_write-stream b y w f in (e', q);
        },
      )
