-- ===== src/TcpConnection/Writes.antt =====
-- One send and one writable event: the bytes given to the kernel and those that wait.
use muduo_net_zxl.Prelude.{
  ℕ, ◌+◌, ◌≤◌, ◌≡◌, ◌≢◌, ◌↔◌, drop_all, drop_nil, eq_nil, refl, sym, ap, ◌∙◌, true, not, ◌&&◌, ◌||◌,
  some, List, [], ◌++◌, ◌==◌, ltb, if◌then◌else◌, length, take, drop, arith, Bool-cases, inl, inr,
  append_assoc, append-nil, take-append-drop, length-drop,
}
use muduo_net_zxl.Buffer.{Buffer, readable_bytes, contents, max_size}
use muduo_net_zxl.Buffer.Valid
use muduo_net_zxl.Buffer.Valid.{length-contents}
use muduo_net_zxl.Buffer.Queue.{append-contents, retrieve-contents}
use muduo_net_zxl.Channel.{Channel, enable_writing, is_writing}
use muduo_net_zxl.TcpConnection.{
  Connection, Write, wrote, failed, handle_write, wrote_some, drained, shutdown_in_loop,
  write_directly, keep_rest, send_in_loop,
}

-- All bytes that were given to the connection: those that the kernel took, then those that wait.
abbrev pub stream : Connection → List ℕ
stream c = c.wire ++ contents c.output

-- The output buffer is sound, and while it holds bytes the connection waits to write.
pub record IsValid (c : Connection) : Type 0 where
  pub output_valid : Valid.IsValid c.output
  pub writes : contents c.output ≢ [] → is_writing c.channel ≡ true

-- `::write` takes no more than it is given.
abbrev pub Fits : Write → ℕ → Type 0
Fits failed n = Unit {0}
Fits (wrote k) n = k ≤ n

-- Both ways of asking whether bytes wait agree.
pub empty_iff : (b : Buffer) → Valid.IsValid b → (readable_bytes b ≡ 0) ↔ (contents b ≡ [])
empty_iff b v =
    (λ h. eq_nil (contents b) (length-contents v ∙ h), λ h. sym (length-contents v) ∙ ap length h)

module _ (c : Connection) (xs : List ℕ) (v : IsValid c) where
  -- What `sendInLoop` knows after the direct write.
  record Direct (r : ℕ × Connection) : Type 0 where
    same_output : r.1.output ≡ c.output
    same_channel : r.1.channel ≡ c.channel
    within : r.0 ≤ length xs
    bytes : r.1.wire ++ (contents c.output ++ drop r.0 xs) ≡ stream c ++ xs

  nothing-Direct : Direct (0, c)
  nothing-Direct = record {
    same_output = refl;
    same_channel = refl;
    within = omega arith;
    bytes = sym (append_assoc c.wire (contents c.output) xs);
  }

  some_bytes :
      (n : ℕ)
      → contents c.output ≡ []
      → (c.wire ++ take n xs) ++ (contents c.output ++ drop n xs) ≡ stream c ++ xs
  some_bytes n e = rw e (
      append_assoc c.wire (take n xs) (drop n xs)
      ∙ ap (◌++◌ c.wire) (take-append-drop n xs)
      ∙ ap (λ w. w ++ xs) (sym (append-nil c.wire)))

  write_directly-Direct : (w : Write) → Fits w (length xs) → Direct (write_directly c xs w)
  unfolding write_directly
  write_directly-Direct failed h = nothing-Direct
  write_directly-Direct (wrote n) h =
      elim (Bool-cases (is_writing c.channel || not (readable_bytes c.output == 0))) [
        | inl t ↦ rw t nothing-Direct
        | inr f ↦
            let e : contents c.output ≡ [] = (empty_iff c.output v.output_valid).0 (ground arith) in
            elim (Bool-cases (not (ltb n (length xs)) && c.has_write_complete)) [
              | inl t ↦ rw f (
                  rw t (record {
                    same_output = refl;
                    same_channel = refl;
                    within = h;
                    bytes = some_bytes n e;
                  }))
              | inr g ↦ rw f (
                  rw g (record {
                    same_output = refl;
                    same_channel = refl;
                    within = h;
                    bytes = some_bytes n e;
                  }))
            ]
      ]

enable_writing_lem : (c : Channel) → is_writing (enable_writing c) ≡ true
unfolding is_writing enable_writing
enable_writing_lem c = ground arith

-- The second half appends what is left, and asks for writability if anything is.
keep_rest_lem :
    (c : Connection) (xs : List ℕ) (n : ℕ)
    → IsValid c
    → c.output.writer_index + length xs ≤ max_size
    → (c' : Connection) × (keep_rest c xs n ≡ some c')
      × IsValid c'
      × (c'.wire ≡ c.wire)
      × (contents c'.output ≡ contents c.output ++ drop n xs)
unfolding keep_rest
keep_rest_lem c xs n v h = elim (Bool-cases (ltb n (length xs))) [
  | inl t ↦
      let (b, a, w, q) =
        append-contents c.output (drop n xs) v.output_valid (omega (arith, length-drop n xs)) in
      (
        record c {
          output = b;
          channel = if is_writing c.channel then c.channel else enable_writing c.channel;
        },
        ground (arith, a),
        record { output_valid = w; writes = λ _. ground (arith, enable_writing_lem c.channel) },
        refl,
        q,
      )
  | inr f ↦ (
    c,
    ground arith,
    v,
    refl,
    sym (append-nil (contents c.output))
        ∙ ap (◌++◌ (contents c.output)) (sym (drop_all xs n (ground arith))),
  )
]

-- `sendInLoop` fails no assertion while the output buffer has room. Whether the kernel takes the
-- message whole, in part or not at all, the bytes given out and waiting are those of before followed
-- by the message, and if any wait the connection asks to be told when it can write.
pub send_in_loop-stream :
    (c : Connection) (xs : List ℕ) (w : Write)
    → IsValid c
    → Fits w (length xs)
    → c.output.writer_index + length xs ≤ max_size
    → (c' : Connection) × (send_in_loop c xs w ≡ some c')
      × IsValid c'
      × (stream c' ≡ stream c ++ xs)
unfolding send_in_loop
send_in_loop-stream c xs w v f h =
    let r = write_directly c xs w in
    let d = write_directly-Direct c xs v w f in
    let u : IsValid r.1 = record {
      output_valid = rw d.same_output v.output_valid;
      writes = rw d.same_output (rw d.same_channel v.writes);
    } in
    let (c', k, y, p, q) = keep_rest_lem r.1 xs r.0 u (rw d.same_output h) in
    (
      c',
      k,
      y,
      ap (λ z. z ++ contents c'.output) p
          ∙ ap (◌++◌ r.1.wire) (q ∙ ap (λ (b : Buffer). contents b ++ drop r.0 xs) d.same_output)
          ∙ d.bytes,
    )

pub shutdown_in_loop-same :
    (c : Connection)
    → ((shutdown_in_loop c).output ≡ c.output)
      × ((shutdown_in_loop c).wire ≡ c.wire)
      × ((shutdown_in_loop c).channel ≡ c.channel)
      × ((shutdown_in_loop c).state ≡ c.state)
unfolding shutdown_in_loop
shutdown_in_loop-same c = ground arith

pub drained-same :
    (c : Connection)
    → ((drained c).output ≡ c.output) × ((drained c).wire ≡ c.wire) × ((drained c).state ≡ c.state)
unfolding drained shutdown_in_loop
drained-same c = elim (Bool-cases c.has_write_complete) [
  | inl t ↦ ground arith
  | inr f ↦ ground arith
]

pub wrote_some-stream :
    (c : Connection) (n : ℕ)
    → IsValid c
    → n ≤ length (contents c.output)
    → (c' : Connection) × (wrote_some c n ≡ some c')
      × IsValid c'
      × (stream c' ≡ stream c)
      × (contents c'.output ≡ drop n (contents c.output))
unfolding wrote_some
wrote_some-stream c n v h =
    let (b, r, w, q) = retrieve-contents c.output n v.output_valid h in
    let c1 = record c { output = b; wire = c.wire ++ take n (contents c.output) } in
    let s : stream c1 ≡ stream c =
      ap (◌++◌ c1.wire) q
      ∙ append_assoc c.wire (take n (contents c.output)) (drop n (contents c.output))
      ∙ ap (◌++◌ c.wire) (take-append-drop n (contents c.output)) in
    let d = drained-same c1 in
    elim (Bool-cases (readable_bytes b == 0)) [
      | inl t ↦
          let e : contents b ≡ [] = (empty_iff b w).0 (ground arith) in
          (
            drained c1,
            ground (arith, r),
            record {
              output_valid = rw d.0 w;
              writes = λ k. absurd (k (ap (λ (b : Buffer). contents b) d.0 ∙ e));
            },
            (rw d.0 (rw d.1)) ∙ s,
            ap (λ (b : Buffer). contents b) d.0 ∙ q,
          )
      | inr f ↦ (
        c1,
        ground (arith, r),
        record {
          output_valid = w;
          writes = λ k. v.writes (λ z. k (q ∙ ap (drop n) z ∙ drop_nil n));
        },
        s,
        q,
      )
    ]

-- `handleWrite` hands waiting bytes to the kernel from the front: it fails no assertion, and the bytes
-- given out and waiting are together the same as before.
pub handle_write-stream :
    (c : Connection) (w : Write)
    → IsValid c
    → Fits w (length (contents c.output))
    → (c' : Connection) × (handle_write c w ≡ some c') × IsValid c' × (stream c' ≡ stream c)
unfolding handle_write
handle_write-stream c failed v f = (c, refl, v, refl)
handle_write-stream c (wrote n) v f = elim (Bool-cases (is_writing c.channel && ltb 0 n)) [
  | inl t ↦ let (c', e, u, s, q) = wrote_some-stream c n v f in (c', ground (arith, e), u, s)
  | inr g ↦ (c, ground arith, v, refl)
]
