-- ===== src/TcpConnection/Stream.antt =====
-- Any sequence of sends and writable events: the bytes on their way out.
use muduo_net_zxl.Prelude.{
  ℕ, ◌+◌, ◌≤◌, ◌≡◌, sym, ap, ◌∙◌, some, List, [], ◌++◌, length, append_assoc, append-nil,
  same_result,
}
use muduo_net_zxl.Buffer.{contents, max_size}
use muduo_net_zxl.TcpConnection.{Connection, Write, handle_write, send_in_loop}
use muduo_net_zxl.TcpConnection.Writes.{
  stream, IsValid, Fits, send_in_loop-stream, handle_write-stream,
}

-- The calls that put bytes in or out, with what was put in.
pub data Step : Connection → List ℕ → Connection → Type 0 where
  sends :
      (c c' : Connection) (xs : List ℕ) (w : Write)
      → Fits w (length xs)
      → c.output.writer_index + length xs ≤ max_size
      → send_in_loop c xs w ≡ some c'
      → Step c xs c'
  writes :
      (c c' : Connection) (w : Write)
      → Fits w (length (contents c.output))
      → handle_write c w ≡ some c'
      → Step c [] c'

pub data Steps (c : Connection) : List ℕ → Connection → Type 0 where
  start : Steps c [] c
  next :
      {d e : Connection} {xs ys zs : List ℕ}
      → Steps c xs d
      → Step d ys e
      → zs ≡ xs ++ ys
      → Steps c zs e

Step-stream :
    {c c' : Connection} {xs : List ℕ}
    → Step c xs c'
    → IsValid c
    → IsValid c' × (stream c' ≡ stream c ++ xs)
Step-stream (sends c c' xs w f h e) v =
    let (d, p, u, s) = send_in_loop-stream c xs w v f h in
    let q : d ≡ c' = same_result p e in (rw q at u, rw q at s)
Step-stream (writes c c' w f e) v =
    let (d, p, u, s) = handle_write-stream c w v f in
    let q : d ≡ c' = same_result p e in (rw q at u, (rw q at s) ∙ sym (append-nil (stream c)))

Steps-IsValid :
    {c c' : Connection} {xs : List ℕ}
    → Steps c xs c'
    → IsValid c
    → IsValid c' × (stream c' ≡ stream c ++ xs)
Steps-IsValid {c} start v = (v, sym (append-nil (stream c)))
Steps-IsValid {c} (next {d} {e} {xs} {ys} r s eq) v =
    let (u, p) = Steps-IsValid r v in
    let (w, q) = Step-stream s u in
    (w, q ∙ ap (λ z. z ++ ys) p ∙ append_assoc (stream c) xs ys ∙ ap (◌++◌ (stream c)) (sym eq))

-- What is out and waiting after some messages, and that the next step fails no assertion.
pub record Streamed (c : Connection) (xs : List ℕ) (c' : Connection) : Type 0 where
  pub valid : IsValid c'
  pub bytes : stream c' ≡ stream c ++ xs
  pub sends_on :
      (ys : List ℕ) (w : Write)
      → Fits w (length ys)
      → c'.output.writer_index + length ys ≤ max_size
      → (d : Connection) × (send_in_loop c' ys w ≡ some d)
  pub writes_on :
      (w : Write)
      → Fits w (length (contents c'.output))
      → (d : Connection) × (handle_write c' w ≡ some d)

-- Over any interleaving of sends and writable events, with the kernel taking what it likes each time,
-- the bytes given out and waiting are all the messages, in the order of the sends; and the next send,
-- if the output buffer has room for it, and the next writable event fail no assertion.
pub Steps-stream : {c c' : Connection} {xs : List ℕ} → Steps c xs c' → IsValid c → Streamed c xs c'
Steps-stream {c} {c'} r v =
    let (u, p) = Steps-IsValid r v in
    record {
      valid = u;
      bytes = p;
      sends_on = λ ys w f h. let (d, e, x, y) = send_in_loop-stream c' ys w u f h in (d, e);
      writes_on = λ w f. let (d, e, x, y) = handle_write-stream c' w u f in (d, e);
    }
