-- ===== src/Buffer/Int32.antt =====
-- `peekInt32`, `appendInt32` and `readInt32` of Buffer.h, with the byte order of SocketsOps.h.
use muduo_net_zxl.Prelude.{
  ℕ, ◌+◌, ◌≤◌, ◌<◌, ◌≡◌, refl, sym, ap, ◌∙◌, some, List, [], ◌++◌, arith, length, take, drop,
  take-slice, append-nil,
}
use muduo_net_zxl.Buffer.{
  Buffer, max_size, word_mod, readable_bytes, contents, host_to_network32, network_to_host32,
  peek_int32, append_int32, read_int32,
}
use muduo_net_zxl.Buffer.Valid.{IsValid, length-contents}
use muduo_net_zxl.Buffer.Queue.{append-contents, retrieve-contents}

-- Network order and back is the identity on 32 bits.
pub network_to_host32-host_to_network32 :
    (x : ℕ) → x < word_mod → network_to_host32 (host_to_network32 x) ≡ x
unfolding network_to_host32 host_to_network32
network_to_host32-host_to_network32 x h = omega arith

pub length-host_to_network32 : (x : ℕ) → length (host_to_network32 x) ≡ 4
unfolding host_to_network32
length-host_to_network32 x = refl

-- The host order of the first four bytes of a list.
pub network_to_host32-append :
    (x : ℕ) (rest : List ℕ)
    → x < word_mod
    → network_to_host32 (take 4 (host_to_network32 x ++ rest)) ≡ x
unfolding network_to_host32 host_to_network32
network_to_host32-append x rest h = omega arith

pub drop-host_to_network32 : (x : ℕ) (rest : List ℕ) → drop 4 (host_to_network32 x ++ rest) ≡ rest
unfolding host_to_network32
drop-host_to_network32 x rest = refl

length-host_to_network32-append :
    (x : ℕ) (rest : List ℕ) → length (host_to_network32 x ++ rest) ≡ length rest + 4
unfolding host_to_network32
length-host_to_network32-append x rest = omega arith

-- Four readable bytes are read without being consumed, whatever they are.
pub peek_int32-contents :
    (b : Buffer)
    → IsValid b
    → 4 ≤ length (contents b)
    → peek_int32 b ≡ some (network_to_host32 (take 4 (contents b)))
unfolding peek_int32
peek_int32-contents b v h =
    ground (arith, length-contents v, take-slice b.buffer b.reader_index 4 (readable_bytes b))

-- `readInt32` returns the number that stands in network order at the front of the readable bytes,
-- and consumes exactly its four bytes.
pub read_int32-contents :
    (b : Buffer) (x : ℕ) (rest : List ℕ)
    → IsValid b
    → x < word_mod
    → contents b ≡ host_to_network32 x ++ rest
    → (c : Buffer) × (read_int32 b ≡ some (x, c)) × IsValid c × (contents c ≡ rest)
unfolding read_int32
read_int32-contents b x rest v h e =
    let n : 4 ≤ length (contents b) =
      omega (arith, ap length e, length-host_to_network32-append x rest) in
    let (c, r, w, q) = retrieve-contents b 4 v n in
    (
      c,
      rw (peek_int32-contents b v n, read_int32)
          (rw (r, read_int32) (rw e (rw (network_to_host32-append x rest h)))),
      w,
      q ∙ ap (drop 4) e ∙ drop-host_to_network32 x rest,
    )

-- A number that `appendInt32` writes into a buffer with nothing to read is what `readInt32` returns,
-- and nothing is left to read then.
pub read_int32-append_int32 :
    (b : Buffer) (x : ℕ)
    → IsValid b
    → contents b ≡ []
    → b.writer_index + 4 ≤ max_size
    → x < word_mod
    → (c d : Buffer) × (append_int32 b x ≡ some c)
      × (read_int32 c ≡ some (x, d))
      × (contents d ≡ [])
unfolding append_int32
read_int32-append_int32 b x v e h lt =
    let (c, a, w, q) =
      append-contents b (host_to_network32 x) v (omega (arith, length-host_to_network32 x)) in
    let (d, r, _, s) =
      read_int32-contents c x [] w lt (q ∙ rw e (sym (append-nil (host_to_network32 x)))) in
    (c, d, a, r, s)
