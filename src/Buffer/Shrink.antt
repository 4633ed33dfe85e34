-- ===== src/Buffer/Shrink.antt =====
-- `shrink` of Buffer.h copies the readable bytes to the first reserve of a new array, and leaves the
-- two indices at their old values.
use muduo_net_zxl.Prelude.{
  ℕ, ◌+◌, ◌%◌, ◌^◌, ◌≤◌, ◌<◌, ◌≡◌, ◌∙◌, arith, length, replicate, length-replicate, copy_at, some,
  length-copy_at, slice-copy_at_end,
}
use muduo_net_zxl.Buffer.{Buffer, max_size, cheap_prepend, readable_bytes, contents, shrink}
use muduo_net_zxl.Buffer.Valid.{IsValid, readable, length-contents}

-- The array that `shrink` swaps in.
abbrev shrunk : Buffer → ℕ → Buffer
shrunk b reverse = record b {
  buffer =
      copy_at (replicate (cheap_prepend + readable_bytes b + reverse) 0) cheap_prepend (contents b);
}

shrink-shrunk :
    (b : Buffer) (reverse : ℕ)
    → IsValid b
    → cheap_prepend + readable_bytes b + reverse ≤ max_size
    → shrink b reverse ≡ some (shrunk b reverse)
unfolding shrink
shrink-shrunk b reverse v h =
    let e : ((cheap_prepend + readable_bytes b) % 2 ^ 64 + reverse) % 2 ^ 64
        ≡ cheap_prepend + readable_bytes b + reverse =
      omega (arith, h) in
    rw e (ground (arith, h))

length-shrunk :
    (b : Buffer) (reverse : ℕ)
    → length (shrunk b reverse).buffer ≡ cheap_prepend + readable_bytes b + reverse
length-shrunk b reverse =
    length-copy_at (replicate (8 + readable_bytes b + reverse) 0) 8 (contents b)
    ∙ length-replicate (8 + readable_bytes b + reverse) 0

-- After `shrink`, a buffer whose read index was that of a new one keeps its readable bytes, and is
-- valid.
pub shrink-contents :
    (b : Buffer) (reverse : ℕ)
    → IsValid b
    → b.reader_index ≡ cheap_prepend
    → cheap_prepend + readable_bytes b + reverse ≤ max_size
    → (b' : Buffer) × (shrink b reverse ≡ some b') × IsValid b' × (contents b' ≡ contents b)
shrink-contents b reverse v e h = (
  shrunk b reverse,
  shrink-shrunk b reverse v h,
  record {
    ordered = v.ordered;
    within = omega (arith, length-shrunk b reverse, readable v);
    small = omega (arith, length-shrunk b reverse, h);
  },
  slice-copy_at_end _ (contents b) b.reader_index 8 0 (readable_bytes b) (omega arith)
      (omega (arith, length-contents v))
      (omega
        (arith, length-contents v, length-replicate {A = ℕ} (8 + readable_bytes b + reverse) 0)),
)

-- After `shrink`, a buffer from which more has been read than `reverse` is left with its write index past
-- the end of the new array.
pub shrink_breaks :
    (b : Buffer) (reverse : ℕ)
    → IsValid b
    → cheap_prepend + readable_bytes b + reverse ≤ max_size
    → cheap_prepend + reverse < b.reader_index
    → (b' : Buffer) × (shrink b reverse ≡ some b') × (length b'.buffer < b'.writer_index)
shrink_breaks b reverse v h k = (
  shrunk b reverse,
  shrink-shrunk b reverse v h,
  omega (arith, length-shrunk b reverse, readable v, v.ordered, k),
)
