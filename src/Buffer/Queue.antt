-- ===== src/Buffer/Queue.antt =====
-- The operations of a valid buffer, against the queue of its readable bytes.
use muduo_net_zxl.Prelude.{
  ℕ, ◌+◌, ◌-◌, ◌≤◌, ◌≡◌, refl, sym, ap, ◌∙◌, ◌⊎◌, inl, length-append, none, some, List, [], ◌++◌,
  arith, length, take, drop, copy_at, length-take, length-drop, length-copy_at, slice-copy_at_end,
  slice-copy_at_front, drop-slice, take-append-drop, append_assoc, dec_le,
}
use muduo_net_zxl.Buffer.{
  Buffer, max_size, extra_size, cheap_prepend, readable_bytes, writable_bytes, prependable_bytes,
  contents, retrieve, retrieve_until, retrieve_as_string, has_written, write_bytes, append, prepend,
  failed, got, read_fd,
}
use muduo_net_zxl.Buffer.Valid.{
  IsValid, readable, writable, length-contents, ensure_writable_bytes-MadeRoom,
}

-- Bytes written behind the readable ones become readable.
fill : Buffer → List ℕ → Buffer
fill b xs = has_written (write_bytes b xs) (length xs)

module _ {b : Buffer} (xs : List ℕ) (v : IsValid b)
    (room : b.writer_index + length xs ≤ length b.buffer) where
  fill-IsValid : IsValid (fill b xs)
  unfolding fill has_written write_bytes
  fill-IsValid = record {
    ordered = omega arith;
    within = omega (arith, length-copy_at b.buffer b.writer_index xs);
    small = omega (arith, length-copy_at b.buffer b.writer_index xs);
  }

  contents-fill : contents (fill b xs) ≡ contents b ++ xs
  unfolding fill has_written write_bytes
  contents-fill =
      slice-copy_at_end b.buffer xs b.reader_index b.writer_index (readable_bytes b) _
        (omega (arith, readable v)) (omega arith) room

  reader-fill : (fill b xs).reader_index ≡ b.reader_index
  unfolding fill has_written write_bytes
  reader-fill = refl

  writer-fill : (fill b xs).writer_index ≡ b.writer_index + length xs
  unfolding fill has_written write_bytes
  writer-fill = omega arith

  size-fill : length (fill b xs).buffer ≡ length b.buffer
  unfolding fill has_written write_bytes
  size-fill = length-copy_at b.buffer b.writer_index xs

-- What `append` leaves, with where the indices may lie.
pub record Appended (b : Buffer) (xs : List ℕ) (c : Buffer) : Type 0 where
  pub valid : IsValid c
  pub bytes : contents c ≡ contents b ++ xs
  pub reserve : (c.reader_index ≡ b.reader_index) ⊎ (c.reader_index ≡ cheap_prepend)
  pub bound : c.writer_index ≤ b.writer_index + length xs
  pub size : length c.buffer ≤ length b.buffer + length xs

pub append-Appended :
    (b : Buffer) (xs : List ℕ)
    → IsValid b
    → b.writer_index + length xs ≤ max_size
    → (c : Buffer) × (append b xs ≡ some c) × Appended b xs c
unfolding append fill
append-Appended b xs v h =
    let (c, e, m) = ensure_writable_bytes-MadeRoom b (length xs) v h in
    (
      fill c xs,
      rw (e, append),
      record {
        valid = fill-IsValid xs m.valid m.room;
        bytes = contents-fill xs m.valid m.room ∙ ap (λ l. l ++ xs) m.same;
        reserve = m.reserve;
        bound = omega (arith, m.bound, writer-fill xs m.valid m.room);
        size = omega (arith, m.size, size-fill xs m.valid m.room);
      },
    )

-- `append` fails no assertion and does not run out of room below `max_size`. It keeps the buffer
-- valid, and the readable bytes are those that were there, followed by the new ones.
pub append-contents :
    (b : Buffer) (xs : List ℕ)
    → IsValid b
    → b.writer_index + length xs ≤ max_size
    → (c : Buffer) × (append b xs ≡ some c) × IsValid c × (contents c ≡ contents b ++ xs)
append-contents b xs v h = let (c, e, a) = append-Appended b xs v h in (c, e, a.valid, a.bytes)

-- `retrieve` of no more bytes than there are fails no assertion and drops them from the front.
pub retrieve-contents :
    (b : Buffer) (len : ℕ)
    → IsValid b
    → len ≤ length (contents b)
    → (c : Buffer) × (retrieve b len ≡ some c) × IsValid c × (contents c ≡ drop len (contents b))
unfolding retrieve
retrieve-contents b len v h = (
  record b { reader_index = b.reader_index + len },
  ground (arith, length-contents v, readable v),
  record {
    ordered = omega (arith, length-contents v, readable v);
    within = v.within;
    small = v.small;
  },
  sym (
      drop-slice b.buffer b.reader_index (b.reader_index + len) len (readable_bytes b) _ refl
        (omega (arith, length-contents v, readable v))),
)

-- `prepend` puts bytes in front, where the free bytes in front are enough for them.
pub prepend-contents :
    (b : Buffer) (xs : List ℕ)
    → IsValid b
    → length xs ≤ prependable_bytes b
    → (c : Buffer) × (prepend b xs ≡ some c) × IsValid c × (contents c ≡ xs ++ contents b)
unfolding prepend
prepend-contents b xs v h = (
  record b {
    buffer = copy_at b.buffer (b.reader_index - length xs) xs;
    reader_index = b.reader_index - length xs;
  },
  ground arith,
  record {
    ordered = omega arith;
    within = omega (arith, length-copy_at b.buffer (b.reader_index - length xs) xs);
    small = omega (arith, length-copy_at b.buffer (b.reader_index - length xs) xs);
  },
  slice-copy_at_front b.buffer xs (b.reader_index - length xs) b.reader_index (readable_bytes b) _
      (omega arith) (omega (arith, readable v)) (omega (arith, readable v)),
)

-- Filling the free space to the end, as `readFd` does.
fill_whole :
    (b : Buffer) (ys : List ℕ)
    → IsValid b
    → b.writer_index + length ys ≡ length b.buffer
    → record (write_bytes b ys) { writer_index = length b.buffer } ≡ fill b ys
unfolding fill has_written write_bytes
fill_whole b ys v h = ground arith

fill-Appended :
    (b : Buffer) (xs : List ℕ)
    → IsValid b
    → b.writer_index + length xs ≤ length b.buffer
    → Appended b xs (fill b xs)
fill-Appended b xs v h = record {
  valid = fill-IsValid xs v h;
  bytes = contents-fill xs v h;
  reserve = inl (reader-fill xs v h);
  bound = omega (arith, writer-fill xs v h);
  size = omega (arith, size-fill xs v h);
}

-- The rest of what arrived goes the way of `append`.
append_rest :
    (b : Buffer) (ys zs : List ℕ)
    → IsValid b
    → b.writer_index + length ys ≡ length b.buffer
    → length b.buffer + length zs ≤ max_size
    → (c : Buffer) × (append (record (write_bytes b ys) { writer_index = length b.buffer }) zs
        ≡ some c)
      × Appended b (ys ++ zs) c
append_rest b ys zs v h k =
    let room : b.writer_index + length ys ≤ length b.buffer = omega arith in
    let f = fill-Appended b ys v room in
    let (c, e, a) = append-Appended (fill b ys) zs f.valid (omega (arith, f.bound)) in
    let n = length-append ys zs in
    (
      c,
      rw (fill_whole b ys v h) e,
      record {
        valid = a.valid;
        bytes =
            a.bytes ∙ ap (λ l. l ++ zs) (contents-fill ys v room) ∙ append_assoc (contents b) ys zs;
        reserve = rw (← reader-fill ys v room) a.reserve;
        bound = omega (arith, a.bound, f.bound, n);
        size = omega (arith, a.size, f.size, n);
      },
    )

pub read_fd-Appended :
    (b : Buffer) (xs : List ℕ)
    → IsValid b
    → length xs ≤ writable_bytes b + extra_size
    → length b.buffer + extra_size ≤ max_size
    → (c : Buffer) × (read_fd b (got xs) ≡ some (some (length xs), 0, c)) × Appended b xs c
unfolding read_fd fill
read_fd-Appended b xs v h k = elim (dec_le (length xs) (writable_bytes b)) [
  | yes p ↦ (fill b xs, ground arith, fill-Appended b xs v (omega (arith, writable v)))
  | no p ↦
      let (c, e, a) =
        append_rest b (take (writable_bytes b) xs) (drop (writable_bytes b) xs) v
          (omega (arith, length-take (writable_bytes b) xs, writable v))
          (omega (arith, length-drop (writable_bytes b) xs, writable v)) in
      (c, ground (arith, e), rw (take-append-drop (writable_bytes b) xs) at a)
]

-- `readFd` scatters what arrives over the free space and a block beside it; either way the bytes
-- are appended in the order in which they came, however many there are up to the limit.
pub read_fd-contents :
    (b : Buffer) (xs : List ℕ)
    → IsValid b
    → length xs ≤ writable_bytes b + extra_size
    → length b.buffer + extra_size ≤ max_size
    → (c : Buffer) × (read_fd b (got xs) ≡ some (some (length xs), 0, c))
      × IsValid c
      × (contents c ≡ contents b ++ xs)
read_fd-contents b xs v h k =
    let (c, e, a) = read_fd-Appended b xs v h k in (c, e, a.valid, a.bytes)

-- `retrieveUntil` is `retrieve` of the bytes up to the pointer, which lies in the readable range.
pub retrieve_until-contents :
    (b : Buffer) (end : ℕ)
    → IsValid b
    → b.reader_index ≤ end
    → end ≤ b.writer_index
    → (c : Buffer) × (retrieve_until b end ≡ some c)
      × IsValid c
      × (contents c ≡ drop (end - b.reader_index) (contents b))
unfolding retrieve_until
retrieve_until-contents b end v h k =
    let (c, e, w, q) =
      retrieve-contents b (end - b.reader_index) v (omega (arith, length-contents v, readable v)) in
    (c, ground (arith, e), w, q)

-- `retrieveAsString` returns all readable bytes and leaves none, with the first reserve restored.
pub retrieve_as_string-contents :
    (b : Buffer)
    → IsValid b
    → cheap_prepend ≤ length b.buffer
    → ((retrieve_as_string b).0 ≡ contents b)
      × IsValid (retrieve_as_string b).1
      × (contents (retrieve_as_string b).1 ≡ [])
      × (prependable_bytes (retrieve_as_string b).1 ≡ cheap_prepend)
unfolding retrieve_as_string
retrieve_as_string-contents b v h =
    (refl, record { ordered = omega arith; within = omega arith; small = v.small }, refl, refl)

-- A failing `readv` leaves the buffer as it was and hands its `errno` on.
pub read_fd_failed : (b : Buffer) (errno : ℕ) → read_fd b (failed errno) ≡ some (none, errno, b)
unfolding read_fd
read_fd_failed b errno = refl
