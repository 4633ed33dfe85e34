-- ===== src/Buffer/Valid.antt =====
-- The representation invariant of Buffer.h: the two indices are in order and inside the array.
use muduo_net_zxl.Prelude.{
  ℕ, ◌+◌, ◌-◌, ◌≤◌, ◌<◌, ◌≡◌, refl, ◌⊎◌, inl, inr, some, List, ◌++◌, arith, length, replicate,
  copy_at, length-append, length-replicate, length-copy_at, length-slice, take_all, slice-append,
  slice-copy_at_end, dec_lt,
}
use muduo_net_zxl.Buffer.{
  Buffer, init, max_size, cheap_prepend, readable_bytes, writable_bytes, contents, resize,
  make_space, ensure_writable_bytes,
}

pub record IsValid (b : Buffer) : Type 0 where
  pub ordered : b.reader_index ≤ b.writer_index
  pub within : b.writer_index ≤ length b.buffer
  pub small : length b.buffer ≤ max_size

pub readable : {b : Buffer} → IsValid b → readable_bytes b ≡ b.writer_index - b.reader_index
readable v = omega arith

pub writable : {b : Buffer} → IsValid b → writable_bytes b ≡ length b.buffer - b.writer_index
writable v = omega arith

pub length-contents : {b : Buffer} → IsValid b → length (contents b) ≡ readable_bytes b
length-contents {b} v =
    length-slice b.buffer b.reader_index (readable_bytes b) (omega (arith, readable v))

pub init-IsValid : IsValid init
unfolding init
init-IsValid = record { ordered = omega arith; within = omega arith; small = omega arith }

resize_lem :
    (bs : List ℕ) (n : ℕ)
    → length bs ≤ n
    → n ≤ max_size
    → resize bs n ≡ some (bs ++ replicate (n - length bs) 0)
unfolding resize
resize_lem bs n h k = ground (arith, take_all bs n)

-- What making room leaves: the same readable bytes, and `len` writable ones behind them.
pub record MadeRoom (b : Buffer) (len : ℕ) (c : Buffer) : Type 0 where
  pub valid : IsValid c
  pub room : c.writer_index + len ≤ length c.buffer
  pub same : contents c ≡ contents b
  pub reserve : (c.reader_index ≡ b.reader_index) ⊎ (c.reader_index ≡ cheap_prepend)
  pub bound : c.writer_index ≤ b.writer_index
  pub size : length c.buffer ≤ length b.buffer + len

module _ (b : Buffer) (len : ℕ) (v : IsValid b) (fits : b.writer_index + len ≤ max_size) where
  grown : Buffer
  grown = record b { buffer = b.buffer ++ replicate (b.writer_index + len - length b.buffer) 0 }

  moved : Buffer
  moved = record {
    buffer = copy_at b.buffer cheap_prepend (contents b);
    reader_index = cheap_prepend;
    writer_index = cheap_prepend + readable_bytes b;
  }

  length-grown :
      length b.buffer < b.writer_index + len → length (grown.buffer) ≡ b.writer_index + len
  unfolding grown
  length-grown h = omega (
    arith,
    length-append b.buffer (replicate (b.writer_index + len - length b.buffer) 0),
    length-replicate (b.writer_index + len - length b.buffer) (let z : ℕ = 0 in z),
  )

  -- When the space in front and behind does not do, the array grows.
  make_space_grows :
      length b.buffer < b.writer_index + len
      → length b.buffer - b.writer_index + b.reader_index < len + cheap_prepend
      → (make_space b len ≡ some grown) × MadeRoom b len grown
  unfolding make_space grown
  make_space_grows h k = (
    ground (arith, resize_lem b.buffer (b.writer_index + len)),
    record {
      valid = record {
        ordered = v.ordered;
        within = omega (arith, v.ordered, length-grown h);
        small = omega (arith, length-grown h);
      };
      room = omega (arith, length-grown h);
      same = slice-append b.buffer _ b.reader_index (readable_bytes b) (omega (arith, readable v));
      reserve = inl refl;
      bound = omega arith;
      size = omega (arith, length-grown h, v.within);
    },
  )

  -- Otherwise the readable bytes move to the front; the assertion on the way holds.
  make_space_moves :
      length b.buffer < b.writer_index + len
      → len + cheap_prepend ≤ length b.buffer - b.writer_index + b.reader_index
      → (make_space b len ≡ some moved) × MadeRoom b len moved
  unfolding make_space moved
  make_space_moves h k = (
    ground arith,
    record {
      valid = record {
        ordered = omega arith;
        within = omega (arith, length-copy_at b.buffer 8 (contents b));
        small = omega (arith, length-copy_at b.buffer 8 (contents b));
      };
      room = omega (arith, length-copy_at b.buffer 8 (contents b));
      same =
          slice-copy_at_end b.buffer (contents b) 8 8 0 _ (omega arith)
            (omega (arith, length-contents v, readable v))
            (omega (arith, length-contents v, readable v));
      reserve = inr refl;
      bound = omega arith;
      size = omega (arith, length-copy_at b.buffer 8 (contents b));
    },
  )

  make_space-MadeRoom :
      length b.buffer < b.writer_index + len
      → (c : Buffer) × (make_space b len ≡ some c) × MadeRoom b len c
  make_space-MadeRoom h =
      elim (dec_lt (length b.buffer - b.writer_index + b.reader_index) (len + cheap_prepend)) [
        | yes p ↦ (grown, (make_space_grows h p).0, (make_space_grows h p).1)
        | no p ↦ (moved, (make_space_moves h (omega arith)).0, (make_space_moves h (omega arith)).1)
      ]

  pub ensure_writable_bytes-MadeRoom :
      (c : Buffer) × (ensure_writable_bytes b len ≡ some c) × MadeRoom b len c
  unfolding ensure_writable_bytes
  ensure_writable_bytes-MadeRoom = elim (dec_lt (length b.buffer) (b.writer_index + len)) [
    | yes p ↦
        let (c, e, m) = make_space-MadeRoom p in
        (c, ground (arith, e, writable m.valid, writable v, m.room), m)
    | no p ↦ (
      b,
      ground (arith, writable v),
      record {
        valid = v;
        room = omega arith;
        same = refl;
        reserve = inl refl;
        bound = omega arith;
        size = omega arith;
      },
    )
  ]
