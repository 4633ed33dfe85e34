-- ===== src/Buffer/Tests.antt =====
-- Runs of Buffer.h on small inputs, and the theorems of its modules applied there.
use muduo_net_zxl.Prelude.{◌≡◌, refl, some, [], ◌∷◌, ◌++◌, ◌<◌, length, arith, replicate, copy_at}
use mathlib.Core.Option
use muduo_net_zxl.Buffer.{
  Buffer, init, ensure_writable_bytes, make_space, append, shrink, read_fd, got, contents,
}
use muduo_net_zxl.Buffer.Valid.{IsValid, init-IsValid}
use muduo_net_zxl.Buffer.Queue.{append-contents, read_fd-contents}
use muduo_net_zxl.Buffer.Shrink.{shrink-contents, shrink_breaks}

-- Sixteen bytes, of which 7, 8, 9 are readable behind a large free front.
abbrev worn : Buffer
worn = record {
  buffer = replicate 12 0 ++ 7 ∷ 8 ∷ 9 ∷ 0 ∷ [];
  reader_index = 12;
  writer_index = 15;
}

worn-IsValid : IsValid worn
worn-IsValid = record { ordered = omega arith; within = omega arith; small = omega arith }

append_moves : Option.map contents (append worn (1 ∷ 2 ∷ [])) ≡ some (7 ∷ 8 ∷ 9 ∷ 1 ∷ 2 ∷ [])
unfolding append ensure_writable_bytes make_space copy_at
append_moves = refl

-- Seven bytes arrive where one fits: the other six go the way of `append`.
read_fd_overflows :
    Option.map (λ r. contents r.2) (read_fd worn (got (replicate 7 5)))
    ≡ some (7 ∷ 8 ∷ 9 ∷ replicate 7 5)
unfolding read_fd ensure_writable_bytes make_space copy_at
read_fd_overflows = refl

append-contents_example :
    (c : Buffer) × (append worn (1 ∷ 2 ∷ []) ≡ some c)
    × IsValid c
    × (contents c ≡ 7 ∷ 8 ∷ 9 ∷ 1 ∷ 2 ∷ [])
append-contents_example = append-contents worn (1 ∷ 2 ∷ []) worn-IsValid (omega arith)

read_fd-contents_example :
    (c : Buffer) × (read_fd worn (got (replicate 7 5)) ≡ some (some 7, 0, c))
    × IsValid c
    × (contents c ≡ 7 ∷ 8 ∷ 9 ∷ replicate 7 5)
read_fd-contents_example =
    read_fd-contents worn (replicate 7 5) worn-IsValid (omega arith) (omega arith)

shrink-contents_example :
    (b : Buffer) × (shrink init 3 ≡ some b) × IsValid b × (contents b ≡ contents init)
unfolding init
shrink-contents_example = shrink-contents init 3 init-IsValid refl (omega arith)

shrink_breaks_example : (b : Buffer) × (shrink worn 0 ≡ some b) × (length b.buffer < b.writer_index)
shrink_breaks_example = shrink_breaks worn 0 worn-IsValid (omega arith) (omega arith)
