-- ===== src/Buffer.antt =====
-- Buffer.h, Buffer.cc and the byte order functions of SocketsOps.h: a growing byte array with a
-- readable range between two indices. `size_t` arithmetic wraps, and a failed `assert` or a
-- `resize` beyond the largest vector is `none`.
pub mod Valid
pub mod Queue
pub mod Int32
pub mod Shrink
mod Tests
use muduo_net_zxl.Prelude.{
  ℕ, ◌+◌, ◌-◌, ◌*◌, ◌/◌, ◌%◌, ◌^◌, Bool, true, false, Option, none, some, List, [], ◌∷◌, ◌++◌, ltb,
  leb, if◌then◌else◌, length, take, drop, replicate, slice, copy_at, get_or, ◌>>=◌, assert,
}

abbrev pub size_mod : ℕ
size_mod = 2 ^ 64

-- `size_t` addition and subtraction.
abbrev pub add_size : ℕ → ℕ → ℕ
add_size a b = (a + b) % size_mod

abbrev pub sub_size : ℕ → ℕ → ℕ
sub_size a b = (a + size_mod - b) % size_mod

-- `std::vector<char>::max_size()`.
abbrev pub max_size : ℕ
max_size = 2 ^ 63 - 1

abbrev pub cheap_prepend : ℕ
cheap_prepend = 8

abbrev pub initial_size : ℕ
initial_size = 1024

pub record Buffer : Type 0 where
  pub buffer : List ℕ
  pub reader_index : ℕ
  pub writer_index : ℕ

unfoldable pub init : Buffer
init = record {
  buffer = replicate (cheap_prepend + initial_size) 0;
  reader_index = cheap_prepend;
  writer_index = cheap_prepend;
}

abbrev pub readable_bytes : Buffer → ℕ
readable_bytes b = sub_size b.writer_index b.reader_index

abbrev pub writable_bytes : Buffer → ℕ
writable_bytes b = sub_size (length b.buffer) b.writer_index

abbrev pub prependable_bytes : Buffer → ℕ
prependable_bytes b = b.reader_index

-- The bytes from `peek()` on, `readableBytes()` of them.
abbrev pub contents : Buffer → List ℕ
contents b = slice b.buffer b.reader_index (readable_bytes b)

unfoldable pub retrieve : Buffer → ℕ → Option Buffer
retrieve b len = do
  _ ← assert (leb len (readable_bytes b))
  some (record b { reader_index = add_size b.reader_index len })

-- The argument is `end - begin()`.
pub retrieve_until : Buffer → ℕ → Option Buffer
retrieve_until b end = do
  _ ← assert (leb b.reader_index end)
  _ ← assert (leb end b.writer_index)
  retrieve b (end - b.reader_index)

unfoldable pub retrieve_all : Buffer → Buffer
retrieve_all b = record b { reader_index = cheap_prepend; writer_index = cheap_prepend }

pub retrieve_as_string : Buffer → List ℕ × Buffer
unfolding retrieve_all
retrieve_as_string b = (contents b, retrieve_all b)

-- `buffer_.resize(n)` for `n` no less than the size; the new bytes are 0.
resize : List ℕ → ℕ → Option (List ℕ)
resize bs n = if leb n max_size then some (take n bs ++ replicate (n - length bs) 0) else none

pub make_space : Buffer → ℕ → Option Buffer
unfolding resize
make_space b len =
    if ltb (add_size (writable_bytes b) (prependable_bytes b)) (add_size len cheap_prepend)
    then (do bs ← resize b.buffer (add_size b.writer_index len); some (record b { buffer = bs }))
    else (do
      _ ← assert (ltb cheap_prepend b.reader_index)
      some (record {
        buffer = copy_at b.buffer cheap_prepend (contents b);
        reader_index = cheap_prepend;
        writer_index = add_size cheap_prepend (readable_bytes b);
      }))

pub ensure_writable_bytes : Buffer → ℕ → Option Buffer
ensure_writable_bytes b len = do
  b' ← if ltb (writable_bytes b) len then make_space b len else some b
  _ ← assert (leb len (writable_bytes b'))
  some b'

unfoldable pub has_written : Buffer → ℕ → Buffer
has_written b len = record b { writer_index = add_size b.writer_index len }

-- What `std::copy(data, data + len, beginWrite())` leaves.
unfoldable pub write_bytes : Buffer → List ℕ → Buffer
write_bytes b xs = record b { buffer = copy_at b.buffer b.writer_index xs }

unfoldable pub append : Buffer → List ℕ → Option Buffer
unfolding has_written write_bytes
append b xs = do
  b' ← ensure_writable_bytes b (length xs)
  some (has_written (write_bytes b' xs) (length xs))

unfoldable pub prepend : Buffer → List ℕ → Option Buffer
prepend b xs = do
  _ ← assert (leb (length xs) (prependable_bytes b))
  let reader = sub_size b.reader_index (length xs)
  some (record b { buffer = copy_at b.buffer reader xs; reader_index = reader })

-- The indices are not changed. A size that wraps below what is copied is `none`, too.
pub shrink : Buffer → ℕ → Option Buffer
shrink b reverse = do
  let size = add_size (add_size cheap_prepend (readable_bytes b)) reverse
  _ ← assert (leb size max_size)
  _ ← assert (leb (cheap_prepend + readable_bytes b) size)
  some (record b { buffer = copy_at (replicate size 0) cheap_prepend (contents b) })

-- What `readv` returned: an `errno`, or the bytes that it scattered over the two ranges.
pub data Readv : Type 0 where
  failed : ℕ → Readv
  got : List ℕ → Readv

abbrev pub extra_size : ℕ
extra_size = 65536

-- The result is the number returned, none for -1, with `*savedError`.
pub read_fd : Buffer → Readv → Option (Option ℕ × ℕ × Buffer)
unfolding has_written append write_bytes
read_fd b (failed errno) = some (none, errno, b)
read_fd b (got xs) =
    let writable = writable_bytes b in
    let n = length xs in
    if leb n writable then some (some n, 0, has_written (write_bytes b xs) n) else (do
      b' ←
          append (record (write_bytes b (take writable xs)) { writer_index = length b.buffer })
            (drop writable xs)
      some (some n, 0, b'))

-- An `int32_t` is its bit pattern; network order is most significant byte first.
abbrev pub word_mod : ℕ
word_mod = 2 ^ 32

unfoldable pub host_to_network32 : ℕ → List ℕ
host_to_network32 x = (x / 2 ^ 24 % 256) ∷ (x / 2 ^ 16 % 256) ∷ (x / 2 ^ 8 % 256) ∷ (x % 256) ∷ []

unfoldable pub network_to_host32 : List ℕ → ℕ
network_to_host32 bs =
    get_or bs 0 0 * 2 ^ 24 + get_or bs 1 0 * 2 ^ 16 + get_or bs 2 0 * 2 ^ 8 + get_or bs 3 0

unfoldable pub peek_int32 : Buffer → Option ℕ
peek_int32 b = do
  _ ← assert (leb 4 (readable_bytes b))
  some (network_to_host32 (slice b.buffer b.reader_index 4))

unfoldable pub append_int32 : Buffer → ℕ → Option Buffer
append_int32 b x = append b (host_to_network32 x)

unfoldable pub read_int32 : Buffer → Option (ℕ × Buffer)
read_int32 b = do result ← peek_int32 b; b' ← retrieve b 4; some (result, b')
