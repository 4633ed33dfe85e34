-- ===== src/Codec.antt =====
-- protobuf/codec.h and protobuf/codec.cc: length-prefixed frames of typed messages with a checksum.
-- The protobuf library and zlib's `adler32` are the fields of `Library`. An `int32_t` is its bit
-- pattern. A failed `assert` is `none`; so is the end of the fuel of `on_message`.
pub mod Frame
pub mod Fill
pub mod Parse
pub mod Receive
pub mod Cut
pub mod Total
pub mod Growth
pub mod Chunks
pub mod Deliver
mod Tests
use muduo_net_zxl.Prelude.{
  ℕ, zero, suc, ◌+◌, ◌-◌, ◌*◌, ◌%◌, ◌^◌, Bool, true, false, not, ◌&&◌, ◌||◌, Option, none, some,
  List, [], ◌∷◌, ◌++◌, ◌==◌, ltb, leb, if◌then◌else◌, length, take, drop, slice, ◌>>=◌, assert,
}
use muduo_net_zxl.Buffer.{
  Buffer, word_mod, readable_bytes, contents, retrieve, append, prepend, peek_int32, append_int32,
  host_to_network32, network_to_host32, ensure_writable_bytes, has_written, write_bytes,
}
use muduo_net_zxl.Buffer
use muduo_net_zxl.TcpConnection
use muduo_net_zxl.TcpConnection.{Connection, Write, is_connected, shutdown}

pub data ErrorCode : Type 0 where
  no_error invalid_length check_sum_error invalid_name_len unknown_message_type parse_error :
      ErrorCode

abbrev pub header_len : ℕ
header_len = 4

-- `2 * kHeaderLen + 2`.
abbrev pub min_message_len : ℕ
min_message_len = 10

abbrev pub max_message_len : ℕ
max_message_len = 64 * 1024 * 1024

-- What the code uses of messages: `GetTypeName`, `SerializeWithCachedSizesToArray`, the prototypes of
-- the generated pool by name, `ParseFromArray` into a new message; and `adler32(1, …)`.
pub record Library (Message : Type 0) : Type 0 where
  pub type_name : Message → List ℕ
  pub serialize : Message → List ℕ
  pub prototype : List ℕ → Option Message
  pub parse_from_array : Message → List ℕ → Option Message
  pub adler32 : List ℕ → ℕ

-- `a <= b` of two `int32_t`.
abbrev pub le_int32 : ℕ → ℕ → Bool
le_int32 a b = leb ((a + 2 ^ 31) % word_mod) ((b + 2 ^ 31) % word_mod)

abbrev pub sub_int32 : ℕ → ℕ → ℕ
sub_int32 a b = (a + word_mod - b) % word_mod

unfoldable pub as_int32 : List ℕ → ℕ
as_int32 buf = network_to_host32 (take 4 buf)

-- The error callback that a codec has when none is given.
unfoldable pub default_error_callback : Option Connection → ErrorCode → Option Connection
default_error_callback none e = none
default_error_callback (some c) e = some (if is_connected c.state then shutdown true c else c)

-- `len > kMaxMessageLen || len < kMinMessageLen`.
abbrev pub bad_length : ℕ → Bool
bad_length len = not (le_int32 len max_message_len) || not (le_int32 min_message_len len)

module _ {Message : Type 0} (lib : Library Message) where
  -- The end of `fillEmptyBuffer`: the checksum behind `size` bytes, and the length in front.
  unfoldable pub seal : ℕ → Buffer → Option Buffer
  seal size b = do
    c ← append_int32 b (lib.adler32 (contents b) % word_mod)
    _ ← assert (readable_bytes c == size + 4)
    prepend c (host_to_network32 (readable_bytes c % word_mod))

  unfoldable pub fill_empty_buffer : Buffer → Message → Option Buffer
  fill_empty_buffer b0 m = do
    _ ← assert (readable_bytes b0 == 0)
    let name_len = length (lib.type_name m) + 1
    b1 ← append_int32 b0 (name_len % word_mod)
    b2 ← append b1 (lib.type_name m ++ 0 ∷ [])
    let byte_size = length (lib.serialize m)
    b3 ← ensure_writable_bytes b2 byte_size
    seal (4 + name_len + byte_size) (has_written (write_bytes b3 (lib.serialize m)) byte_size)

  -- `send`; the write is what the kernel does with it.
  unfoldable pub send : Bool → Connection → Message → Write → Option Connection
  send in_loop_thread conn m w = do
    buf ← fill_empty_buffer Buffer.init m
    TcpConnection.send in_loop_thread conn (contents buf) w

  -- `createMessage`.
  unfoldable pub create_message : List ℕ → Option Message
  create_message type_name = lib.prototype type_name

  -- The message with its body read in, once its type is known.
  unfoldable pub parse_body : Option Message → List ℕ → Option Message × ErrorCode
  parse_body none data_ = (none, unknown_message_type)
  parse_body (some message) data_ = elim (lib.parse_from_array message data_) [
    | none ↦ (some message, parse_error)
    | some parsed ↦ (some parsed, no_error)
  ]

  -- `buf` is what stands in memory from the pointer on.
  unfoldable pub parse : List ℕ → ℕ → Option Message × ErrorCode
  parse buf len =
      let expected_check_sum = as_int32 (drop (len - header_len) buf) in
      let check_sum = lib.adler32 (take (len - header_len) buf) % word_mod in
      let name_len = as_int32 buf in
      if expected_check_sum == check_sum
      then (if le_int32 2 name_len && le_int32 name_len (sub_int32 len (2 * header_len))
          then parse_body (create_message (slice buf header_len (name_len - 1)))
              (slice buf (header_len + name_len) (len - 2 * header_len - name_len))
          else (none, invalid_name_len))
      else (none, check_sum_error)

  -- What `onMessage` tells its owner.
  pub data Outcome : Type 0 where
    message : Message → Outcome
    error : ErrorCode → Outcome

  abbrev pub delivered : Option Message × ErrorCode → Option Message
  delivered (some m, no_error) = some m
  delivered (some m, e) = none
  delivered (none, e) = none

  -- The end of one round, on what was parsed; `rest` is the loop.
  abbrev pub finish :
      (Buffer → Option (List Outcome × Buffer))
      → Buffer
      → ℕ
      → Option Message × ErrorCode
      → Option (List Outcome × Buffer)
  finish rest b n (m, e) = elim (delivered (m, e)) [
    | none ↦ some (error e ∷ [], b)
    | some parsed ↦ (do b' ← retrieve b n; r ← rest b'; some (message parsed ∷ r.0, r.1))
  ]

  unfoldable pub on_message : ℕ → Buffer → Option (List Outcome × Buffer)
  on_message zero b = none
  on_message (suc fuel) b =
      let rest = λ (b' : Buffer). on_message fuel b' in
      if ltb (readable_bytes b) (min_message_len + header_len) then some ([], b) else (do
        len ← peek_int32 b
        if bad_length len
            then some (error invalid_length ∷ [], b)
            else (if leb (header_len + len) (readable_bytes b)
                then finish rest b (header_len + len) (parse (drop header_len (contents b)) len)
                else some ([], b)))
