-- ===== src/Codec/Tests.antt =====
-- A protobuf library with one type of message, named A, whose messages are byte strings.
use muduo_net_zxl.Prelude.{
  ℕ, ◌+◌, ◌≡◌, refl, inl, some, List, [], ◌∷◌, map, arith, length, replicate, true, false, ◌>>=◌,
  ◌∙◌,
}
use muduo_net_zxl.Buffer.{Buffer, contents, host_to_network32}
use muduo_net_zxl.Buffer.Valid.{IsValid}
use muduo_net_zxl.Channel
use muduo_net_zxl.TcpConnection
use muduo_net_zxl.TcpConnection.{Connection, connected, wrote}
use muduo_net_zxl.Codec.{send, Outcome, Library, message, on_message}
use muduo_net_zxl.Codec.Frame.{body, frame, Known}
use muduo_net_zxl.Codec.Fill.{fill_empty_buffer-frame}
use muduo_net_zxl.Codec.Receive.{frames, on_message-frames}
use muduo_net_zxl.TcpConnection.Writes
use muduo_net_zxl.Codec.Chunks.{receive}
use muduo_net_zxl.Codec.Deliver.{start, sends, Delivered, send-receive}
use muduo_net_zxl.Codec.Total.{Ends, on_message-Ends}

abbrev bytes : Library (List ℕ)
bytes = record {
  type_name = λ m. 65 ∷ [];
  serialize = λ m. m;
  prototype = λ n. some [];
  parse_from_array = λ m d. some d;
  adler32 = λ d. 1 + length d;
}

abbrev hello : List ℕ
hello = 1 ∷ 2 ∷ 3 ∷ []

hello-Known : Known bytes hello
unfolding body host_to_network32
hello-Known = record {
  proto = [];
  found = refl;
  parses = refl;
  named = omega arith;
  small = omega arith;
}

-- One frame, and the first two bytes of another.
abbrev received : Buffer
received = record {
  buffer = 0 ∷ 0 ∷ 0 ∷ 13 ∷ 0 ∷ 0 ∷ 0 ∷ 2 ∷ 65 ∷ 0 ∷ 1 ∷ 2 ∷ 3 ∷ 0 ∷ 0 ∷ 0 ∷ 10 ∷ 0 ∷ 0 ∷ [];
  reader_index = 0;
  writer_index = 19;
}

received-IsValid : IsValid received
received-IsValid = record { ordered = omega arith; within = omega arith; small = omega arith }

on_message-frames_example :
    (c : Buffer) × (on_message bytes 2 received ≡ some (map message (hello ∷ []), c))
    × IsValid c
    × (contents c ≡ 0 ∷ 0 ∷ [])
unfolding frames frame body host_to_network32
on_message-frames_example =
    on_message-frames bytes received (hello ∷ []) (0 ∷ 0 ∷ []) 2 received-IsValid refl
      (hello-Known, tt) (inl (omega arith)) (omega arith)

on_message-Ends_example : Ends bytes (on_message bytes 20 received)
on_message-Ends_example = on_message-Ends bytes 20 received received-IsValid (omega arith)

-- One frame, and ten bytes that start with a length of one.
abbrev spoilt : Buffer
spoilt = record {
  buffer =
      0 ∷ 0 ∷ 0 ∷ 13 ∷ 0 ∷ 0 ∷ 0 ∷ 2 ∷ 65 ∷ 0 ∷ 1 ∷ 2 ∷ 3 ∷ 0 ∷ 0 ∷ 0 ∷ 10 ∷ 0 ∷ 0 ∷ 0 ∷ 1 ∷ 0 ∷ 0
      ∷ 0 ∷ 0 ∷ 0 ∷ 0 ∷ 0 ∷ 0 ∷ 0 ∷ 0 ∷ [];
  reader_index = 0;
  writer_index = 31;
}

abbrev small_buffer : Buffer
small_buffer = record { buffer = replicate 16 0; reader_index = 8; writer_index = 8 }

abbrev idle : Connection
idle = record (TcpConnection.init 5 false) { state = connected; output = small_buffer }

abbrev hello_frame : List ℕ
hello_frame = 0 ∷ 0 ∷ 0 ∷ 13 ∷ 0 ∷ 0 ∷ 0 ∷ 2 ∷ 65 ∷ 0 ∷ 1 ∷ 2 ∷ 3 ∷ 0 ∷ 0 ∷ 0 ∷ 10 ∷ []

hello_frame_lem : frame bytes hello ≡ hello_frame
unfolding frame body host_to_network32
hello_frame_lem = refl

-- The kernel takes the frame at once.
abbrev sent : Connection
sent = record idle { wire = hello_frame }

send_test : send bytes true idle hello (wrote 17) ≡ some sent
unfolding send TcpConnection.send TcpConnection.send_in_loop TcpConnection.write_directly
    TcpConnection.keep_rest TcpConnection.init Channel.is_writing Channel.init
send_test =
    let (buf, e, v, x) = fill_empty_buffer-frame bytes hello hello-Known.small in
    rw (e, ◌>>=◌) (rw (x ∙ hello_frame_lem) refl)

idle-IsValid : Writes.IsValid idle
unfolding TcpConnection.init
idle-IsValid = record {
  output_valid = record { ordered = omega arith; within = omega arith; small = omega arith };
  writes = λ h. absurd (h refl);
}

-- The frame arrives in two pieces.
abbrev pieces : List (List ℕ)
pieces = (0 ∷ 0 ∷ 0 ∷ 13 ∷ 0 ∷ 0 ∷ 0 ∷ 2 ∷ 65 ∷ 0 ∷ 1 ∷ []) ∷ (2 ∷ 3 ∷ 0 ∷ 0 ∷ 0 ∷ 10 ∷ []) ∷ []

abbrev none_under_way : List ℕ
none_under_way = []

abbrev listener : Connection
listener = record idle { input = small_buffer }

send-receive_example :
    (o : List (Outcome bytes)) × (c' : Connection) × (receive bytes pieces listener ≡ some (o, c'))
    × Delivered bytes sent (hello ∷ []) o ((none_under_way ≡ []) × (contents sent.output ≡ []))
unfolding TcpConnection.init
send-receive_example =
    send-receive bytes listener pieces none_under_way
      (sends hello (wrote 17) start hello-Known refl (rw hello_frame_lem (omega arith))
        (rw hello_frame_lem (omega arith)) send_test refl)
      idle-IsValid refl refl (omega arith, omega arith, (omega arith, omega arith, tt))
      (record { ordered = omega arith; within = omega arith; small = omega arith }) refl
      (omega arith)
