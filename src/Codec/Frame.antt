-- ===== src/Codec/Frame.antt =====
-- The wire format as a specification: what one message looks like.
use muduo_net_zxl.Prelude.{
  ℕ, ◌+◌, ◌%◌, ◌≤◌, ◌≡◌, some, List, [], ◌∷◌, ◌++◌, arith, length, length-append,
}
use muduo_net_zxl.Buffer.{word_mod, host_to_network32}
use muduo_net_zxl.Buffer.Int32.{length-host_to_network32}
use muduo_net_zxl.Codec.{Library, max_message_len}

module _ {Message : Type 0} (lib : Library Message) (m : Message) where
  -- The length of the name with its final 0, the name, and the serialized message.
  unfoldable pub body : List ℕ
  body =
      host_to_network32 (length (lib.type_name m) + 1)
      ++ ((lib.type_name m ++ 0 ∷ []) ++ lib.serialize m)

  -- The length of what follows, the body, and its checksum.
  unfoldable pub frame : List ℕ
  frame =
      host_to_network32 (length body + 4)
      ++ (body ++ host_to_network32 (lib.adler32 body % word_mod))

  -- A message that the library knows by name and reads back, with a name, and not too large.
  pub record Known : Type 0 where
    pub proto : Message
    pub found : lib.prototype (lib.type_name m) ≡ some proto
    pub parses : lib.parse_from_array proto (lib.serialize m) ≡ some m
    pub named : 1 ≤ length (lib.type_name m)
    pub small : length body + 4 ≤ max_message_len

  pub length-body : length body ≡ length (lib.type_name m) + length (lib.serialize m) + 5
  unfolding body
  length-body = omega (
    arith,
    length-append (host_to_network32 (length (lib.type_name m) + 1))
        ((lib.type_name m ++ 0 ∷ []) ++ lib.serialize m),
    length-append (lib.type_name m ++ 0 ∷ []) (lib.serialize m),
    length-append (lib.type_name m) (0 ∷ []),
    length-host_to_network32 (length (lib.type_name m) + 1),
  )

  pub length-frame : length frame ≡ length body + 8
  unfolding frame
  length-frame = omega (
    arith,
    length-append (host_to_network32 (length body + 4))
        (body ++ host_to_network32 (lib.adler32 body % word_mod)),
    length-append body (host_to_network32 (lib.adler32 body % word_mod)),
    length-host_to_network32 (length body + 4),
    length-host_to_network32 (lib.adler32 body % word_mod),
  )
