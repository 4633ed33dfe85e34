-- ===== src/Codec/Parse.antt =====
-- `parse`, on the bytes of a frame.
use muduo_net_zxl.Prelude.{
  ℕ, ◌+◌, ◌-◌, ◌%◌, ◌≡◌, ap, ◌∙◌, true, ◌&&◌, some, List, [], ◌∷◌, ◌++◌, arith, length, take, drop,
  slice, length-append, append_assoc, take-length-append, drop-length-append,
}
use muduo_net_zxl.Buffer.{word_mod, host_to_network32, network_to_host32}
use muduo_net_zxl.Buffer.Int32.{
  length-host_to_network32, network_to_host32-append, drop-host_to_network32,
}
use muduo_net_zxl.Codec.{
  Library, no_error, parse, parse_body, create_message, as_int32, le_int32, sub_int32,
}
use muduo_net_zxl.Codec.Frame.{body, Known, length-body}

-- A prefix of known length is split off.
take_prefix : (xs ys : List ℕ) (n : ℕ) → n ≡ length xs → take n (xs ++ ys) ≡ xs
take_prefix xs ys n e = rw e (take-length-append xs ys)

drop_prefix : (xs ys : List ℕ) (n : ℕ) → n ≡ length xs → drop n (xs ++ ys) ≡ ys
drop_prefix xs ys n e = rw e (drop-length-append xs ys)

module _ {Message : Type 0} (lib : Library Message) (m : Message) (k : Known lib m)
    (rest : List ℕ) where
  abbrev name_len : ℕ
  name_len = length (lib.type_name m) + 1

  abbrev sum : ℕ
  sum = lib.adler32 (body lib m) % word_mod

  -- What stands in memory behind the length of the frame.
  abbrev buf : List ℕ
  buf = body lib m ++ (host_to_network32 sum ++ rest)

  buf_parts :
      buf
      ≡ host_to_network32 name_len
        ++ (lib.type_name m ++ (0 ∷ (lib.serialize m ++ (host_to_network32 sum ++ rest))))
  unfolding body
  buf_parts = simp append_assoc

  len_lem : length (body lib m) ≡ length (lib.type_name m) + length (lib.serialize m) + 5
  len_lem = length-body lib m

  sum_lem : as_int32 (drop (length (body lib m) + 4 - 4) buf) ≡ sum
  unfolding as_int32
  sum_lem =
      rw
        (drop_prefix (body lib m) (host_to_network32 sum ++ rest) (length (body lib m) + 4 - 4)
          (omega arith))
        (network_to_host32-append sum rest (omega arith))

  body_lem : take (length (body lib m) + 4 - 4) buf ≡ body lib m
  body_lem = take_prefix (body lib m) _ (length (body lib m) + 4 - 4) (omega arith)

  name_len_lem : as_int32 buf ≡ name_len
  unfolding as_int32
  name_len_lem =
      ap (λ l. network_to_host32 (take 4 l)) buf_parts
      ∙ network_to_host32-append name_len _ (omega (arith, len_lem, k.small))

  name_lem : slice buf 4 (name_len - 1) ≡ lib.type_name m
  name_lem =
      ap (λ l. slice l 4 (name_len - 1)) buf_parts
      ∙ ap (take (name_len - 1)) (drop-host_to_network32 name_len _)
      ∙ take_prefix (lib.type_name m) _ (name_len - 1) (omega arith)

  payload_lem : slice buf (4 + name_len) (length (body lib m) + 4 - 8 - name_len) ≡ lib.serialize m
  payload_lem =
      let front = host_to_network32 name_len ++ (lib.type_name m ++ 0 ∷ []) in
      let e : buf ≡ front ++ (lib.serialize m ++ (host_to_network32 sum ++ rest)) =
        buf_parts ∙ simp append_assoc in
      ap (λ l. slice l (4 + name_len) (length (body lib m) + 4 - 8 - name_len)) e
      ∙ ap (take (length (body lib m) + 4 - 8 - name_len)) (
          drop_prefix front _ (4 + name_len) (
            omega (
              arith,
              length-append (host_to_network32 name_len) (lib.type_name m ++ 0 ∷ []),
              length-append (lib.type_name m) (0 ∷ []),
              length-host_to_network32 name_len,
            )))
      ∙ take_prefix (lib.serialize m) _ (length (body lib m) + 4 - 8 - name_len)
          (omega (arith, len_lem))

  parse_body-known :
      parse_body lib (create_message lib (lib.type_name m)) (lib.serialize m) ≡ (some m, no_error)
  unfolding parse_body create_message
  parse_body-known = ground (arith, k.found, k.parses)

  name_len_ok :
      (le_int32 2 name_len && le_int32 name_len (sub_int32 (length (body lib m) + 4) 8)) ≡ true
  name_len_ok = ground (arith, len_lem, k.named, k.small)

  -- Of the bytes of a frame behind its length, whatever follows them, `parse` makes the message.
  pub parse-frame : parse lib buf (length (body lib m) + 4) ≡ (some m, no_error)
  unfolding parse
  parse-frame = rw sum_lem (
      rw body_lem (
        rw name_len_lem
          (rw name_len_ok (rw name_lem (rw payload_lem (rw parse_body-known (ground arith)))))))
