-- ===== src/Codec/Fill.antt =====
-- `fillEmptyBuffer`, against the wire format.
use muduo_net_zxl.Prelude.{
  ℕ, ◌+◌, ◌%◌, ◌≤◌, ◌≡◌, refl, sym, ap, ◌∙◌, Option, some, List, [], ◌∷◌, ◌++◌, ◌>>=◌, arith,
  length, length-append, append_assoc, inl, inr, Option-cases,
}
use muduo_net_zxl.Buffer.{
  Buffer, init, max_size, word_mod, readable_bytes, contents, append, append_int32,
  host_to_network32, ensure_writable_bytes, has_written, write_bytes,
}
use muduo_net_zxl.Buffer.Valid.{IsValid, init-IsValid, length-contents}
use muduo_net_zxl.Buffer.Queue.{append-Appended, prepend-contents}
use muduo_net_zxl.Buffer.Int32.{length-host_to_network32}
use muduo_net_zxl.Codec.{Library, seal, fill_empty_buffer, max_message_len}
use muduo_net_zxl.Codec.Frame.{body, frame, length-body}

-- A buffer that holds some bytes behind its first reserve.
record Filled (xs : List ℕ) (b : Buffer) : Type 0 where
  valid : IsValid b
  holds : contents b ≡ xs
  reserve : b.reader_index ≡ 8
  bound : b.writer_index ≤ 8 + length xs

init-Filled : Filled [] init
unfolding init
init-Filled = record { valid = init-IsValid; holds = refl; reserve = refl; bound = omega arith }

append-Filled :
    (xs ys : List ℕ) (b : Buffer)
    → Filled xs b
    → 8 + length xs + length ys ≤ max_size
    → (c : Buffer) × (append b ys ≡ some c) × Filled (xs ++ ys) c
append-Filled xs ys b f h =
    let (c, e, a) = append-Appended b ys f.valid (omega (arith, f.bound)) in
    (
      c,
      e,
      record {
        valid = a.valid;
        holds = a.bytes ∙ ap (λ l. l ++ ys) f.holds;
        reserve = ground (arith, a.reserve, f.reserve);
        bound = omega (arith, a.bound, f.bound, length-append xs ys);
      },
    )

-- Making room, writing and moving the index is what `append` does.
append_by_hand :
    (b : Buffer) (xs : List ℕ) (k : Buffer → Option Buffer)
    → (ensure_writable_bytes b (length xs) >>= λ c. k (has_written (write_bytes c xs) (length xs)))
      ≡ (append b xs >>= k)
unfolding append
append_by_hand b xs k = elim (Option-cases (ensure_writable_bytes b (length xs))) [
  | inl e ↦ rw e
  | inr (c, e) ↦ rw e
]

module _ {Message : Type 0} (lib : Library Message) (m : Message) where
  readable_bytes-Filled : (xs : List ℕ) (b : Buffer) → Filled xs b → readable_bytes b ≡ length xs
  readable_bytes-Filled xs b f = sym (length-contents f.valid) ∙ ap length f.holds

  body_parts :
      body lib m
      ≡ (host_to_network32 (length (lib.type_name m) + 1) ++ (lib.type_name m ++ 0 ∷ []))
        ++ lib.serialize m
  unfolding body
  body_parts = sym (
      append_assoc (host_to_network32 (length (lib.type_name m) + 1)) (lib.type_name m ++ 0 ∷ [])
        (lib.serialize m))

  -- The steps of `fillEmptyBuffer` one after another.
  filled :
      (b1 b2 b4 b : Buffer)
      → length (body lib m) + 4 ≤ max_message_len
      → append init (host_to_network32 (length (lib.type_name m) + 1)) ≡ some b1
      → append b1 (lib.type_name m ++ 0 ∷ []) ≡ some b2
      → append b2 (lib.serialize m) ≡ some b4
      → seal lib (length (body lib m)) b4 ≡ some b
      → fill_empty_buffer lib init m ≡ some b
  unfolding fill_empty_buffer append_int32 init
  filled b1 b2 b4 b small e1 e2 e4 s =
      let w : (length (lib.type_name m) + 1) % word_mod ≡ length (lib.type_name m) + 1 =
        omega (arith, length-body lib m) in
      let z : 4 + (length (lib.type_name m) + 1) + length (lib.serialize m) ≡ length (body lib m) =
        omega (arith, length-body lib m) in
      rw w (
        rw (e1, ◌>>=◌)
          (rw (e2, ◌>>=◌)
            (append_by_hand b2 (lib.serialize m) (seal lib _) ∙ rw (e4, ◌>>=◌) (rw z s))))

  seal-frame :
      (b : Buffer)
      → Filled (body lib m) b
      → length (body lib m) + 4 ≤ max_message_len
      → (c : Buffer) × (seal lib (length (body lib m)) b ≡ some c)
        × IsValid c
        × (contents c ≡ frame lib m)
  unfolding seal append_int32 frame
  seal-frame b f small =
      let sum = host_to_network32 (lib.adler32 (body lib m) % word_mod) in
      let n = length-host_to_network32 (lib.adler32 (body lib m) % word_mod) in
      let (c, e, g) = append-Filled (body lib m) sum b f (omega (arith, n)) in
      let r : readable_bytes c ≡ length (body lib m) + 4 =
        readable_bytes-Filled _ c g ∙ omega (arith, n, length-append (body lib m) sum) in
      let (d, p, v, q) =
        prepend-contents c (host_to_network32 (readable_bytes c % word_mod)) g.valid
          (omega (arith, g.reserve, length-host_to_network32 (readable_bytes c % word_mod))) in
      let w : readable_bytes c % word_mod ≡ length (body lib m) + 4 = omega (arith, r) in
      (
        d,
        rw f.holds (rw (e, ◌>>=◌) (ground (arith, r, p))),
        v,
        q
            ∙ ap (λ l. host_to_network32 (readable_bytes c % word_mod) ++ l) g.holds
            ∙ ap (λ k. host_to_network32 k ++ (body lib m ++ sum)) w,
      )

  -- Filling a new buffer fails no assertion, and leaves exactly the frame of the message to read.
  pub fill_empty_buffer-frame :
      length (body lib m) + 4 ≤ max_message_len
      → (b : Buffer) × (fill_empty_buffer lib init m ≡ some b)
        × IsValid b
        × (contents b ≡ frame lib m)
  fill_empty_buffer-frame small =
      let len = length-body lib m in
      let nl = host_to_network32 (length (lib.type_name m) + 1) in
      let name = lib.type_name m ++ 0 ∷ [] in
      let n = length-host_to_network32 (length (lib.type_name m) + 1) in
      let k = length-append (lib.type_name m) (0 ∷ []) in
      let (b1, e1, f1) = append-Filled [] nl init init-Filled (omega (arith, n)) in
      let (b2, e2, f2) = append-Filled nl name b1 f1 (omega (arith, n, k, len)) in
      let (b4, e4, f4) =
        append-Filled (nl ++ name) (lib.serialize m) b2 f2
          (omega (arith, n, k, len, length-append nl name)) in
      let f : Filled (body lib m) b4 = rw (body_parts) f4 in
      let (b, s, v, c) = seal-frame b4 f small in (b, filled b1 b2 b4 b small e1 e2 e4 s, v, c)
