-- ===== src/Codec/Receive.antt =====
-- `onMessage` on a stream of frames, cut anywhere.
use muduo_net_zxl.Prelude.{
  ℕ, zero, suc, ◌+◌, ◌%◌, ◌≤◌, ◌<◌, ◌≡◌, refl, ap, ◌∙◌, ◌⊎◌, inl, inr, true, false, some, List, [],
  ◌∷◌, ◌++◌, map, arith, length, take, drop, length-append, append_assoc, drop-length-append, ltb,
  leb, dec_lt, ◌>>=◌,
}
use muduo_net_zxl.Buffer.{
  Buffer, word_mod, readable_bytes, contents, peek_int32, host_to_network32, network_to_host32,
}
use muduo_net_zxl.Buffer.Valid.{IsValid, length-contents}
use muduo_net_zxl.Buffer.Queue.{retrieve-contents}
use muduo_net_zxl.Buffer.Int32.{
  network_to_host32-append, drop-host_to_network32, peek_int32-contents,
}
use muduo_net_zxl.Codec.{Library, Outcome, message, on_message, max_message_len, bad_length}
use muduo_net_zxl.Codec.Frame.{body, frame, Known, length-body, length-frame}
use muduo_net_zxl.Codec.Parse.{parse-frame}

-- The rest of a frame that is still to come: too short to tell, or shorter than its length says.
abbrev pub Incomplete : List ℕ → Type 0
Incomplete p =
    (length p < 14)
    ⊎ ((10 ≤ network_to_host32 (take 4 p))
        × (network_to_host32 (take 4 p) ≤ max_message_len)
        × (length p < 4 + network_to_host32 (take 4 p)))

drop_prefix_lem : (xs ys : List ℕ) (n : ℕ) → n ≡ length xs → drop n (xs ++ ys) ≡ ys
drop_prefix_lem xs ys n e = rw e (drop-length-append xs ys)

module _ {Message : Type 0} (lib : Library Message) where
  unfoldable pub frames : List Message → List ℕ
  frames [] = []
  frames (m ∷ ms) = frame lib m ++ frames ms

  abbrev pub AllKnown : List Message → Type 0
  AllKnown [] = Unit {0}
  AllKnown (m ∷ ms) = Known lib m × AllKnown ms

  module _ (m : Message) (k : Known lib m) where
    abbrev len : ℕ
    len = length (body lib m) + 4

    abbrev behind : List ℕ → List ℕ
    behind rest = body lib m ++ (host_to_network32 (lib.adler32 (body lib m) % word_mod) ++ rest)

    frame_parts : (rest : List ℕ) → frame lib m ++ rest ≡ host_to_network32 len ++ behind rest
    unfolding frame
    frame_parts rest = simp append_assoc

    pub first_int : (rest : List ℕ) → network_to_host32 (take 4 (frame lib m ++ rest)) ≡ len
    first_int rest =
        ap (λ l. network_to_host32 (take 4 l)) (frame_parts rest)
        ∙ network_to_host32-append len (behind rest) (omega (arith, k.small))

    behind_lem : (rest : List ℕ) → drop 4 (frame lib m ++ rest) ≡ behind rest
    behind_lem rest = ap (drop 4) (frame_parts rest) ∙ drop-host_to_network32 len (behind rest)

    length_lem : (rest : List ℕ) → length (frame lib m ++ rest) ≡ 4 + len + length rest
    length_lem rest = omega (arith, length-append (frame lib m) rest, length-frame lib m)

    good_length : bad_length len ≡ false
    good_length = ground (arith, k.small, length-body lib m)

    -- One round takes one frame.
    pub on_message-frame :
        (b : Buffer) (rest : List ℕ)
        → IsValid b
        → contents b ≡ frame lib m ++ rest
        → (b' : Buffer) × IsValid b'
          × (contents b' ≡ rest)
          × ((f : ℕ) (os : List (Outcome lib)) (c : Buffer)
              → on_message lib f b' ≡ some (os, c)
              → on_message lib (suc f) b ≡ some (message m ∷ os, c))
    unfolding on_message
    on_message-frame b rest v e =
        let l = ap length e ∙ length_lem rest in
        let r = length-contents v in
        let h : 4 ≤ length (contents b) = omega (arith, l) in
        let p : peek_int32 b ≡ some len =
          peek_int32-contents b v h
          ∙ ap (λ x. some (network_to_host32 (take 4 x))) e
          ∙ ap some (first_int rest) in
        let (b', t, w, q) = retrieve-contents b (4 + len) v (omega (arith, l)) in
        let d : drop 4 (contents b) ≡ behind rest = ap (drop 4) e ∙ behind_lem rest in
        (
          b',
          w,
          q
              ∙ ap (drop (4 + len)) e
              ∙ drop_prefix_lem (frame lib m) rest (4 + len) (omega (arith, length-frame lib m)),
          λ f os c o.
              rw
                (let z : ltb (readable_bytes b) 14 ≡ false =
                    ground (arith, l, r, k.named, length-body lib m) in
                  z)
                (rw (p, ◌>>=◌)
                  (rw good_length (
                    rw (let z : leb (4 + len) (readable_bytes b) ≡ true = ground (arith, l, r) in z)
                      (rw d (rw (parse-frame lib m k rest) (ground (arith, t, o))))))),
        )

  -- A frame that is not all there stays in the buffer.
  pub on_message-Incomplete :
      (b : Buffer) (f : ℕ)
      → IsValid b
      → Incomplete (contents b)
      → on_message lib (suc f) b ≡ some ([], b)
  unfolding on_message
  on_message-Incomplete b f v (inl short) = ground (arith, short, length-contents v)
  on_message-Incomplete b f v (inr (low, high, more)) =
      let r = length-contents v in
      elim (dec_lt (readable_bytes b) 14) [
        | yes short ↦ ground (arith, short)
        | no long ↦ rw (let z : ltb (readable_bytes b) 14 ≡ false = ground (arith, long) in z) (
            rw (peek_int32-contents b v (omega (arith, long, r)), ◌>>=◌)
              (rw
                (let z : bad_length (network_to_host32 (take 4 (contents b))) ≡ false =
                    ground (arith, low, high) in
                  z)
                (rw
                  (let z : leb (4 + network_to_host32 (take 4 (contents b))) (readable_bytes b)
                        ≡ false =
                      ground (arith, more, r) in
                    z)
                  refl)))
      ]

  -- A stream of frames and a part of the next one: every message is given to the owner, in order, and
  -- the part stays in the buffer.
  pub on_message-frames :
      (b : Buffer) (ms : List Message) (p : List ℕ) (fuel : ℕ)
      → IsValid b
      → contents b ≡ frames ms ++ p
      → AllKnown ms
      → Incomplete p
      → length ms < fuel
      → (c : Buffer) × (on_message lib fuel b ≡ some (map message ms, c))
        × IsValid c
        × (contents c ≡ p)
  unfolding frames
  on_message-frames b [] p (suc f) v e k i h = (b, on_message-Incomplete b f v (rw e i), v, e)
  on_message-frames b (m ∷ ms) p (suc f) v e (k, ks) i h =
      let (b1, v1, e1, step) =
        on_message-frame m k b (frames ms ++ p) v (e ∙ append_assoc (frame lib m) (frames ms) p) in
      let (c, o, w, q) = on_message-frames b1 ms p f v1 e1 ks i (omega (arith, h)) in
      (c, step f (map message ms) c o, w, q)
  on_message-frames b ms p zero v e k i h = absurd (omega (arith, h))
