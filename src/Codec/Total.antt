-- ===== src/Codec/Total.antt =====
-- `onMessage` on arbitrary bytes.
use muduo_net_zxl.Prelude.{
  ℕ, zero, suc, ◌+◌, ◌≤◌, ◌<◌, ◌≡◌, refl, ap, ◌∙◌, inl, inr, Option, none, some, List, [], ◌∷◌,
  arith, length, take, drop, ltb, leb, Bool-cases, ◌>>=◌, length-drop,
}
use muduo_net_zxl.Buffer.{Buffer, readable_bytes, contents, retrieve, network_to_host32}
use muduo_net_zxl.Buffer.Valid.{IsValid, length-contents}
use muduo_net_zxl.Buffer.Queue.{retrieve-contents}
use muduo_net_zxl.Buffer.Int32.{peek_int32-contents}
use muduo_net_zxl.Codec.{
  Library, ErrorCode, no_error, invalid_length, check_sum_error, invalid_name_len,
  unknown_message_type, parse_error, Outcome, message, error, on_message, parse, bad_length, finish,
}

module _ {Message : Type 0} (lib : Library Message) where
  -- What a run of the loop gives: it ends in a valid buffer.
  abbrev pub Ends : Option (List (Outcome lib) × Buffer) → Type 0
  Ends o = (r : List (Outcome lib) × Buffer) × (o ≡ some r) × IsValid (r.1)

  finish-Ends :
      (rest : Buffer → Option (List (Outcome lib) × Buffer)) (b c : Buffer) (n : ℕ)
      → IsValid b
      → retrieve b n ≡ some c
      → Ends (rest c)
      → (pr : Option Message × ErrorCode) → Ends (finish lib rest b n pr)
  finish-Ends rest b c n v e ((os, d), o, w) (some m, no_error) =
      ((message m ∷ os, d), rw (e, ◌>>=◌, o) refl, w)
  finish-Ends rest b c n v e ends (some m, invalid_length) =
      ((error invalid_length ∷ [], b), refl, v)
  finish-Ends rest b c n v e ends (some m, check_sum_error) =
      ((error check_sum_error ∷ [], b), refl, v)
  finish-Ends rest b c n v e ends (some m, invalid_name_len) =
      ((error invalid_name_len ∷ [], b), refl, v)
  finish-Ends rest b c n v e ends (some m, unknown_message_type) =
      ((error unknown_message_type ∷ [], b), refl, v)
  finish-Ends rest b c n v e ends (some m, parse_error) = ((error parse_error ∷ [], b), refl, v)
  finish-Ends rest b c n v e ends (none, k) = ((error k ∷ [], b), refl, v)

  -- On any bytes the loop ends within as many rounds as there are bytes: no assertion of the buffer
  -- fails, and the buffer it leaves is valid.
  pub on_message-Ends :
      (fuel : ℕ) (b : Buffer)
      → IsValid b
      → length (contents b) < fuel
      → Ends (on_message lib fuel b)
  unfolding on_message
  on_message-Ends (suc f) b v h =
      let r = length-contents v in
      elim (Bool-cases (ltb (readable_bytes b) 14)) [
        | inl t ↦ (([], b), rw t refl, v)
        | inr t ↦
            let long : 14 ≤ readable_bytes b = ground (arith, t) in
            let len = network_to_host32 (take 4 (contents b)) in
            let p = peek_int32-contents b v (omega (arith, long, r)) in
            elim (Bool-cases (bad_length len)) [
              | inl x ↦ ((error invalid_length ∷ [], b), rw (t, p, ◌>>=◌, x) refl, v)
              | inr x ↦ elim (Bool-cases (leb (4 + len) (readable_bytes b))) [
                | inl y ↦
                    let (b1, e, w, q) = retrieve-contents b (4 + len) v (ground (arith, y, r)) in
                    let l1 = ap length q ∙ length-drop (4 + len) (contents b) in
                    let shorter : length (contents b1) < f = omega (arith, l1, r, h, long) in
                    let (o, s, z) =
                      finish-Ends (λ b'. on_message lib f b') b b1 (4 + len) v e
                        (on_message-Ends f b1 w shorter) (parse lib (drop 4 (contents b)) len) in
                    (o, rw (t, p, ◌>>=◌, x, y) s, z)
                | inr y ↦ (([], b), rw (t, p, ◌>>=◌, x, y) refl, v)
              ]
            ]
      ]
  on_message-Ends zero b v h = absurd (omega (arith, h))
