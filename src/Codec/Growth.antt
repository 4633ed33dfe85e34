-- ===== src/Codec/Growth.antt =====
-- The array of a buffer from which messages are taken.
use muduo_net_zxl.Prelude.{
  ℕ, zero, suc, ◌≡◌, ap, ◌∙◌, Option, none, some, List, arith, drop, ◌+◌, ltb, leb, Bool-cases,
  Option-cases, inl, inr, ◌>>=◌,
}
use muduo_net_zxl.Buffer.{Buffer, readable_bytes, contents, retrieve, peek_int32}
use muduo_net_zxl.Codec.{
  Library, ErrorCode, no_error, invalid_length, check_sum_error, invalid_name_len,
  unknown_message_type, parse_error, Outcome, on_message, parse, bad_length, finish,
}

retrieve-buffer : (b c : Buffer) (n : ℕ) → retrieve b n ≡ some c → c.buffer ≡ b.buffer
unfolding retrieve
retrieve-buffer b c n e = ground (arith, e)

module _ {Message : Type 0} (lib : Library Message) where
  abbrev SameArray : Buffer → Option (List (Outcome lib) × Buffer) → Type 0
  SameArray b o = (os : List (Outcome lib)) (c : Buffer) → o ≡ some (os, c) → c.buffer ≡ b.buffer

  next-SameArray :
      (rest : Buffer → Option (List (Outcome lib) × Buffer)) (b : Buffer) (n : ℕ) (parsed : Message)
      → ((b' : Buffer) → SameArray b' (rest b'))
      → SameArray b (finish lib rest b n (some parsed, no_error))
  next-SameArray rest b n parsed h os c k = elim (Option-cases (retrieve b n)) [
    | inl e ↦ ground (arith, k, e)
    | inr (b', e) ↦ elim (Option-cases (rest b')) [
      | inl z ↦ ground (arith, k, e, z)
      | inr ((ps, d), z) ↦
          let f : c ≡ d = ground (arith, k, e, z) in
          ap (λ (x : Buffer). x.buffer) f ∙ h b' ps d z ∙ retrieve-buffer b b' n e
    ]
  ]

  finish-SameArray :
      (rest : Buffer → Option (List (Outcome lib) × Buffer)) (b : Buffer) (n : ℕ)
      → ((b' : Buffer) → SameArray b' (rest b'))
      → (pr : Option Message × ErrorCode) → SameArray b (finish lib rest b n pr)
  finish-SameArray rest b n h (some m, no_error) = next-SameArray rest b n m h
  finish-SameArray rest b n h (some m, invalid_length) = λ os c k. ground (arith, k)
  finish-SameArray rest b n h (some m, check_sum_error) = λ os c k. ground (arith, k)
  finish-SameArray rest b n h (some m, invalid_name_len) = λ os c k. ground (arith, k)
  finish-SameArray rest b n h (some m, unknown_message_type) = λ os c k. ground (arith, k)
  finish-SameArray rest b n h (some m, parse_error) = λ os c k. ground (arith, k)
  finish-SameArray rest b n h (none, e) = λ os c k. ground (arith, k)

  -- `onMessage` moves an index and leaves the array as it is.
  pub on_message-SameArray : (fuel : ℕ) (b : Buffer) → SameArray b (on_message lib fuel b)
  unfolding on_message
  on_message-SameArray zero b os c k = ground (arith, k)
  on_message-SameArray (suc f) b os c k = elim (Bool-cases (ltb (readable_bytes b) 14)) [
    | inl t ↦ ground (arith, k, t)
    | inr t ↦ elim (Option-cases (peek_int32 b)) [
      | inl e ↦ ground (arith, k, t, e)
      | inr (len, e) ↦ elim (Bool-cases (bad_length len)) [
        | inl x ↦ ground (arith, k, t, e, x)
        | inr x ↦ elim (Bool-cases (leb (4 + len) (readable_bytes b))) [
          | inl y ↦
              finish-SameArray (λ b'. on_message lib f b') b (4 + len)
                (λ b' ps d z. on_message-SameArray f b' ps d z)
                (parse lib (drop 4 (contents b)) len) os c (rw (t, e, ◌>>=◌, x, y) at k)
          | inr y ↦ ground (arith, k, t, e, x, y)
        ]
      ]
    ]
  ]
