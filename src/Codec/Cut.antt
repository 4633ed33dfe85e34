-- ===== src/Codec/Cut.antt =====
-- Streams that stop inside a frame, or go on with a length that no frame has.
use muduo_net_zxl.Prelude.{
  ℕ, zero, suc, ◌+◌, ◌≤◌, ◌<◌, ◌≡◌, refl, ap, ◌∙◌, inl, inr, some, List, [], ◌∷◌, arith, length,
  take, dec_lt, length-take,
}
use muduo_net_zxl.Buffer.{Buffer, contents, network_to_host32}
use muduo_net_zxl.Buffer.Valid.{IsValid}
use muduo_net_zxl.Buffer.Int32.{network_to_host32-append}
use muduo_net_zxl.Codec.{Library, on_message}
use muduo_net_zxl.Codec.Frame.{body, frame, Known, length-body, length-frame}
use muduo_net_zxl.Codec.Receive.{Incomplete, on_message-Incomplete}

take_take_lem : {A : Type 0} (n k : ℕ) (xs : List A) → n ≤ k → take n (take k xs) ≡ take n xs
take_take_lem zero k xs h = refl
take_take_lem (suc n) (suc k) [] h = refl
take_take_lem (suc n) (suc k) (x ∷ xs) h = ap (λ l. x ∷ l) (take_take_lem n k xs (omega (arith, h)))
take_take_lem (suc n) zero xs h = absurd (omega (arith, h))

module _ {Message : Type 0} (lib : Library Message) where
  pub take-frame-Incomplete :
      (m : Message) (k : ℕ)
      → Known lib m
      → k < length (frame lib m)
      → Incomplete (take k (frame lib m))
  unfolding frame
  take-frame-Incomplete m k known h = elim (dec_lt k 14) [
    | yes short ↦ inl (omega (arith, short, length-take k (frame lib m)))
    | no long ↦
        let e : network_to_host32 (take 4 (take k (frame lib m))) ≡ length (body lib m) + 4 =
          ap network_to_host32 (take_take_lem 4 k (frame lib m) (omega (arith, long)))
          ∙ network_to_host32-append (length (body lib m) + 4) _ (omega (arith, known.small)) in
        inr (
          omega (arith, e, length-body lib m, known.named),
          omega (arith, e, known.small),
          omega (arith, e, h, length-frame lib m, length-take k (frame lib m)),
        )
  ]

  -- However a frame is cut, `onMessage` on what is there of it tells the owner nothing and leaves the
  -- buffer as it is.
  pub on_message-take :
      (m : Message) (k fuel : ℕ) (b : Buffer)
      → Known lib m
      → IsValid b
      → contents b ≡ take k (frame lib m)
      → k < length (frame lib m)
      → on_message lib (suc fuel) b ≡ some ([], b)
  on_message-take m k fuel b known v e h =
      on_message-Incomplete lib b fuel v (rw e (take-frame-Incomplete m k known h))
