-- ===== src/Poller/Fill.antt =====
-- `fillActiveChannels`: which channels it collects, and with which events.
use muduo_net_zxl.Prelude.{
  ℕ, zero, suc, ◌-◌, ◌<◌, ◌≡◌, refl, sym, ◌∙◌, true, false, Option, none, some, List, [], ◌∷◌,
  arith, lookup, nat_eq, pos, ◌==◌, ltb, if◌then◌else◌, Bool-cases, inl, inr,
}
use muduo_net_zxl.Channel.{Channel}
use muduo_net_zxl.Poller.{PollFd, owner, put, entry_channel, fill_active_channels}

-- The number of entries with events, which is what `::poll` returns.
pub count_ready : List PollFd → ℕ
count_ready [] = 0
count_ready (e ∷ es) = if ltb 0 e.revents then suc (count_ready es) else count_ready es

abbrev pub or_zero : Option ℕ → ℕ
or_zero none = 0
or_zero (some a) = a

-- The registered channels of the entries with events, in the order of the array.
pub ready_channels : List (ℕ × ℕ) → List PollFd → List ℕ
ready_channels channels [] = []
ready_channels channels (e ∷ es) =
    if ltb 0 e.revents
    then or_zero (lookup (owner e.fd) channels) ∷ ready_channels channels es
    else ready_channels channels es

module _ (channels : List (ℕ × ℕ)) (base : ℕ → Channel) where
  -- The store differs from the first one in reported events only.
  abbrev pub Same : (ℕ → Channel) → Type 0
  Same store = (a : ℕ) → ((store a).fd ≡ (base a).fd) × ((store a).index ≡ (base a).index)

  -- The entry at index `k` has its channel, and is not muted if it reports something.
  pub record Known (k : ℕ) (e : PollFd) : Type 0 where
    pub channel : ℕ
    pub found : lookup (owner e.fd) channels ≡ some channel
    pub fd_is : (base channel).fd ≡ owner e.fd
    pub index_is : (base channel).index ≡ pos k
    pub live : 0 < e.revents → e.fd ≡ pos (owner e.fd)

  abbrev pub AllKnown : ℕ → List PollFd → Type 0
  AllKnown k [] = Unit {0}
  AllKnown k (e ∷ es) = Known k e × AllKnown (suc k) es

  abbrev pub Delivered : (ℕ → Channel) → List PollFd → Type 0
  Delivered store [] = Unit {0}
  Delivered store (e ∷ es) =
      (0 < e.revents → (store (or_zero (lookup (owner e.fd) channels))).revents ≡ e.revents)
      × Delivered store es

  pub record Filled (k : ℕ) (es : List PollFd) (store final : ℕ → Channel) : Type 0 where
    pub same : Same final
    pub before : (b i : ℕ) → (base b).index ≡ pos i → i < k → final b ≡ store b
    pub delivered : Delivered final es

  entry_channel-Known :
      (k : ℕ) (e : PollFd) (store : ℕ → Channel)
      → Same store
      → (w : Known k e) → 0 < e.revents
      → entry_channel e channels store ≡ some w.channel
  unfolding entry_channel
  entry_channel-Known k e store s w h = ground (arith, w.live h, w.found, w.fd_is, s w.channel)

  put-Same :
      (store : ℕ → Channel) (a r : ℕ)
      → Same store
      → Same (put store a (record (store a) { revents = r }))
  put-Same store a r s b = (ground (arith, s b), ground (arith, s b))

  pub fill_zero :
      (es : List PollFd) (store : ℕ → Channel)
      → fill_active_channels es 0 channels store ≡ some ([], store)
  unfolding fill_active_channels
  fill_zero [] store = refl
  fill_zero (e ∷ es) store = refl

  fill_nil :
      (n : ℕ) (store : ℕ → Channel) → fill_active_channels [] n channels store ≡ some ([], store)
  unfolding fill_active_channels
  fill_nil n store = refl

  fill_skip :
      (n : ℕ) (e : PollFd) (es : List PollFd) (store : ℕ → Channel)
      → ltb 0 e.revents ≡ false
      → fill_active_channels (e ∷ es) n channels store ≡ fill_active_channels es n channels store
  unfolding fill_active_channels
  fill_skip zero e es store f = sym (fill_zero es store)
  fill_skip (suc n) e es store f = ground arith

  fill_take :
      (n a : ℕ) (e : PollFd) (es : List PollFd) (xs : List ℕ) (store final : ℕ → Channel)
      → ltb 0 e.revents ≡ true
      → 0 < n
      → entry_channel e channels store ≡ some a
      → fill_active_channels es
          (n - 1)
          channels
          (put store a (record (store a) { revents = e.revents }))
        ≡ some (xs, final)
      → fill_active_channels (e ∷ es) n channels store ≡ some (a ∷ xs, final)
  unfolding fill_active_channels
  fill_take n a e es xs store final t h c r = ground (arith, c, r)

  Filled-skip :
      (k : ℕ) (e : PollFd) (es : List PollFd) (store final : ℕ → Channel)
      → ltb 0 e.revents ≡ false
      → Filled (suc k) es store final
      → Filled k (e ∷ es) store final
  Filled-skip k e es store final f r = record {
    same = r.same;
    before = λ b i x h. r.before b i x (omega arith);
    delivered = (λ h. absurd (ground arith), r.delivered);
  }

  Filled-take :
      (k : ℕ) (e : PollFd) (es : List PollFd) (store final : ℕ → Channel) (w : Known k e)
      → Filled
          (suc k)
          es
          (put store w.channel (record (store w.channel) { revents = e.revents }))
          final
      → Filled k (e ∷ es) store final
  Filled-take k e es store final w r = record {
    same = r.same;
    before = λ b i x h.
        r.before b i x (omega arith)
        ∙ (let other : (b == w.channel) ≡ false = ground (arith, w.index_is) in ground arith);
    delivered =
        (λ h. ground (arith, w.found, r.before w.channel k w.index_is (omega arith)), r.delivered);
  }

  pub fill_active_channels-Filled :
      (k n : ℕ) (es : List PollFd) (store : ℕ → Channel)
      → Same store
      → AllKnown k es
      → n ≡ count_ready es
      → (final : ℕ → Channel) × (fill_active_channels es n channels store
          ≡ some (ready_channels channels es, final))
        × Filled k es store final
  unfolding count_ready ready_channels
  fill_active_channels-Filled k n [] store s a c =
      (store, fill_nil n store, record { same = s; before = λ b i x h. refl; delivered = tt })
  fill_active_channels-Filled k n (e ∷ es) store s (w, a) c = elim (Bool-cases (ltb 0 e.revents)) [
    | inl t ↦
        let (final, q, r) =
          fill_active_channels-Filled (suc k) (n - 1) es
            (put store w.channel (record (store w.channel) { revents = e.revents }))
            (put-Same store w.channel e.revents s) a (ground arith) in
        (
          final,
          fill_take n w.channel e es _ store final t (ground arith)
                (entry_channel-Known k e store s w (ground arith)) q
              ∙ ground (arith, w.found),
          Filled-take k e es store final w r,
        )
    | inr f ↦
        let (final, q, r) = fill_active_channels-Filled (suc k) n es store s a (ground arith) in
        (final, fill_skip n e es store f ∙ q ∙ ground arith, Filled-skip k e es store final f r)
  ]
