-- ===== src/Poller/Dropped.antt =====
-- The registry without one entry: the last one is dropped, or takes the freed place.
use muduo_net_zxl.Prelude.{
  ℕ, ◌-◌, ◌<◌, ◌≡◌, ◌≢◌, sym, ap, ◌∙◌, false, some, arith, length, get_elem?, set, take, lookup,
  erase, lookup-erase, nat_eq, pos, ◌==◌, get_elem?-lt, get_elem?-set, get_elem?-take,
  get_elem?-take-some, Bool-cases, inl, inr,
}
use muduo_net_zxl.Poller.{PollFd, Poller, owner, put}
use muduo_net_zxl.Poller.Valid.{IsValid, indexed_once}

some_injective {ℓ} : {A : Type ℓ} {x y : A} → some x ≡ some y → x ≡ y
some_injective h = cc

module _ (p : Poller) (a : ℕ) where
  abbrev fd_of : ℕ
  fd_of = (p.store a).fd

  abbrev pub last : ℕ
  last = length p.pollfds - 1

  abbrev pub popped : Poller
  popped = record p { pollfds = take last p.pollfds; channels = erase fd_of p.channels }

  -- The entry `e`, of the channel `z`, moves to index `i`.
  abbrev pub swapped : ℕ → PollFd → ℕ → Poller
  swapped i e z = record {
    pollfds = take last (set p.pollfds i e);
    channels = erase fd_of p.channels;
    store = put p.store z (record (p.store z) { index = pos i });
  }

module _ (p : Poller) (a i : ℕ) (e : PollFd) (v : IsValid p)
    (known : lookup (p.store a).fd p.channels ≡ some a) (at : get_elem? p.pollfds i ≡ some e)
    (here : (p.store a).index ≡ pos i) (own : owner e.fd ≡ (p.store a).fd) where
  -- The entry at another index belongs to another descriptor.
  other_owner :
      (j : ℕ) (f : PollFd)
      → get_elem? p.pollfds j ≡ some f
      → j ≢ i
      → ((p.store a).fd == owner f.fd) ≡ false
  other_owner j f g n = let (b, l, x) = v.entries j f g in ground arith

  -- Another descriptor's channel has another index.
  other_index :
      (gd b j : ℕ)
      → lookup gd p.channels ≡ some b
      → (p.store b).index ≡ pos j
      → (p.store a).fd ≢ gd
      → j ≢ i
  other_index gd b j l x n q =
      n (indexed_once v (p.store a).fd gd a b i known l here (x ∙ ap pos q))

  -- A descriptor that is still there after the erasure is another one.
  still_there :
      (gd b : ℕ)
      → lookup gd (erase (p.store a).fd p.channels) ≡ some b
      → ((p.store a).fd ≢ gd) × (lookup gd p.channels ≡ some b)
  still_there gd b h = ground (arith, lookup-erase (p.store a).fd gd p.channels)

  pub lookup-kept :
      (j : ℕ) (f : PollFd) (b : ℕ)
      → get_elem? p.pollfds j ≡ some f
      → j ≢ i
      → lookup (owner f.fd) p.channels ≡ some b
      → lookup (owner f.fd) (erase (p.store a).fd p.channels) ≡ some b
  lookup-kept j f b g n l =
      ground (arith, lookup-erase (p.store a).fd (owner f.fd) p.channels, other_owner j f g n)

  module _ (at_end : i ≡ last p a) where
    pub popped-IsValid : IsValid (popped p a)
    popped-IsValid = record { entries = keep; indexed = index }
      where
        keep :
            (j : ℕ) (f : PollFd)
            → get_elem? (popped p a).pollfds j ≡ some f
            → (b : ℕ) × (lookup (owner f.fd) (popped p a).channels ≡ some b)
              × ((p.store b).index ≡ pos j)
        keep j f h =
            let (lt, g) = get_elem?-take-some (last p a) p.pollfds j f h in
            let (b, l, x) = v.entries j f g in (b, lookup-kept j f b g (omega arith) l, x)

        index :
            (gd b : ℕ)
            → lookup gd (popped p a).channels ≡ some b
            → ((p.store b).fd ≡ gd)
              × ((j : ℕ) × (f : PollFd) × ((p.store b).index ≡ pos j)
                  × (get_elem? (popped p a).pollfds j ≡ some f)
                  × (owner f.fd ≡ gd))
        index gd b h =
            let (n, l) = still_there gd b h in
            let (x, (j, f, y, g, o)) = v.indexed gd b l in
            let ne : j ≢ i = other_index gd b j l y n in
            (
              x,
              (
                j,
                f,
                y,
                get_elem?-take (last p a) p.pollfds j (omega (arith, get_elem?-lt p.pollfds j f g))
                    ∙ g,
                o,
              ),
            )

  module _ (below : i < last p a) (e' : PollFd) (z : ℕ)
      (at_end : get_elem? p.pollfds (last p a) ≡ some e')
      (is_z : lookup (owner e'.fd) p.channels ≡ some z)
      (z_last : (p.store z).index ≡ pos (last p a)) where
    in_range : i < length p.pollfds
    in_range = get_elem?-lt p.pollfds i e at

    -- Only the channel of the last entry is registered for its descriptor.
    apart_from_last :
        (gd b j : ℕ) (f : PollFd)
        → lookup gd p.channels ≡ some b
        → get_elem? p.pollfds j ≡ some f
        → owner f.fd ≡ gd
        → j ≡ last p a
        → b ≢ z
        → ⊥
    apart_from_last gd b j f l g o q n =
        let s : f ≡ e' = some_injective (sym g ∙ ap (get_elem? p.pollfds) q ∙ at_end) in
        n (
          some_injective (
            sym l
            ∙ ap (λ x. lookup x p.channels) (sym o ∙ ap (λ (x : PollFd). owner x.fd) s)
            ∙ is_z))

    swapped_entry :
        (j : ℕ) (f : PollFd)
        → get_elem? (set p.pollfds i e') j ≡ some f
        → j < last p a
        → (b : ℕ) × (lookup (owner f.fd) (swapped p a i e' z).channels ≡ some b)
          × (((swapped p a i e' z).store b).index ≡ pos j)
    swapped_entry j f g lt = elim (Bool-cases (j == i)) [
      | inl t ↦
          let q : f ≡ e' = ground (arith, get_elem?-set p.pollfds i j e' in_range) in
          (
            z,
            rw (ap (λ (x : PollFd). owner x.fd) q)
                (lookup-kept (last p a) e' z at_end (omega arith) is_z),
            ground arith,
          )
      | inr n ↦
          let h : get_elem? p.pollfds j ≡ some f =
            ground (arith, get_elem?-set p.pollfds i j e' in_range) in
          let (b, l, x) = v.entries j f h in
          let other : (b == z) ≡ false = ground arith in
          (b, lookup-kept j f b h (ground arith) l, ground arith)
    ]

    swapped_index :
        (gd b j : ℕ) (f : PollFd)
        → (p.store a).fd ≢ gd
        → lookup gd p.channels ≡ some b
        → (p.store b).index ≡ pos j
        → get_elem? p.pollfds j ≡ some f
        → owner f.fd ≡ gd
        → (k : ℕ) × (f' : PollFd) × (((swapped p a i e' z).store b).index ≡ pos k)
          × (get_elem? (swapped p a i e' z).pollfds k ≡ some f')
          × (owner f'.fd ≡ gd)
    swapped_index gd b j f n l y g o = elim (Bool-cases (b == z)) [
      | inl t ↦
          let q : f ≡ e' = ground arith in
          (
            i,
            e',
            ground arith,
            get_elem?-take (last p a) (set p.pollfds i e') i below
                ∙ ground (arith, get_elem?-set p.pollfds i i e' in_range),
            ap (λ (x : PollFd). owner x.fd) (sym q) ∙ o,
          )
      | inr m ↦
          let apart : j ≢ last p a = λ q. apart_from_last gd b j f l g o q (ground arith) in
          let ne : j ≢ i = other_index gd b j l y n in
          (
            j,
            f,
            ground arith,
            get_elem?-take (last p a) (set p.pollfds i e') j
                  (omega (arith, get_elem?-lt p.pollfds j f g))
                ∙ ground (arith, get_elem?-set p.pollfds i j e' in_range),
            o,
          )
    ]

    pub swapped-IsValid : IsValid (swapped p a i e' z)
    swapped-IsValid = record {
      entries = λ j f h.
          let (lt, g) = get_elem?-take-some (last p a) (set p.pollfds i e') j f h in
          swapped_entry j f g lt;
      indexed = λ gd b h.
          let (n, l) = still_there gd b h in
          let (x, (j, f, y, g, o)) = v.indexed gd b l in
          (ground arith, swapped_index gd b j f n l y g o);
    }
