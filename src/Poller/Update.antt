-- ===== src/Poller/Update.antt =====
-- `updateChannel` and the consistency of the registry, for a new channel and for a registered one.
use muduo_net_zxl.Prelude.{
  ℕ, ◌≡◌, ◌≢◌, true, refl, ap, ◌∙◌, ◌⊎◌, inl, inr, false, none, some, [], ◌∷◌, ◌++◌, arith, length,
  get_elem?, set, lookup, insert, lookup-insert, nat_eq, pos, negsuc, ◌==◌, get_elem?-append_one,
  get_elem?-append_left, get_elem?-append_end, get_elem?-lt, get_elem?-set, Bool-cases,
}
use muduo_net_zxl.Channel.{is_none_event}
use muduo_net_zxl.Poller.{
  PollFd, Poller, owner, put, muted, updated, add_channel, change_channel, update_channel,
}
use muduo_net_zxl.Poller.Valid.{IsValid, serves-owner}

module _ (p : Poller) (a : ℕ) where
  abbrev new_entry : PollFd
  new_entry = record { fd = pos (p.store a).fd; events = (p.store a).events; revents = 0 }

  abbrev added : Poller
  added = record {
    pollfds = p.pollfds ++ new_entry ∷ [];
    channels = insert (p.store a).fd a p.channels;
    store = put p.store a (record (p.store a) { index = pos (length p.pollfds) });
  }

  -- A registered channel's entry takes over what the channel asks for.
  abbrev changed : ℕ → PollFd → Poller
  changed i e = record p { pollfds = set p.pollfds i (updated e (p.store a)) }

module _ (p : Poller) (a : ℕ) (v : IsValid p) where
  module _ (fresh : lookup (p.store a).fd p.channels ≡ none) where
    add_channel-added : add_channel p a ≡ some (added p a)
    unfolding add_channel
    add_channel-added = ground arith

    -- The channels that are registered already keep their place.
    other_channel : (fd b : ℕ) → lookup fd p.channels ≡ some b → (b == a) ≡ false
    other_channel fd b l = let (e, _) = v.indexed fd b l in ground arith

    other_fd : (fd b : ℕ) → lookup fd p.channels ≡ some b → ((p.store a).fd == fd) ≡ false
    other_fd fd b l = ground arith

    added-entries :
        (i : ℕ) (e : PollFd)
        → get_elem? (added p a).pollfds i ≡ some e
        → (b : ℕ) × (lookup (owner e.fd) (added p a).channels ≡ some b)
          × (((added p a).store b).index ≡ pos i)
    added-entries i e h = elim (get_elem?-append_one p.pollfds (new_entry p a) e i h) [
      | inl (g, lt) ↦
          let (b, l, x) = v.entries i e g in
          (
            b,
            ground (
              arith,
              lookup-insert (p.store a).fd (owner e.fd) a p.channels,
              other_fd (owner e.fd) b l,
            ),
            ground (arith, other_channel (owner e.fd) b l),
          )
      | inr (n, eq) ↦ (
        a,
        ground (arith, lookup-insert (p.store a).fd (owner e.fd) a p.channels, ap (λ x. x.fd) eq),
        ground arith,
      )
    ]

    added-indexed :
        (fd b : ℕ)
        → lookup fd (added p a).channels ≡ some b
        → (((added p a).store b).fd ≡ fd)
          × ((i : ℕ) × (e : PollFd) × (((added p a).store b).index ≡ pos i)
              × (get_elem? (added p a).pollfds i ≡ some e)
              × (owner e.fd ≡ fd))
    added-indexed fd b h = elim (Bool-cases ((p.store a).fd == fd)) [
      | inl t ↦
          let same : b ≡ a = ground (arith, lookup-insert (p.store a).fd fd a p.channels) in
          (
            ground arith,
            (
              length p.pollfds,
              (new_entry p a),
              ground arith,
              get_elem?-append_end p.pollfds (new_entry p a),
              ground arith,
            ),
          )
      | inr f ↦
          let l : lookup fd p.channels ≡ some b =
            ground (arith, lookup-insert (p.store a).fd fd a p.channels) in
          let (x, (i, e, y, g, o)) = v.indexed fd b l in
          (
            ground (arith, other_channel fd b l),
            (
              i,
              e,
              ground (arith, other_channel fd b l),
              get_elem?-append_left p.pollfds ((new_entry p a) ∷ []) i
                    (get_elem?-lt p.pollfds i e g)
                  ∙ g,
              o,
            ),
          )
    ]

    added-IsValid : IsValid (added p a)
    added-IsValid = record { entries = added-entries; indexed = added-indexed }

  module _ (i : ℕ) (e : PollFd) (known : lookup (p.store a).fd p.channels ≡ some a)
      (at : get_elem? p.pollfds i ≡ some e) (here : (p.store a).index ≡ pos i)
      (own : owner e.fd ≡ (p.store a).fd) where
    change_channel-changed : change_channel p a i ≡ some (changed p a i e)
    unfolding change_channel
    change_channel-changed = ground (arith, get_elem?-lt p.pollfds i e at, serves-owner e.fd)

    owner-updated : owner (updated e (p.store a)).fd ≡ (p.store a).fd
    owner-updated = ground arith

    changed-entries :
        (j : ℕ) (f : PollFd)
        → get_elem? (changed p a i e).pollfds j ≡ some f
        → (b : ℕ) × (lookup (owner f.fd) p.channels ≡ some b) × ((p.store b).index ≡ pos j)
    changed-entries j f h = elim (Bool-cases (j == i)) [
      | inl t ↦
          let q : f ≡ updated e (p.store a) = ground (
            arith,
            get_elem?-set p.pollfds i j (updated e (p.store a)) (get_elem?-lt p.pollfds i e at),
          ) in
          (a, rw (ap (λ (x : PollFd). owner x.fd) q) (rw owner-updated known), ground arith)
      | inr n ↦ v.entries j f (
          ground (
            arith,
            get_elem?-set p.pollfds i j (updated e (p.store a)) (get_elem?-lt p.pollfds i e at),
          ))
    ]

    changed-indexed :
        (fd b : ℕ)
        → lookup fd p.channels ≡ some b
        → ((p.store b).fd ≡ fd)
          × ((j : ℕ) × (f : PollFd) × ((p.store b).index ≡ pos j)
              × (get_elem? (changed p a i e).pollfds j ≡ some f)
              × (owner f.fd ≡ fd))
    changed-indexed fd b l =
        let (x, (j, f, y, g, o)) = v.indexed fd b l in
        let s =
          get_elem?-set p.pollfds i j (updated e (p.store a)) (get_elem?-lt p.pollfds i e at) in
        elim (Bool-cases (j == i)) [
          | inl t ↦
              (x, (j, updated e (p.store a), y, ground (arith, s), ground (arith, owner-updated)))
          | inr n ↦ (x, (j, f, y, ground (arith, s), o))
        ]

    changed-IsValid : IsValid (changed p a i e)
    changed-IsValid = record { entries = changed-entries; indexed = changed-indexed }

-- A channel that `updateChannel` accepts: a new one whose descriptor is free, or a registered one.
abbrev pub CanUpdate : Poller → ℕ → Type 0
CanUpdate p a =
    ((n : ℕ) × ((p.store a).index ≡ negsuc n) × (lookup (p.store a).fd p.channels ≡ none))
    ⊎ (lookup (p.store a).fd p.channels ≡ some a)

-- What an accepted update leaves of a channel.
pub record Registered (p : Poller) (a : ℕ) (q : Poller) : Type 0 where
  pub valid : IsValid q
  pub found : lookup (p.store a).fd q.channels ≡ some a
  pub place : ℕ
  pub entry : PollFd
  pub index_is : (q.store a).index ≡ pos place
  pub entry_is : get_elem? q.pollfds place ≡ some entry
  pub events_are : entry.events ≡ (p.store a).events
  pub new_fd : lookup (p.store a).fd p.channels ≡ none → entry.fd ≡ pos (p.store a).fd
  pub idle_fd :
      lookup (p.store a).fd p.channels ≡ some a
      → is_none_event (p.store a) ≡ true
      → entry.fd ≡ muted (p.store a).fd
  pub kept_fd :
      lookup (p.store a).fd p.channels ≡ some a
      → is_none_event (p.store a) ≡ false
      → (e : PollFd) → get_elem? p.pollfds place ≡ some e
      → entry.fd ≡ e.fd
  pub others_same :
      (j : ℕ) (e : PollFd)
      → j ≢ place
      → get_elem? p.pollfds j ≡ some e
      → get_elem? q.pollfds j ≡ some e

update_channel-change :
    (p : Poller) (a i : ℕ) → (p.store a).index ≡ pos i → update_channel p a ≡ change_channel p a i
unfolding update_channel
update_channel-change p a i e = ground arith

-- `updateChannel` of a channel that is registered, or new with a descriptor that no channel has, fails
-- no assertion. It keeps the registry consistent and changes no other entry. The channel's entry has the
-- channel's events, and its descriptor is the channel's own if the channel is new; if it was registered,
-- the entry is muted when the channel asks for nothing, and keeps the descriptor it had when the channel
-- asks for something, so that a muted one stays muted.
pub update_channel-Registered :
    (p : Poller) (a : ℕ)
    → IsValid p
    → CanUpdate p a
    → (q : Poller) × (update_channel p a ≡ some q) × Registered p a q
unfolding update_channel
update_channel-Registered p a v (inl (n, i, f)) = (
  added p a,
  rw (i, update_channel) (add_channel-added p a v f),
  record {
    valid = added-IsValid p a v f;
    found = ground (arith, lookup-insert (p.store a).fd (p.store a).fd a p.channels);
    place = length p.pollfds;
    entry = new_entry p a;
    index_is = ground arith;
    entry_is = get_elem?-append_end p.pollfds (new_entry p a);
    events_are = refl;
    new_fd = λ h. refl;
    idle_fd = λ h. absurd (ground (arith, h, f));
    kept_fd = λ h. absurd (ground (arith, h, f));
    others_same = λ j e n h.
        get_elem?-append_left p.pollfds (new_entry p a ∷ []) j (get_elem?-lt p.pollfds j e h) ∙ h;
  },
)
update_channel-Registered p a v (inr l) =
    let (x, (i, e, y, g, o)) = v.indexed (p.store a).fd a l in
    (
      changed p a i e,
      update_channel-change p a i y ∙ change_channel-changed p a v i e l g y o,
      record {
        valid = changed-IsValid p a v i e l g y o;
        found = l;
        place = i;
        entry = updated e (p.store a);
        index_is = y;
        entry_is = ground (
          arith,
          get_elem?-set p.pollfds i i (updated e (p.store a)) (get_elem?-lt p.pollfds i e g),
        );
        events_are = refl;
        new_fd = λ h. absurd (ground (arith, h, l));
        idle_fd = λ h n. ground (arith, n);
        kept_fd = λ h n d k. ground (arith, n, k, g);
        others_same = λ j d n h. ground (
          arith,
          get_elem?-set p.pollfds i j (updated e (p.store a)) (get_elem?-lt p.pollfds i e g),
          h,
          n,
        );
      },
    )
