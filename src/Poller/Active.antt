-- ===== src/Poller/Active.antt =====
-- `poll`: which channels are reported, and with which events.
use muduo_net_zxl.Prelude.{
  ℕ, zero, suc, ◌+◌, ◌<◌, ◌≡◌, refl, sym, ap, ◌∙◌, some, List, [], ◌∷◌, arith, get_elem?, lookup,
  nat_eq, pos,
}
use muduo_net_zxl.Channel.{Channel}
use muduo_net_zxl.Poller.{PollFd, Poller, owner, fill_active_channels, set_revents, poll, ready}
use muduo_net_zxl.Poller.Valid.{IsValid}
use muduo_net_zxl.Poller.Fill.{
  count_ready, ready_channels, Same, Known, AllKnown, Delivered, fill_active_channels-Filled,
  fill_zero,
}

get_elem?-set_revents :
    (es : List PollFd) (rs : List ℕ) (i : ℕ) (e : PollFd)
    → get_elem? (set_revents es rs) i ≡ some e
    → (f : PollFd) × (get_elem? es i ≡ some f) × (e.fd ≡ f.fd)
unfolding set_revents
get_elem?-set_revents [] rs i e h = cc
get_elem?-set_revents (f ∷ es) [] i e h = (e, h, refl)
get_elem?-set_revents (f ∷ es) (r ∷ rs) zero e h = (f, refl, ground arith)
get_elem?-set_revents (f ∷ es) (r ∷ rs) (suc i) e h = get_elem?-set_revents es rs i e h

get_elem?-set_revents_back :
    (es : List PollFd) (rs : List ℕ) (i : ℕ) (f : PollFd)
    → get_elem? es i ≡ some f
    → (e : PollFd) × (get_elem? (set_revents es rs) i ≡ some e) × (e.fd ≡ f.fd)
unfolding set_revents
get_elem?-set_revents_back [] rs i f h = cc
get_elem?-set_revents_back (g ∷ es) [] i f h = (f, h, refl)
get_elem?-set_revents_back (g ∷ es) (r ∷ rs) zero f h =
    (record g { revents = r }, refl, ground arith)
get_elem?-set_revents_back (g ∷ es) (r ∷ rs) (suc i) f h = get_elem?-set_revents_back es rs i f h

-- `::poll` reports nothing for an entry with a negative descriptor.
abbrev pub Reports : Poller → List ℕ → Type 0
Reports p rs =
    (i : ℕ) (e : PollFd)
    → get_elem? (set_revents p.pollfds rs) i ≡ some e
    → 0 < e.revents
    → e.fd ≡ pos (owner e.fd)

all_known :
    (channels : List (ℕ × ℕ)) (base : ℕ → Channel) (k : ℕ) (es : List PollFd)
    → ((i j : ℕ) (e : PollFd) → get_elem? es i ≡ some e → j ≡ k + i → Known channels base j e)
    → AllKnown channels base k es
all_known channels base k [] h = tt
all_known channels base k (e ∷ es) h = (
  h 0 k e refl (omega arith),
  all_known channels base (suc k) es (λ i j f g q. h (suc i) j f g (omega arith)),
)

-- What a wait leaves: the registry is consistent, and every channel whose entry has events has been
-- told exactly those.
pub record Polled (p : Poller) (rs : List ℕ) (q : Poller) : Type 0 where
  pub valid : IsValid q
  pub told : Delivered p.channels p.store q.store (set_revents p.pollfds rs)
  pub same : q.channels ≡ p.channels

polled-IsValid :
    (p : Poller) (rs : List ℕ) (final : ℕ → Channel)
    → IsValid p
    → Same p.channels p.store final
    → IsValid (record p { pollfds = set_revents p.pollfds rs; store = final })
polled-IsValid p rs final v s = record {
  entries = λ i e h.
      let (f, g, q) = get_elem?-set_revents p.pollfds rs i e h in
      let (a, l, x) = v.entries i f g in
      (a, ap (λ x. lookup (owner x) p.channels) q ∙ l, (s a).1 ∙ x);
  indexed = λ fd a l.
      let (x, (i, f, y, g, o)) = v.indexed fd a l in
      let (e, h, q) = get_elem?-set_revents_back p.pollfds rs i f g in
      ((s a).0 ∙ x, (i, e, (s a).1 ∙ y, h, ap owner q ∙ o));
}

known_entry :
    (p : Poller) (rs : List ℕ) (v : IsValid p) (live : Reports p rs) (i j : ℕ) (e : PollFd)
    → get_elem? (set_revents p.pollfds rs) i ≡ some e
    → j ≡ i
    → Known p.channels p.store j e
known_entry p rs v live i j e h eq =
    let (f, g, q) = get_elem?-set_revents p.pollfds rs i e h in
    let (a, l, x) = v.entries i f g in
    let own : lookup (owner e.fd) p.channels ≡ some a =
      ap (λ x. lookup (owner x) p.channels) q ∙ l in
    record {
      channel = a;
      found = own;
      fd_is = (v.indexed (owner e.fd) a own).0;
      index_is = x ∙ ap pos (sym eq);
      live = live i e h;
    }

-- With no event reported the loop is skipped, which comes to the same.
poll_counts :
    (p : Poller) (rs : List ℕ) (final : ℕ → Channel) (n : ℕ) (xs : List ℕ)
    → fill_active_channels (set_revents p.pollfds rs) n p.channels p.store ≡ some (xs, final)
    → poll p (ready n rs)
      ≡ some (xs, record p { pollfds = set_revents p.pollfds rs; store = final })
unfolding poll
poll_counts p rs final zero xs f =
    ground (arith, fill_zero p.channels p.store (set_revents p.pollfds rs) p.store)
poll_counts p rs final (suc n) xs f = ground (arith, f)

-- When `::poll` reports events for some entries, none of them muted, and returns their number, then
-- no assertion fails, the active channels are those of the entries with events, in the order of the
-- array, and each has been told its events.
pub poll-Polled :
    (p : Poller) (rs : List ℕ)
    → IsValid p
    → Reports p rs
    → (q : Poller) × (poll p (ready (count_ready (set_revents p.pollfds rs)) rs)
        ≡ some (ready_channels p.channels (set_revents p.pollfds rs), q))
      × Polled p rs q
poll-Polled p rs v live =
    let es = set_revents p.pollfds rs in
    let known =
      all_known p.channels p.store 0 es
        (λ i j e h q. known_entry p rs v live i j e h (omega arith)) in
    let (final, f, r) =
      fill_active_channels-Filled p.channels p.store 0 (count_ready es) es p.store
        (λ a. (refl, refl)) known refl in
    (
      record p { pollfds = es; store = final },
      poll_counts p rs final (count_ready es) _ f,
      record { valid = polled-IsValid p rs final v r.same; told = r.delivered; same = refl },
    )
