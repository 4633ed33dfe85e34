-- ===== src/Poller/Remove.antt =====
-- `removeChannel`: what it leaves of the registry.
use muduo_net_zxl.Prelude.{
  ℕ, ◌+◌, ◌<◌, ◌≡◌, ◌≢◌, ◌∙◌, true, none, some, arith, length, get_elem?, set, lookup, erase,
  lookup-erase, nat_eq, pos, ◌==◌, get_elem?-lt, get_elem?-exists, Bool-cases, inl, inr,
  length-take, length-set,
}
use muduo_net_zxl.Channel.{is_none_event}
use muduo_net_zxl.Poller.{PollFd, Poller, owner, drop_entry, remove_at, remove_channel}
use muduo_net_zxl.Poller.Valid.{IsValid, serves-owner}
use muduo_net_zxl.Poller.Dropped.{
  last, popped, swapped, lookup-kept, popped-IsValid, swapped-IsValid,
}

-- What a removal leaves: the channel is unknown, all others are known as before, and the array is
-- one entry shorter.
pub record Removed (p : Poller) (a : ℕ) (q : Poller) : Type 0 where
  pub valid : IsValid q
  pub gone : lookup (p.store a).fd q.channels ≡ none
  pub others : (gd : ℕ) → (p.store a).fd ≢ gd → lookup gd q.channels ≡ lookup gd p.channels
  pub shorter : length q.pollfds + 1 ≡ length p.pollfds

module _ (p : Poller) (a i : ℕ) (e : PollFd) (v : IsValid p)
    (known : lookup (p.store a).fd p.channels ≡ some a) (at : get_elem? p.pollfds i ≡ some e)
    (here : (p.store a).index ≡ pos i) (own : owner e.fd ≡ (p.store a).fd) where
  gone_lem : lookup (p.store a).fd (erase (p.store a).fd p.channels) ≡ none
  gone_lem = ground (arith, lookup-erase (p.store a).fd (p.store a).fd p.channels)

  others_lem :
      (gd : ℕ)
      → (p.store a).fd ≢ gd
      → lookup gd (erase (p.store a).fd p.channels) ≡ lookup gd p.channels
  others_lem gd n = ground (arith, lookup-erase (p.store a).fd gd p.channels)

  drop_entry-Removed : (q : Poller) × (drop_entry p (p.store a).fd i ≡ some q) × Removed p a q
  unfolding drop_entry
  drop_entry-Removed =
      let lt = get_elem?-lt p.pollfds i e at in
      elim (Bool-cases (i == last p a)) [
        | inl t ↦ (
          popped p a,
          ground arith,
          record {
            valid = popped-IsValid p a i e v known at here own (ground arith);
            gone = gone_lem;
            others = others_lem;
            shorter = omega (arith, length-take (last p a) p.pollfds);
          },
        )
        | inr n ↦
            let (e', g) = get_elem?-exists p.pollfds (last p a) (omega arith) in
            let (z, l, x) = v.entries (last p a) e' g in
            let below : i < last p a = ground arith in
            let kept = lookup-kept p a i e v known at here own (last p a) e' z g (omega arith) l in
            (
              swapped p a i e' z,
              ground (arith, kept),
              record {
                valid = swapped-IsValid p a i e v known at here own below e' z g l x;
                gone = gone_lem;
                others = others_lem;
                shorter =
                    omega (
                      arith,
                      length-take (last p a) (set p.pollfds i e'),
                      length-set p.pollfds i e',
                    );
              },
            )
      ]

  remove_at-drop_entry :
      is_none_event (p.store a) ≡ true → remove_at p a i ≡ drop_entry p (p.store a).fd i
  unfolding remove_at
  remove_at-drop_entry n = ground (arith, get_elem?-lt p.pollfds i e at, serves-owner e.fd)

remove_channel-at :
    (p : Poller) (a i : ℕ) → (p.store a).index ≡ pos i → remove_channel p a ≡ remove_at p a i
unfolding remove_channel
remove_channel-at p a i e = ground arith

-- `removeChannel` of a registered channel that asks for nothing fails no assertion, takes out that
-- channel alone, and keeps the registry consistent although the last entry may have moved.
pub remove_channel-Removed :
    (p : Poller) (a : ℕ)
    → IsValid p
    → lookup (p.store a).fd p.channels ≡ some a
    → is_none_event (p.store a) ≡ true
    → (q : Poller) × (remove_channel p a ≡ some q) × Removed p a q
remove_channel-Removed p a v l n =
    let (x, (i, e, y, g, o)) = v.indexed (p.store a).fd a l in
    let (q, d, r) = drop_entry-Removed p a i e v l g y o in
    (q, remove_channel-at p a i y ∙ remove_at-drop_entry p a i e v l g y o n ∙ d, r)
