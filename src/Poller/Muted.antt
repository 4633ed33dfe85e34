-- ===== src/Poller/Muted.antt =====
-- `disableAll` mutes a channel's entry by a negative descriptor. An update that asks for events again
-- does not write the descriptor back.
use muduo_net_zxl.Prelude.{
  ℕ, ◌≡◌, refl, some, arith, get_elem?, set, lookup, nat_eq, pos, get_elem?-lt, get_elem?-set,
}
use muduo_net_zxl.Poller.{PollFd, Poller, update_channel, muted, change_channel, updated}

-- Whatever events a registered channel asks for, once its entry is muted an update leaves the entry
-- muted, so that `::poll` goes on ignoring it.
pub update_channel-muted :
    (p : Poller) (a i fd : ℕ) (e : PollFd)
    → lookup (p.store a).fd p.channels ≡ some a
    → (p.store a).index ≡ pos i
    → (p.store a).fd ≡ fd
    → get_elem? p.pollfds i ≡ some e
    → e.fd ≡ muted fd
    → (q : Poller) × (f : PollFd) × (update_channel p a ≡ some q)
      × (get_elem? q.pollfds i ≡ some f)
      × (f.events ≡ (p.store a).events)
      × (f.fd ≡ muted fd)
unfolding update_channel change_channel
update_channel-muted p a i fd e l x h g m = (
  record p { pollfds = set p.pollfds i (updated e (p.store a)) },
  updated e (p.store a),
  ground (arith, get_elem?-lt p.pollfds i e g),
  ground
      (arith, get_elem?-set p.pollfds i i (updated e (p.store a)) (get_elem?-lt p.pollfds i e g)),
  refl,
  ground arith,
)
