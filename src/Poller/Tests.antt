-- ===== src/Poller/Tests.antt =====
-- Poller.cc on a registry of two channels, of which the second is muted.
use muduo_net_zxl.Prelude.{
  ℕ, zero, suc, ◌≡◌, refl, ◌<◌, [], ◌∷◌, some, arith, lookup, nat_eq, inl, get_elem?, pos, negsuc,
  ◌==◌, if◌then◌else◌, ℕ_discrete,
}
use muduo_net_zxl.Channel.{Channel, is_none_event}
use muduo_net_zxl.Poller.{
  PollFd, Poller, owner, muted, update_channel, remove_channel, poll, ready, set_revents,
}
use muduo_net_zxl.Poller.Valid.{IsValid}
use muduo_net_zxl.Poller.Update.{Registered, update_channel-Registered}
use muduo_net_zxl.Poller.Remove.{Removed, remove_channel-Removed}
use muduo_net_zxl.Poller.Active.{Polled, poll-Polled}
use muduo_net_zxl.Poller.Fill.{count_ready, ready_channels}
use muduo_net_zxl.Poller.Muted.{update_channel-muted}

abbrev reading : Channel
reading = record { fd = 5; events = 3; revents = 0; index = pos 0 }

abbrev idle : Channel
idle = record { fd = 7; events = 0; revents = 0; index = pos 1 }

abbrev fresh : Channel
fresh = record { fd = 9; events = 4; revents = 0; index = negsuc 0 }

abbrev store : ℕ → Channel
store a = if a == 1 then reading else (if a == 2 then idle else fresh)

abbrev two : Poller
two = record {
  pollfds =
      record { fd = pos 5; events = 3; revents = 0 }
      ∷ record { fd = negsuc 7; events = 0; revents = 0 }
      ∷ [];
  channels = (5, 1) ∷ (7, 2) ∷ [];
  store = store;
}

two-entries :
    (i : ℕ) (e : PollFd)
    → get_elem? two.pollfds i ≡ some e
    → (a : ℕ) × (lookup (owner e.fd) two.channels ≡ some a) × ((two.store a).index ≡ pos i)
unfolding lookup
two-entries zero e h = (1, ground arith, refl)
two-entries (suc zero) e h = (2, ground arith, refl)
two-entries (suc (suc i)) e h = cc

two-indexed :
    (fd a : ℕ)
    → lookup fd two.channels ≡ some a
    → ((two.store a).fd ≡ fd)
      × ((i : ℕ) × (e : PollFd) × ((two.store a).index ≡ pos i)
          × (get_elem? two.pollfds i ≡ some e)
          × (owner e.fd ≡ fd))
unfolding lookup
two-indexed fd a h = elim (ℕ_discrete 5 fd) [
  | yes p ↦
      (ground arith, (0, record { fd = pos 5; events = 3; revents = 0 }, ground arith, refl, p))
  | no n ↦ (
    ground arith,
    (1, record { fd = negsuc 7; events = 0; revents = 0 }, ground arith, refl, ground arith),
  )
]

two-IsValid : IsValid two
two-IsValid = record { entries = two-entries; indexed = two-indexed }

update_channel-Registered_example :
    (q : Poller) × (update_channel two 3 ≡ some q) × Registered two 3 q
unfolding lookup
update_channel-Registered_example =
    update_channel-Registered two 3 two-IsValid (inl (0, refl, refl))

remove_channel-Removed_example : (q : Poller) × (remove_channel two 2 ≡ some q) × Removed two 2 q
unfolding lookup is_none_event
remove_channel-Removed_example = remove_channel-Removed two 2 two-IsValid refl refl

Reports_two :
    (i : ℕ) (e : PollFd)
    → get_elem? (set_revents two.pollfds (1 ∷ [])) i ≡ some e
    → 0 < e.revents
    → e.fd ≡ pos (owner e.fd)
unfolding set_revents
Reports_two zero e h p = ground arith
Reports_two (suc zero) e h p = absurd (ground arith)
Reports_two (suc (suc i)) e h p = cc

poll-Polled_example :
    (q : Poller) × (poll two (ready (count_ready (set_revents two.pollfds (1 ∷ []))) (1 ∷ []))
      ≡ some (ready_channels two.channels (set_revents two.pollfds (1 ∷ [])), q))
    × Polled two (1 ∷ []) q
poll-Polled_example = poll-Polled two (1 ∷ []) two-IsValid Reports_two

-- The idle channel asks for input again.
abbrev woken : Poller
woken = record two { store = λ a. record (store a) { events = 3 } }

update_channel-muted_example :
    (q : Poller) × (f : PollFd) × (update_channel woken 2 ≡ some q)
    × (get_elem? q.pollfds 1 ≡ some f)
    × (f.events ≡ 3)
    × (f.fd ≡ muted 7)
unfolding lookup
update_channel-muted_example =
    update_channel-muted woken 2 1 7 (record { fd = negsuc 7; events = 0; revents = 0 }) refl refl
      refl refl refl
