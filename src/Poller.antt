-- ===== src/Poller.antt =====
-- Poller.h and Poller.cc: the array for `::poll` beside the map from descriptors to channels.
-- Channels are shared with their owners, so they stand in a store by address. A failed `assert` is
-- `none`. `assertInLoopThread` is the event loop's.
pub mod Valid
pub mod Update
pub mod Dropped
pub mod Remove
pub mod Fill
pub mod Active
pub mod Muted
mod Tests
use muduo_net_zxl.Prelude.{
  ℕ, ◌+◌, ◌-◌, Bool, true, false, ◌&&◌, ◌||◌, Option, none, some, List, [], ◌∷◌, ◌++◌, ◌==◌, ltb,
  if◌then◌else◌, length, get_elem?, set, take, ◌>>=◌, assert, lookup, insert, erase, nat_eq, ℤ, pos,
  negsuc,
}
use muduo_net_zxl.Channel.{Channel, is_none_event}

-- `struct pollfd`; `poll` skips an entry whose descriptor is negative.
pub record PollFd : Type 0 where
  pub fd : ℤ
  pub events : ℕ
  pub revents : ℕ

pub record Poller : Type 0 where
  pub pollfds : List PollFd
  pub channels : List (ℕ × ℕ)
  pub store : ℕ → Channel

abbrev pub put : (ℕ → Channel) → ℕ → Channel → ℕ → Channel
put store a c b = if b == a then c else store b

-- `-fd - 1` is an entry that is ignored, and hides the descriptor `fd`.
abbrev pub muted : ℕ → ℤ
muted = negsuc

abbrev pub eq_fd : ℤ → ℕ → Bool
eq_fd (pos n) fd = n == fd
eq_fd (negsuc n) fd = false

-- `pfd.fd == fd || pfd.fd == -fd - 1`.
abbrev pub serves : ℤ → ℕ → Bool
serves (pos n) fd = n == fd
serves (negsuc n) fd = n == fd

-- `if (fd < 0) fd = -(fd + 1)`.
abbrev pub owner : ℤ → ℕ
owner (pos n) = n
owner (negsuc n) = n

abbrev pub is_some_of : Option ℕ → ℕ → Bool
is_some_of none a = false
is_some_of (some b) a = b == a

abbrev pub is_none : Option ℕ → Bool
is_none none = true
is_none (some a) = false

-- A channel with a negative index is new: it gets an entry at the end.
unfoldable pub add_channel : Poller → ℕ → Option Poller
add_channel p a = do
  let c = p.store a
  _ ← assert (is_none (lookup c.fd p.channels))
  some (record {
    pollfds = p.pollfds ++ record { fd = pos c.fd; events = c.events; revents = 0 } ∷ [];
    channels = insert c.fd a p.channels;
    store = put p.store a (record c { index = pos (length p.pollfds) });
  })

-- What an update writes into the channel's entry.
abbrev pub updated : PollFd → Channel → PollFd
updated e c = record {
  fd = if is_none_event c then muted c.fd else e.fd;
  events = c.events;
  revents = 0;
}

unfoldable pub change_channel : Poller → ℕ → ℕ → Option Poller
change_channel p a idx = do
  let c = p.store a
  _ ← assert (is_some_of (lookup c.fd p.channels) a)
  _ ← assert (ltb idx (length p.pollfds))
  e ← get_elem? p.pollfds idx
  _ ← assert (serves e.fd c.fd)
  some (record p { pollfds = set p.pollfds idx (updated e c) })

unfoldable pub update_channel : Poller → ℕ → Option Poller
update_channel p a = elim (p.store a).index [
  | negsuc n ↦ add_channel p a
  | pos idx ↦ change_channel p a idx
]

-- The last entry takes the place of the one at `idx`, and its channel learns of that.
unfoldable pub drop_entry : Poller → ℕ → ℕ → Option Poller
drop_entry p fd idx =
    let last = length p.pollfds - 1 in
    let channels = erase fd p.channels in
    if idx == last
    then some (record p { pollfds = take last p.pollfds; channels = channels })
    else (do
      end ← get_elem? p.pollfds last
      a ← lookup (owner end.fd) channels
      some (record {
        pollfds = take last (set p.pollfds idx end);
        channels = channels;
        store = put p.store a (record (p.store a) { index = pos idx });
      }))

unfoldable pub remove_at : Poller → ℕ → ℕ → Option Poller
remove_at p a idx = do
  let c = p.store a
  _ ← assert (is_some_of (lookup c.fd p.channels) a)
  _ ← assert (is_none_event c)
  _ ← assert (ltb idx (length p.pollfds))
  e ← get_elem? p.pollfds idx
  _ ← assert (serves e.fd c.fd)
  drop_entry p c.fd idx

unfoldable pub remove_channel : Poller → ℕ → Option Poller
remove_channel p a = elim (p.store a).index [ negsuc n ↦ none | pos idx ↦ remove_at p a idx ]

-- The channel that an entry with an event stands for. A negative descriptor is in no map.
unfoldable pub entry_channel : PollFd → List (ℕ × ℕ) → (ℕ → Channel) → Option ℕ
entry_channel e channels store = elim e.fd [
  | negsuc n ↦ none
  | pos fd ↦ (do a ← lookup fd channels; _ ← assert ((store a).fd == fd); some a)
]

-- The loop over the entries, with the number of events still to be found. The result is
-- `activeChannels`, beside the store with the events written in.
unfoldable pub fill_active_channels :
    List PollFd → ℕ → List (ℕ × ℕ) → (ℕ → Channel) → Option (List ℕ × (ℕ → Channel))
fill_active_channels [] num_events channels store = some ([], store)
fill_active_channels (e ∷ es) num_events channels store =
    let rest = λ (a : ℕ).
      fill_active_channels es (num_events - 1) channels
        (put store a (record (store a) { revents = e.revents })) in
    let skip = fill_active_channels es num_events channels store in
    if num_events == 0
    then some ([], store)
    else (if ltb 0 e.revents
        then (do a ← entry_channel e channels store; r ← rest a; some (a ∷ r.0, r.1))
        else skip)

-- What `::poll` returned: an error, or how many entries have events, and the events of each entry.
pub data PollResult : Type 0 where
  failed : PollResult
  ready : ℕ → List ℕ → PollResult

unfoldable pub set_revents : List PollFd → List ℕ → List PollFd
set_revents [] rs = []
set_revents (e ∷ es) [] = e ∷ es
set_revents (e ∷ es) (r ∷ rs) = record e { revents = r } ∷ set_revents es rs

unfoldable pub poll : Poller → PollResult → Option (List ℕ × Poller)
poll p failed = some ([], p)
poll p (ready n revents) =
    let pollfds = set_revents p.pollfds revents in
    if ltb 0 n
    then (do
      r ← fill_active_channels pollfds n p.channels p.store
      some (r.0, record p { pollfds = pollfds; store = r.1 }))
    else some ([], record p { pollfds = pollfds })
