-- ===== src/Poller/Valid.antt =====
-- The registry's invariant: entries of the array and channels of the map answer to one another.
use muduo_net_zxl.Prelude.{ℕ, ◌≡◌, true, some, arith, get_elem?, lookup, nat_eq, ℤ, pos, negsuc}
use muduo_net_zxl.Poller.{PollFd, Poller, owner, serves}

pub serves-owner : (fd : ℤ) → serves fd (owner fd) ≡ true
serves-owner (pos n) = ground arith
serves-owner (negsuc n) = ground arith

pub record IsValid (p : Poller) : Type 0 where
  -- Each entry stands for the registered channel of its descriptor, which knows its place.
  pub entries :
      (i : ℕ) (e : PollFd)
      → get_elem? p.pollfds i ≡ some e
      → (a : ℕ) × (lookup (owner e.fd) p.channels ≡ some a) × ((p.store a).index ≡ pos i)
  -- Each registered channel has its descriptor, and an entry at its index.
  pub indexed :
      (fd a : ℕ)
      → lookup fd p.channels ≡ some a
      → ((p.store a).fd ≡ fd)
        × ((i : ℕ) × (e : PollFd) × ((p.store a).index ≡ pos i)
            × (get_elem? p.pollfds i ≡ some e)
            × (owner e.fd ≡ fd))

-- Two registered channels with one index are one.
pub indexed_once :
    {p : Poller} (v : IsValid p) (fd gd a b i : ℕ)
    → lookup fd p.channels ≡ some a
    → lookup gd p.channels ≡ some b
    → (p.store a).index ≡ pos i
    → (p.store b).index ≡ pos i
    → fd ≡ gd
indexed_once v fd gd a b i la lb ia ib =
    let (_, (m, e, em, eg, eo)) = v.indexed fd a la in
    let (_, (n, f, fn, fg, fo)) = v.indexed gd b lb in ground arith
