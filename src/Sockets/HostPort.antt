-- ===== src/Sockets/HostPort.antt =====
-- Addresses as text, and back.
use muduo_net_zxl.Prelude.{
  ℕ, ◌^◌, ◌≤◌, ◌<◌, ◌≡◌, refl, none, some, List, ◌∷◌, ◌++◌, arith, length, take_all, length-append,
}
use muduo_net_zxl.Buffer.{host_to_network32}
use muduo_net_zxl.Sockets.{
  Library, host_to_network16, network_to_host16, from_host_port, inet_address, any_address,
  to_host_port, inet_to_host_port,
}

pub network_to_host16-host_to_network16 :
    (x : ℕ) → x < 2 ^ 16 → network_to_host16 (host_to_network16 x) ≡ x
unfolding network_to_host16 host_to_network16
network_to_host16-host_to_network16 x h = omega arith

module _ (lib : Library) (ip : List ℕ) (port : ℕ) where
  -- An address that was made from a text and a port, of which the C library reads and prints the text back,
  -- prints as that text, a colon and the port: no byte order is lost, and thirty-two bytes are enough.
  -- A text that the C library does not read gives the address of every interface, with the port.
  pub inet_to_host_port-inet_address :
      port < 2 ^ 16
      → length ip ≤ 15
      → length (lib.print_unsigned port) ≤ 5
      → ((bytes : List ℕ)
          → lib.inet_pton ip ≡ some bytes
          → lib.inet_ntop bytes ≡ some ip
          → inet_to_host_port lib (inet_address lib ip port) ≡ ip ++ 58 ∷ lib.print_unsigned port)
        × (lib.inet_pton ip ≡ none → inet_address lib ip port ≡ any_address port)
  unfolding inet_to_host_port to_host_port inet_address from_host_port any_address host_to_network32
  inet_to_host_port-inet_address small short few =
      let p = network_to_host16-host_to_network16 port small in
      let n = length-append ip (58 ∷ lib.print_unsigned port) in
      (
        λ bytes read written. rw read (
            rw written (
              rw p
                (take_all (ip ++ 58 ∷ lib.print_unsigned port) 31 (omega (arith, n, short, few))))),
        λ unread. rw unread refl,
      )
