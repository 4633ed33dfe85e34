-- ===== src/TcpClient/Again.antt =====
-- What follows the end of a connection.
use muduo_net_zxl.Prelude.{
  ℕ, ◌≡◌, refl, true, false, ◌&&◌, none, some, [], ◌∷◌, ◌++◌, ◌>>=◌, arith, Bool-cases, inl, inr,
}
use muduo_net_zxl.Connector
use muduo_net_zxl.Connector.{Connector, Errno}
use muduo_net_zxl.Connector.Events
use muduo_net_zxl.Connector.Reach
use muduo_net_zxl.TcpClient.{Conn, TcpClient, connect, peer_closes, remove_connection}
use muduo_net_zxl.TcpClient.Events.{Reach}
use muduo_net_zxl.TcpClient.Steps.{closed_lem}
use muduo_net_zxl.TcpClient.Reach.{client-IsValid}

connect_when_connected :
    (t : TcpClient) (sockfd : ℕ) (save_error : Errno)
    → t.connector.state ≡ Connector.connected
    → connect t sockfd save_error ≡ none
unfolding connect Connector.start Connector.start_in_loop
connect_when_connected t sockfd save_error s = ground (arith, s)

-- What `removeConnection` leaves of the connector.
pub record Ended (t : TcpClient) (sockfd : ℕ) (save_error : Errno) (u : TcpClient) : Type 0 where
  pub no_connection : u.current ≡ none
  pub reconnects :
      t.retry && t.connect_wanted ≡ true
      → Connector.restart t.connector sockfd save_error ≡ some u.connector
  pub gives_up :
      t.retry && t.connect_wanted ≡ false
      → (u.connector ≡ t.connector) × ((fd : ℕ) (error : Errno) → connect u fd error ≡ none)

-- When a client's connection ends, the connector is restarted if the client retries and has not been
-- told to stop or to disconnect. Otherwise the connector is left as it is, connected; from then on
-- `connect` fails the connector's assertion, so that the client cannot be used again.
pub peer_closes-Ended :
    (t : TcpClient) (c : Conn) (sockfd : ℕ) (save_error : Errno)
    → Reach t
    → t.current ≡ some c
    → t.connector.resets ≡ 0
    → (u : TcpClient) × (peer_closes t sockfd save_error ≡ some u) × Ended t sockfd save_error u
unfolding peer_closes remove_connection Events.run
peer_closes-Ended t c sockfd save_error r e z =
    let v = client-IsValid r in
    let (k, h, s) = closed_lem t c e (v.current_up c e) in
    let d : Conn = record c { connection = k } in
    elim (Bool-cases (t.retry && t.connect_wanted)) [
      | inl w ↦
          let (b, f, i) =
            Reach.run-IsValid t.connector (Events.restarted sockfd save_error) v.connector
              (v.linked c e, z) in
          (
            record t { connector = b; current = none; destroying = t.destroying ++ d ∷ [] },
            rw (e, ◌>>=◌) (rw (h, ◌>>=◌) (ground (arith, w, f))),
            record {
              no_connection = refl;
              reconnects = λ x. f;
              gives_up = λ x. absurd (ground (arith, x, w));
            },
          )
      | inr w ↦ (
        record t { current = none; destroying = t.destroying ++ d ∷ [] },
        rw (e, ◌>>=◌) (rw (h, ◌>>=◌) (ground (arith, w))),
        record {
          no_connection = refl;
          reconnects = λ x. absurd (ground (arith, x, w));
          gives_up = λ x. (refl, λ fd error. connect_when_connected _ fd error (v.linked c e));
        },
      )
    ]
