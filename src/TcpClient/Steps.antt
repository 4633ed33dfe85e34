-- ===== src/TcpClient/Steps.antt =====
-- The events of a client, one by one.
use muduo_net_zxl.Prelude.{
  ℕ, ◌+◌, ◌≡◌, refl, ap, ◌∙◌, Bool, true, false, ◌&&◌, none, some, List, [], ◌∷◌, ◌++◌, ◌>>=◌,
  arith, Bool-cases, Option-cases, inl, inr,
}
use muduo_net_zxl.Connector
use muduo_net_zxl.Connector.{Connector, Errno}
use muduo_net_zxl.Connector.Events
use muduo_net_zxl.Connector.Reach
use muduo_net_zxl.Channel.{disable_all}
use muduo_net_zxl.TcpConnection
use muduo_net_zxl.TcpConnection.{
  Connection, is_connected, is_disconnecting, connect_established, connect_destroyed, handle_close,
  close_event,
}
use muduo_net_zxl.TcpClient.{
  Conn, TcpClient, connect, disconnect, attempt, peer_closes, destroy_first, new_connection,
  remove_connection, sockets_handed,
}
use muduo_net_zxl.TcpClient.Handing.{
  Effect, handed_lem, handed_count, handed_count-append, start_in_loop-handed_count, one_if_some,
}
use muduo_net_zxl.TcpClient.Events.{
  closes, connects, IsUp, Enabled, conn_times, number_times, AllUp, IsValid,
}

conn_times-append :
    (i : ℕ) (cs ds : List Conn) → conn_times i (cs ++ ds) ≡ conn_times i cs + conn_times i ds
unfolding conn_times
conn_times-append i [] ds = omega arith
conn_times-append i (c ∷ cs) ds = omega (arith, conn_times-append i cs ds)

number_times-append :
    (i : ℕ) (ns ms : List ℕ) → number_times i (ns ++ ms) ≡ number_times i ns + number_times i ms
unfolding number_times
number_times-append i [] ms = omega arith
number_times-append i (n ∷ ns) ms = omega (arith, number_times-append i ns ms)

AllUp-append :
    (cs : List Conn) (c : Conn) → AllUp cs → IsUp c.connection.state → AllUp (cs ++ c ∷ [])
AllUp-append [] c u h = (h, tt)
AllUp-append (d ∷ cs) c (k, u) h = (k, AllUp-append cs c u h)

-- A new connection, when there is none.
new_connection-IsValid :
    (t : TcpClient) (c : Connector) (sockfd : ℕ)
    → Events.IsValid c
    → c.state ≡ Connector.connected
    → handed_count c.calls ≡ handed_count t.connector.calls + 1
    → t.current ≡ none
    → IsValid t
    → (u : TcpClient) × (new_connection (record t { connector = c }) sockfd ≡ some u) × IsValid u
unfolding new_connection connect_established TcpConnection.init
new_connection-IsValid t c sockfd w s n e v = (
  _,
  refl,
  record {
    connector = w;
    linked = λ d h. s;
    current_up = λ d h. ground (arith, h);
    destroying_up = v.destroying_up;
    made = omega (arith, v.made, n);
    once = λ i. ground (arith, v.once i, e, v.made);
  },
)

pub attempts-IsValid :
    (t : TcpClient) (c : Connector)
    → Effect t.connector c
    → Events.IsValid c
    → IsValid t
    → (u : TcpClient) × (attempt t c ≡ some u) × IsValid u
unfolding attempt
attempts-IsValid t c f w v =
    let l = handed_lem t.connector c f in
    let n = ap handed_count f.appended ∙ handed_count-append t.connector.calls f.news in
    elim (Option-cases (sockets_handed f.news)) [
      | inl h ↦ (
        record t { connector = c },
        rw (ap sockets_handed l ∙ h, attempt) refl,
        record {
          connector = w;
          linked = λ d k. f.quiet h (v.linked d k);
          current_up = v.current_up;
          destroying_up = v.destroying_up;
          made = omega (arith, v.made, n, f.count ∙ ap one_if_some h);
          once = v.once;
        },
      )
      | inr (sockfd, h) ↦
          let (s, z) = f.hands sockfd h in
          let (u, e, x) =
            new_connection-IsValid t c sockfd w z (omega (arith, n, f.count ∙ ap one_if_some h))
              (no_current s) v in
          (u, rw (ap sockets_handed l ∙ h, attempt) e, x)
    ]
  where
    no_current : t.connector.state ≡ Connector.connecting → t.current ≡ none
    no_current s = elim (Option-cases t.current) [
      | inl e ↦ e
      | inr (d, e) ↦ let z = v.linked d e in cc
    ]

-- The current connection closes.
pub closed_lem :
    (t : TcpClient) (c : Conn)
    → t.current ≡ some c
    → IsUp c.connection.state
    → (connection : Connection) × (handle_close c.connection ≡ some connection)
      × (connection.state ≡ c.connection.state)
unfolding handle_close
closed_lem t c e u = (
  record c.connection {
    channel = disable_all c.connection.channel;
    events = c.connection.events ++ close_event ∷ [];
  },
  rw u refl,
  refl,
)

pub closes-IsValid :
    (t : TcpClient) (sockfd : ℕ) (save_error : Errno)
    → Enabled t (closes sockfd save_error)
    → IsValid t
    → (u : TcpClient) × (peer_closes t sockfd save_error ≡ some u) × IsValid u
unfolding peer_closes remove_connection conn_times Events.run Connector.restart
closes-IsValid t sockfd save_error (c, e, z) v =
    let up = v.current_up c e in
    let (k, h, s) = closed_lem t c e up in
    let d : Conn = record c { connection = k } in
    elim (Bool-cases (t.retry && t.connect_wanted)) [
      | inl r ↦
          let (b, f, w) =
            Reach.run-IsValid t.connector (Events.restarted sockfd save_error) v.connector
              (v.linked c e, z) in
          let i =
            Reach.restart-Idle t.connector (rw (v.linked c e) at (v.connector.place)) z
              v.connector in
          let n = start_in_loop-handed_count _ b sockfd save_error i.no_channel i.state_is f in
          (
            record t { connector = b; current = none; destroying = t.destroying ++ d ∷ [] },
            rw (e, ◌>>=◌) (rw (h, ◌>>=◌) (ground (arith, r, f))),
            record {
              connector = w;
              linked = λ x k. cc;
              current_up = λ x k. cc;
              destroying_up = AllUp-append t.destroying d v.destroying_up (rw s up);
              made = omega (arith, v.made, n);
              once = λ i. ground (arith, v.once i, e, conn_times-append i t.destroying (d ∷ []));
            },
          )
      | inr r ↦ (
        record t { current = none; destroying = t.destroying ++ d ∷ [] },
        rw (e, ◌>>=◌) (rw (h, ◌>>=◌) (ground (arith, r))),
        record {
          connector = v.connector;
          linked = λ x k. cc;
          current_up = λ x k. cc;
          destroying_up = AllUp-append t.destroying d v.destroying_up (rw s up);
          made = v.made;
          once = λ i. ground (arith, v.once i, e, conn_times-append i t.destroying (d ∷ []));
        },
      )
    ]

pub destroys-IsValid :
    (t : TcpClient) (cs : List Conn)
    → t.destroying ≡ cs
    → IsValid t
    → (u : TcpClient) × (destroy_first t cs ≡ some u) × IsValid u
unfolding connect_destroyed conn_times number_times
destroys-IsValid t [] e v = (t, refl, v)
destroys-IsValid t (c ∷ cs) e v =
    let (up, rest) = rw e at (v.destroying_up) in
    (
      record t { destroying = cs; ended = t.ended ++ c.number ∷ [] },
      rw up refl,
      record {
        connector = v.connector;
        linked = v.linked;
        current_up = v.current_up;
        destroying_up = rest;
        made = v.made;
        once = λ i.
            omega
              (arith, v.once i, ap (conn_times i) e, number_times-append i t.ended (c.number ∷ []));
      },
    )

-- The current connection works on, or shuts its side down.
pub current-IsValid :
    (t : TcpClient) (c : Conn) (k : Connection) (wanted : Bool)
    → t.current ≡ some c
    → IsUp k.state
    → IsValid t
    → IsValid (record t { connect_wanted = wanted; current = some (record c { connection = k }) })
current-IsValid t c k wanted e up v = record {
  connector = v.connector;
  linked = λ x h. v.linked c e;
  current_up = λ x h. ground (arith, h, up);
  destroying_up = v.destroying_up;
  made = v.made;
  once = λ i. ground (arith, v.once i, e);
}

-- The client is told to connect once more.
pub connects-IsValid :
    (t : TcpClient) (sockfd : ℕ) (save_error : Errno)
    → Enabled t (connects sockfd save_error)
    → IsValid t
    → (u : TcpClient) × (connect t sockfd save_error ≡ some u) × IsValid u
unfolding connect Events.run Connector.start
connects-IsValid t sockfd save_error (s, n, z) v =
    let (c, f, w) =
      Reach.run-IsValid t.connector (Events.starts sockfd save_error) v.connector (s, n, z) in
    let i = Reach.start-Idle t.connector (rw s at (v.connector.place)) s n z v.connector in
    let k = start_in_loop-handed_count _ c sockfd save_error i.no_channel i.state_is f in
    (
      record t { connect_wanted = true; connector = c },
      rw (f, ◌>>=◌) refl,
      record {
        connector = w;
        linked = λ x h. let q = v.linked x h in absurd (ground (arith, q, s));
        current_up = v.current_up;
        destroying_up = v.destroying_up;
        made = omega (arith, v.made, k);
        once = v.once;
      },
    )

shutdown-IsUp : (c : Connection) → IsUp c.state → IsUp (TcpConnection.shutdown true c).state
unfolding TcpConnection.shutdown TcpConnection.shutdown_in_loop
shutdown-IsUp c h = ground (arith, h)

pub disconnects-IsValid : (t : TcpClient) → IsValid t → IsValid (disconnect t)
unfolding disconnect
disconnects-IsValid t v = elim (Option-cases t.current) [
  | inl e ↦ rw e (record {
    connector = v.connector;
    linked = λ x h. cc;
    current_up = λ x h. cc;
    destroying_up = v.destroying_up;
    made = v.made;
    once = λ i. ground (arith, v.once i, e);
  })
  | inr (c, e) ↦ rw e (
      current-IsValid t c (TcpConnection.shutdown true c.connection) false e
        (shutdown-IsUp c.connection (v.current_up c e)) v)
]
