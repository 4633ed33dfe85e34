-- ===== src/TcpClient/Reach.antt =====
-- Every reachable client, and every event that it may meet.
use muduo_net_zxl.Prelude.{
  ℕ, ◌≡◌, refl, sym, ◌∙◌, Bool, true, false, some, ◌>>=◌, arith, Option-cases, inl, inr,
  same_result, some_equal,
}
use muduo_net_zxl.Connector
use muduo_net_zxl.Connector.{Connector, Errno}
use muduo_net_zxl.Connector.Reach
use muduo_net_zxl.TcpClient.{TcpClient, init, connect, disconnect, stop, enable_retry}
use muduo_net_zxl.TcpClient.Handing.{run-Effect, handed_count, start_in_loop-handed_count}
use muduo_net_zxl.TcpClient.Events.{
  Event, attempts, works, closes, destroys, disconnects, stops, enables_retry, connects, run,
  Enabled, Reach, started, next, conn_times, number_times, IsValid,
}
use muduo_net_zxl.TcpClient.Steps.{
  attempts-IsValid, closes-IsValid, destroys-IsValid, current-IsValid, disconnects-IsValid,
  connects-IsValid,
}

-- No assertion fails at any event.
pub run-IsValid :
    (t : TcpClient) (e : Event)
    → IsValid t
    → Enabled t e
    → (u : TcpClient) × (run t e ≡ some u) × IsValid u
unfolding run stop enable_retry Connector.stop
run-IsValid t (attempts e) v (o, h) =
    let (c, f, w) = Reach.run-IsValid t.connector e v.connector h in
    let (u, g, x) = attempts-IsValid t c (run-Effect t.connector c e o v.connector h f) w v in
    (u, rw (f, ◌>>=◌) g, x)
run-IsValid t (works k) v (c, e, s, up) =
    (_, rw e refl, current-IsValid t c k t.connect_wanted e up v)
run-IsValid t (closes sockfd save_error) v h = closes-IsValid t sockfd save_error h v
run-IsValid t destroys v h = destroys-IsValid t t.destroying refl v
run-IsValid t disconnects v h = (disconnect t, refl, disconnects-IsValid t v)
run-IsValid t stops v h = (
  record t { connect_wanted = false; connector = record t.connector { wanted = false } },
  refl,
  record {
    connector = Reach.stopped-IsValid t.connector v.connector;
    linked = v.linked;
    current_up = v.current_up;
    destroying_up = v.destroying_up;
    made = v.made;
    once = v.once;
  },
)
run-IsValid t enables_retry v h = (
  record t { retry = true },
  refl,
  record {
    connector = v.connector;
    linked = v.linked;
    current_up = v.current_up;
    destroying_up = v.destroying_up;
    made = v.made;
    once = v.once;
  },
)
run-IsValid t (connects sockfd save_error) v h = connects-IsValid t sockfd save_error h v

started-IsValid :
    (t : TcpClient) (has_write_complete : Bool) (sockfd : ℕ) (save_error : Errno)
    → connect (init has_write_complete) sockfd save_error ≡ some t
    → IsValid t
unfolding connect init Connector.start Connector.init handed_count conn_times number_times
started-IsValid t has_write_complete sockfd save_error e =
    elim (Option-cases (Connector.start Connector.init sockfd save_error)) [
      | inl n ↦ absurd (ground (arith, e, n))
      | inr (c, f) ↦
          let v = Reach.started-IsValid c sockfd save_error f in
          let n =
            start_in_loop-handed_count (record Connector.init { wanted = true }) c sockfd save_error
              refl refl f in
          let z : t ≡ record (init has_write_complete) { connect_wanted = true; connector = c } =
            some_equal (sym e ∙ rw (f, ◌>>=◌) refl) in
          rw z (record {
            connector = v;
            linked = λ x h. cc;
            current_up = λ x h. cc;
            destroying_up = tt;
            made = omega (arith, n);
            once = λ i. ground arith;
          })
    ]

-- However a client's attempts, its connection and its user behave after `connect`, where `connect` is
-- called again only while the connector is disconnected and neither a retry nor a `resetChannel` waits
-- for it: the connections the client makes are one for each socket that the connector hands over, each of them is the current one, or waits
-- to be destroyed, or was destroyed, exactly once; a current one is up, and the connector rests meanwhile.
pub client-IsValid : {t : TcpClient} → Reach t → IsValid t
client-IsValid {t} (started b sockfd save_error e) = started-IsValid t b sockfd save_error e
client-IsValid {t} (next {t = s} e r h f) =
    let (u, g, v) = run-IsValid s e (client-IsValid r) h in
    let z : t ≡ u = same_result f g in rw z v
