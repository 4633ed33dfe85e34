-- ===== src/Connector/Tests.antt =====
-- A connector whose first attempt is refused.
use muduo_net_zxl.Prelude.{◌≡◌, refl, true, some, none, [], ◌∷◌, arith}
use muduo_net_zxl.Connector.{
  Connector, init, econnrefused, einprogress, disconnected, created, closed, run_after, start,
  start_in_loop, connect, retry, stop, connecting,
}
use muduo_net_zxl.Connector.Events.{Reach, started, IsValid, retry_fires, run}
use muduo_net_zxl.Connector.Stale.{stale_retry_fires}
use muduo_net_zxl.Connector.Reach.{Reach-IsValid, run-Reach}

abbrev refused : Connector
refused = record {
  wanted = true;
  state = disconnected;
  channel = none;
  retry_delay_ms = 1000;
  resets = 0;
  retries = 1;
  calls = created 5 ∷ closed 5 ∷ run_after 500 ∷ [];
}

refused-Reach : Reach refused
unfolding init start start_in_loop connect retry
refused-Reach = started 5 econnrefused refl

Reach-IsValid_example : IsValid refused
Reach-IsValid_example = Reach-IsValid refused-Reach

run-Reach_example : (d : Connector) × (run refused (retry_fires 6 einprogress) ≡ some d) × Reach d
run-Reach_example = run-Reach refused (retry_fires 6 einprogress) refused-Reach (omega arith, refl)

stale_retry_fires_example :
    (d : Connector) × (start (stop refused) 6 einprogress ≡ some d)
    × (d.state ≡ connecting)
    × (d.retries ≡ 1)
    × (run d (retry_fires 7 einprogress) ≡ none)
stale_retry_fires_example =
    stale_retry_fires refused 6 7 einprogress refused-Reach (omega arith) refl
