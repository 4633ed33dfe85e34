-- ===== src/TcpClient/Tests.antt =====
-- A client that is connected at once to the socket 5.
use muduo_net_zxl.Prelude.{◌≡◌, refl, true, false, some, [], ◌∷◌, arith}
use muduo_net_zxl.Channel
use muduo_net_zxl.Connector
use muduo_net_zxl.Connector.{
  Connector, einprogress, econnrefused, created, handed, start, start_in_loop, connect,
  begin_connecting, handle_write, remove_and_reset_channel, settle,
}
use muduo_net_zxl.Connector.Events
use muduo_net_zxl.TcpConnection
use muduo_net_zxl.TcpClient
use muduo_net_zxl.TcpClient.{TcpClient, Conn, init, attempt, new_connection, peer_closes}
use muduo_net_zxl.TcpClient.Events.{Reach, started, next, attempts, run, IsValid}
use muduo_net_zxl.TcpClient.Reach.{client-IsValid}
use muduo_net_zxl.TcpClient.Again.{Ended, peer_closes-Ended}

abbrev trying : TcpClient
trying = record (init false) {
  connect_wanted = true;
  connector = record Connector.init {
    wanted = true;
    state = Connector.connecting;
    channel = some (Channel.enable_writing (Channel.init 5));
    calls = created 5 ∷ [];
  };
}

trying-Reach : Reach trying
unfolding init TcpClient.connect Connector.init start start_in_loop connect begin_connecting
trying-Reach = started false 5 einprogress refl

abbrev up_conn : Conn
up_conn = record {
  number = 1;
  connection = record (TcpConnection.init 5 false) {
    state = TcpConnection.connected;
    channel = Channel.enable_reading (Channel.init 5);
    events = TcpConnection.connection_event TcpConnection.connected ∷ [];
  };
}

abbrev reset_waits : TcpClient
reset_waits = record trying {
  connector = record Connector.init {
    wanted = true;
    state = Connector.connected;
    channel = some (Channel.disable_all (Channel.enable_writing (Channel.init 5)));
    resets = 1;
    calls = created 5 ∷ handed 5 ∷ [];
  };
  next_conn_id = 2;
  current = some up_conn;
}

reset_waits-Reach : Reach reset_waits
unfolding init Connector.init run Events.run attempt new_connection handle_write
    remove_and_reset_channel settle TcpConnection.connect_established TcpConnection.init
    Channel.disable_all Channel.enable_writing Channel.init
reset_waits-Reach =
    next (attempts (Events.writable 0 false)) trying-Reach (tt, (_, refl, refl)) refl

abbrev up : TcpClient
up = record reset_waits {
  connector = record Connector.init {
    wanted = true;
    state = Connector.connected;
    calls = created 5 ∷ handed 5 ∷ [];
  };
}

up-Reach : Reach up
unfolding init Connector.init run Events.run attempt Connector.reset_channel
up-Reach = next (attempts Events.reset_runs) reset_waits-Reach (tt, omega arith) refl

client-IsValid_example : IsValid up
client-IsValid_example = client-IsValid up-Reach

peer_closes-Ended_example :
    (u : TcpClient) × (peer_closes up 6 econnrefused ≡ some u) × Ended up 6 econnrefused u
unfolding Connector.init
peer_closes-Ended_example = peer_closes-Ended up up_conn 6 econnrefused up-Reach refl refl
