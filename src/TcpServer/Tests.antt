-- ===== src/TcpServer/Tests.antt =====
-- A server with two threads, whose loops are 5 and 6, with numbers for names: two connections come, and
-- the first goes.
use muduo_net_zxl.Prelude.{ℕ, ◌+◌, ◌≡◌, refl, [], ◌∷◌, true, some, nat_eq, insert, erase, lookup}
use muduo_net_zxl.EventLoop
use muduo_net_zxl.EventLoop.{get_next_loop, new_pool, set_thread_num, start_threads}
use muduo_net_zxl.TcpServer.{
  Conn, TcpServer, init, set_num, start, new_connection, remove_connection,
  remove_connection_in_loop, connect_established, connect_destroyed,
}
use muduo_net_zxl.TcpServer.Placed.{Reach, here, next, sets_num, starts, comes, goes, IsValid}
use muduo_net_zxl.TcpServer.Connections.{accepted-IsValid}

abbrev name : ℕ → ℕ
name n = n

abbrev loops : ℕ → ℕ
loops i = 5 + i

abbrev listening : TcpServer ℕ
listening = record {
  thread_pool = record {
    base_loop = 3;
    started = true;
    num_threads = 2;
    next = 0;
    loops = 5 ∷ 6 ∷ [];
  };
  listening = true;
  started = true;
  next_conn_id = 1;
  connections = [];
  tasks = [];
}

listening-Reach : Reach name loops 3 listening
unfolding init set_num start new_pool set_thread_num EventLoop.start start_threads
listening-Reach =
    next (next here (sets_num (init name 3) 2))
      (starts (set_num name (init name 3) 2) listening refl)

abbrev first : Conn ℕ
first = record { number = 1; name = 1; io_loop = 5 }

abbrev second : Conn ℕ
second = record { number = 2; name = 2; io_loop = 6 }

abbrev one : TcpServer ℕ
one = record listening {
  thread_pool = record listening.thread_pool { next = 1 };
  next_conn_id = 2;
  connections = (1, first) ∷ [];
  tasks = (5, connect_established first) ∷ [];
}

abbrev two : TcpServer ℕ
two = record listening {
  next_conn_id = 3;
  connections = (1, first) ∷ (2, second) ∷ [];
  tasks = (5, connect_established first) ∷ (6, connect_established second) ∷ [];
}

two-Reach : Reach name loops 3 two
unfolding new_connection get_next_loop insert
two-Reach = next (next listening-Reach (comes listening one refl refl)) (comes one two refl refl)

abbrev left : TcpServer ℕ
left = record two {
  connections = (2, second) ∷ [];
  tasks =
      (5, connect_established first)
      ∷ (6, connect_established second)
      ∷ (5, connect_destroyed first)
      ∷ [];
}

left-Reach : Reach name loops 3 left
unfolding remove_connection remove_connection_in_loop erase lookup
left-Reach = next two-Reach (goes two left first refl refl)

accepted-IsValid_example :
    IsValid name left
    × ((s : TcpServer ℕ) × (start name loops left ≡ some s))
    × ((s : TcpServer ℕ) × (new_connection name left ≡ some s))
accepted-IsValid_example = accepted-IsValid name (λ i j h. h) loops left-Reach
