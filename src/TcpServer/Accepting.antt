-- ===== src/TcpServer/Accepting.antt =====
-- A server is started, and connections come to it.
use muduo_net_zxl.Prelude.{
  ℕ, suc, ◌+◌, ◌-◌, ◌≡◌, refl, sym, ap, ◌∙◌, true, ◌&&◌, none, some, List, [], ◌∷◌, ◌++◌, arith,
  length, Bool-cases, inl, inr, ◌==◌, Eq, lookup, insert, lookup-insert, one_if, ◌>>=◌,
}
use muduo_net_zxl.EventLoop
use muduo_net_zxl.EventLoop.{EventLoopThreadPool, get_next_loop, set_thread_num}
use muduo_net_zxl.TcpServer.{
  Conn, Task, connect_established, TcpServer, set_num, start, new_connection,
}
use muduo_net_zxl.TcpServer.Turns.{turn, loop_of, Given, get_next_loop-Given}
use muduo_net_zxl.TcpServer.Placed.{
  established_in, destroyed_in, established-append, destroyed-append, is_loop, in_map, is_given,
  is_accepted, IsValid,
}

module _ {Name : Type 0} ⦃e : Eq Name⦄ (conn_name : ℕ → Name)
    (distinct : (i j : ℕ) → conn_name i ≡ conn_name j → i ≡ j) (start_loop : ℕ → ℕ) where
  same_name : (i j : ℕ) → e.beq (conn_name i) (conn_name j) ≡ (i == j)
  same_name i j = ground (arith, e.beq_iff (conn_name i) (conn_name j), distinct i j)

  pub sets_num-IsValid :
      (s : TcpServer Name) (n : ℕ) → IsValid conn_name s → IsValid conn_name (set_num conn_name s n)
  unfolding set_num set_thread_num
  sets_num-IsValid s n v = record {
    positive = v.positive;
    fresh = λ h.
        let f = v.fresh h in
        record {
          not_listening = f.not_listening;
          first = f.first;
          no_next = f.no_next;
          no_loops = f.no_loops;
          no_connections = f.no_connections;
        };
    same_start = v.same_start;
    turn_is = v.turn_is;
    own_name = v.own_name;
    established = v.established;
    destroyed = v.destroyed;
  }

  -- The first start gives the pool its loops; a later one changes nothing.
  pub starts-IsValid :
      (s : TcpServer Name)
      → IsValid conn_name s
      → (s' : TcpServer Name) × (start conn_name start_loop s ≡ some s') × IsValid conn_name s'
  unfolding start EventLoop.start turn lookup
  starts-IsValid s v = elim (Bool-cases s.started) [
    | inl t ↦ (
      record s { started = true; listening = true },
      rw t refl,
      record {
        positive = v.positive;
        fresh = λ h. cc;
        same_start = v.same_start ∙ t;
        turn_is = v.turn_is;
        own_name = v.own_name;
        established = v.established;
        destroyed = v.destroyed;
      },
    )
    | inr t ↦
        let f = v.fresh t in
        let pool = record s.thread_pool {
          started = true;
          loops =
              s.thread_pool.loops ++ EventLoop.start_threads start_loop 0 s.thread_pool.num_threads;
        } in
        let empty : (n : Name) → lookup n s.connections ≡ none =
          λ n. ap (lookup n) f.no_connections in
        (
          record s { started = true; listening = true; thread_pool = pool },
          rw t (rw (v.same_start ∙ t) refl),
          record {
            positive = v.positive;
            fresh = λ h. cc;
            same_start = refl;
            turn_is = rw f.first f.no_next;
            own_name = λ n c h. let z = empty n in cc;
            established = λ i l. ground (arith, v.established i l, f.first);
            destroyed = λ i l. ground (arith, v.destroyed i l, f.first, empty (conn_name i));
          },
        )
  ]

  -- What a new connection leaves, once its loop is chosen.
  abbrev with_new : TcpServer Name → ℕ → EventLoopThreadPool → TcpServer Name
  with_new s l pool =
      let c : Conn Name = record {
        number = s.next_conn_id;
        name = conn_name s.next_conn_id;
        io_loop = l;
      } in
      record s {
        next_conn_id = s.next_conn_id + 1;
        thread_pool = pool;
        connections = insert (conn_name s.next_conn_id) c s.connections;
        tasks = s.tasks ++ (l, connect_established c) ∷ [];
      }

  module _ (s : TcpServer Name) (v : IsValid conn_name s) (l : ℕ) (pool : EventLoopThreadPool)
      (g : Given s.thread_pool (s.next_conn_id - 1) l pool) where
    abbrev new_conn : Conn Name
    new_conn = record { number = s.next_conn_id; name = conn_name s.next_conn_id; io_loop = l }

    abbrev new_task : ℕ × Task Name
    new_task = (l, connect_established new_conn)

    same_loop :
        (k : ℕ)
        → loop_of pool.base_loop pool.loops k
          ≡ loop_of s.thread_pool.base_loop s.thread_pool.loops k
    same_loop k = rw (g.same_base, g.same_loops) refl

    same_given : (i j : ℕ) → is_given (with_new s l pool) i j ≡ is_given s i j
    same_given i j = ap (λ o. is_loop o j) (same_loop (i - 1))

    new_given : (i j : ℕ) → i ≡ s.next_conn_id → is_given s i j ≡ (j == l)
    new_given i j h = ap (λ k. is_given s k j) h ∙ ap (λ o. is_loop o j) g.loop_is

    with_new-turn : pool.next ≡ turn (length pool.loops) (s.next_conn_id + 1 - 1)
    with_new-turn =
        let k : suc (s.next_conn_id - 1) ≡ s.next_conn_id + 1 - 1 = omega (arith, v.positive) in
        g.next_is
        ∙ ap (λ (x : List ℕ). turn (length x) (suc (s.next_conn_id - 1))) (sym g.same_loops)
        ∙ ap (turn (length pool.loops)) k

    with_new-own_name :
        (n : Name) (c : Conn Name)
        → lookup n (with_new s l pool).connections ≡ some c
        → (c.name ≡ n)
          × (n ≡ conn_name c.number)
          × (loop_of pool.base_loop pool.loops (c.number - 1) ≡ some c.io_loop)
    with_new-own_name n c h =
        let x = lookup-insert (conn_name s.next_conn_id) n new_conn s.connections in
        elim (Bool-cases (e.beq (conn_name s.next_conn_id) n)) [
          | inl t ↦
              let y : c ≡ new_conn = ground (arith, x, t, h) in
              let same : conn_name s.next_conn_id ≡ n =
                (e.beq_iff (conn_name s.next_conn_id) n).0 t in
              (
                ap (λ (d : Conn Name). d.name) y ∙ same,
                sym same ∙ ap (λ (d : Conn Name). conn_name d.number) (sym y),
                ap (λ (d : Conn Name). loop_of pool.base_loop pool.loops (d.number - 1)) y
                    ∙ same_loop (s.next_conn_id - 1)
                    ∙ g.loop_is
                    ∙ ap (λ (d : Conn Name). some d.io_loop) (sym y),
              )
          | inr t ↦
              let y : lookup n s.connections ≡ some c = ground (arith, x, t, h) in
              let (a, b, o) = v.own_name n c y in (a, b, same_loop (c.number - 1) ∙ o)
        ]

    with_new-established :
        (i j : ℕ)
        → established_in i j (with_new s l pool).tasks
          ≡ one_if (is_accepted (with_new s l pool) i && is_given (with_new s l pool) i j)
    unfolding established_in
    with_new-established i j = rw (same_given i j) (elim (Bool-cases (i == s.next_conn_id)) [
      | inl t ↦ ground (
        arith,
        v.established i j,
        v.positive,
        established-append i j s.tasks (new_task ∷ []),
        new_given i j (ground (arith, t)),
      )
      | inr t ↦ ground (arith, v.established i j, established-append i j s.tasks (new_task ∷ []), t)
    ])

    with_new-destroyed :
        (i j : ℕ)
        → destroyed_in i j (with_new s l pool).tasks
            + one_if (in_map conn_name (with_new s l pool) i && is_given (with_new s l pool) i j)
          ≡ one_if (is_accepted (with_new s l pool) i && is_given (with_new s l pool) i j)
    unfolding destroyed_in
    with_new-destroyed i j =
        let x = lookup-insert (conn_name s.next_conn_id) (conn_name i) new_conn s.connections in
        let n = same_name s.next_conn_id i in
        rw (same_given i j) (
          ground (
            arith,
            v.destroyed i j,
            v.positive,
            destroyed-append i j s.tasks (new_task ∷ []),
            x,
            n,
          ))

  pub comes-IsValid :
      (s : TcpServer Name)
      → s.listening ≡ true
      → IsValid conn_name s
      → (s' : TcpServer Name) × (new_connection conn_name s ≡ some s') × IsValid conn_name s'
  unfolding new_connection
  comes-IsValid s listening v =
      let (l, pool, n, g) = get_next_loop-Given s.thread_pool (s.next_conn_id - 1) v.turn_is in
      (
        with_new s l pool,
        rw (n, ◌>>=◌) refl,
        record {
          positive = omega arith;
          fresh = λ h. absurd (let f = (v.fresh h).not_listening in cc);
          same_start = g.same_start ∙ v.same_start;
          turn_is = with_new-turn s v l pool g;
          own_name = with_new-own_name s v l pool g;
          established = with_new-established s v l pool g;
          destroyed = with_new-destroyed s v l pool g;
        },
      )

  -- The next connection finds a loop.
  pub new_connection-next :
      (s : TcpServer Name)
      → IsValid conn_name s
      → (s' : TcpServer Name) × (new_connection conn_name s ≡ some s')
  unfolding new_connection
  new_connection-next s v =
      let (l, pool, n, g) = get_next_loop-Given s.thread_pool (s.next_conn_id - 1) v.turn_is in
      (with_new s l pool, rw (n, ◌>>=◌) refl)
