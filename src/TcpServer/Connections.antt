-- ===== src/TcpServer/Connections.antt =====
-- From the acceptance of a connection to its end.
use muduo_net_zxl.Prelude.{
  ℕ, ◌+◌, ◌≡◌, refl, sym, ap, ◌∙◌, true, false, ◌&&◌, none, some, List, [], ◌∷◌, ◌++◌, arith,
  Bool-cases, inl, inr, ◌==◌, Eq, lookup, erase, lookup-erase, beq_ne, one_if, is_some, same_result,
}
use muduo_net_zxl.EventLoop
use muduo_net_zxl.EventLoop.{EventLoopThreadPool, get_next_loop, set_thread_num}
use muduo_net_zxl.TcpServer.{
  Conn, connect_destroyed, TcpServer, init, start, new_connection, remove_connection,
  remove_connection_in_loop,
}
use muduo_net_zxl.TcpServer.Turns.{turn}
use muduo_net_zxl.TcpServer.Placed.{
  established_in, destroyed_in, established-append, destroyed-append, is_loop, sets_num, starts,
  comes, goes, Reach, here, next, is_given, is_accepted, IsValid,
}
use muduo_net_zxl.TcpServer.Accepting.{
  sets_num-IsValid, starts-IsValid, comes-IsValid, new_connection-next,
}

module _ {Name : Type 0} ⦃e : Eq Name⦄ (conn_name : ℕ → Name)
    (distinct : (i j : ℕ) → conn_name i ≡ conn_name j → i ≡ j) (start_loop : ℕ → ℕ) where
  goes-destroyed :
      (s : TcpServer Name) (c : Conn Name) (i l : ℕ)
      → lookup c.name s.connections ≡ some c
      → IsValid conn_name s
      → destroyed_in i l (s.tasks ++ (c.io_loop, connect_destroyed c) ∷ [])
          + one_if (is_some (lookup (conn_name i) (erase c.name s.connections)) && is_given s i l)
        ≡ one_if (is_accepted s i && is_given s i l)
  unfolding destroyed_in
  goes-destroyed s c i l f v =
      let (a, b, o) = v.own_name c.name c f in
      let p = destroyed-append i l s.tasks ((c.io_loop, connect_destroyed c) ∷ []) in
      let x = lookup-erase c.name (conn_name i) s.connections in
      elim (Bool-cases (i == c.number)) [
        | inl t ↦
            let j : i ≡ c.number = ground (arith, t) in
            let k : conn_name i ≡ c.name = ap conn_name j ∙ sym b in
            let w : lookup (conn_name i) s.connections ≡ some c =
              ap (λ n. lookup n s.connections) k ∙ f in
            let y : e.beq c.name (conn_name i) ≡ true =
              (e.beq_iff c.name (conn_name i)).1 (sym k) in
            let g : is_given s i l ≡ (l == c.io_loop) =
              ap (λ k. is_given s k l) j ∙ ap (λ q. is_loop q l) o in
            ground (arith, v.destroyed i l, t, w, y, x, p, g)
        | inr t ↦
            let y : e.beq c.name (conn_name i) ≡ false =
              beq_ne c.name (conn_name i)
                (λ k. absurd (ground (arith, t, distinct c.number i (sym b ∙ k)))) in
            ground (arith, v.destroyed i l, t, y, x, p)
      ]

  goes-IsValid :
      (s : TcpServer Name) (c : Conn Name)
      → lookup c.name s.connections ≡ some c
      → IsValid conn_name s
      → (s' : TcpServer Name) × (remove_connection conn_name s c ≡ some s') × IsValid conn_name s'
  unfolding remove_connection remove_connection_in_loop established_in lookup
  goes-IsValid s c f v =
      let gone : (n : Name) (d : Conn Name)
          → lookup n (erase c.name s.connections) ≡ some d
          → lookup n s.connections ≡ some d =
        λ n d k. ground (arith, lookup-erase c.name n s.connections, k) in
      (
        record s {
          connections = erase c.name s.connections;
          tasks = s.tasks ++ (c.io_loop, connect_destroyed c) ∷ [];
        },
        rw f refl,
        record {
          positive = v.positive;
          fresh = λ h. absurd (
              let w : lookup c.name s.connections ≡ none =
                ap (λ (m : List (Name × Conn Name)). lookup c.name m) (v.fresh h).no_connections in
              cc);
          same_start = v.same_start;
          turn_is = v.turn_is;
          own_name = λ n d k. v.own_name n d (gone n d k);
          established = λ i l. omega (
            arith,
            v.established i l,
            established-append i l s.tasks ((c.io_loop, connect_destroyed c) ∷ []),
          );
          destroyed = λ i l. goes-destroyed s c i l f v;
        },
      )

  reached-IsValid :
      {loop_ : ℕ} {s : TcpServer Name} → Reach conn_name start_loop loop_ s → IsValid conn_name s
  unfolding init lookup established_in destroyed_in EventLoop.new_pool turn
  reached-IsValid here = record {
    positive = omega arith;
    fresh = λ h. record {
      not_listening = refl;
      first = refl;
      no_next = refl;
      no_loops = refl;
      no_connections = refl;
    };
    same_start = refl;
    turn_is = refl;
    own_name = λ n c h. absurd (ground (arith, h));
    established = λ i l. ground arith;
    destroyed = λ i l. ground arith;
  }
  reached-IsValid (next r (sets_num s n)) =
      sets_num-IsValid conn_name distinct start_loop s n (reached-IsValid r)
  reached-IsValid (next r (starts s s' h)) =
      let (t, g, v) = starts-IsValid conn_name distinct start_loop s (reached-IsValid r) in
      let z : s' ≡ t = same_result h g in rw z v
  reached-IsValid (next r (comes s s' l h)) =
      let (t, g, v) = comes-IsValid conn_name distinct start_loop s l (reached-IsValid r) in
      let z : s' ≡ t = same_result h g in rw z v
  reached-IsValid (next r (goes s s' c f h)) =
      let (t, g, v) = goes-IsValid s c f (reached-IsValid r) in
      let z : s' ≡ t = same_result h g in rw z v

  -- If `snprintf` gives different numbers different names, then whenever a server was given a number of
  -- threads and started, and whatever connections came once it listened and went while it had them: each
  -- number below the next one was established exactly once, in the loop whose turn it was in the pool, or
  -- in the server's own if the pool has no threads; it was either destroyed exactly once, in that same
  -- loop, or is still in the map; no other was, and none in any other loop. To start the server and to
  -- accept the next connection fails no assertion and finds a loop.
  pub accepted-IsValid :
      {loop_ : ℕ} {s : TcpServer Name}
      → Reach conn_name start_loop loop_ s
      → IsValid conn_name s
        × ((s' : TcpServer Name) × (start conn_name start_loop s ≡ some s'))
        × ((s' : TcpServer Name) × (new_connection conn_name s ≡ some s'))
  accepted-IsValid {s} r =
      let v = reached-IsValid r in
      let (t, g, _) = starts-IsValid conn_name distinct start_loop s v in
      (v, (t, g), new_connection-next conn_name distinct start_loop s v)
