-- ===== src/TcpServer/Placed.antt =====
-- The loops in which connections are established and destroyed, and the invariant of a server.
use muduo_net_zxl.Prelude.{
  ℕ, ◌+◌, ◌-◌, ◌≤◌, ◌≡◌, Bool, true, false, ◌&&◌, Option, none, some, List, [], ◌∷◌, ◌++◌, arith,
  length, ◌==◌, leb, ltb, Eq, lookup, one_if, is_some,
}
use muduo_net_zxl.TcpServer.{
  Conn, Task, connect_established, connect_destroyed, TcpServer, init, set_num, start,
  new_connection, remove_connection,
}
use muduo_net_zxl.TcpServer.Turns.{turn, loop_of}

-- How often the connection `i` was established in the loop `l`, and destroyed there.
unfoldable pub established_in : {Name : Type 0} → ℕ → ℕ → List (ℕ × Task Name) → ℕ
established_in i l [] = 0
established_in i l ((k, connect_established c) ∷ ts) =
    one_if ((i == c.number) && (l == k)) + established_in i l ts
established_in i l ((k, connect_destroyed c) ∷ ts) = established_in i l ts

unfoldable pub destroyed_in : {Name : Type 0} → ℕ → ℕ → List (ℕ × Task Name) → ℕ
destroyed_in i l [] = 0
destroyed_in i l ((k, connect_established c) ∷ ts) = destroyed_in i l ts
destroyed_in i l ((k, connect_destroyed c) ∷ ts) =
    one_if ((i == c.number) && (l == k)) + destroyed_in i l ts

pub established-append :
    {Name : Type 0} (i l : ℕ) (xs ys : List (ℕ × Task Name))
    → established_in i l (xs ++ ys) ≡ established_in i l xs + established_in i l ys
unfolding established_in
established-append i l [] ys = omega arith
established-append i l ((k, connect_established c) ∷ xs) ys =
    omega (arith, established-append i l xs ys)
established-append i l ((k, connect_destroyed c) ∷ xs) ys = established-append i l xs ys

pub destroyed-append :
    {Name : Type 0} (i l : ℕ) (xs ys : List (ℕ × Task Name))
    → destroyed_in i l (xs ++ ys) ≡ destroyed_in i l xs + destroyed_in i l ys
unfolding destroyed_in
destroyed-append i l [] ys = omega arith
destroyed-append i l ((k, connect_established c) ∷ xs) ys = destroyed-append i l xs ys
destroyed-append i l ((k, connect_destroyed c) ∷ xs) ys = omega (arith, destroyed-append i l xs ys)

abbrev pub is_loop : Option ℕ → ℕ → Bool
is_loop none l = false
is_loop (some k) l = l == k

module _ {Name : Type 0} where
  -- Whether the loop `l` is the one whose turn it was for connection `i`.
  abbrev pub is_given : TcpServer Name → ℕ → ℕ → Bool
  is_given s i l = is_loop (loop_of s.thread_pool.base_loop s.thread_pool.loops (i - 1)) l

  abbrev pub is_accepted : TcpServer Name → ℕ → Bool
  is_accepted s i = leb 1 i && ltb i s.next_conn_id

  -- Nothing was accepted before the server was started.
  pub record Fresh (s : TcpServer Name) : Type 0 where
    pub not_listening : s.listening ≡ false
    pub first : s.next_conn_id ≡ 1
    pub no_next : s.thread_pool.next ≡ 0
    pub no_loops : s.thread_pool.loops ≡ []
    pub no_connections : s.connections ≡ []

module _ {Name : Type 0} ⦃e : Eq Name⦄ (conn_name : ℕ → Name) where
  abbrev pub in_map : TcpServer Name → ℕ → Bool
  in_map s i = is_some (lookup (conn_name i) s.connections)

  pub record IsValid (s : TcpServer Name) : Type 0 where
    pub positive : 1 ≤ s.next_conn_id
    pub fresh : s.started ≡ false → Fresh s
    pub same_start : s.thread_pool.started ≡ s.started
    pub turn_is : s.thread_pool.next ≡ turn (length s.thread_pool.loops) (s.next_conn_id - 1)
    pub own_name :
        (n : Name) (c : Conn Name)
        → lookup n s.connections ≡ some c
        → (c.name ≡ n)
          × (n ≡ conn_name c.number)
          × (loop_of s.thread_pool.base_loop s.thread_pool.loops (c.number - 1) ≡ some c.io_loop)
    pub established :
        (i l : ℕ) → established_in i l s.tasks ≡ one_if (is_accepted s i && is_given s i l)
    pub destroyed :
        (i l : ℕ)
        → destroyed_in i l s.tasks + one_if (in_map s i && is_given s i l)
          ≡ one_if (is_accepted s i && is_given s i l)

module _ {Name : Type 0} ⦃e : Eq Name⦄ (conn_name : ℕ → Name) (start_loop : ℕ → ℕ) where
  -- The number of threads is set, the server is started, connections come to a server that listens, and
  -- one that is in the map goes.
  pub data Step : TcpServer Name → TcpServer Name → Type 0 where
    sets_num : (s : TcpServer Name) (n : ℕ) → Step s (set_num conn_name s n)
    starts : (s s' : TcpServer Name) → start conn_name start_loop s ≡ some s' → Step s s'
    comes :
        (s s' : TcpServer Name)
        → s.listening ≡ true
        → new_connection conn_name s ≡ some s'
        → Step s s'
    goes :
        (s s' : TcpServer Name) (c : Conn Name)
        → lookup c.name s.connections ≡ some c
        → remove_connection conn_name s c ≡ some s'
        → Step s s'

  pub data Reach (loop_ : ℕ) : TcpServer Name → Type 0 where
    here : Reach loop_ (init conn_name loop_)
    next : {s s' : TcpServer Name} → Reach loop_ s → Step s s' → Reach loop_ s'
