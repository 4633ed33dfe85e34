-- ===== src/TcpConnection/Lifecycle.antt =====
-- The states of a connection, and when its user hears of it.
use muduo_net_zxl.Prelude.{
  ℕ, ◌≡◌, ◌⊎◌, refl, sym, ap, ◌∙◌, Bool, true, false, ◌||◌, some, List, [], ◌∷◌, ◌++◌, arith, inl,
  inr,
}
use muduo_net_zxl.Buffer.{Readv}
use muduo_net_zxl.Channel.{Channel, has_bit, is_writing, enable_reading, disable_all}
use muduo_net_zxl.Channel
use muduo_net_zxl.TcpConnection.{
  StateE, connecting, connected, disconnecting, disconnected, Event, connection_event, close_event,
  Connection, init, is_connected, is_disconnecting, Write, connect_established, connect_destroyed,
  handle_read, handle_write, shutdown_in_loop, send, shutdown, handle_close, Functor, run_functor,
}
use muduo_net_zxl.TcpConnection.Calls.{
  Same, handle_write-Same, run_functor-Same, send-Same, handle_read-step, handle_write-idle,
}

-- Of connection, message and close callbacks: the one that says that the connection is up comes first,
-- and the one that says that it is down comes last. A connection that is down reads nothing any more and
-- has left the poller.
abbrev pub Phase : StateE → Connection → Type 0
Phase connecting c = (c.events ≡ []) × (c.channel.events ≡ 0) × (c.queued ≡ [])
Phase connected c = (rest : List Event) × (c.events ≡ connection_event connected ∷ rest)
Phase disconnecting c = (rest : List Event) × (c.events ≡ connection_event connected ∷ rest)
Phase disconnected c =
    (rest : List Event) × (c.events
      ≡ connection_event connected ∷ (rest ++ connection_event disconnected ∷ []))
    × (has_bit c.channel.events 0 ≡ false)
    × (c.removed ≡ true)

-- What the loop and its user, in the loop's thread or in another one, do with a connection. Input is read
-- only while the channel watches for it; what was left to the loop may run at any later time, also when
-- the connection is down.
pub data Step : Connection → Connection → Type 0 where
  established : (c c' : Connection) → connect_established c ≡ some c' → Step c c'
  reads :
      (c c' : Connection) (r : Readv)
      → has_bit c.channel.events 0 ≡ true
      → handle_read c r ≡ some c'
      → Step c c'
  writes : (c c' : Connection) (w : Write) → handle_write c w ≡ some c' → Step c c'
  closes : (c c' : Connection) → handle_close c ≡ some c' → Step c c'
  sends :
      (b : Bool) (c c' : Connection) (xs : List ℕ) (w : Write) → send b c xs w ≡ some c' → Step c c'
  shuts : (b : Bool) (c : Connection) → Step c (shutdown b c)
  runs :
      (c c' : Connection) (f : Functor) (fs : List Functor) (w : Write)
      → c.queued ≡ f ∷ fs
      → run_functor (record c { queued = fs }) f w ≡ some c'
      → Step c c'
  destroyed : (c c' : Connection) → connect_destroyed c ≡ some c' → Step c c'

pub data Reach (c : Connection) : Connection → Type 0 where
  here : Reach c c
  next : {d e : Connection} → Reach c d → Step d e → Reach c e

-- A call that changes neither the state nor what was logged, or logs something more in between.
grow-Phase :
    (s : StateE) (c c' : Connection) (e : List Event)
    → (s ≡ connected) ⊎ (s ≡ disconnecting)
    → Phase s c
    → c'.events ≡ c.events ++ e
    → Phase s c'
grow-Phase connecting c c' e (inl h) p q = absurd (ground arith)
grow-Phase connecting c c' e (inr h) p q = absurd (ground arith)
grow-Phase connected c c' e h (rest, p) q = (rest ++ e, q ∙ ap (λ l. l ++ e) p)
grow-Phase disconnecting c c' e h (rest, p) q = (rest ++ e, q ∙ ap (λ l. l ++ e) p)
grow-Phase disconnected c c' e (inl h) p q = absurd (ground arith)
grow-Phase disconnected c c' e (inr h) p q = absurd (ground arith)

-- A call that leaves the phase as it is; before the connection is up, nothing is called.
same-Phase :
    (s : StateE) (c c' : Connection)
    → Same c c'
    → (s ≡ connecting → Phase s c → c' ≡ c)
    → Phase s c
    → Phase s c'
same-Phase connecting c c' h k p = rw (k refl p) p
same-Phase connected c c' h k (rest, e) = (rest, h.events ∙ e)
same-Phase disconnecting c c' h k (rest, e) = (rest, h.events ∙ e)
same-Phase disconnected c c' h k (rest, e, z, r) = (rest, h.events ∙ e, h.reads ∙ z, h.removed ∙ r)

-- Input comes only while the connection is up.
reads-up :
    (s : StateE) (c : Connection)
    → has_bit c.channel.events 0 ≡ true
    → Phase s c
    → (s ≡ connected) ⊎ (s ≡ disconnecting)
reads-up connecting c h (e, z, q) = absurd (ground arith)
reads-up connected c h p = inl refl
reads-up disconnecting c h p = inr refl
reads-up disconnected c h (rest, e, z, r) = absurd (ground arith)

move : (s t : StateE) (c : Connection) → s ≡ t → Phase s c → Phase t c
move s t c e p = rw e at p

was_up :
    (s : StateE)
    → (is_connected s || is_disconnecting s) ≡ true
    → (s ≡ connected) ⊎ (s ≡ disconnecting)
was_up s h = ground arith

established-Phase :
    (c c' : Connection) → connect_established c ≡ some c' → Phase c.state c → Phase c'.state c'
unfolding connect_established
established-Phase c c' e p =
    let k : c.state ≡ connecting = ground arith in
    let (q, _, _) = move c.state connecting c k p in
    move connected c'.state c' (ground arith) ([], ground (arith, q))

-- Only a connection that is up can go down.
down-Phase :
    (s : StateE) (c c' : Connection)
    → (s ≡ connected) ⊎ (s ≡ disconnecting)
    → Phase s c
    → c'.events ≡ c.events ++ connection_event disconnected ∷ []
    → has_bit c'.channel.events 0 ≡ false
    → c'.removed ≡ true
    → Phase disconnected c'
down-Phase connecting c c' (inl h) p q z r = absurd (ground arith)
down-Phase connecting c c' (inr h) p q z r = absurd (ground arith)
down-Phase connected c c' h (rest, p) q z r =
    (rest, q ∙ ap (λ l. l ++ connection_event disconnected ∷ []) p, z, r)
down-Phase disconnecting c c' h (rest, p) q z r =
    (rest, q ∙ ap (λ l. l ++ connection_event disconnected ∷ []) p, z, r)
down-Phase disconnected c c' (inl h) p q z r = absurd (ground arith)
down-Phase disconnected c c' (inr h) p q z r = absurd (ground arith)

destroyed-Phase :
    (c c' : Connection) → connect_destroyed c ≡ some c' → Phase c.state c → Phase c'.state c'
unfolding connect_destroyed disable_all
destroyed-Phase c c' e p =
    let k : (c.state ≡ connected) ⊎ (c.state ≡ disconnecting) = was_up c.state (ground arith) in
    move disconnected c'.state c' (ground arith)
      (down-Phase c.state c c' k p (ground arith) (ground arith) (ground arith))

shuts-Phase :
    (b : Bool) (s : StateE) (c : Connection)
    → c.state ≡ s
    → Phase s c
    → Phase (shutdown b c).state (shutdown b c)
unfolding shutdown shutdown_in_loop
shuts-Phase b connected c k (rest, p) =
    move disconnecting (shutdown b c).state (shutdown b c) (ground arith) (rest, ground (arith, p))
shuts-Phase b connecting c k p =
    let same : shutdown b c ≡ c = ground arith in rw same (move connecting c.state c (sym k) p)
shuts-Phase b disconnecting c k p =
    let same : shutdown b c ≡ c = ground arith in rw same (move disconnecting c.state c (sym k) p)
shuts-Phase b disconnected c k p =
    let same : shutdown b c ≡ c = ground arith in rw same (move disconnected c.state c (sym k) p)

closes-Phase : (c c' : Connection) → handle_close c ≡ some c' → Phase c.state c → Phase c'.state c'
unfolding handle_close
closes-Phase c c' e p =
    move c.state c'.state c' (ground arith)
      (grow-Phase c.state c c' (close_event ∷ []) (was_up c.state (ground arith)) p (ground arith))

Step-Phase : {c c' : Connection} → Step c c' → Phase c.state c → Phase c'.state c'
Step-Phase (established c c' e) p = established-Phase c c' e p
Step-Phase (reads c c' r h e) p =
    let (s, (l, q)) = handle_read-step c c' r e in
    move c.state c'.state c' (sym s) (grow-Phase c.state c c' l (reads-up c.state c h p) p q)
Step-Phase (writes c c' w e) p =
    let h = handle_write-Same c c' w e in
    move c.state c'.state c' (sym h.state) (
      same-Phase c.state c c' h
        (λ k q. handle_write-idle c c' w (move c.state connecting c k q).1 e) p)
Step-Phase (closes c c' e) p = closes-Phase c c' e p
Step-Phase (sends b c c' xs w e) p = elim (send-Same b c c' xs w e) [
  | inl (k, h) ↦ move c.state c'.state c' (sym h.state) (same-Phase c.state c c' h (λ z q. cc) p)
  | inr same ↦ rw same p
]
Step-Phase (shuts b c) p = shuts-Phase b c.state c refl p
Step-Phase (runs c c' f fs w q e) p =
    let s = run_functor-Same (record c { queued = fs }) c' f w e in
    let h : Same c c' = record {
      state = s.state;
      events = s.events;
      removed = s.removed;
      reads = s.reads;
    } in
    move c.state c'.state c' (sym h.state)
      (same-Phase c.state c c' h (λ k y. let z = (move c.state connecting c k y).2 in cc) p)
Step-Phase (destroyed c c' e) p = destroyed-Phase c c' e p

-- Whatever sequence of calls brought a new connection to its state, those that other threads queued
-- included, even if they run after its end: of the connection, message and close callbacks, none ran
-- before the connection was up, then the one for the connection first of all, and the one for its end
-- last of all; and once it is down it reads nothing any more and has left the poller.
pub Reach-Phase :
    (sockfd : ℕ) (w : Bool) {c : Connection} → Reach (init sockfd w) c → Phase c.state c
unfolding init Channel.init
Reach-Phase sockfd w here = (refl, refl, refl)
Reach-Phase sockfd w (next r s) = Step-Phase s (Reach-Phase sockfd w r)
