-- ===== src/EventLoop/Wakeup.antt =====
-- The loop's thread among other threads that queue functors and quit. Another thread's `queueInLoop`
-- and `quit` are two steps, its change and its `wakeup`; `poll` blocks while nothing is to be read.
use muduo_net_zxl.Prelude.{ℕ, ◌+◌, ◌-◌, ◌≤◌, ◌≡◌, ◌⊎◌, true, false, List, [], ◌∷◌, ◌++◌}
use muduo_net_zxl.EventLoop.{EventLoop, init, wakeup, handle_read, push_back, queue_all, swap, quit}

-- Where the loop's thread is: in `poll`, among the active channels, or among the functors that it took.
pub data Place : Type 0 where
  polling : Place
  handling : Place
  running : List ℕ → Place

-- `owed` counts the wakeups that other threads are about to write; `ran` and `queued` are histories.
pub record World : Type 0 where
  pub loop : EventLoop
  pub place : Place
  pub owed : ℕ
  pub ran : List ℕ
  pub queued : List ℕ

unfoldable pub start : World
start = record {
  loop = record init { looping = true };
  place = polling;
  owed = 0;
  ran = [];
  queued = [];
}

abbrev pub others_push : World → ℕ → World
others_push w cb = record w {
  loop = push_back w.loop cb;
  owed = w.owed + 1;
  queued = w.queued ++ cb ∷ [];
}

abbrev pub others_wake : World → World
others_wake w = record w { loop = wakeup w.loop; owed = w.owed - 1 }

abbrev pub others_quit : World → World
others_quit w = record w { loop = record w.loop { is_quit = true }; owed = w.owed + 1 }

abbrev pub queues_here : World → List ℕ → World
queues_here w cbs = record w { loop = queue_all w.loop cbs; queued = w.queued ++ cbs }

module _ (body : ℕ → List ℕ) where
  pub data Step : World → World → Type 0 where
    pushes : (w : World) (cb : ℕ) → Step w (others_push w cb)
    wakes : (w : World) → 1 ≤ w.owed → Step w (others_wake w)
    quits : (w : World) → Step w (others_quit w)
    returns : (w : World) → w.place ≡ polling → Step w (record w { place = handling })
    reads : (w : World) → w.place ≡ handling → Step w (record w { loop = handle_read w.loop })
    queues : (w : World) (cbs : List ℕ) → w.place ≡ handling → Step w (queues_here w cbs)
    quits_here : (w : World) → w.place ≡ handling → Step w (record w { loop = quit true w.loop })
    takes :
        (w : World)
        → w.place ≡ handling
        → Step w (record w { loop = (swap w.loop).1; place = running (swap w.loop).0 })
    runs :
        (w : World) (cb : ℕ) (cbs : List ℕ)
        → w.place ≡ running (cb ∷ cbs)
        → Step w (record (queues_here w (body cb)) { place = running cbs; ran = w.ran ++ cb ∷ [] })
    polls :
        (w : World)
        → w.place ≡ running []
        → w.loop.is_quit ≡ false
        → Step w (record w {
          loop = record w.loop { calling_pending_functors = false };
          place = polling;
        })

  pub data Reach : World → Type 0 where
    here : Reach start
    next : {w v : World} → Reach w → Step w v → Reach v

  -- The functors that the loop's thread has taken and not yet run.
  abbrev pub taken : Place → List ℕ
  taken polling = []
  taken handling = []
  taken (running cbs) = cbs

  -- Outside its handlers, a thread that has something to do is, or is about to be, woken; and what runs
  -- is what was queued, in order.
  abbrev pub Awake : Place → World → Type 0
  Awake polling w =
      (w.loop.calling_pending_functors ≡ false)
      × ((w.loop.pending_functors ≡ []) ⊎ (1 ≤ w.loop.wakeups + w.owed))
      × ((w.loop.is_quit ≡ false) ⊎ (1 ≤ w.loop.wakeups + w.owed))
  Awake handling w = w.loop.calling_pending_functors ≡ false
  Awake (running cbs) w =
      (w.loop.calling_pending_functors ≡ true)
      × ((w.loop.pending_functors ≡ []) ⊎ (1 ≤ w.loop.wakeups + w.owed))

  pub record IsValid (w : World) : Type 0 where
    pub awake : Awake w.place w
    pub order : w.ran ++ (taken w.place ++ w.loop.pending_functors) ≡ w.queued
