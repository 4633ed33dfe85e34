-- ===== src/EventLoop/Pending.antt =====
-- `doPendingFunctors`: what runs, and what waits for the next round.
use muduo_net_zxl.Prelude.{
  ℕ, ◌+◌, ◌≡◌, refl, sym, ap, ◌∙◌, true, false, List, [], ◌∷◌, ◌++◌, if◌then◌else◌, length, arith,
  append_assoc, append-nil, length-append,
}
use muduo_net_zxl.EventLoop.{
  EventLoop, wakeup, push_back, queue_in_loop, queue_all, swap, run_functors, do_pending_functors,
}

-- What queueing from the loop's own thread leaves, while functors run and otherwise.
pub record Queued (l : EventLoop) (cbs : List ℕ) (l' : EventLoop) : Type 0 where
  pub pending : l'.pending_functors ≡ l.pending_functors ++ cbs
  pub calling : l'.calling_pending_functors ≡ l.calling_pending_functors
  pub woken :
      l'.wakeups ≡ (if l.calling_pending_functors then l.wakeups + length cbs else l.wakeups)
  pub same_quit : l'.is_quit ≡ l.is_quit

pub queue_all-Queued : (l : EventLoop) (cbs : List ℕ) → Queued l cbs (queue_all l cbs)
unfolding queue_all queue_in_loop push_back wakeup
queue_all-Queued l [] = record {
  pending = sym (append-nil l.pending_functors);
  calling = refl;
  woken = ground arith;
  same_quit = refl;
}
queue_all-Queued l (cb ∷ cbs) =
    let q = queue_all-Queued (queue_in_loop true l cb) cbs in
    let p : (queue_in_loop true l cb).pending_functors ≡ l.pending_functors ++ cb ∷ [] =
      ground arith in
    record {
      pending = q.pending ∙ ap (λ xs. xs ++ cbs) p ∙ append_assoc l.pending_functors (cb ∷ []) cbs;
      calling = ground (arith, q.calling);
      woken = ground (arith, q.woken);
      same_quit = ground (arith, q.same_quit);
    }

module _ (body : ℕ → List ℕ) where
  unfoldable pub bodies : List ℕ → List ℕ
  bodies [] = []
  bodies (cb ∷ cbs) = body cb ++ bodies cbs

  run_functors-Queued :
      (l : EventLoop) (cbs : List ℕ) → Queued l (bodies cbs) (run_functors body l cbs)
  unfolding run_functors bodies
  run_functors-Queued l [] = record {
    pending = sym (append-nil l.pending_functors);
    calling = refl;
    woken = ground arith;
    same_quit = refl;
  }
  run_functors-Queued l (cb ∷ cbs) =
      let q = queue_all-Queued l (body cb) in
      let r = run_functors-Queued (queue_all l (body cb)) cbs in
      record {
        pending =
            r.pending
            ∙ ap (λ xs. xs ++ bodies cbs) q.pending
            ∙ append_assoc l.pending_functors (body cb) (bodies cbs);
        calling = r.calling ∙ q.calling;
        woken = ground (arith, r.woken, q.woken, q.calling, length-append (body cb) (bodies cbs));
        same_quit = r.same_quit ∙ q.same_quit;
      }

  -- Every functor that waits when the round begins runs, in order; what they queue waits for the next
  -- round, in order, and has woken the loop once for each, so that the next `poll` does not block.
  pub do_pending_functors-Queued :
      (l : EventLoop)
      → let l' = do_pending_functors body l in
        (l'.pending_functors ≡ bodies l.pending_functors)
        × (l'.wakeups ≡ l.wakeups + length (bodies l.pending_functors))
        × (l'.calling_pending_functors ≡ false)
        × (l'.is_quit ≡ l.is_quit)
  unfolding do_pending_functors swap
  do_pending_functors-Queued l =
      let q = run_functors-Queued (swap l).1 l.pending_functors in
      (q.pending, q.woken, refl, q.same_quit)
