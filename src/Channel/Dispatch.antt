-- ===== src/Channel/Dispatch.antt =====
-- Which callbacks `handleEvent` runs, and in which order.
use muduo_net_zxl.Prelude.{
  ℕ, ◌≡◌, refl, Bool, true, false, not, ◌&&◌, ◌||◌, Option, none, some, List, [], ◌∷◌, ◌++◌,
  append_assoc, append-nil, sym,
}
use muduo_net_zxl.Channel.{Channel, Callbacks, handle_event, has_bit, call, call_at}

pub data Call : Type 0 where
  error close write : Call
  read : ℕ → Call

abbrev pub add : Call → List Call → List Call
add c l = l ++ c ∷ []

abbrev pub set_if {ℓ} : {A : Type ℓ} → Bool → A → Option A
set_if true a = some a
set_if false a = none

-- Callbacks that write down that they ran; a flag says whether each is set.
abbrev pub logging : Bool → Bool → Bool → Bool → Callbacks (List Call)
logging r w e c = record {
  read_callback = set_if r (λ t l. add (read t) l);
  write_callback = set_if w (add write);
  error_callback = set_if e (add error);
  close_callback = set_if c (add close);
}

abbrev pub keep : Bool → Call → List Call
keep true c = c ∷ []
keep false c = []

call-logging :
    (b e : Bool) (c : Call) (l : List Call) → call b (set_if e (add c)) l ≡ l ++ keep (b && e) c
call-logging true true c l = refl
call-logging true false c l = sym (append-nil l)
call-logging false true c l = sym (append-nil l)
call-logging false false c l = sym (append-nil l)

call_at-logging :
    (b e : Bool) (c : ℕ → Call) (t : ℕ) (l : List Call)
    → call_at b (set_if e (λ t l. add (c t) l)) t l ≡ l ++ keep (b && e) (c t)
call_at-logging true true c t l = refl
call_at-logging true false c t l = sym (append-nil l)
call_at-logging false true c t l = sym (append-nil l)
call_at-logging false false c t l = sym (append-nil l)

-- Errors are reported first, then a hang-up, which waits while there is still input to read, then
-- input and at last room for output; each at most once, and only if its callback is set.
pub handle_event-order :
    (c : Channel) (r w e k : Bool) (time : ℕ)
    → handle_event c (logging r w e k) time []
      ≡ keep ((has_bit c.revents 3 || has_bit c.revents 5) && e) error
        ++ (keep ((has_bit c.revents 4 && not (has_bit c.revents 0)) && k) close
            ++ (keep
                  ((has_bit c.revents 0 || has_bit c.revents 1 || has_bit c.revents 13) && r)
                  (read time)
                ++ keep (has_bit c.revents 2 && w) write))
unfolding handle_event
handle_event-order c r w e k time =
    rw call-logging
      (rw call-logging (rw (call_at-logging _ r read time) (rw call-logging (simp append_assoc))))
