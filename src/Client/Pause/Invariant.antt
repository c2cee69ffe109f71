-- ===== src/Client/Pause/Invariant.antt =====
-- Nobody waits in vain, and the depth is the number of those who wait.
use gatelet.Prelude.{
  ℕ, ◌+◌, ◌≤◌, ◌<◌, ◌≡◌, refl, ap, subst, ◌⊎◌, Bool, true, false, List, [], ◌∷◌, ◌++◌, arith, All,
  length, length-append,
}
use gatelet.Client.Pause.{
  PauseController, new_pause_controller, set_paused, enter, leave, queue_depth, Waiting, no_waiters,
  Step, sets, passes, waits, leaves, Reach, here, then_step,
}

-- A waiter's channel is closed, or it is the one that the next resumption closes.
abbrev pub Wakes : PauseController → ℕ → Type 0
Wakes p ch = (p.closed ch ≡ true) ⊎ ((p.paused ≡ true) × (ch ≡ p.resume))

pub record Inv (w : Waiting) : Type 0 where
  pub depth : w.controller.queued ≡ length w.waiters
  pub wakes : All (Wakes w.controller) w.waiters
  pub fresh : (ch : ℕ) → w.controller.next ≤ ch → w.controller.closed ch ≡ false
  pub made : w.controller.resume < w.controller.next
  -- So the close in `SetPaused` is never a second one, which would panic.
  pub unclosed : w.controller.paused ≡ true → w.controller.closed w.controller.resume ≡ false

start-Inv : Inv (no_waiters new_pause_controller)
unfolding new_pause_controller
start-Inv = record {
  depth = refl;
  wakes = tt;
  fresh = λ ch h. refl;
  made = omega arith;
  unclosed = λ h. refl;
}

All-map :
    (p q : PauseController) (xs : List ℕ)
    → ((ch : ℕ) → Wakes p ch → Wakes q ch)
    → All (Wakes p) xs
    → All (Wakes q) xs
All-map p q [] f h = tt
All-map p q (x ∷ xs) f h = (f x h.0, All-map p q xs f h.1)

set_paused-Wakes :
    (p : PauseController) (v : Bool) (ch : ℕ) → Wakes p ch → Wakes (set_paused p v) ch
unfolding set_paused
set_paused-Wakes p v ch h = ground arith

set_paused-Inv :
    (w : Waiting) (v : Bool) → Inv w → Inv (record w { controller = set_paused w.controller v })
unfolding set_paused
set_paused-Inv w v i = record {
  depth = ground arith;
  wakes =
      All-map w.controller (set_paused w.controller v) w.waiters (set_paused-Wakes w.controller v)
        i.wakes;
  fresh = λ ch h. ground (arith, i.fresh ch);
  made = ground arith;
  unclosed = λ h. ground (arith, i.fresh w.controller.next);
}

length-middle :
    (before after : List ℕ) (ch : ℕ)
    → length (before ++ (ch ∷ after)) ≡ length (before ++ after) + 1
length-middle before after ch =
    omega (arith, length-append before (ch ∷ after), length-append before after)

All-middle :
    (P : ℕ → Type 0) (before after : List ℕ) (ch : ℕ)
    → All P (before ++ (ch ∷ after))
    → All P (before ++ after)
All-middle P [] after ch h = h.1
All-middle P (x ∷ before) after ch h = (h.0, All-middle P before after ch h.1)

pub Step-Inv : {v w : Waiting} → Step v w → Inv v → Inv w
unfolding enter leave
Step-Inv (sets w v) i = set_paused-Inv w v i
Step-Inv (passes w e) i = record {
  depth = ground (arith, i.depth);
  wakes = All-map w.controller (enter w.controller).0 w.waiters (λ ch h. ground arith) i.wakes;
  fresh = λ ch h. ground (arith, i.fresh ch);
  made = ground (arith, i.made);
  unclosed = λ h. ground (arith, i.unclosed);
}
Step-Inv (waits w ch e) i = record {
  depth = ground (arith, i.depth);
  wakes = (
    ground arith,
    All-map w.controller (enter w.controller).0 w.waiters (λ c h. ground arith) i.wakes,
  );
  fresh = λ c h. ground (arith, i.fresh c);
  made = ground (arith, i.made);
  unclosed = λ h. ground (arith, i.unclosed);
}
Step-Inv (leaves w before after ch e) i = record {
  depth = omega (arith, i.depth, ap length e, length-middle before after ch);
  wakes =
      All-middle (Wakes w.controller) before after ch (subst (All (Wakes w.controller)) e i.wakes);
  fresh = i.fresh;
  made = i.made;
  unclosed = i.unclosed;
}

pub reachable-Inv : {w : Waiting} → Reach (no_waiters new_pause_controller) w → Inv w
reachable-Inv here = start-Inv
reachable-Inv (then_step r s) = Step-Inv s (reachable-Inv r)

channels_closed :
    (p : PauseController) (xs : List ℕ)
    → p.paused ≡ false
    → All (Wakes p) xs
    → All (λ ch. p.closed ch ≡ true) xs
channels_closed p [] h a = tt
channels_closed p (x ∷ xs) h a = (ground (arith, a.0), channels_closed p xs h a.1)

-- In every interleaving of pauses, resumptions and requests: the queue depth is the number of
-- requests that wait; while the controller is not paused the channel of each of them is closed, so
-- none is stuck; and while it is paused the channel of a new one is open, so it does wait, and
-- resuming closes it for the first time.
pub pause_controller_safe :
    (w : Waiting)
    → Reach (no_waiters new_pause_controller) w
    → (queue_depth w.controller ≡ length w.waiters)
      × (w.controller.paused ≡ false → All (λ ch. w.controller.closed ch ≡ true) w.waiters)
      × (w.controller.paused ≡ true → w.controller.closed w.controller.resume ≡ false)
unfolding queue_depth
pause_controller_safe w r =
    let i = reachable-Inv r in
    (i.depth, (λ h. channels_closed w.controller w.waiters h i.wakes), i.unclosed)
