-- ===== src/Command/Daemon/Status.antt =====
-- The status with which the relay exits.
use gatelet.Prelude.{ℕ, ◌≡◌, refl, Bool, true, false, Option, none, some, Bytes}
use gatelet.Server.Control.{ControlEnd, accepting, returned_nil, returned_error, end_of_accept}
use gatelet.Command.Daemon.{
  HttpState, listening, shut, broken, Daemon, just_started, ends_context, Step, signalled,
  closes_control, accepts, accept_fails, shuts_down, http_fails, returns, dies, Reach, here, next,
}

abbrev pub ExitsWith : HttpState → ℕ → Type 0
ExitsWith listening status = ⊥
ExitsWith shut status = status ≡ 0
ExitsWith broken status = status ≡ 1

abbrev pub Exited : Option ℕ → HttpState → Type 0
Exited none http = Unit
Exited (some status) http = ExitsWith http status

abbrev IsShutWhen : HttpState → Bool → Type 0
IsShutWhen shut done = done ≡ true
IsShutWhen listening done = Unit
IsShutWhen broken done = Unit

abbrev pub HasEndedWhen : ControlEnd → Bool → Type 0
HasEndedWhen accepting done = Unit
HasEndedWhen returned_nil done = done ≡ true
HasEndedWhen (returned_error text) done = done ≡ true

-- The HTTP server is shut, the control listener closed and its loop at an end only when the context is
-- done; and the status is 0 where the HTTP server was shut and 1 where it broke.
pub record IsOrderly (d : Daemon) : Type 0 where
  pub closed : d.control_closed ≡ true → d.ctx_done ≡ true
  pub ended : HasEndedWhen d.control d.ctx_done
  pub shut_down : IsShutWhen d.http d.ctx_done
  pub exited : Exited d.exit_status d.http

ended_stays : (c : ControlEnd) (done : Bool) → HasEndedWhen c done → HasEndedWhen c true
ended_stays accepting done h = tt
ended_stays returned_nil done h = refl
ended_stays (returned_error text) done h = refl

shut_stays : (h : HttpState) (done : Bool) → IsShutWhen h done → IsShutWhen h true
shut_stays listening done h = tt
shut_stays shut done h = refl
shut_stays broken done h = tt

accept-ended :
    (cancelled closed : Bool) (text : Bytes)
    → (closed ≡ true → cancelled ≡ true)
    → HasEndedWhen
        (end_of_accept cancelled closed text)
        (ends_context (end_of_accept cancelled closed text) cancelled)
accept-ended true closed text h = refl
accept-ended false true text h = h refl
accept-ended false false text h = refl

accept-shut :
    (end : ControlEnd) (done : Bool) (h : HttpState)
    → IsShutWhen h done
    → IsShutWhen h (ends_context end done)
accept-shut accepting done h i = i
accept-shut returned_nil done h i = i
accept-shut (returned_error text) done h i = shut_stays h done i

still_done : (end : ControlEnd) (done : Bool) → done ≡ true → ends_context end done ≡ true
still_done accepting done h = h
still_done returned_nil done h = h
still_done (returned_error text) done h = refl

not-Exited : (o : Option ℕ) (h : HttpState) → o ≡ none → Exited o h
not-Exited none h e = tt
not-Exited (some status) h e = absurd (cc)

Step-IsOrderly : {d e : Daemon} → Step d e → IsOrderly d → IsOrderly e
Step-IsOrderly (signalled d x c) i = record {
  closed = λ e. refl;
  ended = ended_stays d.control d.ctx_done i.ended;
  shut_down = shut_stays d.http d.ctx_done i.shut_down;
  exited = i.exited;
}
Step-IsOrderly (closes_control d x c o) i = record {
  closed = λ e. c;
  ended = i.ended;
  shut_down = i.shut_down;
  exited = i.exited;
}
Step-IsOrderly (accepts d conn x c o) i = record {
  closed = i.closed;
  ended = i.ended;
  shut_down = i.shut_down;
  exited = i.exited;
}
Step-IsOrderly (accept_fails d text x c) i =
    let end = end_of_accept d.ctx_done d.control_closed text in
    record {
      closed = λ e. still_done end d.ctx_done (i.closed e);
      ended = accept-ended d.ctx_done d.control_closed text i.closed;
      shut_down = accept-shut end d.ctx_done d.http i.shut_down;
      exited = i.exited;
    }
Step-IsOrderly (shuts_down d x c h) i = record {
  closed = i.closed;
  ended = i.ended;
  shut_down = c;
  exited = not-Exited d.exit_status shut x;
}
Step-IsOrderly (http_fails d x h) i = record {
  closed = i.closed;
  ended = i.ended;
  shut_down = tt;
  exited = not-Exited d.exit_status broken x;
}
Step-IsOrderly (returns d x h) i = record {
  closed = i.closed;
  ended = i.ended;
  shut_down = i.shut_down;
  exited = rw h refl;
}
Step-IsOrderly (dies d x h) i = record {
  closed = i.closed;
  ended = i.ended;
  shut_down = i.shut_down;
  exited = rw h refl;
}

-- However its parts run, the relay exits with status 0 where its HTTP server was shut down, which is when
-- a signal or the end of `ServeControl` has ended the context, and with status 1 where the HTTP server
-- broke; and its control listener is closed and its loop ends only with the context.
pub Reach-IsOrderly : {d : Daemon} → Reach just_started d → IsOrderly d
Reach-IsOrderly here = record { closed = λ e. absurd (cc); ended = tt; shut_down = tt; exited = tt }
Reach-IsOrderly (next r s) = Step-IsOrderly s (Reach-IsOrderly r)
