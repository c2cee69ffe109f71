-- ===== src/Tui/Update/Loop.antt =====
-- The loop that runs the commands: the receptions of an event that are under way.
use gatelet.Prelude.{
  ℕ, suc, ◌+◌, ◌≤◌, ◌≡◌, refl, sym, ap, ◌∙◌, Bool, true, false, not, ◌&&◌, Option, none, some,
  arith, if◌then◌else◌,
}
use gatelet.Tui.Model.{Stamped, Model, World, Msg, event_msg, Cmd, no_cmd}
use gatelet.Tui.Filter.{update_filter}
use gatelet.Tui.Update.{dispatch, update}
use gatelet.Tui.Update.Readers.{readers, is_event, update-readers}

-- The loop: the model, and the receptions that are under way.
pub record Loop : Type 0 where
  pub model : Model
  pub waiting : ℕ

-- A message is an event exactly where a reception ends with it.
pub data Step (world : World) (l : Loop) : Loop → Type 0 where
  receives :
      (s : Stamped) (n : Model) (cmd : Cmd) (k : ℕ)
      → l.waiting ≡ suc k
      → update world l.model (event_msg s) ≡ some (n, cmd)
      → Step world l (record { model = n; waiting = k + readers cmd })
  handles :
      (msg : Msg) (n : Model) (cmd : Cmd)
      → is_event msg ≡ false
      → update world l.model msg ≡ some (n, cmd)
      → Step world l (record { model = n; waiting = l.waiting + readers cmd })

pub data Reach (world : World) (l : Loop) : Loop → Type 0 where
  here : Reach world l l
  then_step : {k n : Loop} → Reach world l k → Step world k n → Reach world l n

Step-waiting : (world : World) (l n : Loop) → Step world l n → n.waiting ≤ l.waiting
Step-waiting world l _ (receives s n cmd k e run) =
    ground (arith, update-readers world l.model n (event_msg s) cmd run)
Step-waiting world l _ (handles msg n cmd quiet run) =
    ground (arith, update-readers world l.model n msg cmd run)

-- The number of receptions under way never grows.
pub Reach-waiting : (world : World) (l n : Loop) → Reach world l n → n.waiting ≤ l.waiting
Reach-waiting world l _ here = omega arith
Reach-waiting world l n (then_step {k} r st) =
    omega (arith, Reach-waiting world l k r, Step-waiting world k n st)

abbrev model_or : Model → Option (Model × Cmd) → Model
model_or m none = m
model_or m (some (n, cmd)) = n

event_kept :
    (world : World) (m n : Model) (s : Stamped) (cmd : Cmd)
    → m.filtering ≡ true
    → update world m (event_msg s) ≡ some (n, cmd)
    → (n ≡ m) × (readers cmd ≡ 0)
unfolding update update_filter
event_kept world m n s cmd f e =
    let by : Bool → Option (Model × Cmd) =
      λ b. if b then some (m, no_cmd) else dispatch world m (event_msg s) in
    let same : Path (Option (Model × Cmd)) (some (n, cmd)) (some (m, no_cmd)) = sym e ∙ ap by f in
    (ap (model_or m) same, update-readers world m n (event_msg s) cmd e ∙ (rw f refl))

-- While no filter is typed, a step that the loop makes keeps a reception under way for each that ends.
pub Step-listens :
    (world : World) (l n : Loop)
    → Step world l n
    → l.model.filtering ≡ false
    → n.waiting ≡ l.waiting
Step-listens world l _ (receives s n cmd k e run) f =
    let one : readers cmd ≡ 1 =
      update-readers world l.model n (event_msg s) cmd run
      ∙ ap (λ b. if not b && true then 1 else 0) f in
    omega (arith, e, one)
Step-listens world l _ (handles msg n cmd quiet run) f =
    let none_asked : readers cmd ≡ 0 =
      update-readers world l.model n msg cmd run
      ∙ ap (λ b. if not l.model.filtering && b then 1 else 0) quiet
      ∙ ap (λ b. if not b && false then 1 else 0) f in
    omega (arith, none_asked)

-- A loop with one reception under way that gets an event while a filter is typed drops the event, and
-- has no reception under way in any state that it reaches from there: it gets no event any more.
pub event-deafens :
    (world : World) (l n : Loop) (s : Stamped) (m : Model) (cmd : Cmd)
    → l.waiting ≡ 1
    → l.model.filtering ≡ true
    → update world l.model (event_msg s) ≡ some (m, cmd)
    → Reach world (record { model = m; waiting = readers cmd }) n
    → (m ≡ l.model) × (n.waiting ≡ 0)
event-deafens world l n s m cmd one f run reach =
    let (same, silent) = event_kept world l.model m s cmd f run in
    (
      same,
      omega (
        arith,
        silent,
        Reach-waiting world (record { model = m; waiting = readers cmd }) n reach,
      ),
    )
