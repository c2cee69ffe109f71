-- ===== src/Server/Handshake/Refines.antt =====
-- `handleControlConn` as steps of the server's system.
use gatelet.Prelude.{
  false, some, subst, ◌≢◌, Result, ok, err, ℕ, ◌≡◌, refl, sym, ◌⊎◌, inl, inr, Bool, true, arith,
  Bool-cases, Bytes, Result-cases,
}
use gatelet.Protocol.Hello.{ClientHello}
use gatelet.Server.Names.{Settings}
use gatelet.Server.Registry.{Registry, reserve_name, release_reservation, register}
use gatelet.Server.Handshake.{
  Backend, Control, handshake_name_in_use, Refusal, Outcome, refused, ok_failed, session_failed,
  authenticate, serving, settle, handle_control_conn,
}
use gatelet.Server.System.{
  Phase, greeting, gone, holding, System, update, Step, reserves, rejects, abandons, promotes,
  Reach, here, next,
}

module _ (remote : ℕ → Bytes) where
  -- The connection that the system calls `c.session`, at its address.
  abbrev pub own : Control → Control
  own c = record c { remote = remote c.session }

  update_at : (f : ℕ → Phase) (c : ℕ) (p : Phase) → update f c p c ≡ p
  update_at f c p = ground arith

  update_twice : (f : ℕ → Phase) (c d : ℕ) (p q : Phase) → d ≢ c → update (update f c p) c q d ≡ f d
  update_twice f c d p q h = ground arith

  update_other : (f : ℕ → Phase) (c d : ℕ) (p : Phase) → d ≢ c → update f c p d ≡ f d
  update_other f c d p h = ground arith

  -- A run from `s` to `t` in which the connection reserves the name and holds it for a while.
  pub record Holds (s : System) (c : ℕ) (name : Bytes) (t : System) : Type 0 where
    pub between : System
    pub before : Reach remote s between
    pub granted : (reserve_name s.closed s.registry name (remote c)).1 ≡ true
    pub reserved : between.registry ≡ (reserve_name s.closed s.registry name (remote c)).0
    pub holds : between.phase c ≡ holding name
    pub after : Reach remote between t

  -- Where a connection ends up by its outcome, and on what way: `auth` is what the authentication gave.
  abbrev pub Went : System → ℕ → Result Refusal ClientHello → Outcome → System → Type 0
  Went s c auth (refused e) t =
      (t.phase c ≡ gone)
      × ((auth ≡ err e)
          ⊎ ((hello : ClientHello) × (auth ≡ ok hello)
              × ((reserve_name s.closed s.registry hello.name (remote c)).1 ≡ false)))
  Went s c auth ok_failed t =
      (t.phase c ≡ gone) × ((hello : ClientHello) × (auth ≡ ok hello) × Holds s c hello.name t)
  Went s c auth session_failed t =
      (t.phase c ≡ gone) × ((hello : ClientHello) × (auth ≡ ok hello) × Holds s c hello.name t)
  Went s c auth (serving hello) t =
      (t.phase c ≡ gatelet.Server.System.serving hello.name)
      × (auth ≡ ok hello)
      × Holds s c hello.name t

  -- A run of the system that does what the handler did: its registry, its outcome, and nothing to another
  -- connection.
  pub record Refines (s : System) (c : ℕ) (auth : Result Refusal ClientHello)
      (done : Registry × Outcome) (t : System) : Type 0 where
    pub run : Reach remote s t
    pub registry : t.registry ≡ done.0
    pub went : Went s c auth done.1 t
    pub others : (d : ℕ) → d ≢ c → t.phase d ≡ s.phase d
    pub same_closed : t.closed ≡ s.closed

  module _ (s : System) (c : Control) (hello : ClientHello) (auth : Result Refusal ClientHello)
      (f : auth ≡ ok hello) (g : s.phase c.session ≡ greeting) where
    abbrev asked : Registry × Bool
    asked = reserve_name s.closed s.registry hello.name (remote c.session)

    abbrev behind_refusal : System
    behind_refusal = record s { registry = asked.0; phase = update s.phase c.session gone }

    abbrev reserved : System
    reserved = record s {
      registry = asked.0;
      phase = update s.phase c.session (holding hello.name);
    }

    abbrev left : System
    left = record reserved {
      registry = release_reservation asked.0 hello.name (remote c.session);
      phase = update reserved.phase c.session gone;
    }

    abbrev served : System
    served = record reserved {
      registry = register asked.0 hello c.session (remote c.session) c.now;
      phase = update reserved.phase c.session (gatelet.Server.System.serving hello.name);
    }

    refused-Refines :
        (e : Refusal)
        → asked.1 ≡ false
        → Refines s c.session auth (asked.0, refused e) behind_refusal
    refused-Refines e denied = record {
      run = next here (Step.refused s c.session hello.name g denied);
      registry = refl;
      went = (update_at s.phase c.session gone, inr (hello, f, denied));
      others = λ d h. update_other s.phase c.session d gone h;
      same_closed = refl;
    }

    reserved-Holds :
        asked.1 ≡ true
        → (t : System) → Step remote reserved t
        → Reach remote s t × Holds s c.session hello.name t
    reserved-Holds held t step =
        let first = next here (reserves s c.session hello.name g held) in
        (
          next first step,
          record {
            between = reserved;
            before = first;
            granted = held;
            reserved = refl;
            holds = update_at s.phase c.session (holding hello.name);
            after = next here step;
          },
        )

    left-Refines :
        asked.1 ≡ true
        → Refines s c.session auth (left.registry, ok_failed) left
          × Refines s c.session auth (left.registry, session_failed) left
    left-Refines held =
        let (run, way) = reserved-Holds held left (
          abandons reserved c.session hello.name
            (update_at s.phase c.session (holding hello.name))) in
        let out : Went s c.session auth ok_failed left =
          (update_at reserved.phase c.session gone, (hello, f, way)) in
        let others : (d : ℕ) → d ≢ c.session → left.phase d ≡ s.phase d =
          λ d h. update_twice s.phase c.session d (holding hello.name) gone h in
        (
          record { run = run; registry = refl; went = out; others = others; same_closed = refl },
          record { run = run; registry = refl; went = out; others = others; same_closed = refl },
        )

    served-Refines :
        asked.1 ≡ true → Refines s c.session auth (served.registry, serving hello) served
    served-Refines held =
        let (run, way) = reserved-Holds held served (
          promotes reserved c.session hello c.now
            (update_at s.phase c.session (holding hello.name))) in
        record {
          run = run;
          registry = refl;
          went = (update_at reserved.phase c.session _, f, way);
          others = λ d h. update_twice s.phase c.session d (holding hello.name) _ h;
          same_closed = refl;
        }

    settle-Refines :
        (t : System) × Refines s c.session auth (settle s.closed s.registry (own c) hello) t
    unfolding settle
    settle-Refines = elim (Bool-cases asked.1) [
      | inr denied ↦ (
        behind_refusal,
        subst (λ done. Refines s c.session auth done behind_refusal) (sym (simp (denied, settle)))
            (refused-Refines (some handshake_name_in_use) denied),
      )
      | inl held ↦ elim (Bool-cases c.ok_sent) [
        | inr lost ↦ (
          left,
          subst (λ done. Refines s c.session auth done left) (sym (simp (held, lost, settle)))
              (left-Refines held).0,
        )
        | inl sent ↦ elim (Bool-cases c.session_starts) [
          | inr lost ↦ (
            left,
            subst (λ done. Refines s c.session auth done left)
                (sym (simp (held, sent, lost, settle))) (left-Refines held).1,
          )
          | inl starts ↦ (
            served,
            subst (λ done. Refines s c.session auth done served)
                (sym (simp (held, sent, starts, settle))) (served-Refines held),
          )
        ]
      ]
    ]

  -- What `handleControlConn` does before it waits is a run of the system from any state in which the
  -- connection is new: to the registry that it leaves, with the connection serving if the handler serves, and
  -- gone if not, other connections and the closed sessions as they were. If the handler refuses, the
  -- authentication failed or the reservation was not granted; with any other outcome the authentication
  -- succeeded and the run passes through the granted reservation of the name.
  pub handle_control_conn-Refines :
      (b : Backend) (cfg : Settings) (s : System) (c : Control)
      → s.phase c.session ≡ greeting
      → (t : System) × Refines s c.session
          (authenticate b cfg (own c))
          (handle_control_conn b cfg s.closed s.registry (own c))
          t
  unfolding handle_control_conn
  handle_control_conn-Refines b cfg s c g =
      let auth = authenticate b cfg (own c) in
      elim (Result-cases auth) [
        | inr (e, f) ↦
            let t : System = record s { phase = update s.phase c.session gone } in
            let done : handle_control_conn b cfg s.closed s.registry (own c)
                ≡ (s.registry, refused e) =
              rw (f, handle_control_conn) refl in
            (
              t,
              subst (λ d. Refines s c.session auth d t) (sym done)
                  (record {
                    run = next here (rejects s c.session g);
                    registry = refl;
                    went = (update_at s.phase c.session gone, inl f);
                    others = λ d h. update_other s.phase c.session d gone h;
                    same_closed = refl;
                  }),
            )
        | inl (hello, f) ↦
            let (t, r) = settle-Refines s c hello auth f g in
            let done : handle_control_conn b cfg s.closed s.registry (own c)
                ≡ settle s.closed s.registry (own c) hello =
              rw (f, handle_control_conn) refl in
            (t, subst (λ d. Refines s c.session auth d t) (sym done) r)
      ]
