-- ===== src/Server/System/Invariant.antt =====
-- What every interleaving keeps.
use gatelet.Prelude.{
  ℕ, ◌≡◌, ap, ◌∙◌, ◌≢◌, inl, inr, Bool, true, false, none, some, arith, ◌==◌, nat_eq, ==_iff,
  Bool-cases, Option-cases, lookup, insert, erase, lookup-insert, lookup-erase, Bytes, bytes_eq,
}
use gatelet.Server.Registry.{
  TunnelSession, Registry, is_open, runs, Served, count_request, reserve_name, unregister,
  record_request,
}
use gatelet.Server.System.{Phase, greeting, gone, holding, serving, System, update, start}

-- What the two outcomes of a reservation are.
pub reserve_name_granted :
    (closed : ℕ → Bool) (r : Registry) (name remote : Bytes)
    → (reserve_name closed r name remote).1 ≡ true
    → (is_open closed (lookup name r.sessions) ≡ false)
      × (lookup name r.pending ≡ none)
      × ((reserve_name closed r name remote).0
          ≡ record r { pending = insert name remote r.pending })
unfolding reserve_name
reserve_name_granted closed r name remote h = ground arith

pub reserve_name_refused :
    (closed : ℕ → Bool) (r : Registry) (name remote : Bytes)
    → (reserve_name closed r name remote).1 ≡ false
    → (reserve_name closed r name remote).0 ≡ r
unfolding reserve_name
reserve_name_refused closed r name remote h = ground arith

module _ (remote : ℕ → Bytes) where
  pub record Inv (s : System) : Type 0 where
    -- A holder's name is pending under its address, and nobody else holds it.
    pub held :
        (c : ℕ) (n : Bytes) → s.phase c ≡ holding n → lookup n s.registry.pending ≡ some (remote c)
    pub alone : (c d : ℕ) (n : Bytes) → s.phase c ≡ holding n → s.phase d ≡ holding n → c ≡ d
    -- An open session is the one that its name leads to.
    pub routed :
        (c : ℕ) (n : Bytes)
        → s.phase c ≡ serving n
        → s.closed c ≡ false
        → runs c (lookup n s.registry.sessions) ≡ true
    -- A name is held only while no open session has it.
    pub free :
        (c d : ℕ) (n : Bytes) → s.phase c ≡ holding n → s.phase d ≡ serving n → s.closed d ≡ true
    -- No entry outlives its connection.
    pub pending_held :
        (n a : Bytes) → lookup n s.registry.pending ≡ some a → (c : ℕ) × (s.phase c ≡ holding n)
    pub entry_served :
        (n : Bytes) (t : TunnelSession)
        → lookup n s.registry.sessions ≡ some t
        → s.phase t.session ≡ serving n

  pub start-Inv : Inv start
  unfolding lookup
  start-Inv = record {
    held = λ c n e. absurd (cc);
    alone = λ c d n e f. absurd (cc);
    routed = λ c n e f. absurd (cc);
    free = λ c d n e f. absurd (cc);
    pending_held = λ n a e. absurd (cc);
    entry_served = λ n t e. absurd (cc);
  }

  update_self : (f : ℕ → Phase) (c : ℕ) (p : Phase) → update f c p c ≡ p
  update_self f c p = ground arith

  update_ne : (f : ℕ → Phase) (c d : ℕ) (p : Phase) → d ≢ c → update f c p d ≡ f d
  update_ne f c d p h = ground arith

  module _ (s : System) (v : Inv s) (c : ℕ) (name : Bytes) where
    pub reserves-Inv :
        s.phase c ≡ greeting
        → is_open s.closed (lookup name s.registry.sessions) ≡ false
        → lookup name s.registry.pending ≡ none
        → Inv (record s {
          registry = record (s.registry) { pending = insert name (remote c) s.registry.pending };
          phase = update s.phase c (holding name);
        })
    reserves-Inv g shut none_held = record {
      held = λ d n e.
          ground
            (arith, v.held d n, ==_iff name n, lookup-insert name n (remote c) s.registry.pending);
      alone = λ d e n p q. ground (arith, v.alone d e n, v.held d n, v.held e n);
      routed = λ d n e f. ground (arith, v.routed d n);
      free = λ d e n p q. ground (arith, v.free d e n, v.routed e n);
      pending_held = λ n a e. elim (Bool-cases (name == n)) [
        | inl same ↦ (c, update_self s.phase c (holding name) ∙ ap holding ((==_iff name n).0 same))
        | inr other ↦
            let (d, at) =
              v.pending_held n a
                (ground (arith, e, lookup-insert name n (remote c) s.registry.pending)) in
            (d, ground arith)
      ];
      entry_served = λ n t e. ground (arith, v.entry_served n t);
    }

    pub leaves-Inv : s.phase c ≡ greeting → Inv (record s { phase = update s.phase c gone })
    leaves-Inv g = record {
      held = λ d n e. ground (arith, v.held d n);
      alone = λ d e n p q. ground (arith, v.alone d e n);
      routed = λ d n e f. ground (arith, v.routed d n);
      free = λ d e n p q. ground (arith, v.free d e n);
      pending_held = λ n a e. let (d, at) = v.pending_held n a e in (d, ground arith);
      entry_served = λ n t e. ground (arith, v.entry_served n t);
    }

    pub abandons-Inv :
        s.phase c ≡ holding name
        → Inv (record s {
          registry = record (s.registry) { pending = erase name s.registry.pending };
          phase = update s.phase c gone;
        })
    abandons-Inv g = record {
      held = λ d n e.
          ground (
            arith,
            v.held d n,
            v.alone c d n,
            ==_iff name n,
            lookup-erase name n s.registry.pending,
          );
      alone = λ d e n p q. ground (arith, v.alone d e n);
      routed = λ d n e f. ground (arith, v.routed d n);
      free = λ d e n p q. ground (arith, v.free d e n);
      pending_held = λ n a e.
          let (d, at) =
            v.pending_held n a
              (ground (arith, e, ==_iff name n, lookup-erase name n s.registry.pending)) in
          (d, ground (arith, e, ==_iff name n, lookup-erase name n s.registry.pending));
      entry_served = λ n t e. ground (arith, v.entry_served n t);
    }

    pub promotes-Inv :
        (u : TunnelSession)
        → u.session ≡ c
        → s.phase c ≡ holding name
        → Inv (record s {
          registry = record {
            sessions = insert name u s.registry.sessions;
            pending = erase name s.registry.pending;
          };
          phase = update s.phase c (serving name);
        })
    promotes-Inv u own g = record {
      held = λ d n e.
          ground (
            arith,
            v.held d n,
            v.alone c d n,
            ==_iff name n,
            lookup-erase name n s.registry.pending,
          );
      alone = λ d e n p q. ground (arith, v.alone d e n);
      routed = λ d n e f. ground (
        arith,
        v.routed d n,
        v.free c d n,
        ==_iff name n,
        lookup-insert name n u s.registry.sessions,
      );
      free = λ d e n p q. ground (arith, v.free d e n, v.alone c d n, ==_iff name n);
      pending_held = λ n a e.
          let (d, at) =
            v.pending_held n a
              (ground (arith, e, ==_iff name n, lookup-erase name n s.registry.pending)) in
          (d, ground (arith, e, ==_iff name n, lookup-erase name n s.registry.pending));
      entry_served = λ n t e.
          ground
            (arith, v.entry_served n t, ==_iff name n, lookup-insert name n u s.registry.sessions);
    }

    pub finishes-Inv :
        s.phase c ≡ serving name
        → s.closed c ≡ true
        → Inv (record s { registry = unregister s.registry name c; phase = update s.phase c gone })
    unfolding unregister
    finishes-Inv g shut = record {
      held = λ d n e. ground (arith, v.held d n);
      alone = λ d e n p q. ground (arith, v.alone d e n);
      routed = λ d n e f.
          ground (arith, v.routed d n, ==_iff name n, lookup-erase name n s.registry.sessions);
      free = λ d e n p q. ground (arith, v.free d e n);
      pending_held =
          λ n a e. let (d, at) = v.pending_held n a (ground (arith, e)) in (d, ground arith);
      entry_served = λ n t e.
          ground
            (arith, v.entry_served n t, ==_iff name n, lookup-erase name n s.registry.sessions);
    }

    pub closes-Inv : Inv (record s { closed = update s.closed c true })
    closes-Inv = record {
      held = λ d n e. v.held d n e;
      alone = λ d e n p q. v.alone d e n p q;
      routed = λ d n e f. v.routed d n e (ground arith);
      free = λ d e n p q. ground (arith, v.free d e n);
      pending_held = λ n a e. v.pending_held n a e;
      entry_served = λ n t e. v.entry_served n t e;
    }

    pub counts-Inv :
        (q : Served) (now : ℕ) → Inv (record s { registry = record_request s.registry name q now })
    unfolding record_request count_request
    counts-Inv q now = elim (Option-cases (lookup name s.registry.sessions)) [
      | inl e ↦ rw (e, record_request) v
      | inr (t, e) ↦
          rw (e, record_request)
            (record {
              held = λ d n h. v.held d n h;
              alone = λ d e n p q. v.alone d e n p q;
              routed = λ d n h f. ground (
                arith,
                v.routed d n,
                e,
                ==_iff name n,
                lookup-insert name n (count_request t q now) s.registry.sessions,
              );
              free = λ d e n p q. v.free d e n p q;
              pending_held = λ n a h. v.pending_held n a h;
              entry_served = λ n u h. ground (
                arith,
                v.entry_served n u,
                v.entry_served name t,
                e,
                ==_iff name n,
                lookup-insert name n (count_request t q now) s.registry.sessions,
              );
            })
    ]
