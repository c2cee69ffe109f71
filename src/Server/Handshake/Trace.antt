-- ===== src/Server/Handshake/Trace.antt =====
-- What a connection does to the registry: a refused one leaves no trace.
use gatelet.Prelude.{
  ℕ, ◌≡◌, refl, ◌⊎◌, inl, inr, Bool, true, none, arith, nat_eq, ==_iff, ==_self, Bool-cases, lookup,
  insert, erase, lookup-insert, lookup-erase, lookup-insert_self, Bytes, bytes_eq, Result-cases,
}
use gatelet.Protocol.Hello.{ClientHello}
use gatelet.Server.Names.{Settings}
use gatelet.Server.Registry.{Registry, reserve_name, release_reservation}
use gatelet.Server.Handshake.{Backend, Control, authenticate, serving, settle, handle_control_conn}
use gatelet.Server.System.Invariant.{reserve_name_granted, reserve_name_refused}

-- Two registries that no lookup tells apart.
abbrev pub SameTunnels : Registry → Registry → Type 0
SameTunnels r q =
    (n : Bytes)
    → (lookup n r.sessions ≡ lookup n q.sessions) × (lookup n r.pending ≡ lookup n q.pending)

release_after_reserve :
    (closed : ℕ → Bool) (r : Registry) (name remote : Bytes)
    → (reserve_name closed r name remote).1 ≡ true
    → SameTunnels (release_reservation (reserve_name closed r name remote).0 name remote) r
unfolding release_reservation
release_after_reserve closed r name remote h n =
    let (shut, empty, e) = reserve_name_granted closed r name remote h in
    rw (e, release_reservation)
      (rw (lookup-insert_self name remote r.pending, ==_self remote) (refl, erased empty))
  where
    erased :
        lookup name r.pending ≡ none
        → lookup n (erase name (insert name remote r.pending)) ≡ lookup n r.pending
    erased empty = ground (
      arith,
      ==_iff name n,
      lookup-erase name n (insert name remote r.pending),
      lookup-insert name n remote r.pending,
    )

settle_trace :
    (closed : ℕ → Bool) (r : Registry) (c : Control) (hello : ClientHello)
    → ((settle closed r c hello).1 ≡ serving hello) ⊎ SameTunnels (settle closed r c hello).0 r
unfolding settle
settle_trace closed r c hello = elim (Bool-cases (reserve_name closed r hello.name c.remote).1) [
  | inr no_way ↦
      inr (λ n.
        rw no_way (rw (reserve_name_refused closed r hello.name c.remote no_way) (refl, refl)))
  | inl held ↦ elim (Bool-cases c.ok_sent) [
    | inr lost ↦
        inr (λ n. rw (held, lost) (release_after_reserve closed r hello.name c.remote held n))
    | inl sent ↦ elim (Bool-cases c.session_starts) [
      | inr lost ↦
          inr
            (λ n. rw (held, sent, lost) (release_after_reserve closed r hello.name c.remote held n))
      | inl starts ↦ inl (rw (held, sent, starts))
    ]
  ]
]

-- A connection either ends up serving its name, or leaves every session and every reservation as it
-- found them, whichever step failed.
pub handle_control_conn_trace :
    (b : Backend) (s : Settings) (closed : ℕ → Bool) (r : Registry) (c : Control)
    → ((hello : ClientHello) × ((handle_control_conn b s closed r c).1 ≡ serving hello))
      ⊎ SameTunnels (handle_control_conn b s closed r c).0 r
unfolding handle_control_conn
handle_control_conn_trace b s closed r c = elim (Result-cases (authenticate b s c)) [
  | inr (e, f) ↦ inr (λ n. rw (f, handle_control_conn) (refl, refl))
  | inl (hello, f) ↦ elim (settle_trace closed r c hello) [
    | inl served ↦ inl (hello, rw (f, handle_control_conn) served)
    | inr same ↦ inr (λ n. rw (f, handle_control_conn) (same n))
  ]
]
