-- ===== src/Server/System/Safety.antt =====
-- Tunnel names are exclusive, live tunnels are routed, and no name is lost.
use gatelet.Prelude.{
  ℕ, ◌≡◌, ◌↔◌, ◌⊎◌, inl, inr, false, Option, some, arith, nat_eq, Option-cases, lookup, Bytes,
  bytes_eq,
}
use gatelet.Protocol.Hello.{HttpBasicAuthConfig}
use gatelet.Server.Registry.{reserve_name, http_tunnel}
use gatelet.Server.System.{holding, serving, System, start, Reach}
use gatelet.Server.System.Invariant.{Inv}
use gatelet.Server.System.Reachable.{reachable-Inv}

-- A connection has a name: it holds the reservation, or it serves the name on an open session.
abbrev pub Has : System → Bytes → ℕ → Type 0
Has s n c = (s.phase c ≡ holding n) ⊎ ((s.phase c ≡ serving n) × (s.closed c ≡ false))

module _ (remote : ℕ → Bytes) where
  -- At no time do two connections have one tunnel name, whatever the order of their steps and
  -- however addresses repeat.
  pub name_exclusive :
      (s : System) (n : Bytes) (c d : ℕ) → Reach remote start s → Has s n c → Has s n d → c ≡ d
  name_exclusive s n c d r p q =
      let v = reachable-Inv remote r in
      ground (arith, v.alone c d n, v.free c d n, v.free d c n, v.routed c n, v.routed d n)

  -- A request for a name reaches the connection that serves it while its session is open: an older
  -- connection's end never removes the entry of the one that took the name over.
  pub http_tunnel_routed :
      (s : System) (n : Bytes) (c : ℕ)
      → Reach remote start s
      → s.phase c ≡ serving n
      → s.closed c ≡ false
      → (auth : Option HttpBasicAuthConfig) × (http_tunnel s.closed s.registry n ≡ some (c, auth))
  unfolding http_tunnel
  http_tunnel_routed s n c r p live =
      let v = reachable-Inv remote r in
      elim (Option-cases (lookup n s.registry.sessions)) [
        | inl e ↦ absurd (ground (arith, v.routed c n, e))
        | inr (t, e) ↦ (t.http_basic_auth, ground (arith, v.routed c n, e))
      ]

  -- `reserveName` refuses a name exactly while some connection has it; so a name comes free when its
  -- connection fails, or its session closes, and no entry is left behind that blocks it.
  pub reserve_name_refused_iff :
      (s : System) (n address : Bytes)
      → Reach remote start s
      → ((reserve_name s.closed s.registry n address).1 ≡ false) ↔ ((c : ℕ) × Has s n c)
  unfolding reserve_name
  reserve_name_refused_iff s n address r = (to, from)
    where
      v : Inv remote s
      v = reachable-Inv remote r

      to : (reserve_name s.closed s.registry n address).1 ≡ false → (c : ℕ) × Has s n c
      to h = elim (Option-cases (lookup n s.registry.pending)) [
        | inr (a, e) ↦ let (c, p) = v.pending_held n a e in (c, inl p)
        | inl e ↦ elim (Option-cases (lookup n s.registry.sessions)) [
          | inl f ↦ absurd (ground (arith, e, f))
          | inr (t, f) ↦ (t.session, inr (v.entry_served n t f, ground (arith, e, f)))
        ]
      ]

      from : ((c : ℕ) × Has s n c) → (reserve_name s.closed s.registry n address).1 ≡ false
      from (c, p) = ground (arith, v.held c n, v.routed c n)
