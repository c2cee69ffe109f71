-- ===== src/Server/System/Reachable.antt =====
-- The invariant in every reachable state.
use gatelet.Prelude.{
  ℕ, ◌≡◌, refl, sym, subst, some, [], nat_eq, ==_self, lookup, erase, Bytes, bytes_eq,
}
use gatelet.Server.Registry.{Registry, new_tunnel, release_reservation, register}
use gatelet.Server.System.{
  gone, holding, System, update, start, Step, reserves, refused, rejects, abandons, promotes,
  closes, finishes, counts, disconnects, Reach, here, next,
}
use gatelet.Server.System.Invariant.{
  reserve_name_granted, reserve_name_refused, Inv, start-Inv, reserves-Inv, leaves-Inv,
  abandons-Inv, promotes-Inv, closes-Inv, finishes-Inv, counts-Inv,
}

module _ (remote : ℕ → Bytes) where
  release_held :
      (r : Registry) (name address : Bytes)
      → lookup name r.pending ≡ some address
      → release_reservation r name address ≡ record r { pending = erase name r.pending }
  unfolding release_reservation
  release_held r name address e = rw (e, release_reservation) (rw (==_self address))

  pub Step-Inv : {s t : System} → Step remote s t → Inv remote s → Inv remote t
  unfolding register
  Step-Inv (reserves s c name g h) v =
      let (shut, empty, e) = reserve_name_granted s.closed s.registry name (remote c) h in
      subst
        (λ (r : Registry).
          Inv remote (record s { registry = r; phase = update s.phase c (holding name) }))
        (sym e) (reserves-Inv remote s v c name g shut empty)
  Step-Inv (refused s c name g h) v =
      subst
        (λ (r : Registry). Inv remote (record s { registry = r; phase = update s.phase c gone }))
        (sym (reserve_name_refused s.closed s.registry name (remote c) h))
        (leaves-Inv remote s v c name g)
  Step-Inv (rejects s c g) v = leaves-Inv remote s v c [] g
  Step-Inv (abandons s c name g) v =
      subst
        (λ (r : Registry). Inv remote (record s { registry = r; phase = update s.phase c gone }))
        (sym (release_held s.registry name (remote c) (v.held c name g)))
        (abandons-Inv remote s v c name g)
  Step-Inv (promotes s c hello now g) v =
      promotes-Inv remote s v c hello.name (new_tunnel hello c (remote c) now) refl g
  Step-Inv (closes s c) v = closes-Inv remote s v c []
  Step-Inv (finishes s c name g h) v = finishes-Inv remote s v c name g h
  Step-Inv (counts s name q now) v = counts-Inv remote s v 0 name q now
  Step-Inv (disconnects s name c e) v = closes-Inv remote s v c []

  pub Reach-Inv : {s t : System} → Inv remote s → Reach remote s t → Inv remote t
  Reach-Inv v here = v
  Reach-Inv v (next r st) = Step-Inv st (Reach-Inv v r)

  pub reachable-Inv : {s : System} → Reach remote start s → Inv remote s
  reachable-Inv r = Reach-Inv (start-Inv remote) r
