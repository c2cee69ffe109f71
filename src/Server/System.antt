-- ===== src/Server/System.antt =====
-- The server's connections as they interleave: each control connection runs `handleControlConn` in a
-- goroutine of its own, sessions close at any time, and requests come in between. A step is one
-- section of code that holds the lock, or one event outside. A connection and its yamux session have
-- the same number, and `remote` gives its address: addresses may repeat.
pub mod Invariant
pub mod Reachable
pub mod Safety
use gatelet.Prelude.{ℕ, ◌≡◌, Bool, true, false, some, if◌then◌else◌, ◌==◌, nat_eq, Bytes, bytes_eq}
use gatelet.Protocol.Hello.{ClientHello}
use gatelet.Server.Registry.{
  Registry, no_tunnels, Served, reserve_name, release_reservation, register, unregister,
  record_request, disconnect_tunnel,
}

-- Where a connection stands in `handleControlConn`.
pub data Phase : Type 0 where
  greeting gone : Phase
  holding serving : Bytes → Phase

pub record System : Type 0 where
  pub registry : Registry
  pub phase : ℕ → Phase
  pub closed : ℕ → Bool

abbrev pub update {ℓ} : {A : Type ℓ} → (ℕ → A) → ℕ → A → ℕ → A
update f c v x = if x == c then v else f x

abbrev pub start : System
start = record { registry = no_tunnels; phase = λ c. greeting; closed = λ c. false }

module _ (remote : ℕ → Bytes) where
  pub data Step : System → System → Type 0 where
    reserves :
        (s : System) (c : ℕ) (name : Bytes)
        → s.phase c ≡ greeting
        → (reserve_name s.closed s.registry name (remote c)).1 ≡ true
        → Step s (record s {
          registry = (reserve_name s.closed s.registry name (remote c)).0;
          phase = update s.phase c (holding name);
        })
    refused :
        (s : System) (c : ℕ) (name : Bytes)
        → s.phase c ≡ greeting
        → (reserve_name s.closed s.registry name (remote c)).1 ≡ false
        → Step s (record s {
          registry = (reserve_name s.closed s.registry name (remote c)).0;
          phase = update s.phase c gone;
        })
    -- The handshake fails before the reservation.
    rejects :
        (s : System) (c : ℕ)
        → s.phase c ≡ greeting
        → Step s (record s { phase = update s.phase c gone })
    -- The write of "OK" or the start of the session fails.
    abandons :
        (s : System) (c : ℕ) (name : Bytes)
        → s.phase c ≡ holding name
        → Step s (record s {
          registry = release_reservation s.registry name (remote c);
          phase = update s.phase c gone;
        })
    promotes :
        (s : System) (c : ℕ) (hello : ClientHello) (now : ℕ)
        → s.phase c ≡ holding hello.name
        → Step s (record s {
          registry = register s.registry hello c (remote c) now;
          phase = update s.phase c (serving hello.name);
        })
    closes : (s : System) (c : ℕ) → Step s (record s { closed = update s.closed c true })
    finishes :
        (s : System) (c : ℕ) (name : Bytes)
        → s.phase c ≡ serving name
        → s.closed c ≡ true
        → Step s
            (record s { registry = unregister s.registry name c; phase = update s.phase c gone })
    counts :
        (s : System) (name : Bytes) (q : Served) (now : ℕ)
        → Step s (record s { registry = record_request s.registry name q now })
    disconnects :
        (s : System) (name : Bytes) (c : ℕ)
        → disconnect_tunnel s.closed s.registry name ≡ some c
        → Step s (record s { closed = update s.closed c true })

  pub data Reach (s : System) : System → Type 0 where
    here : Reach s s
    next : {t u : System} → Reach s t → Step t u → Reach s u
