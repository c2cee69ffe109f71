-- ===== src/Server/Registry.antt =====
-- The tunnels that the server knows: `reserveName`, `releaseReservation`, `register`, `unregister`,
-- `recordRequest` and the reads. Each runs under the server's lock, so each is one step on the state.
-- A yamux session is its number, and `closed` is what its `IsClosed` answers. Logging is left out.
pub mod Counts
use gatelet.Prelude.{
  ℕ, ◌+◌, ◌%◌, ◌^◌, Bool, true, false, not, Option, none, some, List, [], ◌∷◌, leb, if◌then◌else◌,
  ◌==◌, nat_eq, GoMap, lookup, insert, erase, Bytes, bytes_eq, or_else,
}
use gatelet.Protocol.Hello.{HttpBasicAuthConfig, ClientHello}
use gatelet.Server.Names.{is_some}

abbrev pub u64_mod : ℕ
u64_mod = 2 ^ 64

-- uint64 and int64 addition on bit patterns.
abbrev pub add64 : ℕ → ℕ → ℕ
add64 a b = (a + b) % u64_mod

-- Times are the clock's readings. A count of bytes is the bit pattern of its int64.
pub record TunnelSession : Type 0 where
  pub session : ℕ
  pub remote : Bytes
  pub http_basic_auth : Option HttpBasicAuthConfig
  pub requests : ℕ
  pub bytes_in : ℕ
  pub bytes_out : ℕ
  pub status_counts : GoMap ℕ ℕ
  pub duration_buckets : List ℕ
  pub connected_at : ℕ
  pub last_seen : ℕ

pub record Registry : Type 0 where
  pub sessions : GoMap Bytes TunnelSession
  pub pending : GoMap Bytes Bytes

abbrev pub no_tunnels : Registry
no_tunnels = record { sessions = []; pending = [] }

-- In nanoseconds: on whole nanoseconds the source's comparison of seconds as floats agrees.
abbrev pub duration_bounds : List ℕ
duration_bounds =
    5000000 ∷ 10000000 ∷ 25000000 ∷ 50000000 ∷ 100000000 ∷ 250000000 ∷ 500000000 ∷ 1000000000
    ∷ 2500000000 ∷ 5000000000 ∷ 10000000000 ∷ []

abbrev pub zeros : List ℕ → List ℕ
zeros [] = 0 ∷ []
zeros (b ∷ bs) = 0 ∷ zeros bs

-- A session that is there and open, as in `existing != nil && !existing.session.IsClosed()`.
abbrev pub is_open : (ℕ → Bool) → Option TunnelSession → Bool
is_open closed none = false
is_open closed (some t) = not (closed t.session)

unfoldable pub reserve_name : (ℕ → Bool) → Registry → Bytes → Bytes → Registry × Bool
reserve_name closed r name remote =
    if is_open closed (lookup name r.sessions)
    then (r, false)
    else if is_some (lookup name r.pending)
    then (r, false)
    else (record r { pending = insert name remote r.pending }, true)

-- A missing key reads as "".
unfoldable pub release_reservation : Registry → Bytes → Bytes → Registry
release_reservation r name remote =
    if or_else (lookup name r.pending) [] == remote
    then record r { pending = erase name r.pending }
    else r

abbrev pub new_tunnel : ClientHello → ℕ → Bytes → ℕ → TunnelSession
new_tunnel hello session remote now = record {
  session = session;
  remote = remote;
  http_basic_auth = hello.http_basic_auth;
  requests = 0;
  bytes_in = 0;
  bytes_out = 0;
  status_counts = [];
  duration_buckets = zeros duration_bounds;
  connected_at = now;
  last_seen = now;
}

unfoldable pub register : Registry → ClientHello → ℕ → Bytes → ℕ → Registry
register r hello session remote now = record {
  sessions = insert hello.name (new_tunnel hello session remote now) r.sessions;
  pending = erase hello.name r.pending;
}

abbrev pub runs : ℕ → Option TunnelSession → Bool
runs session none = false
runs session (some t) = t.session == session

unfoldable pub unregister : Registry → Bytes → ℕ → Registry
unregister r name session =
    if runs session (lookup name r.sessions)
    then record r { sessions = erase name r.sessions }
    else r

-- The loop over the bounds, and the increment of the last bucket.
bump_buckets : ℕ → List ℕ → List ℕ → List ℕ
bump_buckets d [] cs = cs
bump_buckets d (b ∷ bs) [] = []
bump_buckets d (b ∷ bs) (c ∷ cs) = (if leb d b then add64 c 1 else c) ∷ bump_buckets d bs cs

bump_last : List ℕ → List ℕ
bump_last [] = []
bump_last (c ∷ []) = add64 c 1 ∷ []
bump_last (c ∷ e ∷ cs) = c ∷ bump_last (e ∷ cs)

pub record Served : Type 0 where
  pub status : ℕ
  pub bytes_in : ℕ
  pub bytes_out : ℕ
  pub duration : ℕ

unfoldable pub count_request : TunnelSession → Served → ℕ → TunnelSession
unfolding bump_buckets bump_last
count_request t q now = record t {
  requests = add64 t.requests 1;
  bytes_in = add64 t.bytes_in q.bytes_in;
  bytes_out = add64 t.bytes_out q.bytes_out;
  status_counts =
      insert q.status (add64 (or_else (lookup q.status t.status_counts) 0) 1) t.status_counts;
  duration_buckets = bump_last (bump_buckets q.duration duration_bounds t.duration_buckets);
  last_seen = now;
}

unfoldable pub record_request : Registry → Bytes → Served → ℕ → Registry
record_request r name q now = elim (lookup name r.sessions) [
  | none ↦ r
  | some t ↦ record r { sessions = insert name (count_request t q now) r.sessions }
]

unfoldable pub has_tunnel : (ℕ → Bool) → Registry → Bytes → Bool
has_tunnel closed r name = is_open closed (lookup name r.sessions)

-- The session that `DisconnectTunnel` closes, if it closes one; the Close of a yamux session returns nil.
unfoldable pub disconnect_tunnel : (ℕ → Bool) → Registry → Bytes → Option ℕ
disconnect_tunnel closed r name = elim (lookup name r.sessions) [
  | none ↦ none
  | some t ↦ if closed t.session then none else some t.session
]

-- The session and the credentials that `httpTunnel` returns; `none` for a nil session.
unfoldable pub http_tunnel : (ℕ → Bool) → Registry → Bytes → Option (ℕ × Option HttpBasicAuthConfig)
http_tunnel closed r name = elim (lookup name r.sessions) [
  | none ↦ none
  | some t ↦ if closed t.session then none else some (t.session, t.http_basic_auth)
]
