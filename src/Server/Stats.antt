-- ===== src/Server/Stats.antt =====
-- The statistics of the open tunnels: `stats`, `allTunnelStats`, and the numbers that `serveStatus` and
-- `serveMetrics` show. Their JSON and text are left out.
pub mod Listed
pub mod Totals
pub mod Statuses
pub mod Metrics
use gatelet.Prelude.{
  ℕ, Bool, true, false, Option, none, some, List, [], ◌∷◌, ltb, if◌then◌else◌, ◌==◌, nat_eq, length,
  GoMap, lookup, Bytes, bytes_eq,
}
use gatelet.Server.Registry.{add64, TunnelSession, Registry}

pub record TunnelStats : Type 0 where
  pub name : Bytes
  pub remote : Bytes
  pub http_basic_auth : Bool
  pub requests : ℕ
  pub bytes_in : ℕ
  pub bytes_out : ℕ
  pub status_counts : GoMap ℕ ℕ
  pub duration_buckets : List ℕ
  pub connected_at : ℕ
  pub last_seen : ℕ

abbrev has_auth : TunnelSession → Bool
has_auth t = elim t.http_basic_auth [ none ↦ false | some a ↦ true ]

unfoldable pub stats : TunnelSession → Bytes → TunnelStats
stats t name = record {
  name = name;
  remote = t.remote;
  http_basic_auth = has_auth t;
  requests = t.requests;
  bytes_in = t.bytes_in;
  bytes_out = t.bytes_out;
  status_counts = t.status_counts;
  duration_buckets = t.duration_buckets;
  connected_at = t.connected_at;
  last_seen = t.last_seen;
}

unfoldable pub tunnel_stats : Registry → Bytes → Option TunnelStats
tunnel_stats r name = elim (lookup name r.sessions) [ none ↦ none | some t ↦ some (stats t name) ]

-- The order of strings in Go.
abbrev pub before_or_same : Bytes → Bytes → Bool
before_or_same [] t = true
before_or_same (x ∷ s) [] = false
before_or_same (x ∷ s) (y ∷ t) = if x == y then before_or_same s t else ltb x y

insert_sorted : Bytes → List Bytes → List Bytes
insert_sorted n [] = n ∷ []
insert_sorted n (m ∷ ms) = if before_or_same n m then n ∷ m ∷ ms else m ∷ insert_sorted n ms

-- `sort.Strings`.
sort_names : List Bytes → List Bytes
sort_names [] = []
sort_names (n ∷ ns) = insert_sorted n (sort_names ns)

-- The keys whose session is open, in the order of the iteration over the map.
open_names : (ℕ → Bool) → GoMap Bytes TunnelSession → List Bytes
open_names closed [] = []
open_names closed ((name, t) ∷ m) =
    if closed t.session then open_names closed m else name ∷ open_names closed m

-- Every name is a key, so its entry is there.
stats_of : Registry → List Bytes → List TunnelStats
stats_of r [] = []
stats_of r (name ∷ names) = elim (tunnel_stats r name) [
  | none ↦ stats_of r names
  | some t ↦ t ∷ stats_of r names
]

unfoldable pub all_tunnel_stats : (ℕ → Bool) → Registry → List TunnelStats
unfolding stats_of sort_names open_names insert_sorted
all_tunnel_stats closed r = stats_of r (sort_names (open_names closed r.sessions))

pub record StatusTotals : Type 0 where
  pub requests : ℕ
  pub bytes_in : ℕ
  pub bytes_out : ℕ

add_totals : StatusTotals → List TunnelStats → StatusTotals
add_totals acc [] = acc
add_totals acc (t ∷ ts) =
    add_totals
      (record {
        requests = add64 acc.requests t.requests;
        bytes_in = add64 acc.bytes_in t.bytes_in;
        bytes_out = add64 acc.bytes_out t.bytes_out;
      })
      ts

-- The number of active tunnels and the totals, the same in both pages.
unfoldable pub status_totals : (ℕ → Bool) → Registry → ℕ × StatusTotals
unfolding add_totals
status_totals closed r =
    let ts = all_tunnel_stats closed r in
    (length ts, add_totals (record { requests = 0; bytes_in = 0; bytes_out = 0 }) ts)
