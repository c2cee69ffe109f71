-- ===== src/Server/Stats/Metrics.antt =====
-- internal/server/server.go: `serveMetrics`, as the lines that it prints.
use gatelet.Prelude.{
  ℕ, ◌-◌, ◌^◌, Bool, List, [], ◌∷◌, ◌++◌, ltb, if◌then◌else◌, nat_eq, GoMap, lookup, Bytes, codes,
  or_else, decimal,
}
use gatelet.Server.Registry.{u64_mod, Registry}
use gatelet.Server.Stats.{TunnelStats, all_tunnel_stats, status_totals}
use gatelet.Server.Stats.Statuses.{sorted_statuses, sort_statuses, insert_status}

-- `%d` of the int64 with these bits.
unfoldable pub signed_decimal : ℕ → Bytes
unfolding decimal
signed_decimal bits = if ltb bits (2 ^ 63) then decimal bits else b'-' ∷ decimal (u64_mod - bits)

-- The value under a status; a status of the list is a key.
abbrev pub count_of : GoMap ℕ ℕ → ℕ → ℕ
count_of counts status = or_else (lookup status counts) 0

-- `%q` of a label or a number, in which nothing is to be escaped.
abbrev in_quotes : Bytes → Bytes
in_quotes s = b'"' ∷ s ++ (b'"' ∷ [])

abbrev named : Bytes → Bytes → Bytes
named metric name = metric ++ (codes "{name=" ++ in_quotes name)

-- `durationBuckets` as `%g` prints them.
abbrev bucket_labels : List Bytes
bucket_labels =
    codes "0.005"
    ∷ codes "0.01"
    ∷ codes "0.025"
    ∷ codes "0.05"
    ∷ codes "0.1"
    ∷ codes "0.25"
    ∷ codes "0.5"
    ∷ codes "1"
    ∷ codes "2.5"
    ∷ codes "5"
    ∷ codes "10"
    ∷ []

abbrev last_bucket : List ℕ → ℕ
last_bucket [] = 0
last_bucket (n ∷ []) = n
last_bucket (n ∷ m ∷ ns) = last_bucket (m ∷ ns)

abbrev pub status_lines : Bytes → GoMap ℕ ℕ → List ℕ → List Bytes
status_lines name counts [] = []
status_lines name counts (status ∷ rest) =
    (named (codes "gatelet_tunnel_requests_total") name
      ++ (codes ",status="
          ++ (in_quotes (decimal status) ++ (codes "} " ++ decimal (count_of counts status)))))
    ∷ status_lines name counts rest

abbrev bucket_line : Bytes → Bytes → ℕ → Bytes
bucket_line name label n =
    named (codes "gatelet_tunnel_request_duration_seconds_bucket") name
    ++ (codes ",le=" ++ (in_quotes label ++ (codes "} " ++ decimal n)))

-- The tunnel has a counter for each bound, and one more.
abbrev bucket_lines : Bytes → List Bytes → List ℕ → List Bytes
bucket_lines name [] ns = []
bucket_lines name (label ∷ labels) [] = []
bucket_lines name (label ∷ labels) (n ∷ ns) = bucket_line name label n ∷ bucket_lines name labels ns

unfoldable pub tunnel_lines : TunnelStats → List Bytes
unfolding signed_decimal decimal sorted_statuses sort_statuses insert_status
tunnel_lines t =
    status_lines t.name t.status_counts (sorted_statuses t.status_counts)
    ++ (bucket_lines t.name bucket_labels t.duration_buckets
        ++ (bucket_line t.name (codes "+Inf") (last_bucket t.duration_buckets)
            ∷ (named (codes "gatelet_tunnel_request_duration_seconds_count") t.name
                ++ (codes "} " ++ decimal t.requests))
            ∷ (named (codes "gatelet_tunnel_bytes_in_total") t.name
                ++ (codes "} " ++ signed_decimal t.bytes_in))
            ∷ (named (codes "gatelet_tunnel_bytes_out_total") t.name
                ++ (codes "} " ++ signed_decimal t.bytes_out))
            ∷ []))

abbrev all_lines : List TunnelStats → List Bytes
all_lines [] = []
all_lines (t ∷ ts) = tunnel_lines t ++ all_lines ts

unfoldable pub serve_metrics : (ℕ → Bool) → Registry → List Bytes
unfolding signed_decimal decimal tunnel_lines
serve_metrics closed r =
    let (active, totals) = status_totals closed r in
    codes "# TYPE gatelet_active_tunnels gauge"
    ∷ (codes "gatelet_active_tunnels " ++ decimal active)
    ∷ codes "# TYPE gatelet_requests_total counter"
    ∷ (codes "gatelet_requests_total " ++ decimal totals.requests)
    ∷ codes "# TYPE gatelet_bytes_in_total counter"
    ∷ (codes "gatelet_bytes_in_total " ++ signed_decimal totals.bytes_in)
    ∷ codes "# TYPE gatelet_bytes_out_total counter"
    ∷ (codes "gatelet_bytes_out_total " ++ signed_decimal totals.bytes_out)
    ∷ codes "# TYPE gatelet_tunnel_requests_total counter"
    ∷ codes "# TYPE gatelet_tunnel_request_duration_seconds histogram"
    ∷ codes "# TYPE gatelet_tunnel_bytes_in_total counter"
    ∷ codes "# TYPE gatelet_tunnel_bytes_out_total counter"
    ∷ all_lines (all_tunnel_stats closed r)
