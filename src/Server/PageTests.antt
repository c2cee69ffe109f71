-- ===== src/Server/PageTests.antt =====
-- The lines and cells of one tunnel in the metrics and the dashboard, and the theorem on the button's script at a name with a quote.
use gatelet.Prelude.{
  ◌≡◌, refl, false, some, List, [], ◌∷◌, ◌++◌, nat_eq, bytes_eq, Bytes, codes, lookup,
}
use gatelet.Server.Stats.{TunnelStats}
use gatelet.Server.Stats.Metrics.{tunnel_lines}
use gatelet.Server.Admin.Dashboard.{
  format_bytes, format_duration, format_age, status_counts, disconnect_confirm,
}
use gatelet.Server.Admin.Ordered.{js_from, js_literal-disconnect_confirm}

abbrev zed : TunnelStats
zed = record {
  name = codes "zed";
  remote = codes "h:1";
  http_basic_auth = false;
  requests = 3;
  bytes_in = 1536;
  bytes_out = 5;
  status_counts = (404, 1) ∷ (200, 2) ∷ [];
  duration_buckets = 1 ∷ 2 ∷ 3 ∷ 3 ∷ 3 ∷ 3 ∷ 3 ∷ 3 ∷ 3 ∷ 3 ∷ 3 ∷ 3 ∷ [];
  connected_at = 0;
  last_seen = 0;
}

js_literal-disconnect_confirm_example :
    (body : Bytes) × (disconnect_confirm (codes "o'k\\") ≡ codes "return confirm('" ++ body)
    × (js_from false body ≡ some (codes "Disconnect tunnel o'k\\?", codes ")"))
js_literal-disconnect_confirm_example = js_literal-disconnect_confirm (codes "o'k\\")

script_escaped :
    disconnect_confirm (codes "o'k") ≡ codes "return confirm('Disconnect tunnel o\\'k?')"
unfolding disconnect_confirm
script_escaped = refl

sizes_shown :
    (format_bytes 1023 ≡ codes "1023B")
    × (format_bytes 1536 ≡ codes "1.5KB")
    × (format_bytes 1048575 ≡ codes "1024.0KB")
    × (format_bytes 18446744073709551615 ≡ codes "-1B")
unfolding format_bytes
sizes_shown = (refl, refl, refl, refl)

durations_shown :
    (format_duration 59999999999 ≡ codes "59s")
    × (format_duration 3599000000000 ≡ codes "59m")
    × (format_duration 7380000000000 ≡ codes "2h 3m")
    × (format_age 999999999 ≡ codes "now")
    × (format_age 61000000000 ≡ codes "1m ago")
unfolding format_duration format_age
durations_shown = (refl, refl, refl, refl, refl)

statuses_shown : status_counts zed.status_counts ≡ codes "200:2 404:1"
unfolding status_counts lookup
statuses_shown = refl

first_metric :
    (rest : List Bytes) × (tunnel_lines zed
      ≡ codes "gatelet_tunnel_requests_total{name=\"zed\",status=\"200\"} 2"
        ∷ codes "gatelet_tunnel_requests_total{name=\"zed\",status=\"404\"} 1"
        ∷ codes "gatelet_tunnel_request_duration_seconds_bucket{name=\"zed\",le=\"0.005\"} 1"
        ∷ rest)
unfolding tunnel_lines lookup
first_metric = (_, refl)
