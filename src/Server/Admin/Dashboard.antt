-- ===== src/Server/Admin/Dashboard.antt =====
-- internal/server/admin.go: what the dashboard shows, as the texts of its cards and of the cells of its
-- table. The markup around them is left out.
use gatelet.Prelude.{
  ℕ, ◌-◌, ◌*◌, ◌/◌, ◌%◌, ◌^◌, Bool, List, [], ◌∷◌, ◌++◌, map, ltb, leb, if◌then◌else◌, ◌==◌, nat_eq,
  length, GoMap, Bytes, codes, decimal, round_even, tenths,
}
use gatelet.Server.Names.{Settings}
use gatelet.Server.Registry.{Registry}
use gatelet.Server.Stats.{TunnelStats, StatusTotals, all_tunnel_stats, status_totals}
use gatelet.Server.Stats.Statuses.{sorted_statuses, sort_statuses, insert_status}
use gatelet.Server.Stats.Metrics.{signed_decimal, count_of}

pub record AdminDashboardData : Type 0 where
  pub domain : Bytes
  pub action_token : Bytes
  pub notice : Bytes
  pub uptime : Bytes
  pub totals : StatusTotals
  pub tunnels : List TunnelStats

unfoldable pub tunnel_auth_label : TunnelStats → Bytes
tunnel_auth_label tunnel = if tunnel.http_basic_auth then codes "on" else codes "off"

unfoldable pub public_tunnel_url : Bytes → TunnelStats → Bytes
public_tunnel_url domain tunnel = codes "https://" ++ (tunnel.name ++ (b'.' ∷ domain))

abbrev pub joined : List Bytes → Bytes
joined [] = []
joined (p ∷ []) = p
joined (p ∷ q ∷ ps) = p ++ (b' ' ∷ joined (q ∷ ps))

abbrev pub status_part : GoMap ℕ ℕ → ℕ → Bytes
status_part counts status = decimal status ++ (b':' ∷ decimal (count_of counts status))

unfoldable pub status_counts : GoMap ℕ ℕ → Bytes
unfolding sorted_statuses sort_statuses insert_status decimal
status_counts [] = codes "-"
status_counts (entry ∷ rest) =
    joined (map (status_part (entry ∷ rest)) (sorted_statuses (entry ∷ rest)))

-- Of the int64 with these bits. A size below 2^53 is exact as a float64, and so are its quotients by
-- powers of two.
unfoldable pub format_bytes : ℕ → Bytes
unfolding signed_decimal decimal tenths
format_bytes bits =
    if leb (2 ^ 63) bits
    then signed_decimal bits ++ codes "B"
    else if leb (2 ^ 30) bits
    then tenths (round_even (10 * bits) (2 ^ 30)) ++ codes "GB"
    else if leb (2 ^ 20) bits
    then tenths (round_even (10 * bits) (2 ^ 20)) ++ codes "MB"
    else if leb (2 ^ 10) bits
    then tenths (round_even (10 * bits) (2 ^ 10)) ++ codes "KB"
    else decimal bits ++ codes "B"

abbrev second : ℕ
second = 1000000000

-- A duration in nanoseconds that is not negative. Below 2048 hours the floats round to no other whole
-- number.
unfoldable pub format_duration : ℕ → Bytes
unfolding decimal
format_duration d =
    if ltb d (60 * second)
    then decimal (d / second) ++ codes "s"
    else if ltb d (3600 * second)
    then decimal (d / (60 * second)) ++ codes "m"
    else decimal (d / (3600 * second))
      ++ (codes "h " ++ (decimal (d / (60 * second) % 60) ++ codes "m"))

unfoldable pub format_age : ℕ → Bytes
unfolding format_duration
format_age d = if ltb d second then codes "now" else format_duration d ++ codes " ago"

abbrev pub js_char : ℕ → Bytes
js_char c =
    if c == b'\\'
    then codes "\\\\"
    else if c == b'\''
    then codes "\\'"
    else if c == b'\n'
    then codes "\\n"
    else if c == b'\r'
    then codes "\\r"
    else c ∷ []

unfoldable pub js_string : Bytes → Bytes
js_string [] = []
js_string (c ∷ s) = js_char c ++ js_string s

-- What `disconnectButton` asks before it sends the request.
unfoldable pub disconnect_confirm : Bytes → Bytes
unfolding js_string
disconnect_confirm name =
    codes "return confirm('Disconnect tunnel " ++ (js_string name ++ codes "?')")

abbrev traffic : ℕ → ℕ → Bytes
traffic bytes_in bytes_out =
    format_bytes bytes_in ++ (codes " in / " ++ (format_bytes bytes_out ++ codes " out"))

-- The cells of `tunnelRows`, the last with the question of its button; `clock` is `formatClock`.
unfoldable pub tunnel_cells : (ℕ → Bytes) → ℕ → Bytes → TunnelStats → List Bytes
unfolding tunnel_auth_label public_tunnel_url status_counts format_bytes format_age
    disconnect_confirm decimal
tunnel_cells clock now domain tunnel =
    tunnel.name
    ∷ public_tunnel_url domain tunnel
    ∷ tunnel_auth_label tunnel
    ∷ tunnel.remote
    ∷ clock tunnel.connected_at
    ∷ format_age (now - tunnel.last_seen)
    ∷ decimal tunnel.requests
    ∷ traffic tunnel.bytes_in tunnel.bytes_out
    ∷ status_counts tunnel.status_counts
    ∷ disconnect_confirm tunnel.name
    ∷ []

unfoldable pub tunnel_rows : (ℕ → Bytes) → ℕ → AdminDashboardData → List (List Bytes)
unfolding tunnel_cells
tunnel_rows clock now data_of = elim data_of.tunnels [
  | [] ↦ (codes "No active tunnels" ∷ []) ∷ []
  | t ∷ ts ↦ map (tunnel_cells clock now data_of.domain) (t ∷ ts)
]

-- The value of each card.
unfoldable pub summary_values : AdminDashboardData → List Bytes
unfolding decimal format_bytes
summary_values data_of =
    data_of.uptime
    ∷ decimal (length data_of.tunnels)
    ∷ decimal data_of.totals.requests
    ∷ traffic data_of.totals.bytes_in data_of.totals.bytes_out
    ∷ []

-- The totals are summed up as for the status page.
unfoldable pub admin_dashboard_data :
    Settings → (ℕ → Bool) → Registry → ℕ → ℕ → Bytes → AdminDashboardData
unfolding format_duration status_totals
admin_dashboard_data s closed r started_at now notice = record {
  domain = s.domain;
  action_token = s.admin_action_token;
  notice = notice;
  uptime = format_duration (now - started_at);
  totals = (status_totals closed r).1;
  tunnels = all_tunnel_stats closed r;
}
