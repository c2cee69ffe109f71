-- ===== src/Server/Control.antt =====
-- internal/server/server.go: `ServeControl`, the loop that accepts control connections, with the values
-- that the relay makes for its sessions and its admin pages; and the status page.
use gatelet.Prelude.{
  ℕ, ◌/◌, Bool, ◌||◌, Option, none, some, List, [], ◌∷◌, map, if◌then◌else◌, GoMap, Bytes, ℤ, pos,
  pos_part, ltbℤ,
}
use gatelet.Protocol.Challenge.{hex_encode}
use gatelet.Server.Registry.{Registry}
use gatelet.Server.Stats.{TunnelStats, StatusTotals, all_tunnel_stats, status_totals}

-- What `Accept` returns: a connection; or an error, with whether the context is done, and whether it is
-- `net.ErrClosed`.
pub data Accept : Type 0 where
  accepted : ℕ → Accept
  accept_failed : Bool → Bool → Bytes → Accept

pub data ControlEnd : Type 0 where
  accepting returned_nil : ControlEnd
  returned_error : Bytes → ControlEnd

-- The end that an error of `Accept` gives.
abbrev pub end_of_accept : Bool → Bool → Bytes → ControlEnd
end_of_accept cancelled closed text =
    if cancelled || closed then returned_nil else returned_error text

-- The connections whose handler is started, and the end.
unfoldable pub serve_control : List Accept → List ℕ × ControlEnd
serve_control [] = ([], accepting)
serve_control (accepted conn ∷ rest) = let more = serve_control rest in (conn ∷ more.0, more.1)
serve_control (accept_failed cancelled closed text ∷ rest) =
    ([], end_of_accept cancelled closed text)

pub record YamuxConfig : Type 0 where
  pub keep_alive_interval : ℕ
  pub connection_write_timeout : ℕ

abbrev positive_value : ℤ → ℕ → ℕ
positive_value given default = if ltbℤ (pos 0) given then pos_part given else default

-- From the defaults of yamux, as on the client's side.
unfoldable pub yamux_config : YamuxConfig → ℤ → ℤ → YamuxConfig
yamux_config default interval timeout = record {
  keep_alive_interval = positive_value interval default.keep_alive_interval;
  connection_write_timeout = positive_value timeout default.connection_write_timeout;
}

-- From 32 random bytes; `none` is the panic where there are none.
unfoldable pub new_admin_action_token : Option Bytes → Option Bytes
new_admin_action_token none = none
new_admin_action_token (some random) = some (hex_encode random)

pub record TunnelStatus : Type 0 where
  pub name : Bytes
  pub remote : Bytes
  pub http_basic_auth : Bool
  pub requests : ℕ
  pub bytes_in : ℕ
  pub bytes_out : ℕ
  pub status_counts : GoMap ℕ ℕ
  pub connected_at : Bytes
  pub last_seen : Bytes

pub record StatusResponse : Type 0 where
  pub uptime_seconds : ℕ
  pub active_tunnels : ℕ
  pub totals : StatusTotals
  pub tunnels : List TunnelStatus

-- `rfc3339` prints a time.
abbrev tunnel_status : (ℕ → Bytes) → TunnelStats → TunnelStatus
tunnel_status rfc3339 t = record {
  name = t.name;
  remote = t.remote;
  http_basic_auth = t.http_basic_auth;
  requests = t.requests;
  bytes_in = t.bytes_in;
  bytes_out = t.bytes_out;
  status_counts = t.status_counts;
  connected_at = rfc3339 t.connected_at;
  last_seen = rfc3339 t.last_seen;
}

-- The response of `serveStatus` before its encoding; the uptime is in nanoseconds.
unfoldable pub serve_status : (ℕ → Bytes) → (ℕ → Bool) → Registry → ℕ → StatusResponse
serve_status rfc3339 closed r uptime =
    let (active, totals) = status_totals closed r in
    record {
      uptime_seconds = uptime / 1000000000;
      active_tunnels = active;
      totals = totals;
      tunnels = map (tunnel_status rfc3339) (all_tunnel_stats closed r);
    }
