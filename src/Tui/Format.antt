-- ===== src/Tui/Format.antt =====
-- internal/tui/format.go: the texts of a row that do not depend on the terminal's width.
use gatelet.Prelude.{
  ℕ, ◌-◌, ◌*◌, ◌/◌, ◌%◌, Bool, true, false, not, ◌∷◌, ◌++◌, ltb, if◌then◌else◌, ◌==◌, nat_eq, Bytes,
  codes, bytes_eq, is_empty, decimal, padded,
}
use gatelet.Client.Events.{
  EventType, tunnel_connected, tunnel_reconnecting, request_received, request_queued,
  request_forwarding, response_started, request_completed, request_failed,
}
use gatelet.Tui.Model.{RequestItem}

abbrev pub is_queued : EventType → Bool
is_queued request_queued = true
is_queued _ = false

unfoldable pub status_text : RequestItem → Bytes
unfolding decimal
status_text item =
    if not (is_empty item.error)
    then codes "ERR"
    else if item.status_code == 0
    then (if is_queued item.state then codes "queued" else codes "-")
    else decimal item.status_code

-- The first two are the strings of the type itself.
unfoldable pub state_label : EventType → Bytes
state_label tunnel_connected = codes "tunnel_connected"
state_label tunnel_reconnecting = codes "tunnel_reconnecting"
state_label request_received = codes "received"
state_label request_queued = codes "queued"
state_label request_forwarding = codes "forwarding"
state_label response_started = codes "streaming"
state_label request_completed = codes "completed"
state_label request_failed = codes "failed"

abbrev pub second : ℕ
second = 1_000_000_000

-- `d` in nanoseconds, once it is not negative.
unfoldable pub age_text : ℕ → Bytes
unfolding decimal padded
age_text d =
    if ltb d second
    then codes "now"
    else if ltb d (60 * second)
    then decimal (d / second) ++ codes "s"
    else if ltb d (3600 * second)
    then decimal (d / (60 * second)) ++ (b'm' ∷ (padded 2 (d / second % 60) ++ codes "s"))
    else if ltb d (24 * (3600 * second))
    then decimal (d / (3600 * second))
      ++ (b':' ∷ (padded 2 (d / (60 * second) % 60) ++ (b':' ∷ padded 2 (d / second % 60))))
    else decimal (d / (24 * (3600 * second))) ++ codes "d"

-- `clock` is `time.Now`; the difference of the times, at least 0, is the subtraction of ℕ.
unfoldable pub relative_age : ℕ → ℕ → ℕ → Bytes
unfolding age_text
relative_age clock now started =
    if started == 0 then codes "-" else age_text ((if now == 0 then clock else now) - started)
