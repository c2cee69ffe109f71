-- ===== src/Client/Log.antt =====
-- internal/client/events.go: the line of the request log; and `logStatus` of client.go. A size below 2^53
-- is exact as a float64, and so are its quotients by 1024, so `%.0f` and `%.1f` round a fraction, ties to
-- even.
use gatelet.Prelude.{
  ℕ, ◌*◌, ◌^◌, not, Option, none, some, ◌∷◌, ◌++◌, ltb, leb, if◌then◌else◌, ◌==◌, nat_eq, Bytes,
  codes, bytes_eq, is_empty, ℤ, pos_part, decimal, round_even, tenths,
}
use gatelet.Client.Events.{
  RequestEvent, LogFormat, text, parse_log_format, empty_default, remote_ip,
}

-- The value is `size / den`.
abbrev with_unit : ℕ → ℕ → Bytes → Bytes
unfolding decimal tenths
with_unit size den suffix =
    if leb (10 * den) size
    then decimal (round_even size den) ++ suffix
    else tenths (round_even (10 * size) den) ++ suffix

unfoldable pub format_bytes : ℤ → Bytes
unfolding decimal with_unit tenths
format_bytes size =
    let n = pos_part size in
    if ltb n 1024
    then decimal n ++ codes "B"
    else if ltb n (1024 ^ 2)
    then with_unit n 1024 (codes "kb")
    else if ltb n (1024 ^ 3)
    then with_unit n (1024 ^ 2) (codes "mb")
    else if ltb n (1024 ^ 4)
    then with_unit n (1024 ^ 3) (codes "gb")
    else tenths (round_even (10 * n) (1024 ^ 4)) ++ codes "tb"

abbrev log_status : RequestEvent → Bytes
unfolding decimal
log_status event =
    if not (is_empty event.error)
    then codes "ERR"
    else if not (event.status_code == 0)
    then decimal event.status_code
    else codes "-"

unfoldable pub log_line : RequestEvent → Bytes
unfolding log_status format_bytes remote_ip
log_line event =
    empty_default event.method (codes "-")
    ++ (b' '
        ∷ (empty_default event.request_uri (codes "/")
            ++ (b' '
                ∷ (log_status event
                    ++ (b' '
                        ∷ (format_bytes event.request_size
                            ++ (b' ' ∷ remote_ip event.remote_addr)))))))

-- `marshal` is the JSON of the record that the event gives.
unfoldable pub request_log_line :
    (RequestEvent → Option Bytes) → RequestEvent → Bytes → Option Bytes
unfolding parse_log_format log_line
request_log_line marshal event format = elim (parse_log_format format) [
  | none ↦ none
  | some text ↦ some (log_line event)
  | some _ ↦ marshal event
]

-- The line of `logStatus`, where there is a log: `marshal` is the JSON of the record, and `rounded` the print of the
-- wait, rounded to milliseconds.
unfoldable pub status_log_line :
    (RequestEvent → Option Bytes) → (ℕ → Bytes) → LogFormat → RequestEvent → ℕ → Option Bytes
status_log_line marshal rounded format event wait = elim format [
  | text ↦ some (codes "reconnecting: " ++ (event.error ++ (codes "; retry in " ++ rounded wait)))
  | _ ↦ marshal event
]
