-- ===== src/Client/Tests.antt =====
-- The theorems on the client at concrete inputs, and tests.
use gatelet.Prelude.{
  ℕ, suc, ◌*◌, ◌/◌, ◌≤◌, ◌<◌, ◌≡◌, refl, Bool, true, false, Option, none, some, [], ◌∷◌, All,
  length, ok, Bytes, codes, cut, has_substring, pos,
}
use gatelet.Client.Reconnect.{ControlError, Session, reconnect_delay, is_reconnectable, failed, run}
use gatelet.Client.Reconnect.Delay.{limit_of, reconnect_delay_laws}
use gatelet.Client.Pause.{
  new_pause_controller, set_paused, enter, queue_depth, Waiting, no_waiters, sets, waits, Reach,
  here, then_step,
}
use gatelet.Client.Pause.Invariant.{pause_controller_safe}
use gatelet.Client.Preview.{new_capture, preview}
use gatelet.Client.Preview.Chunks.{write_all, joined, capture_of, preview-write_all}
use gatelet.Client.Replay.{Captured, replay_body, curl_command, shell_quote, public_request_url}
use gatelet.Client.Replay.Shell.{between, shell_words}
use gatelet.Client.Replay.Command.{curl_words, curl_command-shell_words}

reconnect_delay_laws_example :
    let delay = λ (k : ℕ). reconnect_delay (suc k) (pos 0) (pos 9) in
    (1 ≤ delay 2)
    × (delay 2 ≤ limit_of (pos 9))
    × (delay 2 ≤ delay 3)
    × (delay 2 < limit_of (pos 9) / 2 → delay 3 ≡ delay 2 * 2)
    × (limit_of (pos 9) ≤ 2 → delay 2 ≡ limit_of (pos 9))
reconnect_delay_laws_example = reconnect_delay_laws 2 (pos 0) (pos 9)

-- The defaults: 1 s, 2 s, 4 s, 8 s, 16 s and from then on 30 s.
fourth_delay : reconnect_delay 4 (pos 0) (pos 0) ≡ 8000000000
unfolding reconnect_delay
fourth_delay = refl

sixth_delay : reconnect_delay 6 (pos 0) (pos 0) ≡ 30000000000
unfolding reconnect_delay
sixth_delay = refl

abbrev dropped : ControlError
dropped = record { terminal = false; text = codes "EOF" }

abbrev rejected : ControlError
rejected = record { terminal = true; text = codes "ERR" }

abbrev drops : Session
drops = record { connected = true; error = some dropped; cancelled = false; wait_cancelled = false }

abbrev refuses : Session
refuses = record {
  connected = false;
  error = some rejected;
  cancelled = false;
  wait_cancelled = false;
}

rejected_ends : (run (pos 0) (pos 0) (drops ∷ refuses ∷ [])).1 ≡ failed rejected
unfolding run is_reconnectable has_substring
rejected_ends = refl

-- A pause, and a request that waits.
abbrev one_waits : Waiting
one_waits = record {
  controller = (enter (set_paused new_pause_controller true)).0;
  waiters = 1 ∷ [];
}

waits_once : Reach (no_waiters new_pause_controller) one_waits
unfolding enter set_paused new_pause_controller
waits_once = then_step (then_step here (sets _ true)) (waits _ 1 refl)

pause_controller_safe_example :
    (queue_depth one_waits.controller ≡ length one_waits.waiters)
    × (one_waits.controller.paused ≡ false
        → All (λ ch. one_waits.controller.closed ch ≡ true) one_waits.waiters)
    × (one_waits.controller.paused ≡ true
        → one_waits.controller.closed one_waits.controller.resume ≡ false)
pause_controller_safe_example = pause_controller_safe one_waits waits_once

-- A media type is what stands before `;`, and every text is valid UTF-8.
abbrev media_type : Bytes → Option Bytes
media_type t = elim (cut b';' t) [ none ↦ some t | some (before, after) ↦ some before ]

abbrev valid : Bytes → Bool
valid s = true

preview-write_all_example :
    let p =
      preview media_type valid
        (write_all (new_capture (codes "text/plain") (pos 4)) (codes "ab" ∷ codes "cde" ∷ [])) in
    (p
      ≡ preview media_type valid
          (capture_of (codes "text/plain") (pos 4) (joined (codes "ab" ∷ codes "cde" ∷ []))))
    × (p.omitted ≡ false → p.text ≡ joined (codes "ab" ∷ codes "cde" ∷ []))
preview-write_all_example =
    preview-write_all media_type valid (codes "text/plain") (pos 4) (codes "ab" ∷ codes "cde" ∷ [])

abbrev quote_in_body : Captured
quote_in_body = record {
  method = codes "POST";
  request_uri = codes "/a?b=1";
  headers = (codes "Accept", codes "x'y" ∷ []) ∷ [];
  request_preview = record {
    text = codes "it's";
    content_type = codes "text/plain";
    size = 4;
    captured = 4;
    omitted = false;
    reason = [];
  };
}

quote_in_body_whole : replay_body quote_in_body.request_preview ≡ ok (some (codes "it's"))
unfolding replay_body
quote_in_body_whole = refl

curl_command-shell_words_example :
    (command : Bytes) × (curl_command quote_in_body (codes "https://h/") ≡ ok command)
    × (shell_words between command
        ≡ some (curl_words quote_in_body (codes "https://h/") (some (codes "it's"))))
curl_command-shell_words_example =
    curl_command-shell_words quote_in_body (codes "https://h/") (some (codes "it's"))
      (refl, (refl, (refl, (refl, tt)))) quote_in_body_whole

-- The method is not quoted: one with a `|`, which is a token character in HTTP, is no word.
pipe_in_method :
    (command : Bytes) × (curl_command
        (record quote_in_body { method = codes "A|id" })
        (codes "https://h/")
      ≡ ok command)
    × (shell_words between command ≡ none)
unfolding curl_command shell_quote replay_body public_request_url shell_words
pipe_in_method = (_, refl, refl)
