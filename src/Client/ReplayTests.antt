-- ===== src/Client/ReplayTests.antt =====
-- The theorem on replays at a concrete input, and tests.
use gatelet.Prelude.{
  ◌++◌, if◌then◌else◌, has_substring, trim_left, trim_right, ◌≡◌, refl, true, none, some, [], ◌∷◌,
  err, codes,
}
use gatelet.Client.Events.{request_completed, RequestEvent, blank_event, no_preview}
use gatelet.Client.Replay.{replay_body}
use gatelet.Client.Target.{target_request_url}
use gatelet.Client.Replay.Request.{
  replayed_url, Replaying, Sent, replay_request, IsReplay, replay_request-IsReplay,
}

abbrev post : RequestEvent
post = record (blank_event request_completed) {
  method = codes "POST";
  request_uri = codes "/a";
  host = codes "ada.t.io";
  request_header = (codes "Accept", codes "*/*" ∷ []) ∷ [];
  request_preview = record no_preview { text = codes "hi"; size = 2; captured = 2 };
}

-- The target does not answer.
abbrev unanswered : Replaying
unanswered = record {
  id = 9;
  target = codes "localhost:3000";
  parse_url = λ text. some (record {
    scheme = codes "http";
    host = codes "localhost:3000";
    path = if has_substring (codes "://") text then [] else text;
    raw_query = [];
    fragment = [];
  });
  print_url = λ url. codes "http://" ++ (url.host ++ url.path);
  target_error_text = λ e. [];
  bad_request = none;
  reply = err (codes "refused");
}

abbrev received_post : Sent
received_post = record {
  method = codes "POST";
  url = codes "http://localhost:3000/a";
  host = codes "ada.t.io";
  header = (codes "Accept", codes "*/*" ∷ []) ∷ [];
  body = codes "hi";
}

post_received : (replay_request (λ t. none) (λ b. true) post unanswered).sent ≡ some received_post
unfolding replay_request replay_body replayed_url target_request_url has_substring trim_left
    trim_right
post_received = refl

replay_request-IsReplay_example : IsReplay post unanswered received_post
replay_request-IsReplay_example =
    replay_request-IsReplay (λ t. none) (λ b. true) post unanswered received_post post_received
