-- ===== src/Client/Stream/Answers.antt =====
-- What the stream is answered with, and what the target is asked for.
use gatelet.Prelude.{
  ap, sym, subst, ℕ, ◌≡◌, refl, inl, inr, Bool, Option, none, some, List, [], ◌∷◌, ◌++◌, Bool-cases,
  Option-cases, Result, ok, err, Result-cases, All, Bytes, codes,
}
use gatelet.Client.Stream.{
  TunnelRequest, Pausing, TargetResponse, Exchange, ClientSettings, Effect, emits, logs, asks,
  writes_error, writes_response, ends_with, relay, ask, to_target, queue_events, behind_pause,
  handle_stream,
}

-- `writeError`: the response that it writes.
unfoldable pub error_response : ℕ → Bytes → TargetResponse
error_response status message = record {
  status = status;
  header = [];
  body_reads = (message ++ b'\n' ∷ []) ∷ [];
  write_error = none;
}

-- The first response that is written to the stream.
unfoldable pub first_answer : List Effect → Option TargetResponse
first_answer [] = none
first_answer (emits e ∷ rest) = first_answer rest
first_answer (logs e ∷ rest) = first_answer rest
first_answer (asks method url host header ∷ rest) = first_answer rest
first_answer (writes_error status message ∷ rest) = some (error_response status message)
first_answer (writes_response response ∷ rest) = some response

-- What a request is to be answered with.
abbrev answer_of_target : Option Bytes → Result Bytes TargetResponse → TargetResponse
answer_of_target (some error) reply = error_response 502 (codes "bad local request")
answer_of_target none (err error) = error_response 502 (codes "local target unavailable")
answer_of_target none (ok response) = response

abbrev answer_beyond_pause : Exchange → TargetResponse
answer_beyond_pause x = elim x.target_url [
  | err error ↦ error_response 502 (codes "bad local target")
  | ok url ↦ answer_of_target x.bad_request x.reply
]

abbrev pub answer_of : Exchange → TargetResponse
answer_of x = elim x.pausing [
  | none ↦ answer_beyond_pause x
  | some p ↦ elim p.failed [
    | some error ↦ error_response 504 (codes "request paused too long")
    | none ↦ answer_beyond_pause x
  ]
]

-- The target is asked for nothing but this request, at the URL that is made for it.
abbrev pub AsksFor : TunnelRequest → Result Bytes Bytes → Effect → Type 0
AsksFor r url (asks method asked_url host header) =
    (method ≡ r.method) × (url ≡ ok asked_url) × (host ≡ r.host) × (header ≡ r.header)
AsksFor r url (emits e) = Unit
AsksFor r url (logs e) = Unit
AsksFor r url (writes_error status message) = Unit
AsksFor r url (writes_response response) = Unit

module _ (parse_media_type : Bytes → Option Bytes) (utf8_valid : Bytes → Bool) (s : ClientSettings)
    (id : ℕ) (r : TunnelRequest) where
  -- An answer, and requests of the target for `r` only.
  Answers : Result Bytes Bytes → TargetResponse → List Effect → Type 0
  Answers url response xs = (first_answer xs ≡ some response) × All (AsksFor r url) xs

  ask-Answers :
      (url : Bytes) (bad : Option Bytes) (reply : Result Bytes TargetResponse)
      → Answers
          (ok url)
          (answer_of_target bad reply)
          (ask parse_media_type utf8_valid s id r url bad reply)
  unfolding ask relay ends_with first_answer Answers
  ask-Answers url (some error) reply = (refl, (tt, (tt, (tt, tt))))
  ask-Answers url none (err error) = (refl, ((refl, refl, refl, refl), (tt, (tt, (tt, tt)))))
  ask-Answers url none (ok response) = elim (Option-cases response.write_error) [
    | inl fine ↦ rw fine (refl, ((refl, refl, refl, refl), (tt, (tt, (tt, (tt, tt))))))
    | inr (error, e) ↦ rw e (refl, ((refl, refl, refl, refl), (tt, (tt, (tt, (tt, tt))))))
  ]

  to_target-Answers :
      (x : Exchange)
      → Answers x.target_url
          (answer_beyond_pause x)
          (to_target parse_media_type utf8_valid s id r x)
  unfolding to_target ends_with first_answer Answers
  to_target-Answers x = elim (Result-cases x.target_url) [
    | inr (error, e) ↦ rw e (refl, (tt, (tt, (tt, tt))))
    | inl (url, e) ↦
        let (first, asked) = ask-Answers url x.bad_request x.reply in rw e (first, (tt, asked))
  ]

  -- Being queued neither answers nor asks.
  past_queue :
      (p : Pausing) (url : Result Bytes Bytes) (response : TargetResponse) (xs : List Effect)
      → Answers url response xs
      → Answers url response (queue_events parse_media_type utf8_valid s id r p ++ xs)
  unfolding queue_events first_answer Answers
  past_queue p url response xs h = elim (Bool-cases p.was_paused) [
    | inl e ↦ rw e (h.0, (tt, h.1))
    | inr e ↦ elim (Bool-cases p.queued) [
      | inl f ↦ rw (e, f) (h.0, (tt, h.1))
      | inr f ↦ rw (e, f) h
    ]
  ]

  held_back-Answers :
      (x : Exchange) (p : Pausing)
      → Answers x.target_url
          (elim p.failed [
            | some error ↦ error_response 504 (codes "request paused too long")
            | none ↦ answer_beyond_pause x
          ])
          (behind_pause parse_media_type utf8_valid s id r x (some p))
  unfolding behind_pause ends_with first_answer Answers
  held_back-Answers x p = past_queue p x.target_url _ _ (elim (Option-cases p.failed) [
    | inl fine ↦ rw fine (to_target-Answers x)
    | inr (error, e) ↦ rw e (refl, (tt, (tt, (tt, tt))))
  ])

-- A request that parses is answered with the response of the target, if the call of it succeeds, and else
-- with an error of the client; and the target is asked for nothing but that request.
pub handle_stream-first_answer :
    (parse_media_type : Bytes → Option Bytes) (utf8_valid : Bytes → Bool) (s : ClientSettings)
    (x : Exchange) (r : TunnelRequest)
    → x.request ≡ some r
    → (first_answer (handle_stream parse_media_type utf8_valid s x) ≡ some (answer_of x))
      × All (AsksFor r x.target_url) (handle_stream parse_media_type utf8_valid s x)
unfolding handle_stream behind_pause first_answer Answers
handle_stream-first_answer parse_media_type utf8_valid s x r e = elim (Option-cases x.pausing) [
  | inl free ↦
      let (first, asked) = to_target-Answers parse_media_type utf8_valid s x.id r x in
      rw (e, free, handle_stream) (first, (tt, asked))
  | inr (p, f) ↦
      let (first, asked) = held_back-Answers parse_media_type utf8_valid s x.id r x p in
      rw (e, f, handle_stream) (first, (tt, asked))
]

-- The grounds for the status of an answer.
pub data IsAnswer (x : Exchange) : ℕ → Type 0 where
  held_too_long :
      (p : Pausing) (error : Bytes) → x.pausing ≡ some p → p.failed ≡ some error → IsAnswer x 504
  no_url : (error : Bytes) → x.target_url ≡ err error → IsAnswer x 502
  no_request : (error : Bytes) → x.bad_request ≡ some error → IsAnswer x 502
  no_reply : (error : Bytes) → x.reply ≡ err error → IsAnswer x 502
  -- Also where the writing of the response fails.
  of_target : (response : TargetResponse) → x.reply ≡ ok response → IsAnswer x response.status

-- A status that is another's.
same-IsAnswer : (x : Exchange) {m n : ℕ} → m ≡ n → IsAnswer x n → IsAnswer x m
same-IsAnswer x e a = subst (IsAnswer x) (sym e) a

answer_beyond_pause-IsAnswer : (x : Exchange) → IsAnswer x (answer_beyond_pause x).status
unfolding error_response
answer_beyond_pause-IsAnswer x = elim (Result-cases x.target_url) [
  | inr (error, e) ↦ same-IsAnswer x {n = 502} (simp (e, answer_beyond_pause)) (no_url error e)
  | inl (url, e) ↦ elim (Option-cases x.bad_request) [
    | inr (error, f) ↦
        same-IsAnswer x {n = 502} (simp (e, f, answer_beyond_pause)) (no_request error f)
    | inl fine ↦ elim (Result-cases x.reply) [
      | inr (error, g) ↦
          same-IsAnswer x {n = 502} (simp (e, fine, g, answer_beyond_pause)) (no_reply error g)
      | inl (response, g) ↦
          let made : answer_beyond_pause x ≡ response = simp (e, fine, g, answer_beyond_pause) in
          same-IsAnswer x (ap (λ (t : TargetResponse). t.status) made) (of_target response g)
    ]
  ]
]

-- The status of an answer has one of these grounds.
pub answer_of-IsAnswer : (x : Exchange) → IsAnswer x (answer_of x).status
unfolding error_response
answer_of-IsAnswer x = elim (Option-cases x.pausing) [
  | inl e ↦
      let made : answer_of x ≡ answer_beyond_pause x = simp (e, answer_of) in
      same-IsAnswer x (ap (λ (t : TargetResponse). t.status) made) (answer_beyond_pause-IsAnswer x)
  | inr (p, e) ↦ elim (Option-cases p.failed) [
    | inl fine ↦
        let made : answer_of x ≡ answer_beyond_pause x = simp (e, fine, answer_of) in
        same-IsAnswer x (ap (λ (t : TargetResponse). t.status) made)
          (answer_beyond_pause-IsAnswer x)
    | inr (error, f) ↦
        same-IsAnswer x {n = 504} (simp (e, f, answer_of)) (held_too_long p error e f)
  ]
]
