-- ===== src/Client/Stream/Outcomes.antt =====
-- What becomes of a request of the tunnel.
use gatelet.Prelude.{
  ℕ, suc, ◌+◌, ◌≤◌, ◌≡◌, refl, ◌∙◌, inl, inr, Bool, true, false, not, Option, none, some, List, [],
  ◌∷◌, ◌++◌, arith, if◌then◌else◌, Bool-cases, Option-cases, Result, ok, err, Bytes, Result-cases,
}
use gatelet.Client.Events.{EventType, request_completed, request_failed}
use gatelet.Client.Stream.{
  TunnelRequest, Pausing, TargetResponse, Exchange, ClientSettings, Effect, emits, asks,
  writes_error, writes_response, ends_with, relay, ask, to_target, queue_events, queued_event,
  behind_pause, handle_stream, failed_event, timed_out_event, completed_event, with_response,
  about_request,
}

abbrev count : (Effect → Bool) → List Effect → ℕ
count f [] = 0
count f (x ∷ xs) = if f x then suc (count f xs) else count f xs

abbrev pub of_bool : Bool → ℕ
of_bool true = 1
of_bool false = 0

abbrev completes : EventType → Bool
completes request_completed = true
completes t = false

abbrev fails : EventType → Bool
fails request_failed = true
fails t = false

abbrev is_answer : Effect → Bool
is_answer (writes_error status message) = true
is_answer (writes_response response) = true
is_answer x = false

abbrev is_asking : Effect → Bool
is_asking (asks method url host header) = true
is_asking x = false

abbrev is_completion : Effect → Bool
is_completion (emits e) = completes e.type
is_completion x = false

abbrev is_failure : Effect → Bool
is_failure (emits e) = fails e.type
is_failure x = false

-- How often the stream is answered, the target asked, and an event of either outcome emitted.
abbrev pub answers : List Effect → ℕ
answers xs = count is_answer xs

abbrev pub asked : List Effect → ℕ
asked xs = count is_asking xs

abbrev pub completed : List Effect → ℕ
completed xs = count is_completion xs

abbrev pub failures : List Effect → ℕ
failures xs = count is_failure xs

-- One answer, and one event for the outcome.
abbrev pub Settles : Bool → List Effect → Type 0
Settles success xs =
    (answers xs ≡ 1)
    × (completed xs ≡ of_bool success)
    × (failures xs ≡ of_bool (not success))
    × (asked xs ≤ 1)

-- Whether every call on the way succeeds.
abbrev relayed : TargetResponse → Bool
relayed response = elim response.write_error [ none ↦ true | some error ↦ false ]

abbrev asks_well : Option Bytes → Result Bytes TargetResponse → Bool
asks_well (some error) reply = false
asks_well none (err error) = false
asks_well none (ok response) = relayed response

abbrev reaches : Exchange → Bool
reaches x = elim x.target_url [ err error ↦ false | ok url ↦ asks_well x.bad_request x.reply ]

abbrev pub succeeds : Exchange → Bool
succeeds x = elim x.pausing [
  | none ↦ reaches x
  | some p ↦ elim p.failed [ some error ↦ false | none ↦ reaches x ]
]

module _ (parse_media_type : Bytes → Option Bytes) (utf8_valid : Bytes → Bool) (s : ClientSettings)
    (id : ℕ) (r : TunnelRequest) where
  relay_tally :
      (url : Bytes) (response : TargetResponse)
      → let xs = relay parse_media_type utf8_valid s id r url response in
        (answers xs ≡ 1)
        × (completed xs ≡ of_bool (relayed response))
        × (failures xs ≡ of_bool (not (relayed response)))
        × (asked xs ≡ 0)
  unfolding relay ends_with failed_event timed_out_event completed_event with_response about_request
  relay_tally url response = elim (Option-cases response.write_error) [
    | inl fine ↦ rw fine (refl, refl, refl, refl)
    | inr (error, e) ↦ rw e (refl, refl, refl, refl)
  ]

  ask-Settles :
      (url : Bytes) (bad : Option Bytes) (reply : Result Bytes TargetResponse)
      → Settles (asks_well bad reply) (ask parse_media_type utf8_valid s id r url bad reply)
  unfolding ask ends_with failed_event timed_out_event with_response about_request
  ask-Settles url (some error) reply = (refl, refl, refl, omega arith)
  ask-Settles url none (err error) = (refl, refl, refl, omega arith)
  ask-Settles url none (ok response) =
      let (a, c, f, n) = relay_tally url response in (a, c, f, omega (arith, n))

  to_target-Settles :
      (x : Exchange) → Settles (reaches x) (to_target parse_media_type utf8_valid s id r x)
  unfolding to_target ends_with failed_event timed_out_event with_response about_request
  to_target-Settles x = elim (Result-cases x.target_url) [
    | inr (error, e) ↦ rw e (refl, refl, refl, omega arith)
    | inl (url, e) ↦ rw e (ask-Settles url x.bad_request x.reply)
  ]

  -- Being queued is no outcome.
  Quiet : List Effect → Type 0
  Quiet xs = (answers xs ≡ 0) × (completed xs ≡ 0) × (failures xs ≡ 0) × (asked xs ≡ 0)

  queue_events-Quiet : (p : Pausing) → Quiet (queue_events parse_media_type utf8_valid s id r p)
  unfolding queue_events queued_event about_request Quiet
  queue_events-Quiet p = elim (Bool-cases p.was_paused) [
    | inl e ↦ rw e (refl, refl, refl, refl)
    | inr e ↦ elim (Bool-cases p.queued) [
      | inl f ↦ rw (e, f) (refl, refl, refl, refl)
      | inr f ↦ rw (e, f) (refl, refl, refl, refl)
    ]
  ]

  count-append :
      (f : Effect → Bool) (xs ys : List Effect) → count f (xs ++ ys) ≡ count f xs + count f ys
  count-append f [] ys = omega arith
  count-append f (x ∷ xs) ys = elim (Bool-cases (f x)) [
    | inl e ↦ rw e (omega (arith, count-append f xs ys))
    | inr e ↦ rw e (count-append f xs ys)
  ]

  Quiet-append :
      (success : Bool) (xs ys : List Effect)
      → Quiet xs
      → Settles success ys
      → Settles success (xs ++ ys)
  unfolding Quiet
  Quiet-append success xs ys (a, c, f, n) (a', c', f', n') = (
    count-append is_answer xs ys ∙ omega (arith, a, a'),
    count-append is_completion xs ys ∙ omega (arith, c, c'),
    count-append is_failure xs ys ∙ omega (arith, f, f'),
    omega (arith, count-append is_asking xs ys, n, n'),
  )

  held_back-Settles :
      (x : Exchange) (p : Pausing)
      → Settles
          (elim p.failed [ some error ↦ false | none ↦ reaches x ])
          (behind_pause parse_media_type utf8_valid s id r x (some p))
  unfolding behind_pause ends_with timed_out_event about_request
  held_back-Settles x p =
      Quiet-append _ (queue_events parse_media_type utf8_valid s id r p) _ (queue_events-Quiet p)
        (elim (Option-cases p.failed) [
          | inl fine ↦ rw fine (to_target-Settles x)
          | inr (error, e) ↦ rw e (refl, refl, refl, omega arith)
        ])

-- A request that parses is answered exactly once, and exactly one event tells its outcome: that it
-- completed if it was not behind_pause too long, the target was asked and the response was relayed, and else
-- that it failed. The target is asked at most once.
pub handle_stream-Settles :
    (parse_media_type : Bytes → Option Bytes) (utf8_valid : Bytes → Bool) (s : ClientSettings)
    (x : Exchange) (r : TunnelRequest)
    → x.request ≡ some r
    → Settles (succeeds x) (handle_stream parse_media_type utf8_valid s x)
unfolding handle_stream behind_pause
handle_stream-Settles parse_media_type utf8_valid s x r e = elim (Option-cases x.pausing) [
  | inl free ↦
      rw (e, free, handle_stream) (to_target-Settles parse_media_type utf8_valid s x.id r x)
  | inr (p, f) ↦
      rw (e, f, handle_stream) (held_back-Settles parse_media_type utf8_valid s x.id r x p)
]
