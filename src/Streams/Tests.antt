-- ===== src/Streams/Tests.antt =====
-- The resume ids and the waiting requests on concrete inputs.
use clawclub_server.Errors.{ErrorCode}
use clawclub_server.Common.{
  ℕ, ◌<◌, ◌≡◌, refl, sym, ap, ◌∙◌, ◌⊎◌, inl, true, false, not, ◌↔◌, Bool, Option, none, some, List,
  [], ◌∷◌, ◌++◌, map, arith, ltb, ◌==◌, if◌then◌else◌, count_by, filter, All, err, Text, text_eq,
  codes, AllOf, strip_prefix, span, digits, print_decimal, is_digit, value_from, is_canonical,
  append_assoc, append-nil,
}
use clawclub_server.Streams.Cursors.{
  StreamResumeCursor, match_decimal, compose_stream_resume_id, latest, CursorCodec,
  parse_stream_resume_id, parse_required_stream_resume_id, encode_legacy_activity_cursor,
}
use clawclub_server.Streams.Notifier.{
  Waiter, StreamWakeupCause, go_on, falls_asleep, finish_waiter, finish_each, reject_waiters,
  NotifierOptions, Notifier, notifier_options, WakeupFields, ChannelMessage, handle_notification,
}
use clawclub_server.Streams.Notifier.NotifierState.{closed, fallback}
use clawclub_server.Streams.Notifier.WaitOutcome.{notified}
use clawclub_server.Streams.Lifecycle.{
  reconnect_delay, connect_listener, client_connected, WaitInput, wait_for_update, close_notifier,
  create_notifier, Run, begin_sleep, reconnect_due, handle_client_error, enter_fallback,
  schedule_reconnect,
}
use clawclub_server.Streams.Lifecycle.Step.{client_connects, request_waits}
use clawclub_server.Streams.Lifecycle.Run.{here, next}
use clawclub_server.Streams.Waiting.{occurs, Run-occurs}
use clawclub_server.Streams.Messages.{HasFields, IsAbout, IsCause, handle_notification_wakes}
use clawclub_server.Streams.Waking.{answers}
use clawclub_server.Streams.Connection.{RecoversNow}
use clawclub_server.Streams.Recovery.{Run-Recovers}
use clawclub_server.Streams.Closing.{timers_fire, close_notifier-Settled}
use clawclub_server.Streams.Resume.{
  IsSafe, IsComposite, ReadsBack, parse_stream_resume_id-compose_stream_resume_id,
  parse_stream_resume_id-eq-some, parse_stream_resume_id-encode_legacy_activity_cursor,
}

-- A codec for arrays of texts: `W`, then each text between a `(` and a `)`.
unfoldable encode_texts : List Text → Text
encode_texts [] = []
encode_texts (s ∷ parts) = codes "(" ++ (s ++ (codes ")" ++ encode_texts parts))

-- The texts of what follows the `W`; `part` is what was read of the current one.
unfoldable decode_texts : (part : Text) (text : Text) → List (Option Text)
decode_texts part [] = []
decode_texts part (c ∷ text) = elim (c == 40) [
  | true ↦ decode_texts [] text
  | false ↦ elim (c == 41) [
    | true ↦ some part ∷ decode_texts [] text
    | false ↦ decode_texts (part ++ c ∷ []) text
  ]
]

abbrev from_texts : Text → Option (List (Option Text))
from_texts [] = none
from_texts (c ∷ text) = some (decode_texts [] text)

abbrev one_text : CursorCodec
one_text = record { to_cursor = λ parts. codes "W" ++ encode_texts parts; from_cursor = from_texts }

composed_id : compose_stream_resume_id (some 120) none ≡ codes "a120:i0"
unfolding compose_stream_resume_id print_decimal digits
composed_id = refl

decode_digit :
    (part : Text) (c : ℕ) (text : Text)
    → is_digit c ≡ true
    → decode_texts part (c ∷ text) ≡ decode_texts (part ++ c ∷ []) text
unfolding decode_texts is_digit
decode_digit part c text h = ground arith

decode_part :
    (part s rest : Text)
    → AllOf is_digit s
    → decode_texts part (s ++ (codes ")" ++ rest)) ≡ some (part ++ s) ∷ decode_texts [] rest
unfolding decode_texts is_digit
decode_part part [] rest h =
    ap (λ (p : Text). some p ∷ decode_texts [] rest) (sym (append-nil part))
decode_part part (c ∷ s) rest (h, hs) =
    decode_digit part c (s ++ (codes ")" ++ rest)) h
    ∙ decode_part (part ++ c ∷ []) s rest hs
    ∙ ap (λ (p : Text). some p ∷ decode_texts [] rest) (append_assoc part (c ∷ []) s)

decode-encode :
    (parts : List Text)
    → All (AllOf is_digit) parts
    → decode_texts [] (encode_texts parts) ≡ map some parts
unfolding decode_texts encode_texts
decode-encode [] h = refl
decode-encode (s ∷ parts) (h, hs) =
    decode_part [] s (encode_texts parts) h ∙ ap (λ r. some s ∷ r) (decode-encode parts hs)

one_text-ReadsBack : ReadsBack one_text
one_text-ReadsBack = record {
  from_cursor-to_cursor = λ parts h. ap some (decode-encode parts h);
  to_cursor_start = λ parts. (encode_texts parts, refl);
}

parse_stream_resume_id-compose_stream_resume_id_example :
    parse_stream_resume_id one_text (some (compose_stream_resume_id (some 120) none)) true
    ≡ some (record { activity_seq = some 120; inbox_seq = some 0 })
unfolding IsSafe
parse_stream_resume_id-compose_stream_resume_id_example =
    parse_stream_resume_id-compose_stream_resume_id one_text (some 120) none true (omega arith) tt

read_example :
    parse_stream_resume_id one_text (some (codes "a120:i7")) false
    ≡ some (record { activity_seq = some 120; inbox_seq = some 7 })
unfolding parse_stream_resume_id match_decimal span is_digit is_canonical strip_prefix value_from
    text_eq
read_example = refl

parse_stream_resume_id-eq-some_example :
    ((codes "a120:i7" ≡ codes "latest")
      × (◌≡◌ {A = StreamResumeCursor}
          (record { activity_seq = some 120; inbox_seq = some 7 })
          latest))
    ⊎ IsComposite (codes "a120:i7") (record { activity_seq = some 120; inbox_seq = some 7 })
parse_stream_resume_id-eq-some_example =
    parse_stream_resume_id-eq-some one_text (codes "a120:i7")
      (record { activity_seq = some 120; inbox_seq = some 7 }) read_example

-- Leading zeros and a number that is not safe are refused.
padded_id : parse_stream_resume_id one_text (some (codes "a01:i0")) false ≡ none
unfolding parse_stream_resume_id match_decimal span is_digit is_canonical strip_prefix value_from
    text_eq
padded_id = refl

unsafe_id :
    parse_required_stream_resume_id one_text (codes "9007199254740992")
    ≡ err ErrorCode.invalid_input
unfolding parse_required_stream_resume_id match_decimal span is_digit is_canonical strip_prefix
    value_from text_eq
unsafe_id = refl

parse_stream_resume_id-encode_legacy_activity_cursor_example :
    (cursor : Text) × (encode_legacy_activity_cursor one_text (some 42) ≡ some cursor)
    × (parse_stream_resume_id one_text (some cursor) true
        ≡ some (record { activity_seq = some 42; inbox_seq = none }))
parse_stream_resume_id-encode_legacy_activity_cursor_example =
    parse_stream_resume_id-encode_legacy_activity_cursor one_text one_text-ReadsBack 42
      (omega arith)

-- A notifier that listens, with two requests that wait.
abbrev defaults : NotifierOptions
defaults = notifier_options none none

abbrev fields_of : Text → Option WakeupFields
fields_of text = some (record { kind = none; club_id = some text; recipient_member_id = none })

abbrev first_request : WaitInput
first_request = record {
  recipient_member_id = codes "m1";
  club_ids = codes "c1" ∷ [];
  after_stream_seq = none;
  signal_aborted = false;
}

abbrev second_request : WaitInput
second_request = record {
  recipient_member_id = codes "m2";
  club_ids = codes "c2" ∷ [];
  after_stream_seq = none;
  signal_aborted = false;
}

abbrev two_wait : Notifier
two_wait =
    wait_for_update second_request
      (wait_for_update first_request (client_connected 0 create_notifier))

two_wait-Run : Run defaults fields_of create_notifier two_wait
unfolding create_notifier connect_listener
two_wait-Run =
    next (next (next here (client_connects 0 refl)) (request_waits first_request))
      (request_waits second_request)

Run-occurs_example : occurs 1 two_wait ≡ (if ltb 1 two_wait.next_id then 1 else 0)
Run-occurs_example = Run-occurs two_wait-Run 1

Run-Recovers_example : RecoversNow two_wait
unfolding create_notifier connect_listener two_wait-Run
Run-Recovers_example = Run-Recovers two_wait-Run ((((tt, inl refl), tt), tt))

-- A client that reports an error while it connects, and then listens all the same: the timer has fired
-- in between, and found the attempt under way. There is nothing left that would connect.
abbrev stuck : Notifier
stuck = client_connected 0 (reconnect_due (handle_client_error defaults 0 create_notifier))

nothing_connects :
    (stuck.state ≡ fallback) × (stuck.connect_promise ≡ none) × (stuck.reconnect_timer ≡ none)
unfolding client_connected reconnect_due connect_listener handle_client_error enter_fallback
    schedule_reconnect reject_waiters finish_each create_notifier
nothing_connects = (refl, refl, refl)

abbrev club_message : ChannelMessage
club_message = record { channel = codes "stream"; payload = some (codes "c2") }

abbrev club_fields : WakeupFields
club_fields = record { kind = none; club_id = some (codes "c2"); recipient_member_id = none }

handle_notification_wakes_example :
    let after_it = handle_notification fields_of club_message two_wait in
    (wakes : Waiter → Bool) × (cause : Option StreamWakeupCause) × ((w : Waiter)
      → (wakes w ≡ true) ↔ IsAbout club_fields w)
    × IsCause club_fields cause
    × (after_it.waiters ≡ filter (λ w. not (wakes w)) two_wait.waiters)
    × (after_it.settled ≡ answers wakes (notified cause) two_wait.waiters ++ two_wait.settled)
unfolding HasFields
handle_notification_wakes_example =
    handle_notification_wakes two_wait-Run club_message club_fields refl
      (inl (99, 50 ∷ [], refl, refl))

-- The message of the second club wakes the second request.
one_waits : map (λ w. w.id) (handle_notification fields_of club_message two_wait).waiters ≡ 0 ∷ []
unfolding handle_notification wait_for_update client_connected create_notifier connect_listener
    text_eq
one_waits = refl

abbrev late_request : Notifier
late_request = wait_for_update first_request (close_notifier two_wait)

-- The two that waited sleep, and so does the late one.
three_sleep : late_request.sleepers ≡ 0 ∷ 1 ∷ 2 ∷ []
unfolding wait_for_update close_notifier reject_waiters finish_each finish_waiter go_on falls_asleep
    client_connected create_notifier connect_listener begin_sleep
three_sleep = refl

close_notifier-Settled_example :
    let later = timers_fire late_request.sleepers late_request in
    (late_request.state ≡ closed)
    × (late_request.waiters ≡ [])
    × Run defaults fields_of late_request later
    × (later.next_id ≡ late_request.next_id)
    × ((id : ℕ) → id < late_request.next_id → count_by (λ s. s.0 == id) later.settled ≡ 1)
close_notifier-Settled_example =
    close_notifier-Settled two_wait-Run (next here (request_waits first_request))

delays :
    map (reconnect_delay defaults) (0 ∷ 1 ∷ 4 ∷ 5 ∷ 30 ∷ []) ≡ 250 ∷ 500 ∷ 4000 ∷ 5000 ∷ 5000 ∷ []
unfolding reconnect_delay notifier_options
delays = refl
