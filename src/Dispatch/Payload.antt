-- ===== src/Dispatch/Payload.antt =====
-- src/dispatch.ts: what the pipeline reads of a payload. A payload is the list of its own properties.
use clawclub_server.Common.{
  String, Option, none, some, List, if◌then◌else◌, find, Text, trim, is_visible_text,
}
use mathlib.Core.Option
use text.Mathlib.Text.{◌==◌ as str_eq}

-- `str` is a string; `other` is any other JSON value.
pub data RawValue : Type 0 where
  str : Text → RawValue
  other : RawValue

abbrev pub Payload : Type 0
Payload = List (String × RawValue)

unfoldable pub property : Payload → String → Option RawValue
property payload key = Option.map (λ p. p.1) (find (λ p. str_eq p.0 key) payload)

abbrev visible : Option RawValue → Option Text
visible (some (str s)) = if is_visible_text s then some s else none
visible _ = none

-- The value as it stands, if it is a string that is not blank.
unfoldable pub read_raw_string : Payload → String → Option Text
unfolding property
read_raw_string payload key = visible (property payload key)

-- `payload.clubId`, trimmed.
unfoldable pub extract_requested_club_id : Payload → Option Text
unfolding read_raw_string
extract_requested_club_id payload = Option.map trim (read_raw_string payload "clubId")

-- A reply in a thread is gated for the club of the thread.
unfoldable pub extract_requested_club_id_for_gate : String → Payload → Option Text
unfolding read_raw_string
extract_requested_club_id_for_gate action payload =
    if str_eq action "content.create"
    then elim (read_raw_string payload "threadId") [
      | none ↦ extract_requested_club_id payload
      | some thread ↦ none
    ]
    else extract_requested_club_id payload
