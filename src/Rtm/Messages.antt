-- ===== src/Rtm/Messages.antt =====
-- Reading the messages that come over RTM. The parser of the JSON library is the argument `parse_json`; it
-- gives `none` for a text that it refuses.
use mybot.Rtm.{uid_capacity, rtm_uid_fingerprint, Runtime, IndicatorEvent, Event}
use mybot.Common.{
  ◌&&◌, leb, strip, ltb, is_empty, ◌||◌, not, text_eq, length, codes, ◌>>=◌, if◌then◌else◌, ◌==◌,
  [], ◌∷◌, Bool, List, Text, Option, ℕ, none, some, true, false,
}
use mybot.DeviceCommand.{
  get_string, field_at, command_parse, is_string, Slot, Json, Members, null, boolean, number,
  string, array, object, end, member,
}
use mybot.Presenter.{Indicator, vp_registered, listening, thinking, speaking}

abbrev pub message_max_bytes : ℕ
message_max_bytes = 1024

-- The first member with the name.
unfoldable pub find_member : Text → Members → Option Json
find_member name end = none
find_member name (member none value rest) = find_member name rest
find_member name (member (some key) value rest) =
    let later = find_member name rest in if text_eq key name then some value else later

unfoldable pub json_get_exact_object_item : Option Json → Text → Option Json
json_get_exact_object_item (some (object members)) name = find_member name members
json_get_exact_object_item none name = none
json_get_exact_object_item (some null) name = none
json_get_exact_object_item (some (boolean b)) name = none
json_get_exact_object_item (some (number n)) name = none
json_get_exact_object_item (some (string t)) name = none
json_get_exact_object_item (some (array members)) name = none

abbrev pub boolean_of : Option Json → Option Bool
boolean_of (some (boolean b)) = some b
boolean_of none = none
boolean_of (some null) = none
boolean_of (some (number n)) = none
boolean_of (some (string t)) = none
boolean_of (some (array members)) = none
boolean_of (some (object members)) = none

abbrev pub is_object : Option Json → Bool
is_object (some (object members)) = true
is_object none = false
is_object (some null) = false
is_object (some (boolean b)) = false
is_object (some (number n)) = false
is_object (some (string t)) = false
is_object (some (array members)) = false

unfoldable pub event_indicator : Text → Option Indicator
event_indicator event_type =
    if text_eq event_type (codes "state.listening")
    then some listening
    else if text_eq event_type (codes "state.thinking")
    then some thinking
    else if text_eq event_type (codes "state.speaking")
    then some speaking
    else none

unfoldable pub rtm_data_get_lcd_indicator : Option Json → Option (Indicator × Bool)
rtm_data_get_lcd_indicator root =
    if not (is_object root)
    then none
    else if is_string (json_get_exact_object_item root (codes "object"))
          (codes "message.sal_status")
        && is_string (json_get_exact_object_item root (codes "status"))
            (codes "VP_REGISTER_SUCCESS")
    then some (vp_registered, true)
    else (get_string (json_get_exact_object_item root (codes "event_type")) >>= λ event_type.
        boolean_of (
          json_get_exact_object_item (json_get_exact_object_item root (codes "payload"))
            (codes "value"))
        >>= λ active. event_indicator event_type >>= λ indicator. some (indicator, active))

-- An escaped NUL in the text of a JSON message.
unfoldable pub rtm_json_contains_nul : Text → Bool
rtm_json_contains_nul [] = false
rtm_json_contains_nul (c ∷ []) = false
rtm_json_contains_nul (c ∷ d ∷ cs) =
    let skipped = rtm_json_contains_nul cs in
    let next = rtm_json_contains_nul (d ∷ cs) in
    if not (c == b'\\')
    then next
    else elim (strip (codes "u0000") (d ∷ cs)) [ none ↦ skipped | some rest ↦ true ]

-- One round of the loop over the envelope: an unknown name is passed over, a repeated one refused.
unfoldable pub place_known : Text → Json → List Slot → Option (List Slot)
place_known key value [] = some []
place_known key value ((name, found) ∷ slots) =
    let later = place_known key value slots in
    if text_eq key name
    then elim found [ none ↦ some ((name, some value) ∷ slots) | some old ↦ none ]
    else (later >>= λ rest. some ((name, found) ∷ rest))

unfoldable pub read_envelope : Members → List Slot → Option (List Slot)
read_envelope end slots = some slots
read_envelope (member none value rest) slots = read_envelope rest slots
read_envelope (member (some key) value rest) slots =
    place_known key value slots >>= λ next. read_envelope rest next

abbrev pub envelope_slots : List Slot
envelope_slots = (codes "object", none) ∷ (codes "data_type", none) ∷ (codes "content", none) ∷ []

-- The text of the envelope's content.
unfoldable pub envelope_content : List Slot → Option Text
envelope_content slots =
    if not (is_string (field_at 0 slots) (codes "message.user"))
      || not (is_string (field_at 1 slots) (codes "message"))
    then none
    else (get_string (field_at 2 slots) >>= λ content.
        if is_empty content || rtm_json_contains_nul content then none else some content)

unfoldable pub parse_message_user_content : (Text → Option Json) → Option Json → Option Json
parse_message_user_content parse_json (some (object members)) =
    read_envelope members envelope_slots >>= λ slots.
    envelope_content slots >>= λ content. parse_json content
parse_message_user_content parse_json none = none
parse_message_user_content parse_json (some null) = none
parse_message_user_content parse_json (some (boolean b)) = none
parse_message_user_content parse_json (some (number n)) = none
parse_message_user_content parse_json (some (string t)) = none
parse_message_user_content parse_json (some (array members)) = none

-- What a message puts on the queue of the control thread.
pub data Queued : Type 0 where
  nothing : Queued
  device_command : Event → Queued
  lcd_indicator : IndicatorEvent → Queued

abbrev pub channel_text : Option Text → Text
channel_text none = []
channel_text (some t) = t

-- `allocated` is whether the memory for the event is.
unfoldable pub queue_device_command : Bool → Option Text → Text → Json → ℕ → Queued
queue_device_command allocated channel sender root generation =
    if not allocated then nothing else elim (command_parse (some root)) [
      | none ↦ nothing
      | some command ↦ device_command (record {
        generation = generation;
        sender = sender;
        channel = channel_text channel;
        command = command;
      })
    ]

unfoldable pub queue_lcd_indicator : Text → Text → Indicator → Bool → Queued
queue_lcd_indicator channel rtm_uid indicator active = lcd_indicator (record {
  uid_len = length rtm_uid;
  uid_hash = rtm_uid_fingerprint rtm_uid;
  channel_len = length channel;
  channel_hash = rtm_uid_fingerprint channel;
  indicator = indicator;
  active = active;
})

-- `memchr(data, 0, len)`
abbrev pub contains_zero : Text → Bool
contains_zero [] = false
contains_zero (c ∷ cs) = c == 0 || contains_zero cs

unfoldable pub find_indicator : Option Text → Text → Option Json → Queued
find_indicator none sender root = nothing
find_indicator (some channel) sender root = elim (rtm_data_get_lcd_indicator root) [
  | none ↦ nothing
  | some found ↦ queue_lcd_indicator channel sender found.0 found.1
]

-- The choice between a command and an indicator.
unfoldable pub dispatch :
    (Text → Option Json) → Bool → Option Text → Text → Option Json → Runtime → Queued
dispatch parse_json allocated channel sender root r =
    if is_string (json_get_exact_object_item root (codes "object")) (codes "message.user")
    then elim (parse_message_user_content parse_json root) [
      | none ↦ nothing
      | some content ↦
          queue_device_command allocated channel sender content r.conversation_generation
    ]
    else find_indicator channel sender root

-- `copied` is whether the memory for the copy of the message is allocated.
unfoldable pub process_application_rtm_data :
    (Text → Option Json) → Bool → Bool → Option Text → Text → Text → Runtime → Queued
process_application_rtm_data parse_json copied allocated channel sender bytes r =
    if length bytes == 0
      || ltb message_max_bytes (length bytes)
      || contains_zero bytes
      || not copied
    then nothing
    else dispatch parse_json allocated channel sender
        (if rtm_json_contains_nul bytes then none else parse_json bytes) r

-- A private message; `none` is a missing sender.
unfoldable pub rtc_on_rtm_data :
    (Text → Option Json) → Bool → Bool → Option Text → Text → Runtime → Queued
rtc_on_rtm_data parse_json copied allocated none bytes r = nothing
rtc_on_rtm_data parse_json copied allocated (some uid) bytes r =
    if not r.running || leb uid_capacity (length uid)
    then nothing
    else process_application_rtm_data parse_json copied allocated none uid bytes r

-- A message of a channel.
unfoldable pub rtc_on_rtm_subscribe_data :
    (Text → Option Json) → Bool → Bool → Text → Option Text → Text → Runtime → Queued
rtc_on_rtm_subscribe_data parse_json copied allocated channel none bytes r = nothing
rtc_on_rtm_subscribe_data parse_json copied allocated channel (some uid) bytes r =
    if not r.running
      || is_empty channel
      || leb 128 (length channel)
      || leb uid_capacity (length uid)
    then nothing
    else process_application_rtm_data parse_json copied allocated (some channel) uid bytes r
