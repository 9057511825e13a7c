-- ===== src/Rtm/Tests.antt =====
-- A command that arrives in a conversation, twice.
use mybot.Rtm.Queueing.{queued-FromContent, FromContent}
use mybot.Rtm.{history_size, Event, Runtime}
use mybot.Presenter.{no_indicators, Presenter}
use mybot.Common.{
  ◌≤◌, length, text_eq, replicate, ◌<◌, refl, ◌∷◌, if◌then◌else◌, ◌≡◌, codes, arith, Option, [],
  List, Text, none, some, true, false,
}
use mybot.DeviceCommand.{field_at, is_string, Json, string, object, end, member}
use mybot.DeviceCommand.Tests.{louder, louder_members, louder_parsed}
use mybot.Rtm.Messages.{
  queue_device_command, envelope_content, place_known, read_envelope, contains_zero,
  parse_message_user_content, message_max_bytes, find_member, json_get_exact_object_item,
  rtm_json_contains_nul, dispatch, process_application_rtm_data, device_command,
}
use mybot.Rtm.History.{Step, run-Once, run, command, start, others}
use mybot.Rtm.Once.{Once, Spaced}
use mybot.Media.{pipeline_init}

abbrev silent_screen : Presenter
silent_screen = record {
  lcd_active = false;
  active = false;
  indicators = no_indicators;
  shown = [];
}

abbrev idle : Runtime
idle = record {
  running = true;
  state_word = 75;
  stop_request = false;
  conversation_id = [];
  conversation_generation = 0;
  command_history = replicate history_size [];
  command_history_next = 0;
  rtc_channel = [];
  rtc_agent_uid = [];
  media = pipeline_init (record { ptime_ms = 20; cloud_aec = false });
  presenter = silent_screen;
  executed = [];
  ended = 0;
  requests = [];
}

idle-Once : Once idle
unfolding Spaced
idle-Once = record {
  remembered = record { entries = refl; next = omega arith; last_ids = refl };
  spaced = tt;
}

abbrev event : Event
event = record { generation = 1; sender = codes "agent"; channel = []; command = louder }

abbrev steps : List Step
steps =
    start (record { ptime_ms = 20; cloud_aec = false })
      (record { on_capture = true; on_playback = true; on_send = true }) true true
      (some (record { channel = codes "room"; agent_uid = codes "agent" }))
    ∷ others true 75 false (codes "c-9")
        (pipeline_init (record { ptime_ms = 20; cloud_aec = false })) silent_screen
    ∷ command true none event
    ∷ command true none event
    ∷ []

run-Once_example : Once (run steps idle)
run-Once_example = run-Once steps idle idle-Once

abbrev outer_text : Text
outer_text = codes "{outer}"

abbrev inner_text : Text
inner_text = codes "{inner}"

abbrev outer_json : Json
outer_json = object (
    member (some (codes "data_type")) (string (codes "message")) (
      member (some (codes "object")) (string (codes "message.user"))
        (member (some (codes "content")) (string inner_text) end)))

abbrev parse_json : Text → Option Json
parse_json t =
    if text_eq t outer_text
    then some outer_json
    else if text_eq t inner_text
    then some (object louder_members)
    else none

arrived :
    process_application_rtm_data parse_json true true none
      (codes "agent")
      outer_text
      (record idle { conversation_generation = 1 })
    ≡ device_command event
unfolding process_application_rtm_data dispatch rtm_json_contains_nul json_get_exact_object_item
    find_member is_string parse_message_user_content read_envelope place_known envelope_content
    field_at queue_device_command text_eq
arrived = rw louder_parsed refl

queued-FromContent_example :
    FromContent parse_json outer_text none
      (codes "agent")
      (record idle { conversation_generation = 1 })
      event
    × (0 < length outer_text)
    × (length outer_text ≤ message_max_bytes)
    × (contains_zero outer_text ≡ false)
queued-FromContent_example =
    queued-FromContent parse_json true true none (codes "agent") outer_text
      (record idle { conversation_generation = 1 }) event arrived
