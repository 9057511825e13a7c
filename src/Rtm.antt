-- ===== src/Rtm.antt =====
-- src/core/mybot_app.c: the messages of a conversation, on the control thread. What the lifecycle and
-- the state model hold is copied into the record, and a step `others` changes it.
pub mod Messages
pub mod Events
pub mod Envelope
pub mod Queueing
pub mod Entries
pub mod Once
pub mod History
mod Tests
use mybot.Media.Session.{end_session, flush_session, Calls}
use mybot.StateModel.{get_view, AppState}
use mybot.Media.{Pipeline, Build}
use mybot.Common.{
  is_empty, copy_text, zero, ◌||◌, ◌^◌, ◌==◌, text_eq, ◌*◌, [], length, ℤ, ◌%◌, List, not,
  replicate, ◌∷◌, Option, ◌&&◌, inc64, ◌+◌, Bool, Text, if◌then◌else◌, none, some, true, false,
}
use Prim.Native.Nat.{suc, ℕ, bit_xor}
use mybot.Media.Volume
use mybot.DeviceCommand.{DeviceCommand, set_volume, adjust_volume}
use mybot.Presenter.{
  update_server_indicator, render_state, set_vp_registered, show_screen, clear_server_indicators,
  Presenter, Indicator, in_conversation, vp_registered, listening, thinking, speaking, other,
}

abbrev pub history_size : ℕ
history_size = 16

abbrev pub uid_capacity : ℕ
uid_capacity = 64

-- What is asked of the lifecycle.
pub data Request : Type 0 where
  start stop pair token_renewal : Request

-- The fields of `mybot_runtime_t` that the handlers use. `running` is `runtime_is_running`, `state_word` the
-- word of the state model, `stop_request` and `conversation_id` are the lifecycle's. `executed` are the
-- commands since the history was last cleared, newest first, and `ended` counts the notices to the
-- lifecycle that the conversation has ended; `requests` are the requests to it, newest first.
pub record Runtime : Type 0 where
  pub running : Bool
  pub state_word : ℕ
  pub stop_request : Bool
  pub conversation_id : Text
  pub conversation_generation : ℕ
  pub command_history : List Text
  pub command_history_next : ℕ
  pub rtc_channel : Text
  pub rtc_agent_uid : Text
  pub media : Pipeline
  pub presenter : Presenter
  pub executed : List DeviceCommand
  pub ended : ℕ
  pub requests : List Request

-- `device_command_event_t`; the channel of a private message is empty.
pub record Event : Type 0 where
  pub generation : ℕ
  pub sender : Text
  pub channel : Text
  pub command : DeviceCommand

abbrev pub is_in_conversation : AppState → Bool
is_in_conversation AppState.in_conversation = true
is_in_conversation AppState.stopped = false
is_in_conversation AppState.wifi_provisioning = false
is_in_conversation AppState.starting_services = false
is_in_conversation AppState.ready = false
is_in_conversation AppState.wifi_disconnected = false
is_in_conversation AppState.failed = false
is_in_conversation AppState.stopping = false
is_in_conversation AppState.pairing = false

unfoldable pub runtime_in_conversation : Runtime → Bool
runtime_in_conversation r = is_in_conversation (get_view r.state_word).app_state

-- `memcpy` into one entry of the array.
unfoldable pub set_entry : ℕ → Text → List Text → List Text
set_entry n t [] = []
set_entry zero t (h ∷ hs) = t ∷ hs
set_entry (suc n) t (h ∷ hs) = h ∷ set_entry n t hs

unfoldable pub in_history : Text → List Text → Bool
in_history id [] = false
in_history id (h ∷ hs) = text_eq h id || in_history id hs

unfoldable pub remember_command : DeviceCommand → Runtime → Bool × Runtime
remember_command command r =
    if in_history command.command_id r.command_history then (false, r) else (
      true,
      record r {
        command_history = set_entry r.command_history_next command.command_id r.command_history;
        command_history_next = (r.command_history_next + 1) % history_size;
      },
    )

unfoldable pub command_accepted : Event → Runtime → Bool
command_accepted event r =
    r.running
    && (event.generation == r.conversation_generation)
    && runtime_in_conversation r
    && not r.stop_request
    && text_eq event.sender r.rtc_agent_uid
    && (is_empty event.channel || text_eq event.channel r.rtc_channel)
    && text_eq event.command.conversation_id r.conversation_id

-- `taken` and `reported` are what the volume implementation answers.
unfoldable pub execute_command : Bool → Option ℤ → DeviceCommand → Pipeline → Pipeline
execute_command taken reported command media = elim command.type_of [
  | set_volume ↦ (Volume.set_volume taken command.value media).1
  | adjust_volume ↦ (Volume.adjust_volume taken reported command.value media).1
]

unfoldable pub handle_device_command : Bool → Option ℤ → Event → Runtime → Runtime
handle_device_command taken reported event r =
    if not (command_accepted event r)
    then r
    else (let (fresh, q) = remember_command event.command r in
        if not fresh then q else record q {
          media = execute_command taken reported event.command q.media;
          executed = event.command ∷ q.executed;
        })

-- FNV-1a on 32 bits.
unfoldable pub fingerprint_from : ℕ → Text → ℕ
fingerprint_from fingerprint [] = fingerprint
fingerprint_from fingerprint (c ∷ cs) =
    fingerprint_from (bit_xor fingerprint c * 16777619 % 2 ^ 32) cs

unfoldable pub rtm_uid_fingerprint : Text → ℕ
rtm_uid_fingerprint t = fingerprint_from 2166136261 t

-- The arguments of a queued indicator.
pub record IndicatorEvent : Type 0 where
  pub uid_len : ℕ
  pub uid_hash : ℕ
  pub channel_len : ℕ
  pub channel_hash : ℕ
  pub indicator : Indicator
  pub active : Bool

unfoldable pub indicator_accepted : IndicatorEvent → Runtime → Bool
indicator_accepted event r =
    r.running
    && runtime_in_conversation r
    && (length r.rtc_agent_uid == event.uid_len)
    && (rtm_uid_fingerprint r.rtc_agent_uid == event.uid_hash)
    && (length r.rtc_channel == event.channel_len)
    && (rtm_uid_fingerprint r.rtc_channel == event.channel_hash)

abbrev pub is_vp : Indicator → Bool
is_vp vp_registered = true
is_vp listening = false
is_vp thinking = false
is_vp speaking = false
is_vp other = false

unfoldable pub handle_lcd_indicator : IndicatorEvent → Runtime → Runtime
handle_lcd_indicator event r = if not (indicator_accepted event r) then r else record r {
  presenter = show_screen in_conversation (
      if is_vp event.indicator
      then set_vp_registered event.active r.presenter
      else update_server_indicator event.indicator event.active r.presenter);
}

-- The channel and the agent of `mybot_device_conversation_t`.
pub record Peer : Type 0 where
  pub channel : Text
  pub agent_uid : Text

unfoldable pub notify_ended : Runtime → Runtime
notify_ended r = record r { ended = r.ended + 1 }

unfoldable pub forget_indicators : Presenter → Presenter
forget_indicators p = clear_server_indicators (set_vp_registered false p)

unfoldable pub clear_history : Runtime → Runtime
clear_history r = record r {
  conversation_generation = inc64 r.conversation_generation;
  command_history = replicate history_size [];
  command_history_next = 0;
  executed = [];
}

-- `initialized` and `joined` are what the RTC adapter answers.
unfoldable pub dev_on_conversation_start :
    Build → Calls → Bool → Bool → Option Peer → Runtime → Runtime
dev_on_conversation_start b calls initialized joined params r =
    if not r.running
    then notify_ended r
    else (let (flushed, media') = flush_session b calls r.media in
        let q = record r { media = media' } in
        if not flushed then notify_ended q else elim params [
          | none ↦ notify_ended q
          | some c ↦
              let started = record (clear_history q) {
                rtc_channel = copy_text 128 c.channel;
                rtc_agent_uid = copy_text uid_capacity c.agent_uid;
                presenter = forget_indicators q.presenter;
              } in
              if is_empty c.agent_uid
              then notify_ended q
              else if not initialized || not joined
              then notify_ended started
              else started
        ])

-- Without the leave of the RTC adapter, whose answer is only logged.
unfoldable pub dev_on_conversation_stop : Build → Calls → Runtime → Runtime
dev_on_conversation_stop b calls r = record (clear_history r) {
  rtc_channel = [];
  rtc_agent_uid = [];
  presenter = render_state r.state_word (forget_indicators r.presenter);
  media = (end_session b calls r.media).1;
}
