-- ===== src/Rtm/Events.antt =====
-- Keys, and what the RTC adapter and the lifecycle report. The media pipeline, the presenter and the word
-- of the state model change at once; a request to the lifecycle is put on a list.
use mybot.Announce.{Sound}
use mybot.Media.Volume
use mybot.StateModel.{AppState, DeviceState, get_view, set_device_state, device_code}
use mybot.Rtm.{notify_ended, runtime_in_conversation, Runtime, Request}
use mybot.Presenter.{show_pair_code, render_state}
use mybot.Media.Session.{play_prompt, stop_prompt, push_remote_audio, set_rtc_connected}
use mybot.Common.{
  ◌==◌, ℤ, not, ◌∷◌, ◌&&◌, Text, ◌||◌, if◌then◌else◌, Option, List, Bool, ℕ, some, true, false, pos,
  negsuc,
}

abbrev pub is_ready : AppState → Bool
is_ready AppState.ready = true
is_ready AppState.in_conversation = false
is_ready AppState.stopped = false
is_ready AppState.wifi_provisioning = false
is_ready AppState.starting_services = false
is_ready AppState.wifi_disconnected = false
is_ready AppState.failed = false
is_ready AppState.stopping = false
is_ready AppState.pairing = false

-- Whether a pair code may not be shown any more.
abbrev pub is_closing : AppState → Bool
is_closing AppState.stopping = true
is_closing AppState.failed = true
is_closing AppState.wifi_disconnected = true
is_closing AppState.ready = false
is_closing AppState.in_conversation = false
is_closing AppState.stopped = false
is_closing AppState.wifi_provisioning = false
is_closing AppState.starting_services = false
is_closing AppState.pairing = false

unfoldable pub runtime_get_state : Runtime → AppState
runtime_get_state r = (get_view r.state_word).app_state

unfoldable pub control_start_conversation : Runtime → Runtime
control_start_conversation r =
    if is_ready (runtime_get_state r) then record r { requests = Request.start ∷ r.requests } else r

unfoldable pub control_stop_conversation : Runtime → Runtime
control_stop_conversation r =
    if runtime_in_conversation r then record r { requests = Request.stop ∷ r.requests } else r

unfoldable pub control_pair : Runtime → Runtime
control_pair r =
    if is_ready (runtime_get_state r) || runtime_in_conversation r
    then record r { requests = Request.pair ∷ r.requests }
    else r

unfoldable pub handle_start_conversation : Runtime → Runtime
handle_start_conversation r = if r.running then control_start_conversation r else r

-- `mybot_key_event_t`
pub data KeyEvent : Type 0 where
  conversation_start conversation_stop pair_key volume_up volume_down exit_key : KeyEvent

-- `taken` and `reported` are what the volume implementation answers.
unfoldable pub key_action : Bool → Option ℤ → KeyEvent → Runtime → Runtime
key_action taken reported conversation_start r = control_start_conversation r
key_action taken reported conversation_stop r = control_stop_conversation r
key_action taken reported pair_key r = control_pair r
key_action taken reported volume_up r = record r {
  media = (Volume.adjust_volume taken reported (pos 10) r.media).1;
}
key_action taken reported volume_down r = record r {
  media = (Volume.adjust_volume taken reported (negsuc 9) r.media).1;
}
key_action taken reported exit_key r = r

unfoldable pub handle_key_event : Bool → Option ℤ → KeyEvent → Runtime → Runtime
handle_key_event taken reported event r =
    if not r.running then r else key_action taken reported event r

abbrev pub publish_exit : Runtime → Runtime
publish_exit r = record r { running = false }

-- Whether the state lets the key through.
unfoldable pub key_allowed : KeyEvent → Runtime → Bool
key_allowed conversation_start r = is_ready (runtime_get_state r)
key_allowed conversation_stop r = runtime_in_conversation r
key_allowed pair_key r = is_ready (runtime_get_state r) || runtime_in_conversation r
key_allowed volume_up r = true
key_allowed volume_down r = true
key_allowed exit_key r = true

abbrev pub is_exit : KeyEvent → Bool
is_exit exit_key = true
is_exit conversation_start = false
is_exit conversation_stop = false
is_exit pair_key = false
is_exit volume_up = false
is_exit volume_down = false

-- Whether the event is queued for `handle_key_event`; `taken` is whether the queue takes it.
unfoldable pub on_key_event : Bool → KeyEvent → Runtime → Bool × Runtime
on_key_event taken event r =
    if is_exit event
    then (false, publish_exit r)
    else if not r.running || not (key_allowed event r)
    then (false, r)
    else if taken
    then (true, r)
    else (false, publish_exit r)

unfoldable pub dev_on_pair_code : (ℕ → Sound → Option ℕ) → Text → Runtime → Runtime
dev_on_pair_code open_sound code r =
    if not r.running || is_closing (runtime_get_state r) then r else record r {
      presenter = show_pair_code (some code) r.presenter;
      media = (play_prompt open_sound (some code) r.media).1;
    }

-- The device state is its code.
unfoldable pub dev_on_state_changed : ℕ → Runtime → Runtime
dev_on_state_changed d r =
    if not r.running
    then r
    else (let word = (set_device_state d r.state_word).0 in
        record r {
          state_word = word;
          media =
              if d == device_code DeviceState.awaiting_claim then r.media else stop_prompt r.media;
          presenter = render_state word r.presenter;
        })

unfoldable pub rtc_on_remote_audio : List ℕ → Runtime → Runtime
rtc_on_remote_audio bytes r = record r { media = push_remote_audio bytes r.media }

-- `mybot_rtc_state_t`
pub data RtcState : Type 0 where
  rtc_idle rtc_initialized rtc_connecting rtc_connected rtc_reconnecting rtc_disconnected
        rtc_error :
      RtcState

abbrev pub is_connected : RtcState → Bool
is_connected rtc_connected = true
is_connected rtc_idle = false
is_connected rtc_initialized = false
is_connected rtc_connecting = false
is_connected rtc_reconnecting = false
is_connected rtc_disconnected = false
is_connected rtc_error = false

abbrev pub is_over : RtcState → Bool
is_over rtc_disconnected = true
is_over rtc_error = true
is_over rtc_idle = false
is_over rtc_initialized = false
is_over rtc_connecting = false
is_over rtc_connected = false
is_over rtc_reconnecting = false

-- Without the start of the video source.
unfoldable pub rtc_on_state_changed : RtcState → Runtime → Runtime
rtc_on_state_changed s r =
    let q = record r { media = set_rtc_connected (is_connected s) r.media } in
    if is_over s then notify_ended q else q

-- `mybot_rtm_event_type_t`; the flag of a login is whether it failed.
pub data RtmEvent : Type 0 where
  login : Bool → RtmEvent
  kickoff exited : RtmEvent

unfoldable pub rtc_on_rtm_event : RtmEvent → Runtime → Runtime
rtc_on_rtm_event (login failed) r = if failed then notify_ended r else r
rtc_on_rtm_event kickoff r = notify_ended r
rtc_on_rtm_event exited r = notify_ended r

unfoldable pub rtc_on_rtm_subscribe_result : Bool → Runtime → Runtime
rtc_on_rtm_subscribe_result failed r = if r.running && failed then notify_ended r else r

unfoldable pub rtc_on_token_will_expire : Runtime → Runtime
rtc_on_token_will_expire r =
    if r.running then record r { requests = Request.token_renewal ∷ r.requests } else r
