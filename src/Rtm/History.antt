-- ===== src/Rtm/History.antt =====
-- A command is executed once.
-- What happens: a command, an indicator, the start and the stop of a conversation, keys, the reports of the
-- RTC adapter and the lifecycle, and what other components do in between.
use mybot.Presenter.{Presenter}
use mybot.Announce.{Sound}
use mybot.Media.{Pipeline, Build}
use mybot.Rtm.Once.{handle_device_command-Once, kept_Once, Once, Spaced}
use mybot.Common.{
  ◌&&◌, [], none, is_empty, Text, some, ℕ, ◌||◌, refl, not, if-keep, arith, ℤ, ◌∷◌, Option, Bool,
  List,
}
use mybot.Rtm.Events.{
  exited, kickoff, login, is_over, exit_key, is_closing, volume_down, volume_up, RtmEvent,
  rtc_on_token_will_expire, RtcState, pair_key, conversation_stop, rtc_on_rtm_subscribe_result,
  rtc_on_rtm_event, key_allowed, conversation_start, rtc_on_state_changed, rtc_on_remote_audio,
  runtime_get_state, is_exit, is_ready, dev_on_state_changed, control_pair, dev_on_pair_code,
  control_stop_conversation, handle_start_conversation, KeyEvent, key_action, handle_key_event,
  control_start_conversation, on_key_event,
}
use mybot.Rtm.{
  flush_session, Peer, indicator_accepted, runtime_in_conversation, Calls, Event, IndicatorEvent,
  handle_device_command, notify_ended, dev_on_conversation_start, clear_history,
  dev_on_conversation_stop, handle_lcd_indicator, Runtime,
}

pub data Step : Type 0 where
  command : Bool → Option ℤ → Event → Step
  indicator : IndicatorEvent → Step
  start : Build → Calls → Bool → Bool → Option Peer → Step
  stop : Build → Calls → Step
  key_pressed : Bool → KeyEvent → Step
  key : Bool → Option ℤ → KeyEvent → Step
  wake : Step
  pair_code : (ℕ → Sound → Option ℕ) → Text → Step
  device_state : ℕ → Step
  remote_audio : List ℕ → Step
  rtc_state : RtcState → Step
  rtm_event : RtmEvent → Step
  subscribed : Bool → Step
  token_expires : Step
  others : Bool → ℕ → Bool → Text → Pipeline → Presenter → Step

unfoldable pub step : Step → Runtime → Runtime
step (command taken reported event) r = handle_device_command taken reported event r
step (indicator event) r = handle_lcd_indicator event r
step (start b calls initialized joined params) r =
    dev_on_conversation_start b calls initialized joined params r
step (stop b calls) r = dev_on_conversation_stop b calls r
step (key_pressed taken event) r = (on_key_event taken event r).1
step (key taken reported event) r = handle_key_event taken reported event r
step wake r = handle_start_conversation r
step (pair_code open_sound code) r = dev_on_pair_code open_sound code r
step (device_state d) r = dev_on_state_changed d r
step (remote_audio bytes) r = rtc_on_remote_audio bytes r
step (rtc_state s) r = rtc_on_state_changed s r
step (rtm_event e) r = rtc_on_rtm_event e r
step (subscribed failed) r = rtc_on_rtm_subscribe_result failed r
step token_expires r = rtc_on_token_will_expire r
step (others running word request id media' presenter') r = record r {
  running = running;
  state_word = word;
  stop_request = request;
  conversation_id = id;
  media = media';
  presenter = presenter';
}

unfoldable pub run : List Step → Runtime → Runtime
run [] r = r
run (s ∷ ss) r = run ss (step s r)

clear_history-Once : (r : Runtime) → Once (clear_history r)
unfolding clear_history Spaced
clear_history-Once r = record {
  remembered = record { entries = refl; next = omega arith; last_ids = refl };
  spaced = tt;
}

indicator-Once :
    (event : IndicatorEvent) (r : Runtime) → Once r → Once (handle_lcd_indicator event r)
unfolding handle_lcd_indicator
indicator-Once event r v =
    if-keep Once (not (indicator_accepted event r)) (λ t. v) (λ t. kept_Once refl refl refl v)

start-Once :
    (b : Build) (calls : Calls) (initialized joined : Bool) (params : Option Peer) (r : Runtime)
    → Once r
    → Once (dev_on_conversation_start b calls initialized joined params r)
unfolding dev_on_conversation_start notify_ended
start-Once b calls initialized joined none r v =
    if-keep Once (not r.running) (λ t. kept_Once refl refl refl v)
      (λ t.
        if-keep Once (not (flush_session b calls r.media).0) (λ u. kept_Once refl refl refl v)
          (λ u. kept_Once refl refl refl v))
start-Once b calls initialized joined (some c) r v =
    let cleared = clear_history-Once (record r { media = (flush_session b calls r.media).1 }) in
    if-keep Once (not r.running) (λ t. kept_Once refl refl refl v)
      (λ t.
        if-keep Once (not (flush_session b calls r.media).0) (λ u. kept_Once refl refl refl v)
          (λ u.
            if-keep Once (is_empty c.agent_uid) (λ w. kept_Once refl refl refl v)
              (λ w.
                if-keep Once (not initialized || not joined) (λ x. kept_Once refl refl refl cleared)
                  (λ x. kept_Once refl refl refl cleared))))

control_start-Once : (r : Runtime) → Once r → Once (control_start_conversation r)
unfolding control_start_conversation
control_start-Once r v =
    if-keep Once (is_ready (runtime_get_state r)) (λ t. kept_Once refl refl refl v) (λ t. v)

key_action-Once :
    (taken : Bool) (reported : Option ℤ) (event : KeyEvent) (r : Runtime)
    → Once r
    → Once (key_action taken reported event r)
unfolding key_action control_stop_conversation control_pair
key_action-Once taken reported conversation_start r v = control_start-Once r v
key_action-Once taken reported conversation_stop r v =
    if-keep Once (runtime_in_conversation r) (λ t. kept_Once refl refl refl v) (λ t. v)
key_action-Once taken reported pair_key r v =
    if-keep Once (is_ready (runtime_get_state r) || runtime_in_conversation r)
      (λ t. kept_Once refl refl refl v) (λ t. v)
key_action-Once taken reported volume_up r v = kept_Once refl refl refl v
key_action-Once taken reported volume_down r v = kept_Once refl refl refl v
key_action-Once taken reported exit_key r v = v

key-Once :
    (taken : Bool) (reported : Option ℤ) (event : KeyEvent) (r : Runtime)
    → Once r
    → Once (handle_key_event taken reported event r)
unfolding handle_key_event
key-Once taken reported event r v =
    if-keep Once (not r.running) (λ t. v) (λ t. key_action-Once taken reported event r v)

key_pressed-Once :
    (taken : Bool) (event : KeyEvent) (r : Runtime) → Once r → Once (on_key_event taken event r).1
unfolding on_key_event
key_pressed-Once taken event r v =
    if-keep (λ (x : Bool × Runtime). Once x.1) (is_exit event) (λ t. kept_Once refl refl refl v)
      (λ t.
        if-keep (λ (x : Bool × Runtime). Once x.1) (not r.running || not (key_allowed event r))
          (λ u. v)
          (λ u.
            if-keep (λ (x : Bool × Runtime). Once x.1) taken (λ w. v)
              (λ w. kept_Once refl refl refl v)))

step-Once : (s : Step) (r : Runtime) → Once r → Once (step s r)
unfolding step dev_on_conversation_stop handle_start_conversation dev_on_pair_code
    dev_on_state_changed rtc_on_remote_audio rtc_on_state_changed rtc_on_rtm_event
    rtc_on_rtm_subscribe_result rtc_on_token_will_expire notify_ended
step-Once (command taken reported event) r v = handle_device_command-Once taken reported event r v
step-Once (indicator event) r v = indicator-Once event r v
step-Once (start b calls initialized joined params) r v =
    start-Once b calls initialized joined params r v
step-Once (stop b calls) r v = kept_Once refl refl refl (clear_history-Once r)
step-Once (key_pressed taken event) r v = key_pressed-Once taken event r v
step-Once (key taken reported event) r v = key-Once taken reported event r v
step-Once wake r v = if-keep Once r.running (λ t. control_start-Once r v) (λ t. v)
step-Once (pair_code open_sound code) r v =
    if-keep Once (not r.running || is_closing (runtime_get_state r)) (λ t. v)
      (λ t. kept_Once refl refl refl v)
step-Once (device_state d) r v =
    if-keep Once (not r.running) (λ t. v) (λ t. kept_Once refl refl refl v)
step-Once (remote_audio bytes) r v = kept_Once refl refl refl v
step-Once (rtc_state s) r v =
    if-keep Once (is_over s) (λ t. kept_Once refl refl refl v) (λ t. kept_Once refl refl refl v)
step-Once (rtm_event (login failed)) r v =
    if-keep Once failed (λ t. kept_Once refl refl refl v) (λ t. v)
step-Once (rtm_event kickoff) r v = kept_Once refl refl refl v
step-Once (rtm_event exited) r v = kept_Once refl refl refl v
step-Once (subscribed failed) r v =
    if-keep Once (r.running && failed) (λ t. kept_Once refl refl refl v) (λ t. v)
step-Once token_expires r v = if-keep Once r.running (λ t. kept_Once refl refl refl v) (λ t. v)
step-Once (others running word request id media' presenter') r v = kept_Once refl refl refl v

-- From a state in which this holds, whatever messages, keys and reports come and conversations start and
-- stop, no command that is executed
-- has the identifier of one of the 16 that were executed before it in the conversation, and the array has
-- the identifiers of the last 16, with empty ones where there are fewer.
pub run-Once : (ss : List Step) (r : Runtime) → Once r → Once (run ss r)
unfolding run
run-Once [] r v = v
run-Once (s ∷ ss) r v = run-Once ss (step s r) (step-Once s r v)
