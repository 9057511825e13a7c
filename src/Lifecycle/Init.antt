-- ===== src/Lifecycle/Init.antt =====
-- mybot_device_lifecycle.c: initialisation, with the persisted credential or none.
use mybot.Common.{
  ℕ, Bool, true, false, not, ◌||◌, Option, none, some, [], if◌then◌else◌, ltb, Text, is_empty,
  copy_text, length,
}
use mybot.StateModel.{DeviceState}
use mybot.Lifecycle.{StopRequest, Lifecycle, Env}
use mybot.Lifecycle.Mailbox.{set_state}
use mybot.Lifecycle.Auth.{max_url, max_id, load_device_auth}

-- The string of an optional argument, and whether it fits its array.
abbrev pub text_or_empty : Option Text → Text
text_or_empty none = []
text_or_empty (some t) = t

abbrev pub fits : ℕ → Text → Bool
fits capacity t = ltb (length t) capacity

-- The zeroed state with its configuration, before the credential is looked up.
abbrev pub configured : Text → Text → Text → Text → Lifecycle
configured server device firmware model = record {
  server_base = copy_text max_url server;
  device_id = copy_text max_id device;
  firmware_ver = copy_text 64 firmware;
  hw_model = copy_text 64 model;
  state = DeviceState.unprovisioned;
  pair_token = [];
  pair_poll_interval = 0;
  pair_tick_counter = 0;
  pair_retry_delay_ticks = 0;
  pair_retry_ticks_remaining = 0;
  device_token = [];
  runtime_poll_interval = 0;
  runtime_tick_counter = 0;
  poll_pending = false;
  binding_generation = 0;
  conversation_id = [];
  rtc_channel = [];
  rtc_uid = [];
  rtc_agent_uid = [];
  conversation_requested = false;
  stop_request = StopRequest.no_request;
  rtc_token_renewal_requested = false;
  rtc_token_renewal_pending = false;
  rtc_token_retry_delay_ticks = 0;
  rtc_token_retry_ticks_remaining = 0;
  pairing_requested = false;
  shutting_down = false;
  network_available = true;
  network_loss_pending = false;
  network_generation = 0;
  effects = [];
}

unfoldable pub restore : Lifecycle × Bool → Lifecycle
restore (lc, loaded) =
    if loaded
    then set_state DeviceState.runtime (record lc { runtime_poll_interval = 30 })
    else record (set_state DeviceState.unprovisioned lc) { pairing_requested = true }

-- `none` is the result -1. The two required strings may be null too.
unfoldable pub init : Env → Option Text → Option Text → Option Text → Option Text → Option Lifecycle
init env none device firmware model = none
init env (some server) none firmware model = none
init env (some server) (some device) firmware model =
    if is_empty server
      || is_empty device
      || not (fits max_url server)
      || not (fits max_id device)
      || not (fits 64 (text_or_empty firmware))
      || not (fits 64 (text_or_empty model))
    then none
    else some (
        restore (
          load_device_auth env
            (configured server device (text_or_empty firmware) (text_or_empty model))))
