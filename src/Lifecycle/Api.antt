-- ===== src/Lifecycle/Api.antt =====
-- mybot_device_lifecycle.c: the public operations of the control thread.
pub mod Run
use mybot.Common.{
  ℕ, ◌-◌, ℤ, Bool, true, false, not, ◌&&◌, ◌||◌, Option, none, some, [], if◌then◌else◌, ltb, ◌==◌,
  Text, is_empty, copy_text, length,
}
use mybot.StateModel.{DeviceState}
use mybot.Lifecycle.{
  StopRequest, StopReason, ServiceType, Binding, Payload, zeroed, binding, stopping, ServiceRequest,
  Lifecycle, Env,
}
use mybot.Lifecycle.Mailbox.{state_is, set_state, network_request_is_current}
use mybot.Lifecycle.Service.{complete_conversation_locally, action_stop_conversation}
use mybot.Lifecycle.Auth.{max_url, max_id, load_device_auth, clear_device_auth}
use mybot.Lifecycle.Pairing.{
  action_create_pair_code, apply_binding_pair, apply_binding_runtime, tick_runtime_binding_poll,
  tick_claim_poll,
}
use mybot.Lifecycle.Session.{action_start_conversation, action_renew_rtc_token, apply_stop_result}

-- The binding of a payload; a poll that carries none reads the zeroed union.
abbrev pub binding_of : Payload → Binding
binding_of (binding b) = b
binding_of _ = record { status = []; device_token = []; poll_after_seconds = ℤ.pos 0 }

abbrev pub settle : ServiceType → Lifecycle → Lifecycle
settle ServiceType.stop lc = lc
settle _ lc = record lc { poll_pending = false }

-- The result belongs to another network, another binding or a finished lifecycle.
abbrev pub is_stale : ServiceRequest → Lifecycle → Bool
is_stale r lc =
    lc.shutting_down
    || not (network_request_is_current lc r.network_generation)
    || not (lc.binding_generation == r.binding_generation)
    || lc.pairing_requested

-- The result goes to the handler of its type, in the states that await it.
abbrev pub apply_result : Env → ServiceRequest → ServiceType → DeviceState → Lifecycle → Lifecycle
apply_result env r ServiceType.pair_poll DeviceState.awaiting_claim lc =
    apply_binding_pair env r.result (binding_of r.payload) lc
apply_result env r ServiceType.device_poll DeviceState.runtime lc =
    apply_binding_runtime env r.result (binding_of r.payload) lc
apply_result env r ServiceType.device_poll DeviceState.in_conversation lc =
    apply_binding_runtime env r.result (binding_of r.payload) lc
apply_result env r ServiceType.stop DeviceState.runtime lc = apply_stop_result env r.result lc
apply_result env r ServiceType.stop DeviceState.in_conversation lc =
    apply_stop_result env r.result lc
apply_result env r _ _ lc = lc

unfoldable pub service_result : Env → ServiceRequest → Lifecycle → Lifecycle
service_result env r lc =
    if is_stale r (settle r.type lc)
    then settle r.type lc
    else apply_result env r r.type lc.state (settle r.type lc)

-- The first test of a tick: a network loss ends the conversation locally.
unfoldable pub tick_loss : Env → Lifecycle → Lifecycle
tick_loss env lc =
    if state_is DeviceState.in_conversation lc
    then complete_conversation_locally env (record lc {
      network_loss_pending = false;
      conversation_requested = false;
      stop_request = StopRequest.no_request;
    })
    else record lc {
      network_loss_pending = false;
      conversation_requested = false;
      stop_request = StopRequest.no_request;
    }

stop_for_pairing : Env → Lifecycle → Lifecycle
stop_for_pairing env lc =
    if state_is DeviceState.in_conversation lc
    then action_stop_conversation env StopReason.user_requested lc
    else lc

-- A pending pairing request, from any state.
unfoldable pub tick_pairing : Env → Lifecycle → Lifecycle
unfolding stop_for_pairing
tick_pairing env lc = action_create_pair_code env (
    set_state DeviceState.pairing
      (record (clear_device_auth
        (record (stop_for_pairing env (record lc { conversation_requested = false })) {
          pairing_requested = false;
        })) { conversation_id = [] }))

unfoldable pub tick_unprovisioned : Env → Lifecycle → Lifecycle
tick_unprovisioned env lc =
    if lc.pair_retry_ticks_remaining == 0
    then lc
    else if lc.pair_retry_ticks_remaining - 1 == 0
    then action_create_pair_code env
        (set_state DeviceState.pairing (record lc { pair_retry_ticks_remaining = 0 }))
    else record lc { pair_retry_ticks_remaining = lc.pair_retry_ticks_remaining - 1 }

unfoldable pub tick_runtime : Env → Lifecycle → Lifecycle
tick_runtime env lc =
    if lc.conversation_requested
    then action_start_conversation env
        (record lc { conversation_requested = false; stop_request = StopRequest.no_request })
    else tick_runtime_binding_poll env lc

abbrev pub take_renewal : Lifecycle → Lifecycle
take_renewal lc =
    if lc.rtc_token_renewal_requested
    then record lc {
      rtc_token_renewal_requested = false;
      rtc_token_renewal_pending = true;
      rtc_token_retry_delay_ticks = 0;
      rtc_token_retry_ticks_remaining = 0;
    }
    else lc

-- A pending renewal counts down; when the count is used up it is tried.
unfoldable pub tick_renewal : Env → Lifecycle → Lifecycle
tick_renewal env lc =
    let waiting = record lc {
      rtc_token_retry_ticks_remaining = lc.rtc_token_retry_ticks_remaining - 1;
    } in
    if not lc.rtc_token_renewal_pending
    then tick_runtime_binding_poll env lc
    else if waiting.rtc_token_retry_ticks_remaining == 0
    then action_renew_rtc_token env waiting
    else tick_runtime_binding_poll env waiting

-- `stop_request` is exchanged with none.
abbrev pub tick_conversation_on : StopRequest → Env → Lifecycle → Lifecycle
tick_conversation_on StopRequest.no_request env lc = tick_renewal env (take_renewal lc)
tick_conversation_on StopRequest.device_hangup env lc =
    action_stop_conversation env StopReason.device_hangup
      (record lc { stop_request = StopRequest.no_request })
tick_conversation_on StopRequest.error env lc =
    action_stop_conversation env StopReason.error
      (record lc { stop_request = StopRequest.no_request })

abbrev pub tick_state : DeviceState → Env → Lifecycle → Lifecycle
tick_state DeviceState.unprovisioned env lc = tick_unprovisioned env lc
tick_state DeviceState.pairing env lc = lc
tick_state DeviceState.awaiting_claim env lc = tick_claim_poll env lc
tick_state DeviceState.runtime env lc = tick_runtime env lc
tick_state DeviceState.in_conversation env lc = tick_conversation_on lc.stop_request env lc

unfoldable pub tick : Env → Lifecycle → Lifecycle
tick env lc =
    if lc.shutting_down
    then lc
    else if lc.network_loss_pending
    then tick_loss env lc
    else if not lc.network_available
    then record lc { conversation_requested = false; stop_request = StopRequest.no_request }
    else if lc.pairing_requested
    then tick_pairing env lc
    else tick_state lc.state env lc

abbrev pub closing : Lifecycle → Lifecycle
closing lc = record lc {
  shutting_down = true;
  pairing_requested = false;
  conversation_requested = false;
  stop_request = StopRequest.no_request;
  rtc_token_renewal_requested = false;
}

unfoldable pub shutdown : Env → Lifecycle → Lifecycle
shutdown env lc =
    if not (state_is DeviceState.in_conversation lc)
    then closing lc
    else if lc.network_available && not lc.network_loss_pending
    then action_stop_conversation env StopReason.device_hangup (closing lc)
    else complete_conversation_locally env (closing lc)
