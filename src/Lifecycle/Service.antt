-- ===== src/Lifecycle/Service.antt =====
-- mybot_device_lifecycle.c: the HTTP work that the control thread queues, and the end of a
-- conversation.
use mybot.Common.{pos, Bool, true, false, not, [], if◌then◌else◌, Text, is_empty, ℕ}
use mybot.StateModel.{DeviceState}
use mybot.Lifecycle.{
  ServiceType, StopReason, Payload, zeroed, stopping, ServiceRequest, Lifecycle, Env, emit,
  submitted, conversation_stopped,
}
use mybot.Lifecycle.Mailbox.{interrupts, set_state, network_request_is_current}

abbrev pub credential_of : ServiceType → Lifecycle → Text
credential_of ServiceType.pair_poll lc = lc.pair_token
credential_of _ lc = lc.device_token

-- The request that `create_service_request` fills, where the allocation succeeds.
abbrev pub service_request : Lifecycle → ServiceType → Payload → ServiceRequest
service_request lc t p = record {
  type = t;
  network_generation = lc.network_generation;
  binding_generation = lc.binding_generation;
  server_base = lc.server_base;
  device_id = lc.device_id;
  credential = credential_of t lc;
  result = pos 0;
  payload = p;
}

-- The answer says whether the queue took the request.
unfoldable pub submit_service_request : Env → ServiceRequest → Lifecycle → Lifecycle × Bool
submit_service_request env r lc =
    if env.submit_accepts r then (emit (submitted r) lc, true) else (lc, false)

settle_poll : Lifecycle × Bool → Lifecycle
settle_poll (lc, ok) = if ok then lc else record lc { poll_pending = false }

unfoldable pub action_poll_binding : Env → ServiceType → Lifecycle → Lifecycle
unfolding submit_service_request settle_poll
action_poll_binding env t lc =
    if lc.poll_pending
    then lc
    else if not env.alloc_request
    then lc
    else settle_poll (
        submit_service_request env (service_request lc t zeroed)
          (record lc { poll_pending = true }))

unfoldable pub clear_rtc_token_renewal : Lifecycle → Lifecycle
clear_rtc_token_renewal lc = record lc {
  rtc_token_renewal_requested = false;
  rtc_token_renewal_pending = false;
  rtc_token_retry_delay_ticks = 0;
  rtc_token_retry_ticks_remaining = 0;
  rtc_channel = [];
  rtc_uid = [];
  rtc_agent_uid = [];
}

-- `on_conversation_stop` leaves RTC, whose callbacks may post requests meanwhile.
unfoldable pub complete_conversation_locally : Env → Lifecycle → Lifecycle
unfolding clear_rtc_token_renewal
complete_conversation_locally env lc = set_state DeviceState.runtime (
    interrupts env.during_stop
      (emit conversation_stopped (record (clear_rtc_token_renewal lc) { conversation_id = [] })))

-- The notification that follows the local teardown, for the session `conversation_id`.
unfoldable pub notify_stop : Env → Text → ℕ → StopReason → Lifecycle → Lifecycle
notify_stop env conversation_id generation reason lc =
    if is_empty conversation_id
    then lc
    else if not (network_request_is_current lc generation)
    then lc
    else if not env.alloc_request
    then lc
    else (submit_service_request env
        (service_request lc ServiceType.stop (stopping conversation_id reason)) lc).0

unfoldable pub action_stop_conversation : Env → StopReason → Lifecycle → Lifecycle
action_stop_conversation env reason lc =
    notify_stop env lc.conversation_id lc.network_generation reason
      (complete_conversation_locally env lc)
