-- ===== src/Lifecycle/Session.antt =====
-- mybot_device_lifecycle.c: starting a conversation and renewing its RTC token.
use mybot.Common.{
  ℕ, ℤ, is_code, Bool, false, not, ◌&&◌, ◌||◌, if◌then◌else◌, ltb, Text, is_empty, text_eq,
  copy_text, length,
}
use mybot.StateModel.{DeviceState}
use mybot.Lifecycle.{
  StopReason, Conversation, RtcToken, Lifecycle, Env, emit, start_called, renew_called,
  conversation_started, token_renewed,
}
use mybot.Lifecycle.Mailbox.{
  set_state, interrupts, network_request_is_current, api_rejected_device_auth,
  next_retry_delay_ticks,
}
use mybot.Lifecycle.Service.{clear_rtc_token_renewal, action_stop_conversation}
use mybot.Lifecycle.Auth.{max_id, restart_pairing_after_auth_rejection, invalidate_runtime_binding}

unfoldable pub schedule_rtc_token_retry : Lifecycle → Lifecycle
schedule_rtc_token_retry lc =
    let delay = next_retry_delay_ticks lc.rtc_token_retry_delay_ticks 10 100 in
    record lc { rtc_token_retry_delay_ticks = delay; rtc_token_retry_ticks_remaining = delay }

-- `conversation_id` is terminated within its array, and not empty.
abbrev pub valid_id : Text → Bool
valid_id id = ltb (length id) max_id && not (is_empty id)

unfoldable pub enter_conversation : Conversation → Lifecycle → Lifecycle
unfolding clear_rtc_token_renewal
enter_conversation resp lc = emit (conversation_started resp) (
    set_state DeviceState.in_conversation (record (clear_rtc_token_renewal lc) {
      conversation_id = copy_text max_id resp.conversation_id;
      rtc_channel = copy_text 128 resp.rtc_channel;
      rtc_uid = copy_text 64 resp.rtc_uid;
      rtc_agent_uid = copy_text 64 resp.rtc_agent_uid;
    }))

unfoldable pub start_reply : ℕ → ℤ × Conversation → Lifecycle → Lifecycle
start_reply generation (ret, resp) lc =
    if not (network_request_is_current lc generation)
    then lc
    else if api_rejected_device_auth ret
    then restart_pairing_after_auth_rejection lc
    else if not (is_code 0 ret)
    then lc
    else if not (valid_id resp.conversation_id)
    then lc
    else enter_conversation resp lc

unfoldable pub action_start_conversation : Env → Lifecycle → Lifecycle
action_start_conversation env lc =
    if not env.alloc_response
    then lc
    else if not lc.network_available
    then lc
    else start_reply lc.network_generation
        (env.start_conversation lc.server_base lc.device_id lc.device_token)
        (interrupts env.during_call (emit start_called lc))

unfoldable pub apply_stop_result : Env → ℤ → Lifecycle → Lifecycle
apply_stop_result env ret lc =
    if api_rejected_device_auth ret then invalidate_runtime_binding env lc else lc

-- The RTC SDK takes the token or refuses it.
unfoldable pub hand_over : Env → RtcToken → Lifecycle → Lifecycle
hand_over env resp lc =
    if not (env.renewed_accepts resp.rtc_token)
    then schedule_rtc_token_retry lc
    else emit (token_renewed resp.rtc_token) (record lc {
      rtc_token_renewal_pending = false;
      rtc_token_retry_delay_ticks = 0;
      rtc_token_retry_ticks_remaining = 0;
    })

unfoldable pub renew_reply : Env → ℕ → ℤ × RtcToken → Lifecycle → Lifecycle
renew_reply env generation (ret, resp) lc =
    if not (network_request_is_current lc generation)
    then lc
    else if api_rejected_device_auth ret
    then invalidate_runtime_binding env lc
    else if is_code 400 ret || is_code 410 ret
    then action_stop_conversation env StopReason.error lc
    else if not (is_code 0 ret)
    then schedule_rtc_token_retry lc
    else if not (text_eq resp.rtc_channel lc.rtc_channel && text_eq resp.rtc_uid lc.rtc_uid)
    then action_stop_conversation env StopReason.error lc
    else hand_over env resp lc

unfoldable pub action_renew_rtc_token : Env → Lifecycle → Lifecycle
action_renew_rtc_token env lc =
    if is_empty lc.rtc_channel || is_empty lc.rtc_uid
    then action_stop_conversation env StopReason.error lc
    else renew_reply env lc.network_generation
        (env.renew_rtc_token lc.server_base lc.device_id lc.device_token lc.rtc_channel lc.rtc_uid)
        (interrupts env.during_call (emit renew_called lc))
