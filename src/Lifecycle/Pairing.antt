-- ===== src/Lifecycle/Pairing.antt =====
-- mybot_device_lifecycle.c: the request for a pair code, and the binding polls.
use mybot.Common.{
  ℕ, ◌+◌, ◌*◌, ℤ, is_code, inc32, Bool, true, not, [], if◌then◌else◌, leb, codes, is_empty, text_eq,
  copy_text, ◌||◌,
}
use mybot.StateModel.{DeviceState}
use mybot.Lifecycle.{
  ServiceType, Binding, PairCode, Lifecycle, Env, emit, pair_code_called, pair_code_shown,
}
use mybot.Lifecycle.Mailbox.{
  set_state, interrupts, network_request_is_current, api_rejected_device_auth, clamp_poll_interval,
  next_retry_delay_ticks,
}
use mybot.Lifecycle.Service.{action_poll_binding}
use mybot.Lifecycle.Auth.{max_token, persist_device_auth, invalidate_runtime_binding}

-- Back to the unprovisioned state, with a fresh pairing flow on the next tick.
abbrev pub pair_again : Lifecycle → Lifecycle
pair_again lc = record (set_state DeviceState.unprovisioned lc) { pairing_requested = true }

unfoldable pub pair_code_failed : Lifecycle → Lifecycle
pair_code_failed lc =
    let delay = next_retry_delay_ticks lc.pair_retry_delay_ticks 30 600 in
    set_state DeviceState.unprovisioned
      (record lc { pair_retry_delay_ticks = delay; pair_retry_ticks_remaining = delay })

unfoldable pub pair_code_obtained : PairCode → Lifecycle → Lifecycle
pair_code_obtained resp lc = set_state DeviceState.awaiting_claim (
    emit (pair_code_shown resp.code) (record lc {
      pair_retry_delay_ticks = 0;
      pair_retry_ticks_remaining = 0;
      binding_generation = inc32 lc.binding_generation;
      pair_token = copy_text max_token resp.pair_token;
      pair_poll_interval = clamp_poll_interval resp.poll_after_seconds;
      pair_tick_counter = 0;
      device_token = [];
    }))

-- The reply of the device client, judged after the interrupts that fell in the call.
unfoldable pub pair_code_reply : ℕ → ℤ × PairCode → Lifecycle → Lifecycle
unfolding pair_code_failed pair_code_obtained
pair_code_reply generation (ret, resp) lc =
    if not (network_request_is_current lc generation)
    then pair_again lc
    else if not (is_code 0 ret)
    then pair_code_failed lc
    else pair_code_obtained resp lc

unfoldable pub action_create_pair_code : Env → Lifecycle → Lifecycle
action_create_pair_code env lc =
    if not lc.network_available
    then pair_again lc
    else pair_code_reply lc.network_generation
        (env.create_pair_code lc.server_base lc.device_id lc.firmware_ver lc.hw_model)
        (interrupts env.during_call (emit pair_code_called lc))

-- A credential in the answer replaces the old one, and outdates the requests made with it.
take_token : Binding → Lifecycle → Lifecycle
take_token resp lc = if is_empty resp.device_token then lc else record lc {
  binding_generation = inc32 lc.binding_generation;
  device_token = copy_text max_token resp.device_token;
}

enter_runtime : Binding → Lifecycle × Bool → Lifecycle
enter_runtime resp (lc, stored) =
    if stored
    then record (set_state DeviceState.runtime lc) {
      runtime_poll_interval = clamp_poll_interval resp.poll_after_seconds;
      runtime_tick_counter = 0;
    }
    else lc

persist_bound : Env → Binding → Lifecycle → Lifecycle
unfolding enter_runtime
persist_bound env resp lc =
    if is_empty lc.device_token then lc else enter_runtime resp (persist_device_auth env lc)

unfoldable pub apply_bound : Env → Binding → Lifecycle → Lifecycle
unfolding take_token persist_bound
apply_bound env resp lc = persist_bound env resp (take_token resp lc)

unfoldable pub apply_binding_pair : Env → ℤ → Binding → Lifecycle → Lifecycle
apply_binding_pair env ret resp lc =
    if api_rejected_device_auth ret
    then record lc { pairing_requested = true }
    else if not (is_code 0 ret)
    then lc
    else if text_eq resp.status (codes "pending")
    then record lc { pair_poll_interval = clamp_poll_interval resp.poll_after_seconds }
    else if text_eq resp.status (codes "bound")
    then apply_bound env resp lc
    else if text_eq resp.status (codes "expired") || text_eq resp.status (codes "failed")
    then record lc { pairing_requested = true }
    else if text_eq resp.status (codes "unbound")
    then pair_again lc
    else lc

unfoldable pub apply_binding_runtime : Env → ℤ → Binding → Lifecycle → Lifecycle
apply_binding_runtime env ret resp lc =
    if api_rejected_device_auth ret
    then invalidate_runtime_binding env lc
    else if not (is_code 0 ret)
    then lc
    else if text_eq resp.status (codes "bound")
    then record lc { runtime_poll_interval = clamp_poll_interval resp.poll_after_seconds }
    else if text_eq resp.status (codes "unbound")
    then invalidate_runtime_binding env lc
    else lc

unfoldable pub tick_runtime_binding_poll : Env → Lifecycle → Lifecycle
tick_runtime_binding_poll env lc =
    if leb (lc.runtime_poll_interval * 10) (lc.runtime_tick_counter + 1)
    then action_poll_binding env ServiceType.device_poll (record lc { runtime_tick_counter = 0 })
    else record lc { runtime_tick_counter = lc.runtime_tick_counter + 1 }

-- The same for the poll that waits for a claim.
unfoldable pub tick_claim_poll : Env → Lifecycle → Lifecycle
tick_claim_poll env lc =
    if leb (lc.pair_poll_interval * 10) (lc.pair_tick_counter + 1)
    then action_poll_binding env ServiceType.pair_poll (record lc { pair_tick_counter = 0 })
    else record lc { pair_tick_counter = lc.pair_tick_counter + 1 }
