-- ===== src/Lifecycle/Mailbox.antt =====
-- mybot_device_lifecycle.c: the requests that other threads and the application post, and the
-- helpers that read and write the state.
use mybot.Common.{
  ℕ, ◌*◌, ◌/◌, ℤ, pos, negsuc, is_code, inc64, Bool, true, not, ◌&&◌, ◌||◌, List, [], ◌∷◌, ltb,
  ◌==◌, if◌then◌else◌,
}
use mybot.StateModel.{DeviceState, device_code}
use mybot.Lifecycle.{
  StopRequest, Lifecycle, Interrupt, network, conversation_ended, token_renewal, emit,
  state_changed,
}

abbrev pub state_is : DeviceState → Lifecycle → Bool
state_is s lc = device_code lc.state == device_code s

abbrev pub network_request_is_current : Lifecycle → ℕ → Bool
network_request_is_current lc generation =
    lc.network_available && lc.network_generation == generation

-- Leaving a conversation drops the stop request that its teardown made.
leave_state : Lifecycle → Lifecycle
leave_state lc =
    if state_is DeviceState.in_conversation lc
    then record lc { stop_request = StopRequest.no_request }
    else lc

unfoldable pub set_state : DeviceState → Lifecycle → Lifecycle
unfolding leave_state
set_state s lc =
    if state_is s lc then lc else emit (state_changed s) (record (leave_state lc) { state = s })

abbrev pub api_rejected_device_auth : ℤ → Bool
api_rejected_device_auth ret = is_code 401 ret || is_code 403 ret || is_code 409 ret

unfoldable pub clamp_poll_interval : ℤ → ℕ
clamp_poll_interval (negsuc n) = 3
clamp_poll_interval (pos n) = if ltb n 3 then 3 else if ltb 60 n then 60 else n

unfoldable pub next_retry_delay_ticks : ℕ → ℕ → ℕ → ℕ
next_retry_delay_ticks current initial maximum =
    if current == 0 then initial else if ltb current (maximum / 2) then current * 2 else maximum

-- The previous value decides whether this is a loss.
unfoldable pub set_network_available : Bool → Lifecycle → Lifecycle
set_network_available available lc =
    if not available && lc.network_available
    then record lc {
      network_available = available;
      network_generation = inc64 lc.network_generation;
      network_loss_pending = true;
    }
    else record lc { network_available = available }

unfoldable pub request_pair : Lifecycle → Lifecycle
request_pair lc = if lc.shutting_down then lc else record lc { pairing_requested = true }

unfoldable pub request_start : Lifecycle → Lifecycle
request_start lc =
    if lc.shutting_down || not lc.network_available
    then lc
    else if state_is DeviceState.runtime lc
    then record lc { conversation_requested = true }
    else lc

unfoldable pub request_stop : Lifecycle → Lifecycle
request_stop lc =
    if lc.shutting_down
    then lc
    else if state_is DeviceState.in_conversation lc
    then record lc { stop_request = StopRequest.device_hangup }
    else lc

unfoldable pub notify_conversation_ended : Lifecycle → Lifecycle
notify_conversation_ended lc =
    if lc.shutting_down
    then lc
    else if state_is DeviceState.in_conversation lc
    then record lc { stop_request = StopRequest.error }
    else lc

unfoldable pub request_rtc_token_renewal : Lifecycle → Lifecycle
request_rtc_token_renewal lc =
    if lc.shutting_down || not lc.network_available
    then lc
    else if state_is DeviceState.in_conversation lc
    then record lc { rtc_token_renewal_requested = true }
    else lc

unfoldable pub interrupt : Interrupt → Lifecycle → Lifecycle
unfolding set_network_available notify_conversation_ended request_rtc_token_renewal
interrupt (network b) lc = set_network_available b lc
interrupt conversation_ended lc = notify_conversation_ended lc
interrupt token_renewal lc = request_rtc_token_renewal lc

unfoldable pub interrupts : List Interrupt → Lifecycle → Lifecycle
unfolding interrupt
interrupts [] lc = lc
interrupts (i ∷ is) lc = interrupts is (interrupt i lc)
