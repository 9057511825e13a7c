-- ===== src/Lifecycle/Valid/Steps.antt =====
-- Every public operation keeps the invariant, and initialisation establishes it.
use mybot.Lifecycle.Valid.Stop.{action_poll-IsValid, action_stop-IsValid, complete-IsValid}
use mybot.Lifecycle.Valid.Talk.{renew-IsValid, start-IsValid}
use mybot.Lifecycle.Valid.Pair.{create_pair_code-IsValid, IsReady}
use mybot.Lifecycle.Valid.Bind.{complete-runtime, IsActive}
use mybot.Lifecycle.Valid.{IsValid}
use mybot.Lifecycle.Auth.{clear_device_auth}
use mybot.Common.{
  refl, ◌+◌, ◌*◌, ◌==◌, inr, [], inl, ◌-◌, leb, not, ◌≡◌, ◌≢◌, if-keep, arith, false,
}
use mybot.Lifecycle.Pairing.{tick_claim_poll, tick_runtime_binding_poll}
use mybot.Lifecycle.Mailbox.{state_is, set_state}
use mybot.Lifecycle.{ServiceType, StopReason, Env, Lifecycle, StopRequest}
use mybot.Lifecycle.Service.{notify_stop, submit_service_request, action_stop_conversation}
use mybot.Lifecycle.Api.{
  tick_state, tick_conversation_on, take_renewal, tick_renewal, tick_unprovisioned, tick_loss, tick,
  tick_runtime, tick_pairing,
}
use mybot.StateModel.{DeviceState}

abbrev drop_requests : Lifecycle → Lifecycle
drop_requests lc = record lc {
  conversation_requested = false;
  stop_request = StopRequest.no_request;
}

drop_requests-IsValid : {lc : Lifecycle} → IsValid lc → IsValid (drop_requests lc)
drop_requests-IsValid v = ground arith

tick_loss-IsValid : (env : Env) {lc : Lifecycle} → IsValid lc → IsValid (tick_loss env lc)
unfolding tick_loss
tick_loss-IsValid env {lc} v =
    if-keep IsValid (state_is DeviceState.in_conversation lc)
      (λ t. complete-IsValid env (ground arith) seen) (λ t. seen)
  where
    seen : IsValid (record (drop_requests lc) { network_loss_pending = false })
    seen = ground arith

pairing-IsReady :
    {lc : Lifecycle}
    → lc.state ≢ DeviceState.in_conversation
    → IsValid lc
    → IsReady (
        set_state DeviceState.pairing
          (record (clear_device_auth (record lc { pairing_requested = false })) {
            conversation_id = [];
          }))
unfolding set_state clear_device_auth
pairing-IsReady h v = ground arith

stop-runtime :
    (env : Env) (reason : StopReason) (lc : Lifecycle)
    → (action_stop_conversation env reason lc).state ≡ DeviceState.runtime
unfolding action_stop_conversation notify_stop submit_service_request
stop-runtime env reason lc = ground (arith, complete-runtime env lc)

tick_pairing-IsValid : (env : Env) {lc : Lifecycle} → IsValid lc → IsValid (tick_pairing env lc)
unfolding tick_pairing
tick_pairing-IsValid env {lc} v = create_pair_code-IsValid env (
    if-keep Ready (state_is DeviceState.in_conversation lc)
      (λ t.
        pairing-IsReady (not_talking (stop-runtime env StopReason.user_requested idle))
          (action_stop-IsValid env StopReason.user_requested (ground arith) quiet))
      (λ t. pairing-IsReady (λ e. ground arith) quiet))
  where
    idle : Lifecycle
    idle = record lc { conversation_requested = false }

    quiet : IsValid idle
    quiet = ground arith

    not_talking : {s : DeviceState} → s ≡ DeviceState.runtime → s ≢ DeviceState.in_conversation
    not_talking e f = cc

    Ready : Lifecycle → Type 0
    Ready l = IsReady (
        set_state DeviceState.pairing
          (record (clear_device_auth (record l { pairing_requested = false })) {
            conversation_id = [];
          }))

tick_unprovisioned-IsValid :
    (env : Env) {lc : Lifecycle}
    → lc.state ≡ DeviceState.unprovisioned
    → IsValid lc
    → IsValid (tick_unprovisioned env lc)
unfolding tick_unprovisioned
tick_unprovisioned-IsValid env {lc} h v =
    if-keep IsValid (lc.pair_retry_ticks_remaining == 0) (λ t. v)
      (λ t.
        if-keep IsValid (lc.pair_retry_ticks_remaining - 1 == 0)
          (λ u. create_pair_code-IsValid env ready) (λ u. ground arith))
  where
    ready : IsReady (set_state DeviceState.pairing (record lc { pair_retry_ticks_remaining = 0 }))
    ready = unfold set_state in ground arith

tick_claim_poll-IsValid :
    (env : Env) {lc : Lifecycle}
    → lc.state ≡ DeviceState.awaiting_claim
    → IsValid lc
    → IsValid (tick_claim_poll env lc)
unfolding tick_claim_poll
tick_claim_poll-IsValid env {lc} h v =
    if-keep IsValid (leb (lc.pair_poll_interval * 10) (lc.pair_tick_counter + 1))
      (λ t. action_poll-IsValid env ServiceType.pair_poll (ground arith)) (λ t. ground arith)

tick_runtime_poll-IsValid :
    (env : Env) {lc : Lifecycle}
    → IsActive lc
    → IsValid lc
    → IsValid (tick_runtime_binding_poll env lc)
unfolding tick_runtime_binding_poll
tick_runtime_poll-IsValid env {lc} h v =
    if-keep IsValid (leb (lc.runtime_poll_interval * 10) (lc.runtime_tick_counter + 1))
      (λ t. action_poll-IsValid env ServiceType.device_poll (ground arith)) (λ t. ground arith)

tick_runtime-IsValid :
    (env : Env) {lc : Lifecycle}
    → lc.state ≡ DeviceState.runtime
    → IsValid lc
    → IsValid (tick_runtime env lc)
unfolding tick_runtime
tick_runtime-IsValid env {lc} h v =
    if-keep IsValid lc.conversation_requested (λ t. start-IsValid env h (drop_requests-IsValid v))
      (λ t. tick_runtime_poll-IsValid env (inl h) v)

tick_renewal-IsValid :
    (env : Env) {lc : Lifecycle}
    → lc.state ≡ DeviceState.in_conversation
    → IsValid lc
    → IsValid (tick_renewal env lc)
unfolding tick_renewal
tick_renewal-IsValid env {lc} h v =
    if-keep IsValid (not lc.rtc_token_renewal_pending)
      (λ t. tick_runtime_poll-IsValid env (inr h) v)
      (λ t.
        if-keep IsValid (lc.rtc_token_retry_ticks_remaining - 1 == 0)
          (λ u. renew-IsValid env h counted) (λ u. tick_runtime_poll-IsValid env (inr h) counted))
  where
    counted :
        IsValid
          (record lc { rtc_token_retry_ticks_remaining = lc.rtc_token_retry_ticks_remaining - 1 })
    counted = ground arith

take_renewal-IsValid : {lc : Lifecycle} → IsValid lc → IsValid (take_renewal lc)
take_renewal-IsValid {lc} v =
    if-keep IsValid lc.rtc_token_renewal_requested (λ t. ground arith) (λ t. v)

tick_conversation-IsValid :
    (s : StopRequest) (env : Env) {lc : Lifecycle}
    → lc.state ≡ DeviceState.in_conversation
    → IsValid lc
    → IsValid (tick_conversation_on s env lc)
tick_conversation-IsValid StopRequest.no_request env {lc} h v =
    tick_renewal-IsValid env (ground arith) (take_renewal-IsValid v)
tick_conversation-IsValid StopRequest.device_hangup env {lc} h v =
    action_stop-IsValid env StopReason.device_hangup h (ground arith)
tick_conversation-IsValid StopRequest.error env {lc} h v =
    action_stop-IsValid env StopReason.error h (ground arith)

tick_state-IsValid :
    (s : DeviceState) (env : Env) {lc : Lifecycle}
    → lc.state ≡ s
    → IsValid lc
    → IsValid (tick_state s env lc)
tick_state-IsValid DeviceState.unprovisioned env h v = tick_unprovisioned-IsValid env h v
tick_state-IsValid DeviceState.pairing env h v = v
tick_state-IsValid DeviceState.awaiting_claim env h v = tick_claim_poll-IsValid env h v
tick_state-IsValid DeviceState.runtime env h v = tick_runtime-IsValid env h v
tick_state-IsValid DeviceState.in_conversation env {lc} h v =
    tick_conversation-IsValid lc.stop_request env h v

-- Every tick keeps the invariant, whatever the surroundings answer.
pub tick-IsValid : (env : Env) {lc : Lifecycle} → IsValid lc → IsValid (tick env lc)
unfolding tick
tick-IsValid env {lc} v =
    if-keep IsValid lc.shutting_down (λ t. v)
      (λ t.
        if-keep IsValid lc.network_loss_pending (λ t. tick_loss-IsValid env v)
          (λ t.
            if-keep IsValid (not lc.network_available) (λ t. drop_requests-IsValid v)
              (λ t.
                if-keep IsValid lc.pairing_requested (λ t. tick_pairing-IsValid env v)
                  (λ t. tick_state-IsValid lc.state env refl v))))
