-- ===== src/Lifecycle/Valid/Bind.antt =====
-- The answers to binding polls keep the invariant.
use mybot.Lifecycle.Valid.Stop.{complete-IsValid}
use mybot.Lifecycle.Valid.Pair.{clamp_poll_interval_bounds}
use mybot.Lifecycle.Valid.{IsValid}
use mybot.StateModel.{DeviceState}
use mybot.Lifecycle.Mailbox.{api_rejected_device_auth, state_is, set_state}
use mybot.Common.{is_empty-copy_text, inr, arith, inl, ◌⊎◌, if-keep, ℤ, List, ◌≡◌}
use mybot.Lifecycle.Service.{complete_conversation_locally}
use mybot.Lifecycle.{Effect, Binding, DeviceState, Env, Lifecycle}
use mybot.Lifecycle.Auth.{
  max_token, persist_device_auth, invalidate_runtime_binding, restart_pairing_after_auth_rejection,
}
use mybot.Lifecycle.Pairing.{apply_binding_runtime, apply_bound, apply_binding_pair}
use mybot.Lifecycle.Session.{apply_stop_result}

persist-shape :
    (env : Env) (lc : Lifecycle)
    → (es : List Effect) × ((persist_device_auth env lc).0 ≡ record lc { effects = es })
unfolding persist_device_auth
persist-shape env lc = ((persist_device_auth env lc).0.effects, ground arith)

apply_bound-IsValid :
    (env : Env) (resp : Binding) {lc : Lifecycle}
    → lc.state ≡ DeviceState.awaiting_claim
    → IsValid lc
    → IsValid (apply_bound env resp lc)
unfolding apply_bound persist_device_auth set_state
apply_bound-IsValid env resp {lc} h v = ground (
  arith,
  clamp_poll_interval_bounds resp.poll_after_seconds,
  is_empty-copy_text max_token resp.device_token,
)

pub apply_binding_pair-IsValid :
    (env : Env) (ret : ℤ) (resp : Binding) {lc : Lifecycle}
    → lc.state ≡ DeviceState.awaiting_claim
    → IsValid lc
    → IsValid (apply_binding_pair env ret resp lc)
unfolding apply_binding_pair set_state
apply_binding_pair-IsValid env ret resp {lc} h v =
    ground
      (arith, clamp_poll_interval_bounds resp.poll_after_seconds, apply_bound-IsValid env resp h v)

pub restart-IsValid :
    {lc : Lifecycle}
    → (lc.state ≡ DeviceState.runtime) ⊎ (lc.state ≡ DeviceState.unprovisioned)
    → IsValid lc
    → IsValid (restart_pairing_after_auth_rejection lc)
unfolding restart_pairing_after_auth_rejection set_state
restart-IsValid h v = ground arith

pub complete-runtime :
    (env : Env) (lc : Lifecycle)
    → (complete_conversation_locally env lc).state ≡ DeviceState.runtime
unfolding complete_conversation_locally set_state
complete-runtime env lc = ground arith

abbrev pub IsActive : Lifecycle → Type 0
IsActive lc = (lc.state ≡ DeviceState.runtime) ⊎ (lc.state ≡ DeviceState.in_conversation)

-- A binding that the server withdraws leaves a valid unprovisioned device.
pub invalidate-IsValid :
    (env : Env) {lc : Lifecycle}
    → IsActive lc
    → IsValid lc
    → IsValid (invalidate_runtime_binding env lc)
unfolding invalidate_runtime_binding
invalidate-IsValid env {lc} (inl h) v =
    if-keep (λ l. IsValid (restart_pairing_after_auth_rejection l))
      (state_is DeviceState.in_conversation lc) (λ t. absurd (ground arith))
      (λ t. restart-IsValid (inl h) v)
invalidate-IsValid env {lc} (inr h) v =
    if-keep (λ l. IsValid (restart_pairing_after_auth_rejection l))
      (state_is DeviceState.in_conversation lc)
      (λ t. restart-IsValid (inl (complete-runtime env lc)) (complete-IsValid env h v))
      (λ t. absurd (ground arith))

pub apply_binding_runtime-IsValid :
    (env : Env) (ret : ℤ) (resp : Binding) {lc : Lifecycle}
    → IsActive lc
    → IsValid lc
    → IsValid (apply_binding_runtime env ret resp lc)
unfolding apply_binding_runtime
apply_binding_runtime-IsValid env ret resp h v =
    ground (arith, clamp_poll_interval_bounds resp.poll_after_seconds, invalidate-IsValid env h v)

pub apply_stop_result-IsValid :
    (env : Env) (ret : ℤ) {lc : Lifecycle}
    → IsActive lc
    → IsValid lc
    → IsValid (apply_stop_result env ret lc)
unfolding apply_stop_result
apply_stop_result-IsValid env ret {lc} h v =
    if-keep IsValid (api_rejected_device_auth ret) (λ t. invalidate-IsValid env h v) (λ t. v)
