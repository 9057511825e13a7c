-- ===== src/Lifecycle/Laws/Rejection.antt =====
-- The device service rejects the credential.

-- The effects of the return to pairing, on top of those before it.
use mybot.Lifecycle.Service.{complete_conversation_locally}
use mybot.Lifecycle.Laws.Loss.{complete-effects}
use mybot.Lifecycle.Valid.{IsValid}
use mybot.Lifecycle.Valid.Bind.{IsActive}
use mybot.Lifecycle.Session.{apply_stop_result}
use mybot.Lifecycle.Pairing.{apply_binding_runtime}
use mybot.Lifecycle.Api.{apply_result, is_stale, settle, service_result}
use mybot.Lifecycle.{
  ServiceType, ServiceRequest, conversation_stopped, Env, auth_erased, DeviceState, state_changed,
  Lifecycle, Effect,
}
use mybot.Lifecycle.Mailbox.{state_is, api_rejected_device_auth, set_state}
use mybot.Lifecycle.Auth.{invalidate_runtime_binding, restart_pairing_after_auth_rejection}
use mybot.Common.{
  sym, ◌∙◌, subst, inr, ap, if-keep, false, inl, ◌≢◌, refl, ◌⊎◌, is_empty, Text, true, arith, ◌∷◌,
  [], ◌≡◌, List,
}

abbrev pub unbound_effects : List Effect → List Effect
unbound_effects es = state_changed DeviceState.unprovisioned ∷ auth_erased ∷ es

-- A device that has lost its binding.
abbrev pub Unbound : List Effect → Lifecycle → Type 0
Unbound es lc =
    (lc.state ≡ DeviceState.unprovisioned)
    × (lc.device_token ≡ [])
    × (lc.pairing_requested ≡ true)
    × (lc.conversation_id ≡ [])
    × (lc.effects ≡ unbound_effects es)

nil_of_empty : (t : Text) → is_empty t ≡ true → t ≡ []
nil_of_empty [] h = refl
nil_of_empty (c ∷ cs) h = absurd (cc)

restart-Unbound :
    (lc : Lifecycle)
    → lc.state ≡ DeviceState.runtime
    → lc.conversation_id ≡ []
    → Unbound lc.effects (restart_pairing_after_auth_rejection lc)
unfolding restart_pairing_after_auth_rejection set_state
restart-Unbound lc h c = ground arith

-- What the local end of a conversation adds to the effects, if one is open.
abbrev pub ended_effects : DeviceState → List Effect → List Effect
ended_effects DeviceState.in_conversation es =
    state_changed DeviceState.runtime ∷ conversation_stopped ∷ es
ended_effects _ es = es

invalidate-Unbound :
    (env : Env) (lc : Lifecycle)
    → IsActive lc
    → IsValid lc
    → Unbound (ended_effects lc.state lc.effects) (invalidate_runtime_binding env lc)
unfolding invalidate_runtime_binding
invalidate-Unbound env lc (inl h) v =
    if-keep
      (λ l. Unbound (ended_effects lc.state lc.effects) (restart_pairing_after_auth_rejection l))
      (state_is DeviceState.in_conversation lc) (λ t. absurd (ground arith))
      (λ t.
        rw (ap (λ s. ended_effects s lc.effects) h)
          (restart-Unbound lc h (ground (arith, nil_of_empty lc.conversation_id))))
invalidate-Unbound env lc (inr h) v =
    let (s, f, c, q) = complete-effects env lc h in
    if-keep
      (λ l. Unbound (ended_effects lc.state lc.effects) (restart_pairing_after_auth_rejection l))
      (state_is DeviceState.in_conversation lc)
      (λ t.
        subst
          (λ es.
            Unbound es
              (restart_pairing_after_auth_rejection (complete_conversation_locally env lc)))
          (f ∙ sym (ap (λ s. ended_effects s lc.effects) h))
          (restart-Unbound (complete_conversation_locally env lc) s c))
      (λ t. absurd (ground arith))

applied :
    (env : Env) (r : ServiceRequest) (t : ServiceType) (s : DeviceState) (lc : Lifecycle)
    → (s ≡ DeviceState.runtime) ⊎ (s ≡ DeviceState.in_conversation)
    → t ≢ ServiceType.pair_poll
    → api_rejected_device_auth r.result ≡ true
    → apply_result env r t s lc ≡ invalidate_runtime_binding env lc
unfolding apply_binding_runtime apply_stop_result
applied env r ServiceType.pair_poll s lc h n j = absurd (n refl)
applied env r ServiceType.device_poll DeviceState.runtime lc h n j = rw j
applied env r ServiceType.device_poll DeviceState.in_conversation lc h n j = rw j
applied env r ServiceType.stop DeviceState.runtime lc h n j = rw j
applied env r ServiceType.stop DeviceState.in_conversation lc h n j = rw j
applied env r t DeviceState.unprovisioned lc h n j = absurd (ground arith)
applied env r t DeviceState.pairing lc h n j = absurd (ground arith)
applied env r t DeviceState.awaiting_claim lc h n j = absurd (ground arith)

settled-Unbound :
    (env : Env) (t : ServiceType) (lc : Lifecycle)
    → IsActive lc
    → IsValid lc
    → Unbound (ended_effects lc.state lc.effects) (invalidate_runtime_binding env (settle t lc))
settled-Unbound env ServiceType.stop lc a v = invalidate-Unbound env lc a v
settled-Unbound env ServiceType.pair_poll lc a v =
    invalidate-Unbound env (record lc { poll_pending = false }) a (ground arith)
settled-Unbound env ServiceType.device_poll lc a v =
    invalidate-Unbound env (record lc { poll_pending = false }) a (ground arith)

-- In a valid lifecycle in the runtime or conversation state, a current answer with HTTP 401, 403 or 409
-- to a device poll or to a stop notification ends an open conversation locally, erases the credential
-- in memory and in the store, makes the device unprovisioned and requests a new pairing.
pub rejection_unbinds :
    (env : Env) (r : ServiceRequest) (lc : Lifecycle)
    → IsValid lc
    → IsActive lc
    → r.type ≢ ServiceType.pair_poll
    → is_stale r (settle r.type lc) ≡ false
    → api_rejected_device_auth r.result ≡ true
    → Unbound (ended_effects lc.state lc.effects) (service_result env r lc)
unfolding service_result
rejection_unbinds env r lc v a t s j =
    rw (s, applied env r r.type lc.state (settle r.type lc) a t j)
      (settled-Unbound env r.type lc a v)
