-- ===== src/Lifecycle/Laws/Shutdown.antt =====
-- After shutdown a lifecycle is inert.

-- What no later call may change.
use mybot.Lifecycle.Valid.Stop.{emptied}
use mybot.Lifecycle.Valid.Frame.{interrupts-Mailboxed}
use mybot.Common.{[], ◌∙◌, if-keep, false, sym, refl, arith, ◌∷◌, ◌≢◌, true, List, ◌≡◌}
use mybot.Lifecycle.Service.{
  submit_service_request, notify_stop, action_stop_conversation, complete_conversation_locally,
}
use mybot.Lifecycle.Mailbox.{set_state, request_stop, request_start, request_pair, interrupt}
use mybot.Lifecycle.Api.Run.{
  stop_call, start_call, pair_call, interrupt_call, shutdown_call, result_call, tick_call, Call,
  calls, call,
}
use mybot.Lifecycle.{
  token_renewal, conversation_ended, network, DeviceState, Interrupt, ServiceRequest, Lifecycle,
  ServiceType, Env,
}
use mybot.Lifecycle.Api.{closing, is_stale, settle, tick, service_result, shutdown}

abbrev pub Kept : Lifecycle → Lifecycle → Type 0
Kept lc lc' =
    (lc'.state ≡ lc.state)
    × (lc'.effects ≡ lc.effects)
    × (lc'.device_token ≡ lc.device_token)
    × (lc'.shutting_down ≡ true)

interrupt-Kept :
    (i : Interrupt) (lc : Lifecycle) → lc.shutting_down ≡ true → Kept lc (interrupt i lc)
unfolding interrupt
interrupt-Kept (network b) lc h = ground arith
interrupt-Kept conversation_ended lc h = ground arith
interrupt-Kept token_renewal lc h = ground arith

settle-Kept : (t : ServiceType) (lc : Lifecycle) → lc.shutting_down ≡ true → Kept lc (settle t lc)
settle-Kept ServiceType.stop lc h = (refl, refl, refl, h)
settle-Kept ServiceType.pair_poll lc h = (refl, refl, refl, h)
settle-Kept ServiceType.device_poll lc h = (refl, refl, refl, h)

result-Kept :
    (env : Env) (r : ServiceRequest) (lc : Lifecycle)
    → lc.shutting_down ≡ true
    → Kept lc (service_result env r lc)
unfolding service_result
result-Kept env r lc h =
    if-keep (Kept lc) (is_stale r (settle r.type lc)) (λ t. settle-Kept r.type lc h)
      (λ t. absurd (open_at (settle-Kept r.type lc h) t))
  where
    open_at : Kept lc (settle r.type lc) → is_stale r (settle r.type lc) ≡ false → ⊥
    open_at k t = ground arith

call-Kept :
    (c : Call) (lc : Lifecycle)
    → lc.state ≢ DeviceState.in_conversation
    → lc.shutting_down ≡ true
    → Kept lc (call c lc)
unfolding call tick shutdown request_pair request_start request_stop
call-Kept (tick_call env) lc s h = ground arith
call-Kept (result_call env r) lc s h = result-Kept env r lc h
call-Kept (shutdown_call env) lc s h = ground arith
call-Kept (interrupt_call i) lc s h = interrupt-Kept i lc h
call-Kept pair_call lc s h = ground arith
call-Kept start_call lc s h = ground arith
call-Kept stop_call lc s h = ground arith

calls-Kept :
    (cs : List Call) (lc : Lifecycle)
    → lc.state ≢ DeviceState.in_conversation
    → lc.shutting_down ≡ true
    → Kept lc (calls lc cs)
unfolding calls
calls-Kept [] lc s h = (refl, refl, refl, h)
calls-Kept (c ∷ cs) lc s h =
    let (e, f, t, d) = call-Kept c lc s h in
    let (e', f', t', d') = calls-Kept cs (call c lc) (λ q. s (sym e ∙ q)) d in
    (e' ∙ e, f' ∙ f, t' ∙ t, d')

complete_shut :
    (env : Env) (lc : Lifecycle)
    → lc.shutting_down ≡ true
    → let lc' = complete_conversation_locally env lc in
      (lc'.state ≡ DeviceState.runtime) × (lc'.shutting_down ≡ true)
unfolding complete_conversation_locally set_state
complete_shut env lc h =
    let (s, r, a, p, g, e, q) = interrupts-Mailboxed env.during_stop (emptied lc) in
    rw e (ground arith, ground arith)

shutdown_shut :
    (env : Env) (lc : Lifecycle)
    → ((shutdown env lc).state ≢ DeviceState.in_conversation)
      × ((shutdown env lc).shutting_down ≡ true)
unfolding shutdown action_stop_conversation notify_stop submit_service_request
shutdown_shut env lc = ground (arith, complete_shut env (closing lc) refl)

-- Shutdown leaves no conversation open, and after it no sequence of calls changes the state, reaches
-- a callback, the key-value store or the device service, or touches the credential.
pub shutdown_final :
    (env : Env) (lc : Lifecycle) (cs : List Call)
    → ((shutdown env lc).state ≢ DeviceState.in_conversation)
      × Kept (shutdown env lc) (calls (shutdown env lc) cs)
shutdown_final env lc cs =
    let (s, h) = shutdown_shut env lc in (s, calls-Kept cs (shutdown env lc) s h)
