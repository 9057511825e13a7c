-- ===== src/Lifecycle/Valid/Stop.antt =====
-- The mailbox operations and the end of a conversation keep the invariant.
use mybot.Common.{
  refl, not, ◌∷◌, is_empty, Text, if-keep, ℕ, ◌≡◌, ◌⊎◌, arith, Bool, false, List, [],
}
use mybot.StateModel.{DeviceState}
use mybot.Lifecycle.{
  submitted, ServiceRequest, StopReason, ServiceType, Effect, StopRequest, Lifecycle, Env,
  Interrupt, emit, conversation_stopped,
}
use mybot.Lifecycle.Mailbox.{
  network_request_is_current, interrupts, request_pair, request_start, request_stop, set_state,
}
use mybot.Lifecycle.Service.{
  notify_stop, submit_service_request, action_stop_conversation, action_poll_binding,
  complete_conversation_locally,
}
use mybot.Lifecycle.Valid.{last_state, session, IsValid}
use mybot.Lifecycle.Valid.Frame.{with_mailbox, interrupts-Mailboxed}

pub with_mailbox-IsValid :
    {lc : Lifecycle} (s : StopRequest) (r a p : Bool) (g : ℕ)
    → (lc.state ≡ DeviceState.in_conversation) ⊎ (s ≡ lc.stop_request)
    → IsValid lc
    → IsValid (with_mailbox s r a p g lc)
with_mailbox-IsValid s r a p g h v = ground arith

-- Calls of other threads keep the invariant.
pub interrupts-IsValid :
    (is : List Interrupt) {lc : Lifecycle} → IsValid lc → IsValid (interrupts is lc)
interrupts-IsValid is {lc} v =
    let (s, r, a, p, g, e, q) = interrupts-Mailboxed is lc in
    rw e (with_mailbox-IsValid s r a p g q v)

pub request_pair-IsValid : {lc : Lifecycle} → IsValid lc → IsValid (request_pair lc)
unfolding request_pair
request_pair-IsValid v = ground arith

pub request_start-IsValid : {lc : Lifecycle} → IsValid lc → IsValid (request_start lc)
unfolding request_start
request_start-IsValid v = ground arith

pub request_stop-IsValid : {lc : Lifecycle} → IsValid lc → IsValid (request_stop lc)
unfolding request_stop
request_stop-IsValid v = ground arith

-- A conversation after its local end, when the callback runs.
abbrev pub emptied : Lifecycle → Lifecycle
emptied lc = emit conversation_stopped (record lc {
  conversation_id = [];
  rtc_token_renewal_requested = false;
  rtc_token_renewal_pending = false;
  rtc_token_retry_delay_ticks = 0;
  rtc_token_retry_ticks_remaining = 0;
  rtc_channel = [];
  rtc_uid = [];
  rtc_agent_uid = [];
})

complete_after :
    (s : StopRequest) (r a p : Bool) (g : ℕ) {lc : Lifecycle}
    → lc.state ≡ DeviceState.in_conversation
    → IsValid lc
    → IsValid (set_state DeviceState.runtime (with_mailbox s r a p g (emptied lc)))
unfolding set_state
complete_after s r a p g h v = ground arith

-- The local end of a conversation keeps the invariant and leaves the runtime state.
pub complete-IsValid :
    (env : Env) {lc : Lifecycle}
    → lc.state ≡ DeviceState.in_conversation
    → IsValid lc
    → IsValid (complete_conversation_locally env lc)
unfolding complete_conversation_locally
complete-IsValid env {lc} h v =
    let (s, r, a, p, g, e, q) = interrupts-Mailboxed env.during_stop (emptied lc) in
    rw e (complete_after s r a p g h v)

pub effects-IsValid :
    {lc : Lifecycle} (es : List Effect)
    → session es ≡ session lc.effects
    → last_state es ≡ last_state lc.effects
    → IsValid lc
    → IsValid (record lc { effects = es })
effects-IsValid es h k v = ground arith

submit-IsValid :
    (env : Env) (r : ServiceRequest) {lc : Lifecycle}
    → IsValid lc
    → IsValid (submit_service_request env r lc).0
unfolding submit_service_request
submit-IsValid env r {lc} v =
    if-keep (λ (q : Lifecycle × Bool). IsValid q.0) (env.submit_accepts r)
      (λ t. effects-IsValid (submitted r ∷ lc.effects) refl refl v) (λ t. v)

notify-IsValid :
    (env : Env) (id : Text) (g : ℕ) (reason : StopReason) {lc : Lifecycle}
    → IsValid lc
    → IsValid (notify_stop env id g reason lc)
unfolding notify_stop
notify-IsValid env id g reason {lc} v =
    if-keep IsValid (is_empty id) (λ t. v)
      (λ t.
        if-keep IsValid (not (network_request_is_current lc g)) (λ t. v)
          (λ t. if-keep IsValid (not env.alloc_request) (λ t. v) (λ t. submit-IsValid env _ v)))

pub action_stop-IsValid :
    (env : Env) (reason : StopReason) {lc : Lifecycle}
    → lc.state ≡ DeviceState.in_conversation
    → IsValid lc
    → IsValid (action_stop_conversation env reason lc)
unfolding action_stop_conversation
action_stop-IsValid env reason {lc} h v =
    notify-IsValid env lc.conversation_id lc.network_generation reason (complete-IsValid env h v)

pub action_poll-IsValid :
    (env : Env) (t : ServiceType) {lc : Lifecycle}
    → IsValid lc
    → IsValid (action_poll_binding env t lc)
unfolding action_poll_binding
action_poll-IsValid env t v = ground arith
