-- ===== src/Lifecycle/Valid/Calls.antt =====
-- The invariant holds after any sequence of calls.
use mybot.Lifecycle.Valid.Stop.{
  request_stop-IsValid, request_start-IsValid, request_pair-IsValid, complete-IsValid,
  interrupts-IsValid, action_stop-IsValid,
}
use mybot.Lifecycle.Valid.Bind.{
  apply_stop_result-IsValid, apply_binding_runtime-IsValid, apply_binding_pair-IsValid,
}
use mybot.Lifecycle.Valid.Steps.{tick-IsValid}
use mybot.Lifecycle.Mailbox.{interrupts, state_is, set_state}
use mybot.StateModel.{DeviceState}
use mybot.Lifecycle.Valid.{last_state, session, IsValid}
use mybot.Lifecycle.Api.Run.{
  tick_call, result_call, shutdown_call, interrupt_call, pair_call, start_call, stop_call,
}
use mybot.Common.{
  copy_text, true, false, is_empty, is_empty-copy_text, subst, refl, none, inr, [], inl, ◌&&◌, some,
  not, ◌∷◌, ◌≡◌, if-keep, Text, arith, Option, List,
}
use mybot.Lifecycle.Auth.{record_fits, max_token, load_reply, load_device_auth}
use mybot.Lifecycle.Api.{
  binding_of, apply_result, is_stale, closing, settle, service_result, shutdown,
}
use mybot.Lifecycle.Init.{configured, text_or_empty, restore, init}
use mybot.Lifecycle.Api.Run.{
  interrupt_call, shutdown_call, result_call, tick_call, Call, call, calls,
}
use mybot.Lifecycle.{
  emit, AuthRecord, auth_erased, StopRequest, KvReply, StopReason, ServiceRequest, Lifecycle,
  ServiceType, Env,
}

settle-IsValid : (t : ServiceType) {lc : Lifecycle} → IsValid lc → IsValid (settle t lc)
settle-IsValid ServiceType.stop v = v
settle-IsValid ServiceType.pair_poll v = ground arith
settle-IsValid ServiceType.device_poll v = ground arith

apply_result-IsValid :
    (env : Env) (r : ServiceRequest) (t : ServiceType) (s : DeviceState) {lc : Lifecycle}
    → lc.state ≡ s
    → IsValid lc
    → IsValid (apply_result env r t s lc)
apply_result-IsValid env r ServiceType.pair_poll DeviceState.awaiting_claim h v =
    apply_binding_pair-IsValid env r.result (binding_of r.payload) h v
apply_result-IsValid env r ServiceType.device_poll DeviceState.runtime h v =
    apply_binding_runtime-IsValid env r.result (binding_of r.payload) (inl h) v
apply_result-IsValid env r ServiceType.device_poll DeviceState.in_conversation h v =
    apply_binding_runtime-IsValid env r.result (binding_of r.payload) (inr h) v
apply_result-IsValid env r ServiceType.stop DeviceState.runtime h v =
    apply_stop_result-IsValid env r.result (inl h) v
apply_result-IsValid env r ServiceType.stop DeviceState.in_conversation h v =
    apply_stop_result-IsValid env r.result (inr h) v
apply_result-IsValid env r _ _ h v = v

state-settle : (t : ServiceType) (lc : Lifecycle) → (settle t lc).state ≡ lc.state
state-settle ServiceType.stop lc = refl
state-settle _ lc = refl

service_result-IsValid :
    (env : Env) (r : ServiceRequest) {lc : Lifecycle}
    → IsValid lc
    → IsValid (service_result env r lc)
unfolding service_result
service_result-IsValid env r {lc} v =
    if-keep IsValid (is_stale r (settle r.type lc)) (λ t. settle-IsValid r.type v)
      (λ t.
        apply_result-IsValid env r r.type lc.state (state-settle r.type lc)
          (settle-IsValid r.type v))

closing-IsValid : {lc : Lifecycle} → IsValid lc → IsValid (closing lc)
closing-IsValid v = ground arith

shutdown-IsValid : (env : Env) {lc : Lifecycle} → IsValid lc → IsValid (shutdown env lc)
unfolding shutdown
shutdown-IsValid env {lc} v =
    if-keep IsValid (not (state_is DeviceState.in_conversation lc)) (λ t. closing-IsValid v)
      (λ t.
        if-keep IsValid (lc.network_available && not lc.network_loss_pending)
          (λ u. action_stop-IsValid env StopReason.device_hangup (ground arith) (closing-IsValid v))
          (λ u. complete-IsValid env (ground arith) (closing-IsValid v)))

call-IsValid : (c : Call) {lc : Lifecycle} → IsValid lc → IsValid (call c lc)
unfolding call interrupts
call-IsValid (tick_call env) v = tick-IsValid env v
call-IsValid (result_call env r) v = service_result-IsValid env r v
call-IsValid (shutdown_call env) v = shutdown-IsValid env v
call-IsValid (interrupt_call i) v = interrupts-IsValid (i ∷ []) v
call-IsValid pair_call v = request_pair-IsValid v
call-IsValid start_call v = request_start-IsValid v
call-IsValid stop_call v = request_stop-IsValid v

pub calls-IsValid : (cs : List Call) {lc : Lifecycle} → IsValid lc → IsValid (calls lc cs)
unfolding calls
calls-IsValid [] v = v
calls-IsValid (c ∷ cs) v = calls-IsValid cs (call-IsValid c v)

-- A lifecycle that has done nothing yet.
record IsBlank (lc : Lifecycle) : Type 0 where
  no_state : lc.state ≡ DeviceState.unprovisioned
  no_claim_ticks : lc.pair_tick_counter ≡ 0
  no_runtime_ticks : lc.runtime_tick_counter ≡ 0
  no_pair_delay : lc.pair_retry_delay_ticks ≡ 0
  no_pair_wait : lc.pair_retry_ticks_remaining ≡ 0
  no_token_delay : lc.rtc_token_retry_delay_ticks ≡ 0
  no_token_wait : lc.rtc_token_retry_ticks_remaining ≡ 0
  no_stop : lc.stop_request ≡ StopRequest.no_request
  no_conversation : is_empty lc.conversation_id ≡ true
  no_session : session lc.effects ≡ some false
  no_report : last_state lc.effects ≡ DeviceState.unprovisioned

restored-IsValid :
    {lc : Lifecycle} → IsBlank lc → is_empty lc.device_token ≡ false → IsValid (restore (lc, true))
unfolding restore set_state
restored-IsValid b h = ground arith

unrestored-IsValid : {lc : Lifecycle} → IsBlank lc → IsValid (restore (lc, false))
unfolding restore set_state
unrestored-IsValid b = ground arith

configured-IsBlank :
    (server device firmware model : Text) → IsBlank (configured server device firmware model)
configured-IsBlank server device firmware model = record {
  no_state = refl;
  no_claim_ticks = refl;
  no_runtime_ticks = refl;
  no_pair_delay = refl;
  no_pair_wait = refl;
  no_token_delay = refl;
  no_token_wait = refl;
  no_stop = refl;
  no_conversation = refl;
  no_session = refl;
  no_report = refl;
}

erased-IsBlank : {lc : Lifecycle} → IsBlank lc → IsBlank (emit auth_erased lc)
erased-IsBlank b = ground arith

token-IsBlank : {lc : Lifecycle} (t : Text) → IsBlank lc → IsBlank (record lc { device_token = t })
token-IsBlank t b = ground arith

record_fits-token :
    (r : AuthRecord) (lc : Lifecycle)
    → record_fits r lc ≡ true
    → is_empty (copy_text max_token r.device_token) ≡ false
unfolding record_fits
record_fits-token r lc h = ground (arith, is_empty-copy_text max_token r.device_token)

restore-IsValid : (k : KvReply) {lc : Lifecycle} → IsBlank lc → IsValid (restore (load_reply k lc))
unfolding load_reply
restore-IsValid KvReply.not_found b = unrestored-IsValid b
restore-IsValid KvReply.unreadable {lc} b = unrestored-IsValid (erased-IsBlank b)
restore-IsValid (KvReply.found r) {lc} b =
    if-keep (λ l. IsValid (restore l)) (record_fits r lc)
      (λ t.
        restored-IsValid (token-IsBlank (copy_text max_token r.device_token) b)
          (record_fits-token r lc t))
      (λ t. unrestored-IsValid (erased-IsBlank b))

load-IsValid :
    (env : Env) (server device firmware model : Text)
    → IsValid (restore (load_device_auth env (configured server device firmware model)))
unfolding load_device_auth
load-IsValid env server device firmware model =
    if-keep (λ l. IsValid (restore l)) (not env.alloc_record)
      (λ t. unrestored-IsValid (configured-IsBlank server device firmware model))
      (λ t. restore-IsValid env.kv_get (configured-IsBlank server device firmware model))

some-IsValid : {a lc : Lifecycle} → IsValid a → some a ≡ some lc → IsValid lc
some-IsValid v e = subst IsValid (ground arith) v

none-IsValid : {lc : Lifecycle} → none ≡ some lc → IsValid lc
none-IsValid e = absurd (cc)

init-IsValid :
    (env : Env) (server device firmware model : Option Text) {lc : Lifecycle}
    → init env server device firmware model ≡ some lc
    → IsValid lc
unfolding init
init-IsValid env none device firmware model e = absurd (cc)
init-IsValid env (some server) none firmware model e = absurd (cc)
init-IsValid env (some server) (some device) firmware model {lc} e =
    if-keep (λ o. o ≡ some lc → IsValid lc) _ (λ t. none-IsValid)
      (λ t.
        some-IsValid
          (load-IsValid env server device (text_or_empty firmware) (text_or_empty model)))
      e

-- From a successful initialisation, every sequence of calls leaves the lifecycle valid: ticks, results
-- of the background service, shutdown, the requests of the application and the mailbox calls of other
-- threads, with whatever the surroundings answer and whatever calls fall into the waits.
pub run-IsValid :
    (env : Env) (server device firmware model : Option Text) (cs : List Call) {lc : Lifecycle}
    → init env server device firmware model ≡ some lc
    → IsValid (calls lc cs)
run-IsValid env server device firmware model cs e =
    calls-IsValid cs (init-IsValid env server device firmware model e)
