-- ===== src/Lifecycle/Valid/Talk.antt =====
-- Starting a conversation and renewing its token keep the invariant.
use mybot.Lifecycle.Service.{action_stop_conversation}
use mybot.Lifecycle.Valid.Frame.{interrupts-Mailboxed}
use mybot.Lifecycle.Valid.Stop.{effects-IsValid, with_mailbox-IsValid, action_stop-IsValid}
use mybot.Lifecycle.Auth.{max_id}
use mybot.Lifecycle.Valid.Pair.{next_retry_bounds}
use mybot.Lifecycle.Valid.Bind.{restart-IsValid, invalidate-IsValid}
use mybot.StateModel.{DeviceState}
use mybot.Lifecycle.Valid.{IsValid}
use mybot.Common.{
  true, refl, is_code, ◌||◌, is_empty, not, if-keep, ◌∷◌, sym, inl, subst, is_empty-copy_text, inr,
  ℤ, arith, ◌≡◌, ℕ,
}
use mybot.Lifecycle.Mailbox.{
  api_rejected_device_auth, network_request_is_current, interrupts, set_state,
}
use mybot.Lifecycle.{
  StopReason, renew_called, start_called, emit, Conversation, RtcToken, Env, Lifecycle,
}
use mybot.Lifecycle.Session.{
  enter_conversation, valid_id, action_start_conversation, action_renew_rtc_token, start_reply,
  hand_over, schedule_rtc_token_retry, renew_reply,
}

enter-IsValid :
    (resp : Conversation) {lc : Lifecycle}
    → lc.state ≡ DeviceState.runtime
    → valid_id resp.conversation_id ≡ true
    → IsValid lc
    → IsValid (enter_conversation resp lc)
unfolding enter_conversation set_state
enter-IsValid resp {lc} h t v = ground (arith, is_empty-copy_text max_id resp.conversation_id)

start_reply-IsValid :
    (g : ℕ) (reply : ℤ × Conversation) {lc : Lifecycle}
    → lc.state ≡ DeviceState.runtime
    → IsValid lc
    → IsValid (start_reply g reply lc)
unfolding start_reply
start_reply-IsValid g (ret, resp) {lc} h v =
    if-keep IsValid (not (network_request_is_current lc g)) (λ t. v)
      (λ t.
        if-keep IsValid (api_rejected_device_auth ret) (λ t. restart-IsValid (inl h) v)
          (λ t.
            if-keep IsValid (not (is_code 0 ret)) (λ t. v)
              (λ t.
                if-keep IsValid (not (valid_id resp.conversation_id)) (λ t. v)
                  (λ t. enter-IsValid resp h (ground arith) v))))

pub start-IsValid :
    (env : Env) {lc : Lifecycle}
    → lc.state ≡ DeviceState.runtime
    → IsValid lc
    → IsValid (action_start_conversation env lc)
unfolding action_start_conversation
start-IsValid env {lc} h v =
    if-keep IsValid (not env.alloc_response) (λ t. v)
      (λ t. if-keep IsValid (not lc.network_available) (λ u. v) (λ u. called))
  where
    reply : ℤ × Conversation
    reply = env.start_conversation lc.server_base lc.device_id lc.device_token

    called : IsValid (
        start_reply lc.network_generation reply (interrupts env.during_call (emit start_called lc)))
    called =
        let (s, r, a, p, g, e, q) = interrupts-Mailboxed env.during_call (emit start_called lc) in
        subst (λ l. IsValid (start_reply lc.network_generation reply l)) (sym e)
          (start_reply-IsValid lc.network_generation reply h (
            with_mailbox-IsValid s r a p g q
              (effects-IsValid (start_called ∷ lc.effects) refl refl v)))

schedule-IsValid : {lc : Lifecycle} → IsValid lc → IsValid (schedule_rtc_token_retry lc)
unfolding schedule_rtc_token_retry
schedule-IsValid {lc} v = ground (arith, next_retry_bounds lc.rtc_token_retry_delay_ticks 10 100)

hand_over-IsValid :
    (env : Env) (resp : RtcToken) {lc : Lifecycle} → IsValid lc → IsValid (hand_over env resp lc)
unfolding hand_over
hand_over-IsValid env resp v = ground (arith, schedule-IsValid v)

renew_reply-IsValid :
    (env : Env) (g : ℕ) (reply : ℤ × RtcToken) {lc : Lifecycle}
    → lc.state ≡ DeviceState.in_conversation
    → IsValid lc
    → IsValid (renew_reply env g reply lc)
unfolding renew_reply
renew_reply-IsValid env g (ret, resp) {lc} h v =
    if-keep IsValid (not (network_request_is_current lc g)) (λ t. v)
      (λ t.
        if-keep IsValid (api_rejected_device_auth ret) (λ t. invalidate-IsValid env (inr h) v)
          (λ t.
            if-keep IsValid (is_code 400 ret || is_code 410 ret) (λ t. stopped)
              (λ t.
                if-keep IsValid (not (is_code 0 ret)) (λ t. schedule-IsValid v)
                  (λ t. if-keep IsValid _ (λ t. stopped) (λ t. hand_over-IsValid env resp v)))))
  where
    stopped : IsValid (action_stop_conversation env StopReason.error lc)
    stopped = action_stop-IsValid env StopReason.error h v

pub renew-IsValid :
    (env : Env) {lc : Lifecycle}
    → lc.state ≡ DeviceState.in_conversation
    → IsValid lc
    → IsValid (action_renew_rtc_token env lc)
unfolding action_renew_rtc_token
renew-IsValid env {lc} h v =
    if-keep IsValid (is_empty lc.rtc_channel || is_empty lc.rtc_uid)
      (λ t. action_stop-IsValid env StopReason.error h v) (λ t. called)
  where
    reply : ℤ × RtcToken
    reply =
        env.renew_rtc_token lc.server_base lc.device_id lc.device_token lc.rtc_channel lc.rtc_uid

    called : IsValid (
        renew_reply env lc.network_generation reply
          (interrupts env.during_call (emit renew_called lc)))
    called =
        let (s, r, a, p, g, e, q) = interrupts-Mailboxed env.during_call (emit renew_called lc) in
        subst (λ l. IsValid (renew_reply env lc.network_generation reply l)) (sym e)
          (renew_reply-IsValid env lc.network_generation reply h (
            with_mailbox-IsValid s r a p g q
              (effects-IsValid (renew_called ∷ lc.effects) refl refl v)))
