-- ===== src/Lifecycle/Valid/Pair.antt =====
-- The pairing operations keep the invariant.
use mybot.Lifecycle.Valid.Frame.{with_mailbox, interrupts-Mailboxed}
use mybot.StateModel.{DeviceState}
use mybot.Lifecycle.Valid.{last_state, session, IsValid}
use mybot.Common.{
  false, some, not, if-keep, sym, subst, true, ◌⊎◌, is_empty, ◌≡◌, arith, Bool, ◌≤◌, ℕ, ℤ, ◌<◌,
}
use mybot.Lifecycle.{
  pair_code_called, DeviceState, emit, PairCode, Env, StopRequest, ℤ, ℕ, Lifecycle,
}
use mybot.Lifecycle.Pairing.{pair_again, pair_code_reply, action_create_pair_code}
use mybot.Lifecycle.Mailbox.{interrupts, next_retry_delay_ticks, set_state, clamp_poll_interval}

pub record IsReady (lc : Lifecycle) : Type 0 where
  pub claim_counter : lc.pair_tick_counter < 600
  pub runtime_counter : lc.runtime_tick_counter < 600
  pub pair_delay : lc.pair_retry_delay_ticks ≤ 600
  pub pair_remaining : lc.pair_retry_ticks_remaining ≤ lc.pair_retry_delay_ticks
  pub token_delay : lc.rtc_token_retry_delay_ticks ≤ 100
  pub token_remaining : lc.rtc_token_retry_ticks_remaining ≤ lc.rtc_token_retry_delay_ticks
  pub no_stop : lc.stop_request ≡ StopRequest.no_request
  pub no_conversation : is_empty lc.conversation_id ≡ true
  pub in_pairing : lc.state ≡ DeviceState.pairing
  pub closed_session : session lc.effects ≡ some false
  pub reported : last_state lc.effects ≡ lc.state

pub clamp_poll_interval_bounds :
    (seconds : ℤ) → (3 ≤ clamp_poll_interval seconds) × (clamp_poll_interval seconds ≤ 60)
unfolding clamp_poll_interval
clamp_poll_interval_bounds (ℤ.pos n) = ground arith
clamp_poll_interval_bounds (ℤ.negsuc n) = ground arith

pub next_retry_bounds :
    (current initial maximum : ℕ)
    → 0 < initial
    → initial ≤ maximum
    → (0 < next_retry_delay_ticks current initial maximum)
      × (next_retry_delay_ticks current initial maximum ≤ maximum)
unfolding next_retry_delay_ticks
next_retry_bounds c i m h k = ground arith

pair_code_reply-IsValid :
    (g : ℕ) (reply : ℤ × PairCode) {lc : Lifecycle}
    → IsReady lc
    → IsValid (pair_code_reply g reply lc)
unfolding pair_code_reply set_state
pair_code_reply-IsValid g (ret, resp) {lc} v = ground (
  arith,
  clamp_poll_interval_bounds resp.poll_after_seconds,
  next_retry_bounds lc.pair_retry_delay_ticks 30 600,
)

with_mailbox-IsReady :
    {lc : Lifecycle} (s : StopRequest) (r a p : Bool) (g : ℕ)
    → (lc.state ≡ DeviceState.in_conversation) ⊎ (s ≡ lc.stop_request)
    → IsReady lc
    → IsReady (with_mailbox s r a p g lc)
with_mailbox-IsReady s r a p g h v = ground arith

pair_again-IsValid : {lc : Lifecycle} → IsReady lc → IsValid (pair_again lc)
unfolding set_state
pair_again-IsValid v = ground arith

-- The request for a pair code leaves the transient state for a valid one.
pub create_pair_code-IsValid :
    (env : Env) {lc : Lifecycle} → IsReady lc → IsValid (action_create_pair_code env lc)
unfolding action_create_pair_code
create_pair_code-IsValid env {lc} v =
    if-keep IsValid (not lc.network_available) (λ down. pair_again-IsValid v) (λ up. called)
  where
    reply : ℤ × PairCode
    reply = env.create_pair_code lc.server_base lc.device_id lc.firmware_ver lc.hw_model

    calling : IsReady (emit pair_code_called lc)
    calling = ground arith

    called : IsValid (
        pair_code_reply lc.network_generation reply
          (interrupts env.during_call (emit pair_code_called lc)))
    called =
        let (s, r, a, p, g, e, q) =
          interrupts-Mailboxed env.during_call (emit pair_code_called lc) in
        subst (λ l. IsValid (pair_code_reply lc.network_generation reply l)) (sym e)
          (pair_code_reply-IsValid lc.network_generation reply
            (with_mailbox-IsReady s r a p g q calling))
