-- ===== src/Lifecycle/Laws/Retry.antt =====
-- The delays between attempts, and the attempt that follows them.
use mybot.Lifecycle.Pairing.{action_create_pair_code}
use mybot.Lifecycle.{DeviceState, Env, Lifecycle, Effect, pair_code_called, state_changed}
use mybot.Lifecycle.Mailbox.{set_state, next_retry_delay_ticks, state_is}
use mybot.Common.{◌∙◌, ap, refl, true, [], false, arith, ◌∷◌, length, zero, suc, ◌≡◌, List, ℕ, ◌++◌}
use mybot.Lifecycle.Api.{tick_unprovisioned, tick}
use mybot.Lifecycle.Laws.Asked.{set_state-effects_ne, create-asks}

-- The delay after `n` failures in a row, from none.
delay_after : ℕ → ℕ → ℕ → ℕ
delay_after initial maximum zero = 0
delay_after initial maximum (suc n) =
    next_retry_delay_ticks (delay_after initial maximum n) initial maximum

pub times : ℕ → (Lifecycle → Lifecycle) → Lifecycle → Lifecycle
times zero f lc = lc
times (suc n) f lc = f (times n f lc)

pub ticks : List Env → Lifecycle → Lifecycle
ticks [] lc = lc
ticks (env ∷ envs) lc = ticks envs (tick env lc)

-- An unprovisioned device with the network up waits.
abbrev pub Waiting : Lifecycle → Type 0
Waiting lc =
    (lc.state ≡ DeviceState.unprovisioned)
    × (lc.shutting_down ≡ false)
    × (lc.network_loss_pending ≡ false)
    × (lc.network_available ≡ true)
    × (lc.pairing_requested ≡ false)

wait_tick :
    (env : Env) (lc : Lifecycle) (k : ℕ)
    → Waiting lc
    → lc.pair_retry_ticks_remaining ≡ suc (suc k)
    → tick env lc ≡ record lc { pair_retry_ticks_remaining = suc k }
unfolding tick tick_unprovisioned
wait_tick env lc k w e = ground arith

last_tick :
    (env : Env) (lc : Lifecycle)
    → Waiting lc
    → lc.pair_retry_ticks_remaining ≡ 1
    → tick env lc
      ≡ action_create_pair_code env
          (set_state DeviceState.pairing (record lc { pair_retry_ticks_remaining = 0 }))
unfolding tick tick_unprovisioned
last_tick env lc w e = ground arith

-- The effects of `lc'` are those of `lc`, then the report of pairing, then the call of the device
-- client, and then those of what it answers.
abbrev pub PairCodeAsked : Lifecycle → Lifecycle → Type 0
PairCodeAsked lc lc' =
    (later : List Effect) × (lc'.effects
      ≡ later ++ (pair_code_called ∷ state_changed DeviceState.pairing ∷ lc.effects))

still_up :
    (lc : Lifecycle)
    → lc.network_available ≡ true
    → (set_state DeviceState.pairing lc).network_available ≡ true
unfolding set_state
still_up lc h = ground arith

unlike :
    (lc : Lifecycle)
    → lc.state ≡ DeviceState.unprovisioned
    → state_is DeviceState.pairing lc ≡ false
unlike lc h = rw h refl

last_asks :
    (env : Env) (lc : Lifecycle)
    → Waiting lc
    → lc.pair_retry_ticks_remaining ≡ 1
    → PairCodeAsked lc (tick env lc)
last_asks env lc w e =
    let lc' : Lifecycle = record lc { pair_retry_ticks_remaining = 0 } in
    let (later, k) = create-asks env (set_state DeviceState.pairing lc') (still_up lc' w.3) in
    (
      later,
      ap (λ (l : Lifecycle). l.effects) (last_tick env lc w e)
          ∙ k
          ∙ ap (λ t. later ++ (pair_code_called ∷ t))
              (set_state-effects_ne DeviceState.pairing lc' (unlike lc w.0)),
    )

-- An unprovisioned device that waits with the network up and n + 1 ticks to go changes only its
-- count for n ticks; in the tick after them it sets the pairing state, reports it and calls the
-- device client for a pair code, as `action_create_pair_code` does.
pub pair_retry_fires :
    (envs : List Env) (env : Env) (lc : Lifecycle)
    → Waiting lc
    → lc.pair_retry_ticks_remaining ≡ suc (length envs)
    → (ticks envs lc ≡ record lc { pair_retry_ticks_remaining = 1 })
      × (tick env (ticks envs lc)
          ≡ action_create_pair_code env
              (set_state DeviceState.pairing (record lc { pair_retry_ticks_remaining = 0 })))
      × PairCodeAsked lc (tick env (ticks envs lc))
unfolding ticks
pair_retry_fires [] env lc w e = (
  ap (λ k. record lc { pair_retry_ticks_remaining = k }) e,
  last_tick env lc w e,
  last_asks env lc w e,
)
pair_retry_fires (env' ∷ envs) env lc w e =
    let lc' : Lifecycle = record lc { pair_retry_ticks_remaining = suc (length envs) } in
    let (stays, fires, asked) = pair_retry_fires envs env lc' w refl in
    rw (wait_tick env' lc (length envs) w e) (stays, fires, asked)
