-- ===== src/Lifecycle/Laws/Asked.antt =====
-- The effects of a request for a pair code.
use mybot.Lifecycle.Pairing.{
  pair_code_obtained, action_create_pair_code, pair_code_failed, pair_code_reply,
}
use mybot.Lifecycle.{
  DeviceState, Env, Lifecycle, Effect, PairCode, pair_code_called, pair_code_shown, state_changed,
  emit,
}
use mybot.Lifecycle.Valid.Frame.{interrupts-Mailboxed}
use mybot.Lifecycle.Mailbox.{set_state, state_is, interrupts, network_request_is_current}
use mybot.Common.{
  ◌∙◌, ap, refl, true, [], false, arith, ◌∷◌, ◌≡◌, List, ℕ, ℤ, ◌++◌, sym, append_assoc, if-keep,
  not, is_code,
}

-- Setting a state logs at most its report.
set_state-effects :
    (s : DeviceState) (lc : Lifecycle)
    → (later : List Effect) × ((set_state s lc).effects ≡ later ++ lc.effects)
unfolding set_state
set_state-effects s lc =
    if-keep (λ (r : Lifecycle). (later : List Effect) × (r.effects ≡ later ++ lc.effects))
      (state_is s lc) (λ t. ([], refl)) (λ t. (state_changed s ∷ [], ground arith))

pub set_state-effects_ne :
    (s : DeviceState) (lc : Lifecycle)
    → state_is s lc ≡ false
    → (set_state s lc).effects ≡ state_changed s ∷ lc.effects
unfolding set_state
set_state-effects_ne s lc h = ground arith

reply-effects :
    (generation : ℕ) (answer : ℤ × PairCode) (lc : Lifecycle)
    → (later : List Effect) × ((pair_code_reply generation answer lc).effects ≡ later ++ lc.effects)
unfolding pair_code_reply pair_code_failed pair_code_obtained
reply-effects generation (ret, resp) lc =
    if-keep (λ (r : Lifecycle). (later : List Effect) × (r.effects ≡ later ++ lc.effects))
      (not (network_request_is_current lc generation))
      (λ t. set_state-effects DeviceState.unprovisioned lc)
      (λ t.
        if-keep (λ (r : Lifecycle). (later : List Effect) × (r.effects ≡ later ++ lc.effects))
          (not (is_code 0 ret)) (λ t. set_state-effects DeviceState.unprovisioned _)
          (λ t.
            let (later, e) = set_state-effects DeviceState.awaiting_claim _ in
            (
              later ++ (pair_code_shown resp.code ∷ []),
              e ∙ sym (append_assoc later (pair_code_shown resp.code ∷ []) lc.effects),
            )))

pub create-asks :
    (env : Env) (lc : Lifecycle)
    → lc.network_available ≡ true
    → (later : List Effect) × ((action_create_pair_code env lc).effects
        ≡ later ++ (pair_code_called ∷ lc.effects))
unfolding action_create_pair_code
create-asks env lc up =
    if-keep
      (λ (r : Lifecycle).
        (later : List Effect) × (r.effects ≡ later ++ (pair_code_called ∷ lc.effects)))
      (not lc.network_available) (λ t. absurd (ground arith))
      (λ t.
        let (s, r, a, p, g, e, q) =
          interrupts-Mailboxed env.during_call (emit pair_code_called lc) in
        let (later, k) =
          reply-effects lc.network_generation
            (env.create_pair_code lc.server_base lc.device_id lc.firmware_ver lc.hw_model)
            (interrupts env.during_call (emit pair_code_called lc)) in
        (later, k ∙ ap (λ (l : Lifecycle). later ++ l.effects) e))
