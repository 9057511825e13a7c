-- ===== src/Lifecycle/Laws/Loss.antt =====
-- A lost network: the conversation ends locally, and the answers to earlier requests are dropped.

use mybot.Lifecycle.Valid.Stop.{emptied}
use mybot.Lifecycle.Valid.Frame.{with_mailbox, interrupts-Mailboxed}
use mybot.Lifecycle.Service.{complete_conversation_locally}
use mybot.Lifecycle.Api.{is_stale, settle, service_result, tick_loss, tick}
use mybot.Common.{
  inr, refl, ◌≢◌, ◌⊎◌, inl, inc64, ◌∙◌, ◌%◌, sym, ap, ◌+◌, [], length, ◌≤◌, ℕ, if-keep, suc, arith,
  ◌∷◌, false, ◌^◌, true, ◌<◌, ◌≡◌, List,
}
use mybot.Lifecycle.{
  ServiceType, token_renewal, conversation_ended, StopRequest, conversation_stopped, state_changed,
  network, DeviceState, ServiceRequest, Interrupt, Env, Lifecycle,
}
use mybot.Lifecycle.Mailbox.{state_is, set_state, interrupts, interrupt}

interrupts-loss :
    (is : List Interrupt) (lc : Lifecycle)
    → lc.network_loss_pending ≡ true
    → (interrupts is lc).network_loss_pending ≡ true
unfolding interrupts interrupt
interrupts-loss [] lc h = h
interrupts-loss (network b ∷ is) lc h = interrupts-loss is (interrupt (network b) lc) (ground arith)
interrupts-loss (conversation_ended ∷ is) lc h =
    interrupts-loss is (interrupt conversation_ended lc) (ground arith)
interrupts-loss (token_renewal ∷ is) lc h =
    interrupts-loss is (interrupt token_renewal lc) (ground arith)

lost :
    (lc : Lifecycle)
    → lc.network_available ≡ true
    → (interrupt (network false) lc).network_loss_pending ≡ true
unfolding interrupt
lost lc h = ground arith

pub complete-effects :
    (env : Env) (lc : Lifecycle)
    → lc.state ≡ DeviceState.in_conversation
    → let lc' = complete_conversation_locally env lc in
      (lc'.state ≡ DeviceState.runtime)
      × (lc'.effects ≡ state_changed DeviceState.runtime ∷ conversation_stopped ∷ lc.effects)
      × (lc'.conversation_id ≡ [])
      × (lc'.stop_request ≡ StopRequest.no_request)
unfolding complete_conversation_locally set_state
complete-effects env lc h =
    let (s, r, a, p, g, e, q) = interrupts-Mailboxed env.during_stop (emptied lc) in
    rw e (ground arith, ground arith, ground arith, ground arith)

-- What the next tick makes of a lost network.
abbrev pub Ended : Lifecycle → Lifecycle → Type 0
Ended lc lc' =
    (lc'.state ≡ DeviceState.runtime)
    × (lc'.effects ≡ state_changed DeviceState.runtime ∷ conversation_stopped ∷ lc.effects)
    × (lc'.conversation_id ≡ [])
    × (lc'.stop_request ≡ StopRequest.no_request)

tick_of_loss :
    (env : Env) (lc : Lifecycle)
    → lc.state ≡ DeviceState.in_conversation
    → lc.shutting_down ≡ false
    → lc.network_loss_pending ≡ true
    → Ended lc (tick env lc)
unfolding tick tick_loss
tick_of_loss env lc s d p =
    if-keep (Ended lc) lc.shutting_down (λ t. absurd (ground arith))
      (λ t.
        if-keep (Ended lc) lc.network_loss_pending
          (λ t.
            if-keep (Ended lc) (state_is DeviceState.in_conversation lc)
              (λ t. complete-effects env _ s) (λ t. absurd (ground arith)))
          (λ t. absurd (ground arith)))

-- A network loss in a conversation of a lifecycle that is not shut down ends it at the next tick, also
-- where the network came back and other calls fell in between: the tick tells the application to stop
-- and to see the runtime state, and nothing else, and clears the conversation's identifier and the stop
-- request.
pub loss_ends_conversation :
    (env : Env) (is : List Interrupt) (lc : Lifecycle)
    → lc.state ≡ DeviceState.in_conversation
    → lc.shutting_down ≡ false
    → lc.network_available ≡ true
    → Ended lc (tick env (interrupts (network false ∷ is) lc))
unfolding interrupts
loss_ends_conversation env is lc s d up =
    let (s', r, a, p, g, e, q) = interrupts-Mailboxed (network false ∷ is) lc in
    let pending = interrupts-loss is (interrupt (network false) lc) (lost lc up) in
    rw e (
      tick_of_loss env (with_mailbox s' r a p g lc) s d
        (ap (λ (l : Lifecycle). l.network_loss_pending) (sym e) ∙ pending))

generation_step :
    (i : Interrupt) (lc : Lifecycle)
    → ((interrupt i lc).network_generation ≡ lc.network_generation)
      ⊎ ((interrupt i lc).network_generation ≡ inc64 lc.network_generation)
unfolding interrupt
generation_step (network b) lc = ground arith
generation_step conversation_ended lc = ground arith
generation_step token_renewal lc = ground arith

-- The generation grows by at most one with each call.
generation :
    (is : List Interrupt) (lc : Lifecycle)
    → lc.network_generation < 2 ^ 64
    → (k : ℕ) × (k ≤ length is)
      × ((interrupts is lc).network_generation ≡ (lc.network_generation + k) % 2 ^ 64)
unfolding interrupts
generation [] lc h = (0, omega arith, omega arith)
generation (i ∷ is) lc h = elim (generation_step i lc) [
  | inl e ↦
      let (k, le, g) = generation is (interrupt i lc) (omega arith) in (k, omega arith, omega arith)
  | inr e ↦
      let (k, le, g) = generation is (interrupt i lc) (omega arith) in
      (suc k, omega arith, omega arith)
]

lost-generation :
    (lc : Lifecycle)
    → lc.network_available ≡ true
    → (interrupt (network false) lc).network_generation ≡ inc64 lc.network_generation
unfolding interrupt
lost-generation lc h = ground arith

settle-generation :
    (t : ServiceType) (lc : Lifecycle) → (settle t lc).network_generation ≡ lc.network_generation
settle-generation ServiceType.stop lc = refl
settle-generation _ lc = refl

stale_of_ne :
    (r : ServiceRequest) (lc : Lifecycle)
    → lc.network_generation ≢ r.network_generation
    → is_stale r lc ≡ true
stale_of_ne r lc h = ground arith

-- The answer to a request made before a network loss is dropped, whatever calls follow the loss,
-- fewer than 2^64 of them: only the flag that a poll is outstanding is cleared.
pub stale_after_loss :
    (env : Env) (is : List Interrupt) (r : ServiceRequest) (lc : Lifecycle)
    → lc.network_available ≡ true
    → lc.network_generation < 2 ^ 64
    → r.network_generation ≡ lc.network_generation
    → suc (length is) < 2 ^ 64
    → let lc' = interrupts (network false ∷ is) lc in service_result env r lc' ≡ settle r.type lc'
unfolding service_result interrupts
stale_after_loss env is r lc up g e n =
    let before = interrupt (network false) lc in
    let first : before.network_generation ≡ inc64 lc.network_generation = lost-generation lc up in
    let (k, le, grown) = generation is before (omega arith) in
    let lc' = interrupts is before in
    rw (stale_of_ne r (settle r.type lc') (omega (arith, settle-generation r.type lc'))) refl
