-- ===== src/Lifecycle/Valid/Frame.antt =====
-- What the calls of other threads can change in a lifecycle.
use mybot.Common.{ℕ, ◌≡◌, refl, ap, ◌∙◌, ◌⊎◌, inr, arith, Bool, List, [], ◌∷◌}
use mybot.StateModel.{DeviceState}
use mybot.Lifecycle.{StopRequest, Lifecycle, Interrupt, network, conversation_ended, token_renewal}
use mybot.Lifecycle.Mailbox.{interrupt, interrupts}

-- A lifecycle with the five mailbox fields given anew.
abbrev pub with_mailbox : StopRequest → Bool → Bool → Bool → ℕ → Lifecycle → Lifecycle
with_mailbox s r a p g lc = record lc {
  stop_request = s;
  rtc_token_renewal_requested = r;
  network_available = a;
  network_loss_pending = p;
  network_generation = g;
}

abbrev pub Mailboxed : Lifecycle → Lifecycle → Type 0
Mailboxed lc lc' =
    (s : StopRequest) × (r : Bool) × (a : Bool) × (p : Bool) × (g : ℕ) × (lc'
      ≡ with_mailbox s r a p g lc)
    × ((lc.state ≡ DeviceState.in_conversation) ⊎ (s ≡ lc.stop_request))

abbrev same : (lc : Lifecycle) → Mailboxed lc lc
same lc = (
  lc.stop_request,
  lc.rtc_token_renewal_requested,
  lc.network_available,
  lc.network_loss_pending,
  lc.network_generation,
  refl,
  inr refl,
)

interrupt-Mailboxed : (i : Interrupt) (lc : Lifecycle) → Mailboxed lc (interrupt i lc)
unfolding interrupt
interrupt-Mailboxed i lc = (
  (interrupt i lc).stop_request,
  (interrupt i lc).rtc_token_renewal_requested,
  (interrupt i lc).network_available,
  (interrupt i lc).network_loss_pending,
  (interrupt i lc).network_generation,
  shape i,
  stop i,
)
  where
    shape :
        (i : Interrupt)
        → interrupt i lc
          ≡ with_mailbox
              (interrupt i lc).stop_request
              (interrupt i lc).rtc_token_renewal_requested
              (interrupt i lc).network_available
              (interrupt i lc).network_loss_pending
              (interrupt i lc).network_generation
              lc
    shape (network b) = ground arith
    shape conversation_ended = ground arith
    shape token_renewal = ground arith

    stop :
        (i : Interrupt)
        → (lc.state ≡ DeviceState.in_conversation)
          ⊎ ((interrupt i lc).stop_request ≡ lc.stop_request)
    stop (network b) = ground arith
    stop conversation_ended = ground arith
    stop token_renewal = ground arith

-- The calls that fall in a wait change the mailbox only, and post a stop request only in a
-- conversation.
pub interrupts-Mailboxed : (is : List Interrupt) (lc : Lifecycle) → Mailboxed lc (interrupts is lc)
unfolding interrupts
interrupts-Mailboxed [] lc = same lc
interrupts-Mailboxed (i ∷ is) lc =
    let (s, r, a, p, g, e, q) = interrupt-Mailboxed i lc in
    let (s', r', a', p', g', e', q') = interrupts-Mailboxed is (interrupt i lc) in
    (s', r', a', p', g', e' ∙ ap (with_mailbox s' r' a' p' g') e, ground arith)
