-- ===== src/Lifecycle/Valid.antt =====
-- The invariant of mybot_device_lifecycle.c.
pub mod Frame
pub mod Stop
pub mod Pair
pub mod Bind
pub mod Talk
pub mod Steps
pub mod Calls
use mybot.Common.{
  [], ◌∷◌, none, Option, Bool, some, List, ℕ, ◌≡◌, ◌≢◌, ◌⊎◌, ◌≤◌, ◌<◌, true, false, is_empty,
}
use mybot.StateModel.{DeviceState}
use mybot.Lifecycle.{
  conversation_stopped, state_changed, conversation_started, Effect, StopRequest, Lifecycle,
}

abbrev opened : Option Bool → Option Bool
opened (some false) = some true
opened _ = none

abbrev closed : Option Bool → Option Bool
closed (some true) = some false
closed _ = none

-- Whether a conversation is open after the effects, newest first; `none` where a start follows a
-- start, or a stop has no start before it.
abbrev pub session : List Effect → Option Bool
session [] = some false
session (conversation_started c ∷ es) = opened (session es)
session (conversation_stopped ∷ es) = closed (session es)
session (_ ∷ es) = session es

-- The state that `on_state_changed` reported last.
abbrev pub last_state : List Effect → DeviceState
last_state [] = DeviceState.unprovisioned
last_state (state_changed s ∷ es) = s
last_state (_ ∷ es) = last_state es

abbrev pub is_talking : DeviceState → Bool
is_talking DeviceState.in_conversation = true
is_talking _ = false

-- What holds between two operations: the intervals and delays are in range; a stop request and a
-- conversation identifier exist only in a conversation, which has an identifier; runtime states have
-- a credential; the pairing state is passed through within one tick; and an unprovisioned device has
-- a pairing attempt ahead, unless it shuts down. The callbacks that start and stop a conversation
-- alternate, the device is in a conversation exactly while one is open, and its state is the one
-- reported last.
pub record IsValid (lc : Lifecycle) : Type 0 where
  pub claim_interval :
      lc.state ≡ DeviceState.awaiting_claim
      → (3 ≤ lc.pair_poll_interval) × (lc.pair_poll_interval ≤ 60)
  pub runtime_interval :
      (lc.state ≡ DeviceState.runtime) ⊎ (lc.state ≡ DeviceState.in_conversation)
      → (3 ≤ lc.runtime_poll_interval) × (lc.runtime_poll_interval ≤ 60)
  pub claim_counter : lc.pair_tick_counter < 600
  pub runtime_counter : lc.runtime_tick_counter < 600
  pub pair_delay : lc.pair_retry_delay_ticks ≤ 600
  pub pair_remaining : lc.pair_retry_ticks_remaining ≤ lc.pair_retry_delay_ticks
  pub token_delay : lc.rtc_token_retry_delay_ticks ≤ 100
  pub token_remaining : lc.rtc_token_retry_ticks_remaining ≤ lc.rtc_token_retry_delay_ticks
  pub stop_in_conversation :
      (lc.state ≡ DeviceState.in_conversation) ⊎ (lc.stop_request ≡ StopRequest.no_request)
  pub talking : lc.state ≡ DeviceState.in_conversation → is_empty lc.conversation_id ≡ false
  pub silent : (lc.state ≡ DeviceState.in_conversation) ⊎ (is_empty lc.conversation_id ≡ true)
  pub credential :
      (lc.state ≡ DeviceState.runtime) ⊎ (lc.state ≡ DeviceState.in_conversation)
      → is_empty lc.device_token ≡ false
  pub settled : lc.state ≢ DeviceState.pairing
  pub provisioning :
      lc.state ≡ DeviceState.unprovisioned
      → lc.shutting_down ≡ false
      → (lc.pairing_requested ≡ true) ⊎ (0 < lc.pair_retry_ticks_remaining)
  pub sessions : session lc.effects ≡ some (is_talking lc.state)
  pub reported : last_state lc.effects ≡ lc.state
