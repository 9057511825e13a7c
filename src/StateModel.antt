-- ===== src/StateModel.antt =====
-- src/core/mybot_state_model.c: the application state, packed into one atomic word.
-- Bits 0-2 hold the runtime phase, bit 3 the online flag, bits 4-6 the device-service state. The
-- masks and shifts of the source are written as divisions and remainders by powers of two. A null
-- model is `none`; each operation returns the new word beside the C result.
pub mod Abstract
pub mod Refine
pub mod Reach
mod Tests
use mybot.Common.{ℕ, ◌+◌, ◌*◌, ◌/◌, ◌%◌, Bool, true, false, not, ◌||◌, leb, ◌==◌, if◌then◌else◌}

-- `mybot_runtime_phase_t`
pub data Phase : Type 0 where
  stopped wifi_provisioning starting_services running failed stopping : Phase

-- `mybot_device_state_t`
pub data DeviceState : Type 0 where
  unprovisioned pairing awaiting_claim runtime in_conversation : DeviceState

-- `mybot_state_t`
pub data AppState : Type 0 where
  stopped wifi_provisioning starting_services ready wifi_disconnected failed stopping
        in_conversation pairing :
      AppState

abbrev pub phase_code : Phase → ℕ
phase_code Phase.stopped = 0
phase_code Phase.wifi_provisioning = 1
phase_code Phase.starting_services = 2
phase_code Phase.running = 3
phase_code Phase.failed = 4
phase_code Phase.stopping = 5

abbrev pub device_code : DeviceState → ℕ
device_code DeviceState.unprovisioned = 0
device_code DeviceState.pairing = 1
device_code DeviceState.awaiting_claim = 2
device_code DeviceState.runtime = 3
device_code DeviceState.in_conversation = 4

-- `(snapshot & PHASE_MASK) >> PHASE_SHIFT`
abbrev pub snapshot_phase : ℕ → ℕ
snapshot_phase s = s % 8

abbrev pub snapshot_online : ℕ → Bool
snapshot_online s = s / 8 % 2 == 1

abbrev pub snapshot_device_state : ℕ → ℕ
snapshot_device_state s = s / 16 % 8

abbrev pub with_phase : ℕ → Phase → ℕ
with_phase s p = s / 8 * 8 + phase_code p

abbrev pub with_online : ℕ → Bool → ℕ
with_online s online = s / 16 * 16 + (if online then 8 else 0) + s % 8

abbrev pub with_device_state : ℕ → ℕ → ℕ
with_device_state s d = s / 128 * 128 + d % 8 * 16 + s % 16

transition_phase : Phase → Phase → Bool → ℕ → ℕ × Bool
transition_phase expected desired online s =
    if snapshot_phase s == phase_code expected
    then (with_online (with_phase s desired) online, true)
    else (s, false)

-- `mybot_state_model_reset` stores the word of the stopped phase.
pub reset : ℕ → ℕ
reset s = phase_code Phase.stopped

pub begin_start : ℕ → ℕ × Bool
unfolding transition_phase
begin_start s = transition_phase Phase.stopped Phase.wifi_provisioning false s

pub begin_services : ℕ → ℕ × Bool
unfolding transition_phase
begin_services s = transition_phase Phase.wifi_provisioning Phase.starting_services true s

pub services_ready : ℕ → ℕ × Bool
unfolding transition_phase
services_ready s = transition_phase Phase.starting_services Phase.running true s

-- The end of a conversation that a change of the network brings.
leave_conversation : ℕ → ℕ
leave_conversation next =
    if snapshot_device_state next == device_code DeviceState.in_conversation
    then with_device_state next (device_code DeviceState.runtime)
    else next

-- A change of the network ends a conversation, in either direction.
set_network : Bool → ℕ → ℕ × Bool
unfolding leave_conversation
set_network online s =
    if snapshot_phase s == phase_code Phase.running
    then (leave_conversation (with_online s online), true)
    else (s, false)

pub network_lost : ℕ → ℕ × Bool
unfolding set_network
network_lost s = set_network false s

pub network_restored : ℕ → ℕ × Bool
unfolding set_network
network_restored s = set_network true s

-- The argument is the raw enumeration value; one above the last is refused.
pub set_device_state : ℕ → ℕ → ℕ × Bool
set_device_state d s =
    if leb d (device_code DeviceState.in_conversation)
    then (with_device_state s d, true)
    else (s, false)

pub fail : ℕ → ℕ × Bool
fail s =
    let phase = snapshot_phase s in
    if phase == phase_code Phase.stopped
      || phase == phase_code Phase.stopping
      || phase == phase_code Phase.failed
    then (s, false)
    else (with_online (with_phase s Phase.failed) false, true)

pub begin_stop : ℕ → ℕ
begin_stop s = with_online (with_phase s Phase.stopping) false

-- The inner switch of `project_app_state`, on the device state.
project_device : ℕ → AppState
project_device d =
    if d == 3
    then AppState.ready
    else if d == 4
    then AppState.in_conversation
    else if leb d 2
    then AppState.pairing
    else AppState.failed

project_running : ℕ → AppState
unfolding project_device
project_running s =
    if not (snapshot_online s)
    then AppState.wifi_disconnected
    else project_device (snapshot_device_state s)

pub project_app_state : ℕ → AppState
unfolding project_running
project_app_state s =
    let phase = snapshot_phase s in
    if phase == 0
    then AppState.stopped
    else if phase == 1
    then AppState.wifi_provisioning
    else if phase == 2
    then AppState.starting_services
    else if phase == 4
    then AppState.failed
    else if phase == 5
    then AppState.stopping
    else if phase == 3
    then project_running s
    else AppState.failed

-- `mybot_state_view_t`; the device state is the raw field of the word.
pub record View : Type 0 where
  pub app_state : AppState
  pub device_state : ℕ

pub get_view : ℕ → View
unfolding project_app_state
get_view s = record { app_state = project_app_state s; device_state = snapshot_device_state s }
