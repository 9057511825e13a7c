-- ===== src/StateModel/Tests.antt =====
-- Runs of mybot_state_model.c, and the theorems about it at concrete inputs.
use mathlib.Core.List.{Sublist}
use mybot.Common.{◌⊎◌, ℕ, ◌+◌, ◌≡◌, ◌≢◌, ◌↔◌, refl, true, false, List, [], ◌∷◌}
use mybot.StateModel.{
  Phase, DeviceState, AppState, phase_code, snapshot_phase, snapshot_online, snapshot_device_state,
  services_ready, network_lost, network_restored, set_device_state, get_view,
}
use mybot.StateModel.Abstract.{Op, run}
use mybot.StateModel.Refine.{encode, run_word, run_word_refines, get_view_refines}
use mybot.StateModel.Reach.{fresh, running_needs_start, network_ends_conversation, view_exact}

abbrev talking : List Op
talking =
    Op.begin_start
    ∷ Op.begin_services
    ∷ Op.services_ready
    ∷ Op.set_device DeviceState.in_conversation
    ∷ []

abbrev talking_word : ℕ
talking_word = 3 + 8 + 64

talking_reached : run_word (encode fresh) talking ≡ talking_word
unfolding run_word
talking_reached = refl

-- An enumeration value past the last is refused, and a service start out of order too.
refusals :
    (set_device_state 5 talking_word ≡ (talking_word, false))
    × (services_ready 0 ≡ (0, false))
    × (network_lost talking_word ≡ (3 + 48, true))
unfolding set_device_state services_ready network_lost
refusals = (refl, refl, refl)

run_word_refines_example : run_word (encode fresh) talking ≡ encode (run fresh talking)
run_word_refines_example = run_word_refines talking fresh

get_view_refines_example :
    get_view (encode (run fresh talking))
    ≡ record { app_state = AppState.in_conversation; device_state = 4 }
get_view_refines_example = get_view_refines (run fresh talking)

running_needs_start_example :
    Sublist (Op.begin_start ∷ Op.begin_services ∷ Op.services_ready ∷ []) talking
unfolding run_word
running_needs_start_example = running_needs_start talking refl

network_ends_conversation_example :
    let s = run_word (encode fresh) talking in
    ((get_view (network_lost s).0).app_state ≡ AppState.wifi_disconnected)
    × (snapshot_device_state (network_lost s).0 ≢ 4)
    × (((get_view (network_restored s).0).app_state ≡ AppState.ready)
        ⊎ ((get_view (network_restored s).0).app_state ≡ AppState.pairing))
unfolding run_word
network_ends_conversation_example = network_ends_conversation talking refl

view_exact_example :
    let s = run_word (encode fresh) talking in
    ((get_view s).app_state ≡ AppState.in_conversation
      ↔ (snapshot_phase s ≡ phase_code Phase.running)
        × (snapshot_online s ≡ true)
        × (snapshot_device_state s ≡ 4))
    × ((get_view s).app_state ≡ AppState.failed ↔ snapshot_phase s ≡ phase_code Phase.failed)
view_exact_example = view_exact talking
