-- ===== src/StateModel/Reach.antt =====
-- Which calls lead to which states of mybot_state_model.c, over every sequence of calls.
use mathlib.Core.List.{Sublist}
use mathlib.Core.List.Sublist
use mybot.Common.{◌⊎◌, ℕ, ◌≡◌, Bool, true, false, List, [], ◌∷◌, arith, ◌≢◌, ◌↔◌}
use mybot.StateModel.{
  Phase, DeviceState, AppState, phase_code, snapshot_phase, snapshot_online, network_lost,
  network_restored, get_view, snapshot_device_state,
}
use mybot.StateModel.Abstract.{Model, Op, step, run}
use mybot.StateModel.Refine.{encode, run_word, run_word_refines}

abbrev pub fresh : Model
fresh = record { phase = Phase.stopped; online = false; device = DeviceState.unprovisioned }

-- The accepted calls that still lie between a phase and the running phase.
abbrev pub needed : Phase → List Op
needed Phase.running = []
needed Phase.starting_services = Op.services_ready ∷ []
needed Phase.wifi_provisioning = Op.begin_services ∷ Op.services_ready ∷ []
needed _ = Op.begin_start ∷ Op.begin_services ∷ Op.services_ready ∷ []

needed-sublist : (p : Phase) → Sublist (needed p) (needed Phase.stopped)
needed-sublist Phase.stopped = Sublist.refl _
needed-sublist Phase.wifi_provisioning = Sublist.cons _ (Sublist.refl _)
needed-sublist Phase.starting_services = Sublist.cons _ (Sublist.cons _ (Sublist.refl _))
needed-sublist Phase.running = Sublist.cons _ (Sublist.cons _ (Sublist.cons _ (Sublist.refl _)))
needed-sublist Phase.failed = Sublist.refl _
needed-sublist Phase.stopping = Sublist.refl _

needed-step :
    (o : Op) (p : Phase) (b : Bool) (d : DeviceState)
    → Sublist
        (needed p)
        (o ∷ needed (step o (record { phase = p; online = b; device = d })).0.phase)
needed-step Op.reset p b d = Sublist.cons _ (needed-sublist p)
needed-step Op.begin_start Phase.stopped b d = Sublist.cons-cons _ (Sublist.refl _)
needed-step Op.begin_start _ b d = Sublist.cons _ (Sublist.refl _)
needed-step Op.begin_services Phase.wifi_provisioning b d = Sublist.cons-cons _ (Sublist.refl _)
needed-step Op.begin_services _ b d = Sublist.cons _ (Sublist.refl _)
needed-step Op.services_ready Phase.starting_services b d = Sublist.cons-cons _ (Sublist.refl _)
needed-step Op.services_ready _ b d = Sublist.cons _ (Sublist.refl _)
needed-step Op.network_lost Phase.running b d = Sublist.cons _ (Sublist.refl _)
needed-step Op.network_lost _ b d = Sublist.cons _ (Sublist.refl _)
needed-step Op.network_restored Phase.running b d = Sublist.cons _ (Sublist.refl _)
needed-step Op.network_restored _ b d = Sublist.cons _ (Sublist.refl _)
needed-step Op.fail Phase.wifi_provisioning b d =
    Sublist.cons _ (needed-sublist Phase.wifi_provisioning)
needed-step Op.fail Phase.starting_services b d =
    Sublist.cons _ (needed-sublist Phase.starting_services)
needed-step Op.fail Phase.running b d = Sublist.cons _ (needed-sublist Phase.running)
needed-step Op.fail _ b d = Sublist.cons _ (Sublist.refl _)
needed-step Op.begin_stop p b d = Sublist.cons _ (needed-sublist p)
needed-step (Op.set_device d') p b d = Sublist.cons _ (Sublist.refl _)

needed-run :
    (os : List Op) (m : Model) → (run m os).phase ≡ Phase.running → Sublist (needed m.phase) os
needed-run [] m h = rw h (Sublist.refl _)
needed-run (o ∷ os) m h =
    Sublist.trans (needed-step o m.phase m.online m.device)
      (Sublist.cons-cons o (needed-run os (step o m).0 h))

running_of_word : (m : Model) → snapshot_phase (encode m) ≡ 3 → m.phase ≡ Phase.running
running_of_word m h = ground arith

-- The word reaches the running phase only by `begin_start`, `begin_services` and `services_ready`,
-- called in that order, whatever other calls are made between.
pub running_needs_start :
    (os : List Op)
    → snapshot_phase (run_word (encode fresh) os) ≡ phase_code Phase.running
    → Sublist (Op.begin_start ∷ Op.begin_services ∷ Op.services_ready ∷ []) os
running_needs_start os h =
    needed-run os fresh (running_of_word (run fresh os) (rw (← run_word_refines os fresh) h))

NetworkEnds : ℕ → Type 0
NetworkEnds s =
    snapshot_phase s ≡ phase_code Phase.running
    → ((get_view (network_lost s).0).app_state ≡ AppState.wifi_disconnected)
      × (snapshot_device_state (network_lost s).0 ≢ 4)
      × (((get_view (network_restored s).0).app_state ≡ AppState.ready)
          ⊎ ((get_view (network_restored s).0).app_state ≡ AppState.pairing))

encode-NetworkEnds : (m : Model) → NetworkEnds (encode m)
unfolding NetworkEnds network_lost network_restored get_view
encode-NetworkEnds m h = (ground arith, ground arith, restored m h)
  where
    restored :
        (m : Model)
        → snapshot_phase (encode m) ≡ phase_code Phase.running
        → ((get_view (network_restored (encode m)).0).app_state ≡ AppState.ready)
          ⊎ ((get_view (network_restored (encode m)).0).app_state ≡ AppState.pairing)
    restored m h = ground arith

ViewExact : ℕ → Type 0
ViewExact s =
    ((get_view s).app_state ≡ AppState.in_conversation
      ↔ (snapshot_phase s ≡ phase_code Phase.running)
        × (snapshot_online s ≡ true)
        × (snapshot_device_state s ≡ 4))
    × ((get_view s).app_state ≡ AppState.failed ↔ snapshot_phase s ≡ phase_code Phase.failed)

encode-ViewExact : (m : Model) → ViewExact (encode m)
unfolding ViewExact get_view
encode-ViewExact m =
    ((λ h. ground arith, λ h. ground arith), (λ h. ground arith, λ h. ground arith))

-- After any calls from `fresh` that reach the running phase, a change of the network leaves no
-- conversation: the loss is reported as a disconnected network and leaves no device state of a
-- conversation, the return is reported as ready or pairing.
pub network_ends_conversation :
    (os : List Op)
    → snapshot_phase (run_word (encode fresh) os) ≡ phase_code Phase.running
    → let s = run_word (encode fresh) os in
      ((get_view (network_lost s).0).app_state ≡ AppState.wifi_disconnected)
      × (snapshot_device_state (network_lost s).0 ≢ 4)
      × (((get_view (network_restored s).0).app_state ≡ AppState.ready)
          ⊎ ((get_view (network_restored s).0).app_state ≡ AppState.pairing))
unfolding NetworkEnds
network_ends_conversation os = rw (run_word_refines os fresh) (encode-NetworkEnds (run fresh os))

-- After any calls from `fresh`, a conversation is reported exactly while the phase is running, the
-- network is up and the device state is in-conversation; a failure is reported exactly in the failed
-- phase.
pub view_exact :
    (os : List Op)
    → let s = run_word (encode fresh) os in
      ((get_view s).app_state ≡ AppState.in_conversation
        ↔ (snapshot_phase s ≡ phase_code Phase.running)
          × (snapshot_online s ≡ true)
          × (snapshot_device_state s ≡ 4))
      × ((get_view s).app_state ≡ AppState.failed ↔ snapshot_phase s ≡ phase_code Phase.failed)
unfolding ViewExact
view_exact os = rw (run_word_refines os fresh) (encode-ViewExact (run fresh os))
