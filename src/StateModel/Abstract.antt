-- ===== src/StateModel/Abstract.antt =====
-- What the packed word of mybot_state_model.c stands for: a record of three independent fields,
-- and the operations on it.
use mybot.Common.{Bool, true, false, List, [], ◌∷◌}
use mybot.StateModel.{Phase, DeviceState, AppState}

pub record Model : Type 0 where
  pub phase : Phase
  pub online : Bool
  pub device : DeviceState

-- The operations that a client can call, with `set_device_state` at a value of the enumeration.
pub data Op : Type 0 where
  reset begin_start begin_services services_ready network_lost network_restored fail begin_stop : Op
  set_device : DeviceState → Op

abbrev pub end_conversation : DeviceState → DeviceState
end_conversation DeviceState.in_conversation = DeviceState.runtime
end_conversation d = d

abbrev set_net : Bool → Model → Phase → Model × Bool
set_net b m Phase.running = (record m { online = b; device = end_conversation m.device }, true)
set_net b m _ = (m, false)

abbrev goto : Phase → Bool → Model → Model
goto p b m = record m { phase = p; online = b }

-- The phase decides which operation is accepted.
abbrev run_op : Op → Phase → Model → Model × Bool
run_op Op.reset _ m =
    (record { phase = Phase.stopped; online = false; device = DeviceState.unprovisioned }, true)
run_op Op.begin_start Phase.stopped m = (goto Phase.wifi_provisioning false m, true)
run_op Op.begin_services Phase.wifi_provisioning m = (goto Phase.starting_services true m, true)
run_op Op.services_ready Phase.starting_services m = (goto Phase.running true m, true)
run_op Op.network_lost p m = set_net false m p
run_op Op.network_restored p m = set_net true m p
run_op Op.fail Phase.wifi_provisioning m = (goto Phase.failed false m, true)
run_op Op.fail Phase.starting_services m = (goto Phase.failed false m, true)
run_op Op.fail Phase.running m = (goto Phase.failed false m, true)
run_op Op.begin_stop _ m = (goto Phase.stopping false m, true)
run_op (Op.set_device d) _ m = (record m { device = d }, true)
run_op _ _ m = (m, false)

abbrev pub step : Op → Model → Model × Bool
step o m = run_op o m.phase m

abbrev pub run : Model → List Op → Model
run m [] = m
run m (o ∷ os) = run (step o m).0 os

-- The state that an application sees.
abbrev view_running : Bool → DeviceState → AppState
view_running false _ = AppState.wifi_disconnected
view_running true DeviceState.runtime = AppState.ready
view_running true DeviceState.in_conversation = AppState.in_conversation
view_running true _ = AppState.pairing

abbrev view_phase : Phase → Model → AppState
view_phase Phase.stopped m = AppState.stopped
view_phase Phase.wifi_provisioning m = AppState.wifi_provisioning
view_phase Phase.starting_services m = AppState.starting_services
view_phase Phase.running m = view_running m.online m.device
view_phase Phase.failed m = AppState.failed
view_phase Phase.stopping m = AppState.stopping

abbrev pub app_view : Model → AppState
app_view m = view_phase m.phase m
