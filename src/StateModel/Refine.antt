-- ===== src/StateModel/Refine.antt =====
-- The packed word of mybot_state_model.c implements the record of `Abstract`: every operation, and
-- so every sequence of operations, acts on the word as on the three fields.
use mybot.Common.{ℕ, ◌+◌, ◌*◌, ◌≡◌, refl, ◌∙◌, ap, Bool, true, List, [], ◌∷◌, arith, if◌then◌else◌}
use mybot.StateModel.{
  phase_code, device_code, reset, begin_start, begin_services, services_ready, network_lost,
  network_restored, set_device_state, fail, begin_stop, get_view,
}
use mybot.StateModel.Abstract.{Model, Op, step, run, app_view}

-- The word of a record.
abbrev pub encode : Model → ℕ
encode m = phase_code m.phase + (if m.online then 8 else 0) + device_code m.device * 16

-- One call of the C interface, at the word.
pub apply : Op → ℕ → ℕ × Bool
unfolding begin_start begin_services services_ready network_lost network_restored set_device_state
    fail reset begin_stop
apply Op.reset s = (reset s, true)
apply Op.begin_start s = begin_start s
apply Op.begin_services s = begin_services s
apply Op.services_ready s = services_ready s
apply Op.network_lost s = network_lost s
apply Op.network_restored s = network_restored s
apply Op.fail s = fail s
apply Op.begin_stop s = (begin_stop s, true)
apply (Op.set_device d) s = set_device_state (device_code d) s

unfoldable pub run_word : ℕ → List Op → ℕ
unfolding apply
run_word s [] = s
run_word s (o ∷ os) = run_word (apply o s).0 os

apply_refines : (o : Op) (m : Model) → apply o (encode m) ≡ (encode (step o m).0, (step o m).1)
unfolding apply reset begin_start begin_services services_ready network_lost network_restored fail
    begin_stop set_device_state
apply_refines Op.reset m = ground arith
apply_refines Op.begin_start m = ground arith
apply_refines Op.begin_services m = ground arith
apply_refines Op.services_ready m = ground arith
apply_refines Op.network_lost m = ground arith
apply_refines Op.network_restored m = ground arith
apply_refines Op.fail m = ground arith
apply_refines Op.begin_stop m = ground arith
apply_refines (Op.set_device d) m = ground arith

-- Every sequence of calls acts on the word as on the record: the word reached from the encoding of a
-- record is the encoding of the record reached.
pub run_word_refines : (os : List Op) (m : Model) → run_word (encode m) os ≡ encode (run m os)
unfolding run_word
run_word_refines [] m = refl
run_word_refines (o ∷ os) m =
    ap (λ r. run_word r.0 os) (apply_refines o m) ∙ run_word_refines os (step o m).0

-- What `mybot_state_model_get_view` reports is the view of the record, with its device state.
pub get_view_refines :
    (m : Model)
    → get_view (encode m) ≡ record { app_state = app_view m; device_state = device_code m.device }
unfolding get_view
get_view_refines m = ground arith
