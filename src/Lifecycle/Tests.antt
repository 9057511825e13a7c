-- ===== src/Lifecycle/Tests.antt =====
-- Runs of mybot_device_lifecycle.c, and the theorems about it at concrete inputs.
use mybot.Lifecycle.Session.{enter_conversation, start_reply, action_start_conversation}
use mybot.Lifecycle.Pairing.{
  apply_bound, apply_binding_pair, pair_code_obtained, pair_code_reply, action_create_pair_code,
}
use mybot.Lifecycle.Auth.{
  auth_record, persist_device_auth, clear_device_auth, load_reply, load_device_auth,
}
use mybot.Lifecycle.Laws.Shutdown.{shutdown_final, Kept}
use mybot.Lifecycle.Valid.Calls.{run-IsValid}
use mybot.StateModel.{DeviceState}
use mybot.Lifecycle.Api.{tick_runtime, settle, service_result, tick_pairing, tick, shutdown}
use mybot.Lifecycle.Api.Run.{start_call, result_call, tick_call, Call, call, calls}
use mybot.Lifecycle.Mailbox.{request_start, clamp_poll_interval, set_state, interrupts}
use mybot.Lifecycle.Laws.Rejection.{rejection_unbinds, ended_effects, Unbound}
use mybot.Common.{
  text_eq, copy_text, refl, inr, none, [], some, pos, codes, false, arith, ◌∷◌, ◌≡◌, true, ◌≢◌,
  Text, List,
}
use mybot.Lifecycle.Init.{restore, configured, init}
use mybot.Lifecycle.Laws.Retry.{pair_retry_fires, ticks, PairCodeAsked}
use mybot.Lifecycle.{
  KvReply, Payload, state_changed, conversation_started, network, ServiceType, Env, Lifecycle,
  ServiceRequest,
}
use mybot.Lifecycle.Laws.Loss.{stale_after_loss, loss_ends_conversation, Ended}
use mybot.Lifecycle.Valid.{IsValid}

abbrev server : Text
server = codes "https://s"

abbrev device : Text
device = codes "dev-1"

-- Surroundings in which everything succeeds.
abbrev friendly : Env
friendly = record {
  alloc_request = true;
  alloc_response = true;
  alloc_record = true;
  create_pair_code = λ s d f h. (
    pos 0,
    record { code = codes "123456"; pair_token = codes "pt"; poll_after_seconds = pos 5 },
  );
  start_conversation = λ s d t. (
    pos 0,
    record {
      conversation_id = codes "c1";
      rtc_channel = codes "ch";
      rtc_uid = codes "7";
      rtc_agent_uid = codes "8";
    },
  );
  renew_rtc_token =
      λ s d t c u. (pos 0, record { rtc_token = codes "rt"; rtc_channel = c; rtc_uid = u });
  during_call = [];
  during_stop = [];
  submit_accepts = λ r. true;
  renewed_accepts = λ t. true;
  kv_set_ok = λ r. true;
  kv_get = KvReply.not_found;
}

-- A device that has just been initialised with no stored credential.
abbrev booted : Lifecycle
booted = record (configured server device [] []) { pairing_requested = true }

booted_reached : init friendly (some server) (some device) none none ≡ some booted
unfolding init restore load_device_auth load_reply set_state copy_text
booted_reached = refl

abbrev bound_reply : ServiceRequest
bound_reply = record {
  type = ServiceType.pair_poll;
  network_generation = 0;
  binding_generation = 2;
  server_base = server;
  device_id = device;
  credential = codes "pt";
  result = pos 0;
  payload =
      Payload.binding (record {
        status = codes "bound";
        device_token = codes "tok";
        poll_after_seconds = pos 30;
      });
}

-- Pairing, the claim, and a conversation.
abbrev first_talk : List Call
first_talk =
    tick_call friendly ∷ result_call friendly bound_reply ∷ start_call ∷ tick_call friendly ∷ []

talking : (calls booted first_talk).state ≡ DeviceState.in_conversation
unfolding calls call tick tick_pairing action_create_pair_code pair_code_reply pair_code_obtained
    clear_device_auth set_state interrupts service_result apply_binding_pair apply_bound
    persist_device_auth clamp_poll_interval copy_text text_eq request_start tick_runtime
    action_start_conversation start_reply enter_conversation auth_record
talking = refl

run-IsValid_example : IsValid (calls booted first_talk)
run-IsValid_example =
    run-IsValid friendly (some server) (some device) none none first_talk booted_reached

shutdown_final_example :
    ((shutdown friendly booted).state ≢ DeviceState.in_conversation)
    × Kept (shutdown friendly booted) (calls (shutdown friendly booted) first_talk)
shutdown_final_example = shutdown_final friendly booted first_talk

-- A device in a conversation.
abbrev on_air : Lifecycle
on_air = record booted {
  state = DeviceState.in_conversation;
  device_token = codes "tok";
  conversation_id = codes "c1";
  rtc_channel = codes "ch";
  rtc_uid = codes "7";
  runtime_poll_interval = 30;
  binding_generation = 2;
  pairing_requested = false;
  effects =
      conversation_started (friendly.start_conversation server device []).1
      ∷ state_changed DeviceState.in_conversation
      ∷ [];
}

on_air-IsValid : IsValid on_air
on_air-IsValid = ground arith

loss_ends_conversation_example :
    Ended on_air (tick friendly (interrupts (network false ∷ network true ∷ []) on_air))
loss_ends_conversation_example =
    loss_ends_conversation friendly (network true ∷ []) on_air refl refl refl

abbrev rejected : ServiceRequest
rejected = record bound_reply { type = ServiceType.device_poll; result = pos 401 }

stale_after_loss_example :
    let lc = interrupts (network false ∷ network true ∷ []) on_air in
    service_result friendly rejected lc ≡ settle ServiceType.device_poll lc
stale_after_loss_example =
    stale_after_loss friendly (network true ∷ []) rejected on_air refl (omega arith) refl
      (omega arith)

rejection_unbinds_example :
    Unbound
      (ended_effects DeviceState.in_conversation on_air.effects)
      (service_result friendly rejected on_air)
rejection_unbinds_example =
    rejection_unbinds friendly rejected on_air on_air-IsValid (inr refl) (λ e. cc) refl refl

abbrev waiting : Lifecycle
waiting = record booted {
  pairing_requested = false;
  pair_retry_delay_ticks = 30;
  pair_retry_ticks_remaining = 3;
}

pair_retry_fires_example :
    (ticks (friendly ∷ friendly ∷ []) waiting ≡ record waiting { pair_retry_ticks_remaining = 1 })
    × (tick friendly (ticks (friendly ∷ friendly ∷ []) waiting)
        ≡ action_create_pair_code friendly
            (set_state DeviceState.pairing (record waiting { pair_retry_ticks_remaining = 0 })))
    × PairCodeAsked waiting (tick friendly (ticks (friendly ∷ friendly ∷ []) waiting))
pair_retry_fires_example =
    pair_retry_fires (friendly ∷ friendly ∷ []) friendly waiting (refl, refl, refl, refl, refl) refl
