-- ===== src/Lifecycle.antt =====
-- src/core/mybot_device_lifecycle.c: the device-service state machine.
-- This file has its data: the lifecycle's state, the HTTP work it queues, and what its surroundings
-- answer. The children have the operations (`Mailbox`, `Binding`, `Conversation`, `Api`) and what
-- they keep.
pub mod Mailbox
pub mod Service
pub mod Auth
pub mod Pairing
pub mod Session
pub mod Init
pub mod Api
pub mod Valid
pub mod Laws
mod Tests
use mybot.Common.{ℕ, ◌+◌, ◌%◌, ℤ, Bool, Option, List, ◌∷◌, Text}
use mybot.StateModel.{DeviceState}

-- `mybot_stop_request_t`; `no_request` is MYBOT_STOP_REQUEST_NONE.
pub data StopRequest : Type 0 where
  no_request device_hangup error : StopRequest

-- The reasons that a stop notification carries.
pub data StopReason : Type 0 where
  user_requested device_hangup error : StopReason

-- `mybot_device_service_request_type_t`
pub data ServiceType : Type 0 where
  pair_poll device_poll stop : ServiceType

-- The fields of `mybot_device_binding_t` that the lifecycle reads.
pub record Binding : Type 0 where
  pub status : Text
  pub device_token : Text
  pub poll_after_seconds : ℤ

-- The union of `mybot_device_service_request_t`, zeroed at creation.
pub data Payload : Type 0 where
  zeroed : Payload
  binding : Binding → Payload
  stopping : Text → StopReason → Payload

pub record ServiceRequest : Type 0 where
  pub type : ServiceType
  pub network_generation : ℕ
  pub binding_generation : ℕ
  pub server_base : Text
  pub device_id : Text
  pub credential : Text
  pub result : ℤ
  pub payload : Payload

pub record PairCode : Type 0 where
  pub code : Text
  pub pair_token : Text
  pub poll_after_seconds : ℤ

pub record Conversation : Type 0 where
  pub conversation_id : Text
  pub rtc_channel : Text
  pub rtc_uid : Text
  pub rtc_agent_uid : Text

pub record RtcToken : Type 0 where
  pub rtc_token : Text
  pub rtc_channel : Text
  pub rtc_uid : Text

-- `mybot_device_auth_record_t`
pub record AuthRecord : Type 0 where
  pub version : ℕ
  pub server_base : Text
  pub device_id : Text
  pub device_token : Text

-- What the callbacks, the key-value store and the device client see of the lifecycle.
pub data Effect : Type 0 where
  state_changed : DeviceState → Effect
  pair_code_shown : Text → Effect
  conversation_started : Conversation → Effect
  conversation_stopped : Effect
  token_renewed : Text → Effect
  submitted : ServiceRequest → Effect
  auth_stored : AuthRecord → Effect
  auth_erased : Effect
  pair_code_called start_called renew_called : Effect

-- `mybot_device_lifecycle_t`, with the effects so far, the newest first.
pub record Lifecycle : Type 0 where
  pub server_base : Text
  pub device_id : Text
  pub firmware_ver : Text
  pub hw_model : Text
  pub state : DeviceState
  pub pair_token : Text
  pub pair_poll_interval : ℕ
  pub pair_tick_counter : ℕ
  pub pair_retry_delay_ticks : ℕ
  pub pair_retry_ticks_remaining : ℕ
  pub device_token : Text
  pub runtime_poll_interval : ℕ
  pub runtime_tick_counter : ℕ
  pub poll_pending : Bool
  pub binding_generation : ℕ  -- uint32
  pub conversation_id : Text
  pub rtc_channel : Text
  pub rtc_uid : Text
  pub rtc_agent_uid : Text
  pub conversation_requested : Bool
  pub stop_request : StopRequest
  pub rtc_token_renewal_requested : Bool
  pub rtc_token_renewal_pending : Bool
  pub rtc_token_retry_delay_ticks : ℕ
  pub rtc_token_retry_ticks_remaining : ℕ
  pub pairing_requested : Bool
  pub shutting_down : Bool
  pub network_available : Bool
  pub network_loss_pending : Bool
  pub network_generation : ℕ  -- intptr
  pub effects : List Effect

-- What `mybot_kv_store_get` finds: nothing, an error or another size, or a record. An array of the
-- record that holds no terminator is a text of the array's size or more.
pub data KvReply : Type 0 where
  not_found unreadable : KvReply
  found : AuthRecord → KvReply

-- What another thread, or a callback of the RTC SDK, may call while the control thread waits.
pub data Interrupt : Type 0 where
  network : Bool → Interrupt
  conversation_ended : Interrupt
  token_renewal : Interrupt

-- The answers of the surroundings in one operation: allocations, the device client's calls with the
-- interrupts that fall in them, the key-value store and the callbacks.
pub record Env : Type 0 where
  pub alloc_request : Bool
  pub alloc_response : Bool
  pub alloc_record : Bool
  pub create_pair_code : Text → Text → Text → Text → ℤ × PairCode
  pub start_conversation : Text → Text → Text → ℤ × Conversation
  pub renew_rtc_token : Text → Text → Text → Text → Text → ℤ × RtcToken
  pub during_call : List Interrupt
  pub during_stop : List Interrupt
  pub submit_accepts : ServiceRequest → Bool
  pub renewed_accepts : Text → Bool
  pub kv_set_ok : AuthRecord → Bool
  pub kv_get : KvReply

abbrev pub emit : Effect → Lifecycle → Lifecycle
emit e lc = record lc { effects = e ∷ lc.effects }
