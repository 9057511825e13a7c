-- ===== src/Lifecycle/Auth.antt =====
-- mybot_device_lifecycle.c: the persisted device credential, and the way back to pairing.
use mybot.Common.{
  ℕ, inc32, Bool, true, false, not, ◌&&◌, [], if◌then◌else◌, ltb, ◌==◌, is_empty, text_eq,
  copy_text, length,
}
use mybot.StateModel.{DeviceState}
use mybot.Lifecycle.{AuthRecord, Lifecycle, Env, KvReply, emit, auth_stored, auth_erased}
use mybot.Lifecycle.Mailbox.{state_is, set_state}
use mybot.Lifecycle.Service.{complete_conversation_locally}

-- MYBOT_DEVICE_CLIENT_MAX_URL, _ID and _TOKEN
abbrev pub max_url : ℕ
max_url = 640

abbrev pub max_id : ℕ
max_id = 128

abbrev pub max_token : ℕ
max_token = 512

unfoldable pub auth_record : Lifecycle → AuthRecord
auth_record lc = record {
  version = 1;
  server_base = copy_text max_url lc.server_base;
  device_id = copy_text max_id lc.device_id;
  device_token = copy_text max_token lc.device_token;
}

-- The answer is `ret >= 0`.
unfoldable pub persist_device_auth : Env → Lifecycle → Lifecycle × Bool
persist_device_auth env lc =
    if not env.alloc_record
    then (lc, false)
    else if env.kv_set_ok (auth_record lc)
    then (emit (auth_stored (auth_record lc)) lc, true)
    else (lc, false)

-- The record is for this server and device, is whole, and holds a credential.
unfoldable pub record_fits : AuthRecord → Lifecycle → Bool
record_fits r lc =
    r.version == 1
    && ltb (length r.server_base) max_url
    && ltb (length r.device_id) max_id
    && ltb (length r.device_token) max_token
    && text_eq r.server_base lc.server_base
    && text_eq r.device_id lc.device_id
    && not (is_empty r.device_token)

unfoldable pub load_reply : KvReply → Lifecycle → Lifecycle × Bool
unfolding record_fits
load_reply KvReply.not_found lc = (lc, false)
load_reply KvReply.unreadable lc = (emit auth_erased lc, false)
load_reply (KvReply.found r) lc =
    if record_fits r lc
    then (record lc { device_token = copy_text max_token r.device_token }, true)
    else (emit auth_erased lc, false)

unfoldable pub load_device_auth : Env → Lifecycle → Lifecycle × Bool
load_device_auth env lc = if not env.alloc_record then (lc, false) else load_reply env.kv_get lc

-- A failed erasure is only logged.
unfoldable pub clear_device_auth : Lifecycle → Lifecycle
clear_device_auth lc =
    emit auth_erased
      (record lc { binding_generation = inc32 lc.binding_generation; device_token = [] })

unfoldable pub restart_pairing_after_auth_rejection : Lifecycle → Lifecycle
unfolding clear_device_auth
restart_pairing_after_auth_rejection lc =
    record (set_state DeviceState.unprovisioned (clear_device_auth lc)) { pairing_requested = true }

end_active : Env → Lifecycle → Lifecycle
end_active env lc =
    if state_is DeviceState.in_conversation lc then complete_conversation_locally env lc else lc

unfoldable pub invalidate_runtime_binding : Env → Lifecycle → Lifecycle
unfolding end_active
invalidate_runtime_binding env lc = restart_pairing_after_auth_rejection (end_active env lc)
