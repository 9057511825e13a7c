-- ===== src/Lifecycle/Api/Run.antt =====
-- The calls that the application and other threads make of one lifecycle, in any order.
use mybot.Common.{List, [], ◌∷◌}
use mybot.Lifecycle.{Interrupt, ServiceRequest, Lifecycle, Env}
use mybot.Lifecycle.Mailbox.{interrupt, request_pair, request_start, request_stop}
use mybot.Lifecycle.Api.{tick, service_result, shutdown}

-- Each call comes with what its surroundings answer.
pub data Call : Type 0 where
  tick_call : Env → Call
  result_call : Env → ServiceRequest → Call
  shutdown_call : Env → Call
  interrupt_call : Interrupt → Call
  pair_call start_call stop_call : Call

unfoldable pub call : Call → Lifecycle → Lifecycle
call (tick_call env) lc = tick env lc
call (result_call env r) lc = service_result env r lc
call (shutdown_call env) lc = shutdown env lc
call (interrupt_call i) lc = interrupt i lc
call pair_call lc = request_pair lc
call start_call lc = request_start lc
call stop_call lc = request_stop lc

unfoldable pub calls : Lifecycle → List Call → Lifecycle
calls lc [] = lc
calls lc (c ∷ cs) = calls (call c lc) cs
