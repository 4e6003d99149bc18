-- ===== src/Transfer/Reducer.antt =====
-- `transferReducer` of client_app/src/context/transferContext.tsx, and what the provider computes
-- from the state.
use mathlib.Core.Option
use spectra_portal.Base.{
  ℕ, ◌+◌, ◌*◌, ◌/◌, String, Bool, true, false, List, Option, none, some, if◌then◌else◌, leb,
  or_else, str_eq, length, get_elem?, set, not, ◌&&◌, is_some, ◌==◌,
}
use spectra_portal.Pathfinder
use spectra_portal.Pathfinder.{FindPathResponse}
use spectra_portal.Transfer.Types.{
  TransferPhase, RouteType, TransferStep, StepPatch, TransferState, TransferAction, set_mode,
  set_from_chain, set_to_chain, set_from_token, set_to_token, set_amount, set_sender_address,
  set_receiver_address, set_slippage, set_pathfinder_response, start_preparing, start_executing,
  update_step, advance_step, complete_transfer, fail_transfer, reset, resume_transfer,
  set_multi_hop_progress, initial_state,
}

-- `response.route.case`
unfoldable pub route_case : Pathfinder.Route → Option RouteType
route_case Pathfinder.Route.no_route = none
route_case (Pathfinder.Route.direct _) = some RouteType.direct
route_case (Pathfinder.Route.indirect _) = some RouteType.indirect
route_case (Pathfinder.Route.broker_swap _) = some RouteType.broker_swap

unfoldable pub route_type_of : Option FindPathResponse → Option RouteType
unfolding route_case
route_type_of none = none
route_type_of (some response) = if response.success then route_case response.route else none

-- `{ ...step, ...patch }`
unfoldable pub patch_step : TransferStep → StepPatch → TransferStep
patch_step step patch = record step {
  status = or_else patch.status step.status;
  tx_hash = or_else patch.tx_hash step.tx_hash;
  error = or_else patch.error step.error;
}

-- A write behind the end of the array leaves an object that is no `TransferStep`: `none`.
unfoldable pub write_step : List TransferStep → ℕ → StepPatch → Option (List TransferStep)
unfolding patch_step
write_step steps index patch =
    Option.map (λ step. set steps index (patch_step step patch)) (get_elem? steps index)

unfoldable pub transfer_reducer : TransferState → TransferAction → Option TransferState
unfolding route_type_of write_step
transfer_reducer state (set_mode mode) = some (record state { mode = mode })
transfer_reducer state (set_from_chain chain_id) = some (record state {
  from_chain_id = chain_id;
  from_token = none;
  to_chain_id = "";
  to_token = none;
  amount = "";
  pathfinder_response = none;
})
transfer_reducer state (set_to_chain chain_id) =
    some (record state { to_chain_id = chain_id; to_token = none; pathfinder_response = none })
transfer_reducer state (set_from_token token) =
    some (record state { from_token = token; pathfinder_response = none })
transfer_reducer state (set_to_token token) =
    some (record state { to_token = token; pathfinder_response = none })
transfer_reducer state (set_amount amount) = some (record state { amount = amount })
transfer_reducer state (set_sender_address address) =
    some (record state { sender_address = address })
transfer_reducer state (set_receiver_address address) =
    some (record state { receiver_address = address })
transfer_reducer state (set_slippage bps) = some (record state { slippage_bps = bps })
transfer_reducer state (set_pathfinder_response response) =
    some (record state { pathfinder_response = response; route_type = route_type_of response })
transfer_reducer state start_preparing =
    some (record state { phase = TransferPhase.preparing; error = none })
transfer_reducer state (start_executing steps db_record_id chain_path) = some (record state {
  phase = TransferPhase.executing;
  steps = steps;
  current_step_index = 0;
  db_record_id = some db_record_id;
  chain_path = chain_path;
  error = none;
})
transfer_reducer state (update_step index patch) =
    Option.map (λ steps. record state { steps = steps }) (write_step state.steps index patch)
transfer_reducer state advance_step =
    let next_index = state.current_step_index + 1 in
    some (record state {
      current_step_index = next_index;
      phase = if leb (length state.steps) next_index then TransferPhase.tracking else state.phase;
    })
transfer_reducer state complete_transfer =
    some (record state { phase = TransferPhase.completed; error = none })
transfer_reducer state (fail_transfer error) =
    some (record state { phase = TransferPhase.failed; error = some error })
transfer_reducer state reset = some (record initial_state { mode = state.mode })
transfer_reducer state (resume_transfer steps current_step_index db_record_id chain_path) =
    some (record state {
      phase = TransferPhase.executing;
      steps = steps;
      current_step_index = current_step_index;
      db_record_id = some db_record_id;
      chain_path = chain_path;
      error = none;
    })
transfer_reducer state (set_multi_hop_progress progress total_chains) = some (record state {
  multi_hop_progress = progress;
  multi_hop_total_chains = or_else total_chains state.multi_hop_total_chains;
})

abbrev is_idle : TransferPhase → Bool
is_idle TransferPhase.idle = true
is_idle _ = false

-- `state.pathfinderResponse?.success === true`
abbrev pub succeeded : Option FindPathResponse → Bool
succeeded none = false
succeeded (some response) = response.success

-- `is_positive s` stands for `Number.parseFloat(s) > 0`.
unfoldable pub can_initiate_transfer : (is_positive : String → Bool) → TransferState → Bool
can_initiate_transfer is_positive state =
    is_idle state.phase
    && not (str_eq state.from_chain_id "")
    && not (str_eq state.to_chain_id "")
    && is_some state.from_token
    && not (str_eq state.amount "")
    && is_positive state.amount
    && not (str_eq state.sender_address "")
    && not (str_eq state.receiver_address "")
    && succeeded state.pathfinder_response

active_phase : TransferPhase → Bool
active_phase TransferPhase.preparing = true
active_phase TransferPhase.executing = true
active_phase TransferPhase.tracking = true
active_phase _ = false

unfoldable pub is_transfer_active : TransferState → Bool
unfolding active_phase
is_transfer_active state = active_phase state.phase

unfoldable pub current_step : TransferState → Option TransferStep
current_step state = get_elem? state.steps state.current_step_index

-- `Math.round((index / length) * 100)`, rounded half up.
unfoldable pub progress : TransferState → ℕ
progress state =
    if length state.steps == 0
    then 0
    else (200 * state.current_step_index + length state.steps) / (2 * length state.steps)
