-- ===== src/Transfer/Tests.antt =====
-- Runs of the reducer and of the step generation of client_app/src/context/transferContext.tsx.
use spectra_portal.Base.{
  ◌≤◌, ◌≡◌, refl, ◌≢◌, ◌⊎◌, ◌↔◌, arith, String, Bool, true, false, List, [], ◌∷◌, none, some,
  str_eq, not, get_elem?, get_last?,
}
use spectra_portal.Pathfinder
use spectra_portal.Pathfinder.{
  FindPathResponse, IbcLeg, IndirectRoute, BrokerSwapRoute, SwapQuote, no_data,
}
use spectra_portal.Transfer.Types.{
  manual, smart, TransferPhase, StepType, StepStatus, Metadata, TransferStep, StepPatch,
  ClientToken, TransferState, TransferAction, set_mode, start_preparing, fail_transfer,
  set_pathfinder_response, initial_state,
}
use spectra_portal.Transfer.Reducer.{transfer_reducer, can_initiate_transfer}
use spectra_portal.Transfer.Steps.{generate_steps_from_response, extract_chain_path, new_step}
use spectra_portal.Transfer.Phases.{run, IsConsistent, run-IsConsistent}
use spectra_portal.Transfer.Selection.{SameSelection, quote-SameSelection}
use spectra_portal.Transfer.Chained.{Leads, generate_steps-Leads}
use spectra_portal.Transfer.Modes.{LacksLeg, generate_steps-throws_iff}

abbrev leg : String → String → IbcLeg
leg a b = record {
  from_chain = a;
  to_chain = b;
  channel = "channel-0";
  port = "transfer";
  token = none;
  amount = "5";
}

abbrev quote : SwapQuote
quote = record {
  broker = "osmosis";
  token_in = none;
  token_out = none;
  amount_in = "5";
  amount_out = "7";
  price_impact = "0";
  route_data = no_data;
}

-- Over chain b, where the tokens are swapped.
abbrev swap_route : BrokerSwapRoute
swap_route = record {
  path = "a" ∷ "b" ∷ "c" ∷ [];
  inbound_legs = leg "a" "b" ∷ [];
  swap = some quote;
  outbound_legs = leg "b" "c" ∷ [];
  outbound_supports_pfm = false;
  execution = none;
}

abbrev answer : Pathfinder.Route → FindPathResponse
answer route = record { success = true; error_message = ""; route = route }

abbrev swap_answer : FindPathResponse
swap_answer = answer (Pathfinder.Route.broker_swap swap_route)

-- A forwarded route with no legs.
abbrev empty_answer : FindPathResponse
empty_answer = answer (
    Pathfinder.Route.indirect (record {
      path = [];
      legs = [];
      supports_pfm = true;
      pfm_start_chain = "a";
      pfm_memo = "{}";
    }))

abbrev token : ClientToken
token = record {
  denom = "uatom";
  name = "Atom";
  symbol = "ATOM";
  decimals = 6;
  icon = "";
  origin_chain = "a";
  origin_chain_name = none;
  coingecko_id = none;
  is_native = true;
  base_denom = none;
}

abbrev no_metadata : Metadata
no_metadata = record {
  channel = none;
  port = none;
  amount = none;
  denom = none;
  memo = none;
  smart_contract_data = none;
}

abbrev first_step : TransferStep
first_step = new_step "leg-0" StepType.ibc_transfer (some "a") (some "b") no_metadata none

abbrev ready : TransferState
ready = record initial_state {
  from_chain_id = "a";
  to_chain_id = "c";
  from_token = some token;
  amount = "5";
  sender_address = "a1";
  receiver_address = "c1";
  pathfinder_response = some swap_answer;
  steps = first_step ∷ [];
}

abbrev preparing_state : TransferState
preparing_state = record ready { phase = TransferPhase.preparing; error = none }

abbrev failed_state : TransferState
failed_state = record initial_state {
  mode = manual;
  phase = TransferPhase.failed;
  error = some "rejected";
}

abbrev actions : List TransferAction
actions = set_mode manual ∷ start_preparing ∷ fail_transfer "rejected" ∷ []

run-actions : run actions initial_state ≡ some failed_state
unfolding run transfer_reducer
run-actions = refl

run-IsConsistent_example : IsConsistent failed_state
run-IsConsistent_example = run-IsConsistent actions failed_state run-actions

prepared : transfer_reducer ready start_preparing ≡ some preparing_state
unfolding transfer_reducer
prepared = refl

has_quote : preparing_state.pathfinder_response ≢ none
has_quote e = cc

quote-SameSelection_example :
    (start_preparing ≡ set_pathfinder_response preparing_state.pathfinder_response)
    ⊎ SameSelection ready preparing_state
quote-SameSelection_example =
    quote-SameSelection ready preparing_state has_quote start_preparing prepared

abbrev is_not_zero : String → Bool
is_not_zero amount = not (str_eq amount "0")

can_initiate : can_initiate_transfer is_not_zero ready ≡ true
unfolding can_initiate_transfer
can_initiate = refl

abbrev signing_patch : StepPatch
signing_patch = record { status = some StepStatus.signing; tx_hash = none; error = none }

abbrev arrived : TransferState
arrived = record ready { current_step_index = 1 }

within : arrived.current_step_index ≤ 1
within = omega arith

generate_steps-Leads_example :
    (steps : List TransferStep) × (generate_steps_from_response swap_answer manual ≡ some steps)
    × Leads
        (get_elem? (extract_chain_path swap_answer) 0)
        steps
        (get_last? (extract_chain_path swap_answer))
generate_steps-Leads_example = generate_steps-Leads swap_answer refl ((refl, refl), (refl, refl))

-- The steps of the swap route: a leg, the swap, and a leg.
swap_steps-generated :
    (steps : List TransferStep) × (generate_steps_from_response swap_answer manual ≡ some steps)
unfolding generate_steps_from_response
swap_steps-generated = (_, refl)

generate_steps-throws_iff_example :
    (generate_steps_from_response empty_answer smart ≡ none)
    ↔ ((empty_answer.success ≡ true) × LacksLeg smart empty_answer.route)
generate_steps-throws_iff_example = generate_steps-throws_iff empty_answer smart
