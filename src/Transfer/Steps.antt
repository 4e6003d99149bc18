-- ===== src/Transfer/Steps.antt =====
-- `generateStepsFromResponse` and `extractChainPath` of client_app/src/context/transferContext.tsx.
use mathlib.Core.Option
use spectra_portal.Base.{
  ℕ, suc, String, Bool, true, false, List, [], ◌∷◌, ◌++◌, Option, none, some, if◌then◌else◌, length,
  get_elem?, get_last?, ◌&&◌, is_truthy, ◌<>◌, show_nat,
}
use spectra_portal.Pathfinder.{
  IbcLeg, IndirectRoute, SwapQuote, BrokerSwapRoute, BrokerExecutionData, Route, FindPathResponse,
  TokenMapping, WasmData, no_route, direct, indirect, broker_swap,
}
use spectra_portal.Transfer.Types.{
  TransferMode, manual, smart, StepType, StepStatus, Metadata, TransferStep,
}

abbrev pub is_smart : TransferMode → Bool
is_smart smart = true
is_smart manual = false

-- `token?.chainDenom`
abbrev pub chain_denom_of : Option TokenMapping → Option String
chain_denom_of = Option.map (λ t. t.chain_denom)

abbrev pub new_step :
    String
    → StepType
    → Option String
    → Option String
    → Metadata
    → Option (List String)
    → TransferStep
new_step id type from_chain to_chain metadata order = record {
  id = id;
  type = type;
  from_chain = from_chain;
  to_chain = to_chain;
  status = StepStatus.pending;
  tx_hash = none;
  error = none;
  metadata = some metadata;
  transfer_order = order;
}

abbrev pub leg_metadata : IbcLeg → Option String → Metadata
leg_metadata leg memo = record {
  channel = some leg.channel;
  port = some leg.port;
  amount = some leg.amount;
  denom = chain_denom_of leg.token;
  memo = memo;
  smart_contract_data = none;
}

-- The `ibc_transfer` step of one leg.
unfoldable pub leg_step : String → IbcLeg → TransferStep
leg_step id leg =
    new_step id StepType.ibc_transfer (some leg.from_chain) (some leg.to_chain)
      (leg_metadata leg none) none

-- `legs.forEach((leg, index) => steps.push(...))`, with ids that count up from `index`.
unfoldable pub leg_steps : String → ℕ → List IbcLeg → List TransferStep
unfolding leg_step
leg_steps prefix index [] = []
leg_steps prefix index (leg ∷ legs) =
    leg_step (prefix <> show_nat index) leg ∷ leg_steps prefix (suc index) legs

unfoldable pub direct_steps : Option IbcLeg → List TransferStep
unfolding leg_step
direct_steps none = []
direct_steps (some leg) = leg_step "direct-transfer" leg ∷ []

-- `none` is the TypeError of `route.legs[0].channel` on a route with no leg.
unfoldable pub indirect_steps : TransferMode → IndirectRoute → Option (List TransferStep)
unfolding leg_steps
indirect_steps mode route =
    if is_smart mode && route.supports_pfm
    then Option.map
        (λ leg.
          new_step "multi-hop" StepType.multi_hop (some route.pfm_start_chain)
            (get_elem? route.path 1) (leg_metadata leg (some route.pfm_memo)) (some route.path)
          ∷ [])
        (get_elem? route.legs 0)
    else some (leg_steps "leg-" 0 route.legs)

-- `route.inboundLegs.length === 0`
abbrev pub is_empty {ℓ} : {A : Type ℓ} → List A → Bool
is_empty [] = true
is_empty (x ∷ xs) = false

-- `execution?.usesWasm && execution?.smartContractData !== undefined`
abbrev pub contract_of : Option BrokerExecutionData → Option WasmData
contract_of none = none
contract_of (some execution) = if execution.uses_wasm then execution.smart_contract_data else none

-- `execution?.memo && execution.memo.length > 0`
abbrev pub memo_of : Option BrokerExecutionData → Option String
memo_of none = none
memo_of (some execution) = elim execution.memo [
  | none ↦ none
  | some memo ↦ if is_truthy memo then some memo else none
]

unfoldable pub wasm_step : BrokerSwapRoute → WasmData → TransferStep
wasm_step route contract =
    new_step "wasm-execution" StepType.wasm_execution (get_elem? route.path 0)
      (get_last? route.path)
      (record {
        channel = none;
        port = none;
        amount = none;
        denom = none;
        memo = none;
        smart_contract_data = some contract;
      })
      (some route.path)

-- `none` is the TypeError of `route.inboundLegs[0].channel` on a route with no inbound leg.
unfoldable pub memo_steps : BrokerSwapRoute → String → Option (List TransferStep)
memo_steps route memo =
    Option.map
      (λ leg.
        new_step "multi-hop-swap" StepType.multi_hop_swap (get_elem? route.path 0)
          (get_elem? route.path 1) (leg_metadata leg (some memo)) (some route.path)
        ∷ [])
      (get_elem? route.inbound_legs 0)

unfoldable pub swap_steps : BrokerSwapRoute → Option SwapQuote → List TransferStep
swap_steps route none = []
swap_steps route (some quote) =
    new_step "swap" StepType.swap (get_elem? route.path (length route.inbound_legs))
      (get_elem? route.path (length route.inbound_legs))
      (record {
        channel = none;
        port = none;
        amount = some quote.amount_in;
        denom = chain_denom_of quote.token_in;
        memo = none;
        smart_contract_data = none;
      })
      none
    ∷ []

unfoldable pub manual_swap_steps : BrokerSwapRoute → List TransferStep
unfolding leg_steps swap_steps
manual_swap_steps route =
    leg_steps "inbound-" 1 route.inbound_legs
    ++ (swap_steps route route.swap ++ leg_steps "outbound-" 0 route.outbound_legs)

-- The contract that a single execution calls: in smart mode, from the broker chain itself.
abbrev pub whole_contract : TransferMode → BrokerSwapRoute → Option WasmData
whole_contract mode route =
    if is_smart mode && is_empty route.inbound_legs then contract_of route.execution else none

-- The memo of a single inbound transfer, in smart mode.
abbrev pub whole_memo : TransferMode → BrokerSwapRoute → Option String
whole_memo mode route = if is_smart mode then memo_of route.execution else none

-- The second and the third branch of the case `brokerSwap`.
unfoldable pub uncontracted_steps : TransferMode → BrokerSwapRoute → Option (List TransferStep)
unfolding memo_steps manual_swap_steps
uncontracted_steps mode route = elim (whole_memo mode route) [
  | some memo ↦ memo_steps route memo
  | none ↦ some (manual_swap_steps route)
]

unfoldable pub broker_steps : TransferMode → BrokerSwapRoute → Option (List TransferStep)
unfolding wasm_step uncontracted_steps
broker_steps mode route = elim (whole_contract mode route) [
  | some contract ↦ some (wasm_step route contract ∷ [])
  | none ↦ uncontracted_steps mode route
]

unfoldable pub route_steps : TransferMode → Route → Option (List TransferStep)
unfolding direct_steps indirect_steps broker_steps
route_steps mode no_route = some []
route_steps mode (direct transfer) = some (direct_steps transfer)
route_steps mode (indirect route) = indirect_steps mode route
route_steps mode (broker_swap route) = broker_steps mode route

-- `none` is an exception: a TypeError on a route that lacks the leg that is read.
unfoldable pub generate_steps_from_response :
    FindPathResponse → TransferMode → Option (List TransferStep)
unfolding route_steps
generate_steps_from_response response mode =
    if response.success then route_steps mode response.route else some []

unfoldable pub extract_chain_path : FindPathResponse → List String
extract_chain_path response =
    if response.success
    then elim response.route [
      | no_route ↦ []
      | direct transfer ↦ elim transfer [
        | none ↦ []
        | some leg ↦ leg.from_chain ∷ leg.to_chain ∷ []
      ]
      | indirect route ↦ route.path
      | broker_swap route ↦ route.path
    ]
    else []
