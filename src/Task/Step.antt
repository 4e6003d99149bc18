-- ===== src/Task/Step.antt =====
-- `executeStep` of client_app/src/context/taskProvider.tsx.
use mathlib.Core.Option
use spectra_portal.Base.{
  ℕ, String, Bool, true, false, List, [], ◌∷◌, ◌++◌, Option, none, some, if◌then◌else◌, ltb, str_eq,
  str_or, opt_or, find, is_truthy, ◌<>◌, show_nat, ◌||◌, ◌&&◌, ◌==◌, length, map,
}
use spectra_portal.Pathfinder.{
  FindPathResponse, broker_swap, BrokerSwapRoute, OsmosisPool, OsmosisRoute, no_data,
  osmosis_route_data, SwapQuote, TokenMapping, WasmMsg,
}
use spectra_portal.Config.{ClientChain, ClientConfig}
use spectra_portal.Messages.{
  Coin, SwapAmountInRoute, SwapAmountInSplitRoute, EncodeObject, Built, built, thrown,
  create_ibc_transfer_message, create_swap_message, create_split_route_swap_message,
  create_wasm_execution_message,
}
use spectra_portal.Transfer.{
  TransferState, TransferStep, Metadata, ibc_transfer, swap, multi_hop, wasm_execution,
  multi_hop_swap,
}
use spectra_portal.Task.Platform.{Platform, SendResult, sent, threw_error, TaskExecutionResult}

abbrev pub refusal : String → Option Bool → TaskExecutionResult
refusal error is_retryable = record {
  success = false;
  tx_hash = none;
  error = some error;
  is_retryable = is_retryable;
}

-- A message and its memo, an early return, or an exception that the `catch` handles.
pub data Prepared : Type 0 where
  prepared : EncodeObject → (memo : String) → Prepared
  refused : TaskExecutionResult → Prepared
  raised : String → Prepared

-- `transfer.state.pathfinderResponse?.route.value as BrokerSwapRoute`, where it is one.
unfoldable pub broker_route : Option FindPathResponse → Option BrokerSwapRoute
broker_route none = none
broker_route (some response) = elim response.route [ broker_swap route ↦ some route | _ ↦ none ]

-- `o?.chainDenom || ""`
abbrev denom_or_empty : Option TokenMapping → String
denom_or_empty none = ""
denom_or_empty (some token) = token.chain_denom

abbrev show_chain : Option String → String
show_chain none = "undefined"
show_chain (some chain) = chain

abbrev pub and_then : {A B : Type 0} → Option A → (A → Option B) → Option B
and_then none k = none
and_then (some a) k = k a

-- `step.metadata?.<key> || d`
abbrev meta : TransferStep → (Metadata → Option String) → String → String
meta step key d = str_or (opt_or (and_then step.metadata key) "") d

unfoldable pub ibc_message : ℕ → TransferStep → (sender receiver : String) → EncodeObject
unfolding create_ibc_transfer_message
ibc_message now step sender receiver =
    create_ibc_transfer_message now sender receiver (meta step (λ m. m.channel) "")
      (meta step (λ m. m.port) "transfer")
      (record { amount = meta step (λ m. m.amount) "0"; denom = meta step (λ m. m.denom) "" })
      (meta step (λ m. m.memo) "")

abbrev pub from_built : (memo : String) → Built → Prepared
from_built memo (built message) = prepared message memo
from_built memo (thrown error) = raised error

abbrev pool_route : OsmosisPool → SwapAmountInRoute
pool_route pool = record { pool_id = pool.id; token_out_denom = pool.token_out_denom }

abbrev split_route : OsmosisRoute → SwapAmountInSplitRoute
split_route route = record { pools = map pool_route route.pools; token_in_amount = route.in_amount }

-- `osmosisRoutes.flatMap(...)`
unfoldable pub flat_routes : List OsmosisRoute → List SwapAmountInRoute
flat_routes [] = []
flat_routes (route ∷ routes) = map pool_route route.pools ++ flat_routes routes

unfoldable pub swap_message : String → SwapQuote → List OsmosisRoute → Built
unfolding flat_routes create_swap_message create_split_route_swap_message
swap_message sender quote routes =
    if ltb 1 (length routes)
    then create_split_route_swap_message sender (denom_or_empty quote.token_in)
        (map split_route routes) quote.amount_out
    else create_swap_message sender
        (record { amount = quote.amount_in; denom = denom_or_empty quote.token_in })
        (flat_routes routes) quote.amount_out

-- The token that is sent to the contract, if the quote names it and its amount.
unfoldable pub funds_of : Option SwapQuote → List Coin
funds_of none = []
funds_of (some quote) =
    if is_truthy (denom_or_empty quote.token_in) && is_truthy quote.amount_in
    then record { amount = quote.amount_in; denom = denom_or_empty quote.token_in } ∷ []
    else []

-- The contract and its message, if both are there.
unfoldable pub contract_call : BrokerSwapRoute → Option (String × WasmMsg)
contract_call route = and_then (and_then route.execution (λ e. e.smart_contract_data)) (λ call.
    if is_truthy call.contract then Option.map (λ msg. (call.contract, msg)) call.msg else none)

unfoldable pub prepare_wasm : Option FindPathResponse → String → Prepared
unfolding broker_route contract_call create_wasm_execution_message funds_of
prepare_wasm response sender = elim (broker_route response) [
  | none ↦ refused (refusal "Smart contract data not found in execution" none)
  | some route ↦ elim (contract_call route) [
    | none ↦ refused (refusal "Smart contract data not found in execution" none)
    | some (contract, msg) ↦
        from_built "Spectra WASM execution"
          (create_wasm_execution_message sender contract msg (funds_of route.swap))
  ]
]

unfoldable pub prepare_swap : Option FindPathResponse → String → Prepared
unfolding broker_route swap_message
prepare_swap response sender = elim (and_then (broker_route response) (λ route. route.swap)) [
  | none ↦ refused (refusal "Swap route data not found" none)
  | some quote ↦ elim quote.route_data [
    | no_data ↦ refused (refusal "Swap route data not found" none)
    | osmosis_route_data routes ↦
        from_built "Spectra Osmosis Swap" (swap_message sender quote routes)
  ]
]

module _ (p : Platform) (state : TransferState) where
  abbrev address_of : Option String → String
  address_of none = ""
  address_of (some chain) = opt_or (p.get_address chain) ""

  -- The IBC transfer to a receiver that must not be empty.
  unfoldable pub prepare_ibc : ℕ → TransferStep → (sender receiver memo : String) → Prepared
  unfolding ibc_message
  prepare_ibc now step sender receiver memo =
      if is_truthy receiver
      then prepared (ibc_message now step sender receiver) memo
      else refused
          (refusal ("Receiver address not available for " <> show_chain step.to_chain) (some true))

  -- `getAddress(step.toChain) || transfer.state.receiverAddress`
  abbrev own_receiver : TransferStep → String
  own_receiver step = str_or (address_of step.to_chain) state.receiver_address

  -- `executionMs?.ibcReceiver`
  abbrev route_receiver : String
  route_receiver =
      opt_or
        (and_then (and_then (broker_route state.pathfinder_response) (λ route. route.execution))
          (λ e. e.ibc_receiver))
        ""

  -- The `switch` on the type of the step; `state` is the state that the closure captured.
  unfoldable pub prepare : ℕ → TransferStep → (sender : String) → Prepared
  unfolding prepare_ibc broker_route prepare_wasm prepare_swap
  prepare now step sender = elim step.type [
    | ibc_transfer ↦ prepare_ibc now step sender (own_receiver step) "Spectra IBC transfer"
    | multi_hop ↦ prepare_ibc now step sender (own_receiver step) "Spectra IBC transfer"
    | multi_hop_swap ↦
        prepare_ibc now step sender (str_or route_receiver (own_receiver step))
          "Spectra IBC multi-hop + swap"
    | wasm_execution ↦ prepare_wasm state.pathfinder_response sender
    | swap ↦ prepare_swap state.pathfinder_response sender
  ]

  -- The `catch` of the step.
  unfoldable pub caught : String → TaskExecutionResult
  caught error =
      let lower = p.to_lower_case error in
      refusal error (
        some (
          p.includes lower "out of gas"
          || p.includes lower "insufficient"
          || p.includes lower "timeout"
          || p.includes lower "rejected"))

  unfoldable pub after_send : SendResult → TaskExecutionResult
  unfolding caught
  after_send (threw_error error) = caught error
  after_send (sent code hash) =
      if code == 0
      then record { success = true; tx_hash = some hash; error = none; is_retryable = none }
      else record {
        success = false;
        tx_hash = some hash;
        error = some ("Transaction failed with code " <> show_nat code);
        is_retryable = some true;
      }

  unfoldable pub send_step :
      String → ClientChain → TransferStep → String → p.api.Net → TaskExecutionResult × p.api.Net
  unfolding prepare after_send caught
  send_step from chain step sender net =
      let (now, net1) = p.api.now net in
      elim (prepare now step sender) [
        | refused result ↦ (result, net1)
        | raised error ↦ (caught error, net1)
        | prepared message memo ↦
            let (result, net2) = p.send_transaction from message memo chain net1 in
            (after_send result, net2)
      ]

  -- A step whose first chain is undefined finds no chain.
  abbrev pub find_chain : ClientConfig → Option String → Option ClientChain
  find_chain config none = none
  find_chain config (some id) = find (λ c. str_eq c.id id) config.chains

  unfoldable pub execute_step :
      ClientConfig → TransferStep → p.api.Net → TaskExecutionResult × p.api.Net
  unfolding send_step
  execute_step config step net = elim (find_chain config step.from_chain) [
    | none ↦ (refusal ("Chain config not found for " <> show_chain step.from_chain) none, net)
    | some chain ↦
        let sender = address_of step.from_chain in
        if is_truthy sender
        then send_step (show_chain step.from_chain) chain step sender net
        else (refusal ("Not connected to " <> show_chain step.from_chain) (some true), net)
  ]
