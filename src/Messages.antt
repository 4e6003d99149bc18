-- ===== src/Messages.antt =====
-- client_app/src/hooks/useTransactionConstr.ts: the messages of the transactions. The contract
-- message is kept as data; its JSON text and the bytes of that are left to the runtime.
use mathlib.Core.Option
use spectra_portal.Base.{
  ℕ, zero, suc, ◌+◌, ◌*◌, ◌/◌, ◌%◌, ◌^◌, ◌==◌, ◌&&◌, ◌||◌, ltb, if◌then◌else◌, String, List, [],
  ◌∷◌, Option, none, some, ◌<>◌, show_nat, str_or,
}
use spectra_portal.Pathfinder.{
  SwapOperation, UserSwap, MinAsset, IbcInfo, PostSwapAction, no_action, ibc_transfer, transfer,
  SwapAndAction, WasmMsg,
}

pub record Coin : Type 0 where
  pub amount : String
  pub denom : String

pub record SwapAmountInRoute : Type 0 where
  pub pool_id : ℕ
  pub token_out_denom : String

pub record SwapAmountInSplitRoute : Type 0 where
  pub pools : List SwapAmountInRoute
  pub token_in_amount : String

-- `swap_and_action`, with the defaults filled in; a part that is `undefined` is left out of the JSON.
pub record ContractMsg : Type 0 where
  pub user_swap : Option (String × List SwapOperation)
  pub min_asset : Option Coin
  pub timeout_timestamp : ℕ
  pub post_swap_action : Option IbcInfo
  pub affiliates : List String

pub record TransferMsg : Type 0 where
  pub source_port : String
  pub source_channel : String
  pub token : Coin
  pub sender : String
  pub receiver : String
  pub revision_height : String
  pub revision_number : String
  pub timeout_timestamp : String
  pub memo : String

-- By `typeUrl`: MsgTransfer, MsgSwapExactAmountIn, MsgSplitRouteSwapExactAmountIn and
-- MsgExecuteContract.
pub data EncodeObject : Type 0 where
  msg_transfer : TransferMsg → EncodeObject
  msg_swap : (sender : String) → Coin → List SwapAmountInRoute → String → EncodeObject
  msg_split_swap :
      (sender : String) → List SwapAmountInSplitRoute → (denom min_amount : String) → EncodeObject
  msg_execute_contract : (sender contract : String) → ContractMsg → List Coin → EncodeObject

-- A message, or the message of the error that is thrown.
pub data Built : Type 0 where
  built : EncodeObject → Built
  thrown : String → Built

-- `now` is `Date.now()`, in milliseconds; the timeout is in nanoseconds, ten minutes later.
unfoldable pub create_ibc_transfer_message :
    (now : ℕ) (sender receiver source_channel source_port : String)
    → Coin
    → (memo : String) → EncodeObject
create_ibc_transfer_message now sender receiver source_channel source_port token memo =
    msg_transfer (record {
      source_port = source_port;
      source_channel = source_channel;
      token = token;
      sender = sender;
      receiver = receiver;
      revision_height = "0";
      revision_number = "0";
      timeout_timestamp = show_nat (now + 10 * 60 * 1000) <> "000000";
      memo = memo;
    })

unfoldable pub create_swap_message : String → Coin → List SwapAmountInRoute → String → Built
create_swap_message sender token_in [] min_amount = thrown "No routes provided"
create_swap_message sender token_in (r ∷ rs) min_amount =
    built (msg_swap sender token_in (r ∷ rs) min_amount)

unfoldable pub create_split_route_swap_message :
    String → String → List SwapAmountInSplitRoute → String → Built
create_split_route_swap_message sender denom [] min_amount = thrown "No routes provided"
create_split_route_swap_message sender denom (r ∷ rs) min_amount =
    built (msg_split_swap sender (r ∷ rs) denom min_amount)

-- `x || ""` on a protobuf string that may be missing is the string or "".
swap_part : UserSwap → String × List SwapOperation
swap_part user_swap = elim user_swap.swap_exact_asset_in [
  | none ↦ ("", [])
  | some swap ↦ (swap.swap_venue_name, swap.operations)
]

-- `amount || "0"`
asset_part : MinAsset → Coin
asset_part min_asset = elim min_asset.native [
  | none ↦ record { amount = "0"; denom = "" }
  | some asset ↦ record { amount = str_or asset.amount "0"; denom = asset.denom }
]

action_part : PostSwapAction → Option IbcInfo
action_part no_action = none
action_part (transfer address) = none
action_part (ibc_transfer none) =
    some (record { memo = ""; receiver = ""; recover_address = ""; source_channel = "" })
action_part (ibc_transfer (some info)) = some info

bind_action : Option PostSwapAction → Option IbcInfo
bind_action none = none
bind_action (some action) = action_part action

-- How many halvings bring a number below 2^53; those of a uint64 are fewer than 64.
unfoldable halvings : (fuel : ℕ) → ℕ → ℕ
halvings zero n = 0
halvings (suc fuel) n = let rest = halvings fuel (n / 2) in if ltb n (2 ^ 53) then 0 else suc rest

-- `Number` of a bigint: the nearest double, the even one of two; its digits in a JSON text are not
-- modelled.
unfoldable pub to_number : ℕ → ℕ
unfolding halvings
to_number n =
    let unit = 2 ^ halvings 64 n in
    let below = n / unit in
    let twice = 2 * (n % unit) in
    if ltb unit twice || (unit == twice && below % 2 == 1) then (below + 1) * unit else below * unit

unfoldable pub contract_msg : SwapAndAction → ContractMsg
unfolding swap_part asset_part action_part bind_action to_number
contract_msg m = record {
  user_swap = Option.map swap_part m.user_swap;
  min_asset = Option.map asset_part m.min_asset;
  timeout_timestamp = to_number m.timeout_timestamp;
  post_swap_action = bind_action m.post_swap_action;
  affiliates = m.affiliates;
}

unfoldable pub create_wasm_execution_message : String → String → WasmMsg → List Coin → Built
unfolding contract_msg
create_wasm_execution_message sender contract msg funds = elim msg.swap_and_action [
  | none ↦ thrown "swapAndAction is required in WasmMsg"
  | some action ↦ built (msg_execute_contract sender contract (contract_msg action) funds)
]
