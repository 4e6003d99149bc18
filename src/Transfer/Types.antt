-- ===== src/Transfer/Types.antt =====
-- The types of client_app/src/context/transferContext.tsx, and ClientToken of
-- client_app/src/components/modules/tomlTypes.ts.
use spectra_portal.Base.{ℕ, String, Bool, List, [], Option, none}
use spectra_portal.Pathfinder.{FindPathResponse, WasmData}

pub data TransferMode : Type 0 where
  manual smart : TransferMode

pub data TransferPhase : Type 0 where
  idle preparing executing tracking completed failed : TransferPhase

pub data RouteType : Type 0 where
  direct indirect broker_swap : RouteType

pub data StepType : Type 0 where
  ibc_transfer swap multi_hop wasm_execution multi_hop_swap : StepType

pub data StepStatus : Type 0 where
  pending signing broadcasting confirming completed failed : StepStatus

pub record Metadata : Type 0 where
  pub channel : Option String
  pub port : Option String
  pub amount : Option String
  pub denom : Option String
  pub memo : Option String
  pub smart_contract_data : Option WasmData

-- The chains are read off a path by index, so at run time either may be undefined.
pub record TransferStep : Type 0 where
  pub id : String
  pub type : StepType
  pub from_chain : Option String
  pub to_chain : Option String
  pub status : StepStatus
  pub tx_hash : Option String
  pub error : Option String
  pub metadata : Option Metadata
  pub transfer_order : Option (List String)

-- `Partial<TransferStep>`, with the keys that the callers give. `error: undefined` is a key with
-- no value, so the outer `Option` says whether the key is there.
pub record StepPatch : Type 0 where
  pub status : Option StepStatus
  pub tx_hash : Option (Option String)
  pub error : Option (Option String)

pub record ClientToken : Type 0 where
  pub denom : String
  pub name : String
  pub symbol : String
  pub decimals : ℕ
  pub icon : String
  pub origin_chain : String
  pub origin_chain_name : Option String
  pub coingecko_id : Option String
  pub is_native : Bool
  pub base_denom : Option String

pub record TransferState : Type 0 where
  pub phase : TransferPhase
  pub mode : TransferMode
  pub route_type : Option RouteType
  pub from_chain_id : String
  pub to_chain_id : String
  pub from_token : Option ClientToken
  pub to_token : Option ClientToken
  pub amount : String
  pub sender_address : String
  pub receiver_address : String
  pub slippage_bps : ℕ
  pub pathfinder_response : Option FindPathResponse
  pub steps : List TransferStep
  pub current_step_index : ℕ
  pub db_record_id : Option ℕ
  pub error : Option String
  pub chain_path : List String
  pub multi_hop_progress : Option ℕ
  pub multi_hop_total_chains : Option ℕ

-- The payload of RESUME_TRANSFER is spread over the constructor's arguments, in its order. The
-- `totalChains` of SET_MULTIHOP_PROGRESS is undefined, null or a number.
pub data TransferAction : Type 0 where
  set_mode : TransferMode → TransferAction
  set_from_chain set_to_chain : String → TransferAction
  set_from_token set_to_token : Option ClientToken → TransferAction
  set_amount set_sender_address set_receiver_address : String → TransferAction
  set_slippage : ℕ → TransferAction
  set_pathfinder_response : Option FindPathResponse → TransferAction
  start_preparing : TransferAction
  start_executing : List TransferStep → ℕ → List String → TransferAction
  update_step : ℕ → StepPatch → TransferAction
  advance_step complete_transfer : TransferAction
  fail_transfer : String → TransferAction
  reset : TransferAction
  resume_transfer : List TransferStep → ℕ → ℕ → List String → TransferAction
  set_multi_hop_progress : Option ℕ → Option (Option ℕ) → TransferAction

abbrev pub initial_state : TransferState
initial_state = record {
  phase = TransferPhase.idle;
  mode = TransferMode.smart;
  route_type = none;
  from_chain_id = "";
  to_chain_id = "";
  from_token = none;
  to_token = none;
  amount = "";
  sender_address = "";
  receiver_address = "";
  slippage_bps = 100;
  pathfinder_response = none;
  steps = [];
  current_step_index = 0;
  db_record_id = none;
  error = none;
  chain_path = [];
  multi_hop_progress = none;
  multi_hop_total_chains = none;
}
