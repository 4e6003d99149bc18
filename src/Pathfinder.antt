-- ===== src/Pathfinder.antt =====
-- The messages of the pathfinder service that the client reads (proto/pathfinder_route.proto, as
-- generated in client_app/src/lib/generated/pathfinder/pathfinder_route_pb.ts). A record has the
-- fields that the modelled code reads; an optional field is an `Option`, and a `oneof` is a data
-- type with a constructor for the unset case.
use spectra_portal.Base.{ℕ, String, Bool, List, Option}

pub record FindPathRequest : Type 0 where
  pub chain_from : String
  pub token_from_denom : String
  pub amount_in : String
  pub chain_to : String
  pub token_to_denom : String
  pub sender_address : String
  pub receiver_address : String
  pub smart_route : Bool
  pub slippage_bps : ℕ

pub record TokenMapping : Type 0 where
  pub chain_denom : String
  pub base_denom : String
  pub origin_chain : String
  pub is_native : Bool

pub record IbcLeg : Type 0 where
  pub from_chain : String
  pub to_chain : String
  pub channel : String
  pub port : String
  pub token : Option TokenMapping
  pub amount : String

pub record SwapOperation : Type 0 where
  pub pool : String
  pub denom_in : String
  pub denom_out : String

pub record SwapExactAssetIn : Type 0 where
  pub swap_venue_name : String
  pub operations : List SwapOperation

pub record UserSwap : Type 0 where
  pub swap_exact_asset_in : Option SwapExactAssetIn

pub record Asset : Type 0 where
  pub amount : String
  pub denom : String

pub record MinAsset : Type 0 where
  pub native : Option Asset

pub record IbcInfo : Type 0 where
  pub memo : String
  pub receiver : String
  pub recover_address : String
  pub source_channel : String

pub data PostSwapAction : Type 0 where
  no_action : PostSwapAction
  ibc_transfer : Option IbcInfo → PostSwapAction
  transfer : String → PostSwapAction

pub record SwapAndAction : Type 0 where
  pub user_swap : Option UserSwap
  pub min_asset : Option MinAsset
  pub timeout_timestamp : ℕ
  pub post_swap_action : Option PostSwapAction
  pub affiliates : List String

pub record WasmMsg : Type 0 where
  pub swap_and_action : Option SwapAndAction

pub record WasmData : Type 0 where
  pub contract : String
  pub msg : Option WasmMsg

pub record BrokerExecutionData : Type 0 where
  pub memo : Option String
  pub smart_contract_data : Option WasmData
  pub ibc_receiver : Option String
  pub uses_wasm : Bool

pub record OsmosisPool : Type 0 where
  pub id : ℕ
  pub token_out_denom : String

pub record OsmosisRoute : Type 0 where
  pub pools : List OsmosisPool
  pub out_amount : String
  pub in_amount : String

-- `routeData`: unset, or the routes of `osmosisRouteData`.
pub data RouteData : Type 0 where
  no_data : RouteData
  osmosis_route_data : List OsmosisRoute → RouteData

pub record SwapQuote : Type 0 where
  pub broker : String
  pub token_in : Option TokenMapping
  pub token_out : Option TokenMapping
  pub amount_in : String
  pub amount_out : String
  pub price_impact : String
  pub route_data : RouteData

pub record IndirectRoute : Type 0 where
  pub path : List String
  pub legs : List IbcLeg
  pub supports_pfm : Bool
  pub pfm_start_chain : String
  pub pfm_memo : String

pub record BrokerSwapRoute : Type 0 where
  pub path : List String
  pub inbound_legs : List IbcLeg
  pub swap : Option SwapQuote
  pub outbound_legs : List IbcLeg
  pub outbound_supports_pfm : Bool
  pub execution : Option BrokerExecutionData

pub data Route : Type 0 where
  no_route : Route
  direct : Option IbcLeg → Route
  indirect : IndirectRoute → Route
  broker_swap : BrokerSwapRoute → Route

pub record FindPathResponse : Type 0 where
  pub success : Bool
  pub error_message : String
  pub route : Route
