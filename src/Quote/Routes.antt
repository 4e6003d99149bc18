-- ===== src/Quote/Routes.antt =====
-- What is read of a quote: the functions on responses of client_app/src/hooks/usePathfinderQuery.ts,
-- and client_app/src/hooks/useRouteInfo.ts.
use mathlib.Core.Option
use spectra_portal.Base.{
  ℕ, ◌+◌, suc, String, Bool, true, false, List, [], ◌∷◌, ◌++◌, map, Option, none, some,
  if◌then◌else◌, ◌&&◌, length, get_last?, ltb, leb, or_else,
}
use spectra_portal.Pathfinder.{
  IbcLeg, SwapQuote, BrokerSwapRoute, BrokerExecutionData, Route, FindPathResponse, no_route,
  direct, indirect, broker_swap,
}
use spectra_portal.Transfer.{TransferMode, RouteType}
use spectra_portal.Transfer.{is_smart}

unfoldable pub get_route_type : FindPathResponse → Option RouteType
get_route_type response =
    if response.success
    then elim response.route [
      | no_route ↦ none
      | direct transfer ↦ some RouteType.direct
      | indirect route ↦ some RouteType.indirect
      | broker_swap route ↦ some RouteType.broker_swap
    ]
    else none

unfoldable pub get_route_path : FindPathResponse → List String
get_route_path response =
    if response.success
    then elim response.route [
      | no_route ↦ []
      | direct transfer ↦ elim transfer [
        | some leg ↦ leg.from_chain ∷ leg.to_chain ∷ []
        | none ↦ []
      ]
      | indirect route ↦ route.path
      | broker_swap route ↦ route.path
    ]
    else []

unfoldable pub route_supports_pfm : FindPathResponse → Bool
route_supports_pfm response =
    if response.success
    then elim response.route [
      | no_route ↦ false
      | direct transfer ↦ false
      | indirect route ↦ route.supports_pfm
      | broker_swap route ↦ route.outbound_supports_pfm
    ]
    else false

-- `execution?.usesWasm ?? false`
abbrev pub uses_wasm_of : Option BrokerExecutionData → Bool
uses_wasm_of none = false
uses_wasm_of (some execution) = execution.uses_wasm

-- `if (route.swap) steps++`
abbrev pub and_swap : Option SwapQuote → ℕ → ℕ
and_swap none steps = steps
and_swap (some quote) steps = suc steps

-- The count of the case `brokerSwap`.
unfoldable pub broker_count : TransferMode → BrokerSwapRoute → ℕ
broker_count mode route =
    if is_smart mode && uses_wasm_of route.execution
    then 1
    else and_swap route.swap (length route.inbound_legs) + length route.outbound_legs

unfoldable pub get_route_step_count : FindPathResponse → TransferMode → ℕ
unfolding broker_count
get_route_step_count response mode =
    if response.success
    then elim response.route [
      | no_route ↦ 0
      | direct transfer ↦ 1
      | indirect route ↦ if is_smart mode && route.supports_pfm then 1 else length route.legs
      | broker_swap route ↦ broker_count mode route
    ]
    else 0

-- `supportsPfm`, `supportsWasm` and `isDirectRoute` of `useRouteInfo`.
unfoldable pub supports_pfm : Option FindPathResponse → Bool
unfolding route_supports_pfm
supports_pfm none = false
supports_pfm (some response) = route_supports_pfm response

unfoldable pub supports_wasm : Option FindPathResponse → Bool
supports_wasm none = false
supports_wasm (some response) =
    if response.success
    then elim response.route [
      | no_route ↦ false
      | direct transfer ↦ false
      | indirect route ↦ false
      | broker_swap route ↦ uses_wasm_of route.execution
    ]
    else false

unfoldable pub is_direct_route : Option FindPathResponse → Bool
is_direct_route none = false
is_direct_route (some response) =
    if response.success
    then elim response.route [
      | no_route ↦ false
      | direct transfer ↦ true
      | indirect route ↦ false
      | broker_swap route ↦ false
    ]
    else false

unfoldable pub step_count_of : Option FindPathResponse → TransferMode → ℕ
unfolding get_route_step_count
step_count_of none mode = 0
step_count_of (some response) mode = get_route_step_count response mode

pub data ℤ : Type 0 where
  pos : ℕ → ℤ
  negsuc : ℕ → ℤ

-- `bps < -n`, where `none` is NaN.
abbrev below_minus : Option ℤ → ℕ → Bool
below_minus none n = false
below_minus (some (pos k)) n = false
below_minus (some (negsuc k)) n = leb n k

unfoldable pub price_impact_color : Option ℤ → String
price_impact_color bps =
    if below_minus bps 500
    then "#e11d48"
    else if below_minus bps 250
    then "#f87171"
    else if below_minus bps 100
    then "#facc15"
    else "#4ade80"

pub record RouteInfo : Type 0 where
  pub route_type : String
  pub expected_output : String
  pub price_impact_bps : Option ℤ
  pub price_impact_color : String
  pub step_count : ℕ

unfoldable pub broker_label : ℕ → ℕ → String
broker_label inbound outbound =
    if ltb 0 inbound && ltb 0 outbound
    then "Multi-hop Swap & Transfer"
    else if ltb 0 inbound
    then "Transfer & Swap"
    else if ltb 0 outbound
    then "Swap & Transfer"
    else ""

-- `leg?.amount ?? "0"`
abbrev pub leg_amount : Option IbcLeg → String
leg_amount leg = or_else (Option.map (λ l. l.amount) leg) "0"

-- `to_bps` is `Math.round(Number.parseFloat(priceImpact) * 10000)`.
module _ (to_bps : String → Option ℤ) where
  unfoldable pub info_of_route : Route → ℕ → RouteInfo
  unfolding price_impact_color broker_label
  info_of_route no_route steps = record {
    route_type = "";
    expected_output = "";
    price_impact_bps = some (pos 0);
    price_impact_color = "";
    step_count = steps;
  }
  info_of_route (direct transfer) steps = record {
    route_type = "Direct Transfer";
    expected_output = leg_amount transfer;
    price_impact_bps = some (pos 0);
    price_impact_color = "";
    step_count = steps;
  }
  info_of_route (indirect route) steps = record {
    route_type = "Multi-hop Transfer";
    expected_output = leg_amount (get_last? route.legs);
    price_impact_bps = some (pos 0);
    price_impact_color = "";
    step_count = steps;
  }
  info_of_route (broker_swap route) steps =
      let bps = to_bps (or_else (Option.map (λ s. s.price_impact) route.swap) "0") in
      record {
        route_type = broker_label (length route.inbound_legs) (length route.outbound_legs);
        expected_output = or_else (Option.map (λ s. s.amount_out) route.swap) "0";
        price_impact_bps = bps;
        price_impact_color = price_impact_color bps;
        step_count = steps;
      }

  -- `routeInfo` of `useRouteInfo`.
  unfoldable pub route_info : Option FindPathResponse → TransferMode → Option RouteInfo
  unfolding info_of_route step_count_of
  route_info none mode = none
  route_info (some response) mode =
      if response.success
      then some (info_of_route response.route (step_count_of (some response) mode))
      else none

abbrev to_chains : List IbcLeg → List String
to_chains legs = map (λ leg. leg.to_chain) legs

unfoldable pub intermediate_chain_ids : Option FindPathResponse → List String
intermediate_chain_ids none = []
intermediate_chain_ids (some response) =
    if response.success
    then elim response.route [
      | no_route ↦ []
      | direct transfer ↦ []
      | indirect route ↦ to_chains route.legs
      | broker_swap route ↦ to_chains route.outbound_legs ++ to_chains route.inbound_legs
    ]
    else []
