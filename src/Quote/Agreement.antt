-- ===== src/Quote/Agreement.antt =====
-- The functions on responses of client_app/src/hooks/usePathfinderQuery.ts and useRouteInfo.ts
-- against those of client_app/src/context/transferContext.tsx and taskProvider.tsx that read the same.
use mathlib.Core.Option
use spectra_portal.Base.{
  ℕ, ◌+◌, ◌≡◌, ◌≢◌, refl, sym, ap, ◌∙◌, String, Bool, true, false, List, [], Option, none, some,
  if◌then◌else◌, ◌&&◌, ◌||◌, length, get_last?, is_some, is_truthy, or_else, str_or, opt_or, arith,
}
use spectra_portal.Pathfinder.{
  IbcLeg, SwapQuote, BrokerSwapRoute, Route, FindPathResponse, no_route, direct, indirect,
  broker_swap,
}
use spectra_portal.Transfer.{
  TransferMode, TransferStep, route_type_of, extract_chain_path, generate_steps_from_response,
  is_smart, route_case, whole_contract, whole_memo,
}
use spectra_portal.Transfer.Modes.{step_count, swap_count, generate_steps-Counts}
use spectra_portal.Task.{get_expected_output, broker_output}
use spectra_portal.Quote.Routes.{
  get_route_type, get_route_path, get_route_step_count, broker_count, uses_wasm_of, and_swap,
  route_info, info_of_route, leg_amount, ℤ,
}

abbrev respond : Bool → String → Route → FindPathResponse
respond success message route = record { success = success; error_message = message; route = route }

agree_on :
    (success : Bool) (message : String) (route : Route)
    → (get_route_path (respond success message route)
        ≡ extract_chain_path (respond success message route))
      × (get_route_type (respond success message route)
          ≡ route_type_of (some (respond success message route)))
unfolding get_route_path get_route_type extract_chain_path route_type_of route_case
agree_on false message route = (refl, refl)
agree_on true message no_route = (refl, refl)
agree_on true message (direct none) = (refl, refl)
agree_on true message (direct (some leg)) = (refl, refl)
agree_on true message (indirect route) = (refl, refl)
agree_on true message (broker_swap route) = (refl, refl)

-- The path and the type of a quote are those that the transfer's state is given.
pub get_route_path-extract_chain_path :
    (response : FindPathResponse)
    → (get_route_path response ≡ extract_chain_path response)
      × (get_route_type response ≡ route_type_of (some response))
get_route_path-extract_chain_path response =
    agree_on response.success response.error_message response.route

-- The routes whose announced number of steps is the number of the steps that are made: a direct
-- route has its transfer, and a smart swap is announced as one contract call exactly when it runs by
-- one signature.
abbrev pub IsAnnounced : TransferMode → Route → Type 0
IsAnnounced mode no_route = Unit
IsAnnounced mode (direct transfer) = transfer ≢ none
IsAnnounced mode (indirect route) = Unit
IsAnnounced mode (broker_swap route) =
    (is_smart mode && uses_wasm_of route.execution)
    ≡ (is_some (whole_contract mode route) || is_some (whole_memo mode route))

swap_lem : (swap : Option SwapQuote) (n : ℕ) → and_swap swap n ≡ n + swap_count swap
swap_lem none n = omega arith
swap_lem (some quote) n = omega arith

broker_count-step_count :
    (mode : TransferMode) (route : BrokerSwapRoute)
    → IsAnnounced mode (broker_swap route)
    → broker_count mode route ≡ step_count mode (broker_swap route)
unfolding broker_count
broker_count-step_count mode route h =
    ground (arith, swap_lem route.swap (length route.inbound_legs))

get_route_step_count-step_count :
    (mode : TransferMode) (success : Bool) (message : String) (route : Route)
    → IsAnnounced mode route
    → get_route_step_count (respond success message route) mode
      ≡ (if success then step_count mode route else 0)
unfolding get_route_step_count
get_route_step_count-step_count mode false message route h = refl
get_route_step_count-step_count mode true message no_route h = refl
get_route_step_count-step_count mode true message (direct none) h = absurd (h refl)
get_route_step_count-step_count mode true message (direct (some leg)) h = refl
get_route_step_count-step_count mode true message (indirect route) h = refl
get_route_step_count-step_count mode true message (broker_swap route) h =
    broker_count-step_count mode route h

-- The number of steps that is shown for a quote is the number of the steps that are then made, on a
-- route whose number is announced rightly: not a direct route without its transfer, nor a smart swap
-- that is said to be one contract call and is not run by one signature, or the other way round.
pub get_route_step_count-length :
    (response : FindPathResponse) (mode : TransferMode) {steps : List TransferStep}
    → IsAnnounced mode response.route
    → generate_steps_from_response response mode ≡ some steps
    → get_route_step_count response mode ≡ length steps
get_route_step_count-length response mode announced e =
    get_route_step_count-step_count mode response.success response.error_message response.route
      announced
    ∙ sym (generate_steps-Counts response mode e).1

-- The routes whose output is known before the transfer: there is an amount, and a swap is not followed
-- by transfers.
abbrev pub IsPlain : Route → Type 0
IsPlain no_route = ⊥
IsPlain (direct transfer) = is_truthy (leg_amount transfer) ≡ true
IsPlain (indirect route) = is_truthy (leg_amount (get_last? route.legs)) ≡ true
IsPlain (broker_swap route) =
    (route.outbound_legs ≡ [])
    × (is_truthy (or_else (Option.map (λ s. s.amount_out) route.swap) "0") ≡ true)

leg_amount-str_or :
    (leg : Option IbcLeg)
    → is_truthy (leg_amount leg) ≡ true
    → leg_amount leg ≡ str_or (opt_or (Option.map (λ l. l.amount) leg) "") "0"
leg_amount-str_or none h = refl
leg_amount-str_or (some leg) h = ground arith

swap_amount :
    (swap : Option SwapQuote)
    → is_truthy (or_else (Option.map (λ s. s.amount_out) swap) "0") ≡ true
    → or_else (Option.map (λ s. s.amount_out) swap) "0"
      ≡ str_or (opt_or (Option.map (λ s. s.amount_out) swap) "") "0"
swap_amount none h = refl
swap_amount (some quote) h = ground arith

broker_output_lem :
    (route : BrokerSwapRoute)
    → IsPlain (broker_swap route)
    → or_else (Option.map (λ s. s.amount_out) route.swap) "0" ≡ broker_output route
unfolding broker_output
broker_output_lem route (last, amount) = rw last (swap_amount route.swap amount)

expected_output-on :
    (to_bps : String → Option ℤ) (message : String) (route : Route) (steps : ℕ)
    → IsPlain route
    → (info_of_route to_bps route steps).expected_output
      ≡ get_expected_output (respond true message route)
unfolding info_of_route get_expected_output
expected_output-on to_bps message no_route steps h = absurd h
expected_output-on to_bps message (direct transfer) steps h = leg_amount-str_or transfer h
expected_output-on to_bps message (indirect route) steps h =
    leg_amount-str_or (get_last? route.legs) h
expected_output-on to_bps message (broker_swap route) steps h = broker_output_lem route h

route_info-on :
    (to_bps : String → Option ℤ) (success : Bool) (message : String) (route : Route)
    (mode : TransferMode)
    → success ≡ true
    → IsPlain route
    → Option.map
        (λ info. info.expected_output)
        (route_info to_bps (some (respond success message route)) mode)
      ≡ some (get_expected_output (respond success message route))
unfolding route_info
route_info-on to_bps false message route mode ok plain = cc
route_info-on to_bps true message route mode ok plain =
    ap some (expected_output-on to_bps message route _ plain)

-- The output that is shown for a successful quote is the one that the history records, where there
-- is an amount and no transfer follows a swap.
pub route_info-get_expected_output :
    (to_bps : String → Option ℤ) (response : FindPathResponse) (mode : TransferMode)
    → response.success ≡ true
    → IsPlain response.route
    → Option.map (λ info. info.expected_output) (route_info to_bps (some response) mode)
      ≡ some (get_expected_output response)
route_info-get_expected_output to_bps response mode ok plain =
    route_info-on to_bps response.success response.error_message response.route mode ok plain
