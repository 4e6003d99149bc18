-- ===== src/Quote/Tests.antt =====
-- Runs of the hook and of the route functions of client_app/src/hooks/usePathfinderQuery.ts.
use mathlib.Core.Option
use spectra_portal.Base.{
  ℕ, ◌≡◌, refl, String, true, false, List, [], ◌∷◌, Option, none, some, length, is_truthy,
}
use spectra_portal.Pathfinder.{IbcLeg, SwapQuote, no_data, FindPathResponse, direct, broker_swap}
use spectra_portal.Transfer.{TransferStep, smart, generate_steps_from_response}
use spectra_portal.Task.{get_expected_output}
use spectra_portal.Quote.Hook.{
  PathfinderQueryParams, request_of, fetch_start, fetch_finish, Call, responded, threw,
}
use spectra_portal.Quote.InFlight.{
  Session, new_session, asked, settled, ask, settle, Reach, here, next,
}
use spectra_portal.Quote.Shown.{IsCoherent, Reach-IsCoherent}
use spectra_portal.Quote.Backed.{IsAnswer, Reach-IsAnswer}
use spectra_portal.Quote.Routes.{ℤ, pos, get_route_step_count, route_info, broker_label}
use spectra_portal.Quote.Agreement.{get_route_step_count-length, route_info-get_expected_output}

abbrev params : PathfinderQueryParams
params = record {
  chain_from = "osmosis-1";
  token_from_denom = "uosmo";
  amount_in = "7";
  chain_to = "atomone-1";
  token_to_denom = none;
  sender_address = "osmo1";
  receiver_address = "atone1";
  smart_route = none;
  slippage_bps = none;
}

abbrev leg : IbcLeg
leg = record {
  from_chain = "osmosis-1";
  to_chain = "atomone-1";
  channel = "channel-1";
  port = "transfer";
  token = none;
  amount = "7";
}

abbrev answer : FindPathResponse
answer = record { success = true; error_message = ""; route = direct (some leg) }

abbrev call : ℕ → Call
call id = record { id = id; request = request_of params "7" }

-- Two calls are in flight, and the first is answered last.
abbrev two_asked : Session
two_asked =
    asked is_truthy (some params) true "7" (asked is_truthy (some params) true "7" new_session)

abbrev answered : Session
answered = settled (call 2) (call 1 ∷ []) (responded answer) 5 two_asked

abbrev overtaken : Session
overtaken = settled (call 1) [] (threw none) 6 answered

Reach-answered : Reach is_truthy answered
unfolding asked fetch_start request_of settled
Reach-answered =
    next (next (next here (ask (some params) true "7" _)) (ask (some params) true "7" _))
      (settle [] (call 1 ∷ []) (call 2) (responded answer) 5 _ refl)

Reach-overtaken : Reach is_truthy overtaken
unfolding asked fetch_start settled fetch_finish
Reach-overtaken = next Reach-answered (settle [] [] (call 1) (threw none) 6 _ refl)

Reach-IsCoherent_example : IsCoherent overtaken
Reach-IsCoherent_example = Reach-IsCoherent {w = overtaken} Reach-overtaken

overtaken-data : overtaken.state.data_ ≡ some answer
unfolding settled fetch_finish asked fetch_start
overtaken-data = refl

Reach-IsAnswer_example : IsAnswer is_truthy overtaken answer
Reach-IsAnswer_example =
    Reach-IsAnswer is_truthy {w = overtaken} {response = answer} Reach-overtaken overtaken-data

-- The user clears the form while a call is in flight; its answer is shown all the same.
abbrev withdrawn : Session
withdrawn =
    settled (call 1) [] (responded answer) 5
      (asked is_truthy none true "" (asked is_truthy (some params) true "7" new_session))

withdrawn-data : withdrawn.state.data_ ≡ some answer
unfolding settled fetch_finish asked fetch_start
withdrawn-data = refl

-- A swap on one chain has no label.
broker_label-zero : broker_label 0 0 ≡ ""
unfolding broker_label
broker_label-zero = refl

abbrev swap_quote : SwapQuote
swap_quote = record {
  broker = "osmosis";
  token_in = none;
  token_out = none;
  amount_in = "7";
  amount_out = "9";
  price_impact = "0";
  route_data = no_data;
}

abbrev swap_answer : FindPathResponse
swap_answer = record {
  success = true;
  error_message = "";
  route = broker_swap (record {
    path = "atomone-1" ∷ "osmosis-1" ∷ [];
    inbound_legs = leg ∷ [];
    swap = some swap_quote;
    outbound_legs = [];
    outbound_supports_pfm = false;
    execution = none;
  });
}

swap_answer-steps :
    (steps : List TransferStep) × (generate_steps_from_response swap_answer smart ≡ some steps)
unfolding generate_steps_from_response
swap_answer-steps = (_, refl)

get_route_step_count-length_example :
    get_route_step_count swap_answer smart ≡ length swap_answer-steps.0
get_route_step_count-length_example =
    get_route_step_count-length swap_answer smart {steps = swap_answer-steps.0} refl
      swap_answer-steps.1

abbrev no_impact : String → Option ℤ
no_impact text = some (pos 0)

route_info-get_expected_output_example :
    Option.map (λ info. info.expected_output) (route_info no_impact (some swap_answer) smart)
    ≡ some (get_expected_output swap_answer)
route_info-get_expected_output_example =
    route_info-get_expected_output no_impact swap_answer smart refl (refl, refl)
