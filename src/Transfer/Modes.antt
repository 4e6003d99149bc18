-- ===== src/Transfer/Modes.antt =====
-- How many steps `generateStepsFromResponse` makes in either mode, what a new step holds, and when
-- it throws (client_app/src/context/transferContext.tsx).
use mathlib.Core.Option
use spectra_portal.Base.{
  ℕ, suc, ◌+◌, ◌≡◌, refl, ◌≢◌, ◌↔◌, String, true, List, [], ◌∷◌, ◌++◌, Option, none, some, arith,
  length, get_elem?, length-append, if◌then◌else◌, is_some, All, All-append, Option-cases,
  Bool-cases, eq_of_some, inl, inr, ◌&&◌,
}
use spectra_portal.Pathfinder.{
  IbcLeg, IndirectRoute, Route, FindPathResponse, no_route, direct, indirect, broker_swap,
  BrokerSwapRoute, SwapQuote,
}
use spectra_portal.Transfer.Types.{TransferMode, manual, smart, TransferStep, StepStatus}
use spectra_portal.Transfer.Steps.{
  leg_steps, direct_steps, swap_steps, manual_swap_steps, indirect_steps, memo_steps, wasm_step,
  uncontracted_steps, broker_steps, route_steps, generate_steps_from_response, whole_contract,
  whole_memo, is_smart,
}

-- A step that has not been started.
pub record IsFresh (step : TransferStep) : Type 0 where
  pub status : step.status ≡ StepStatus.pending
  pub tx_hash : step.tx_hash ≡ none
  pub error : step.error ≡ none

leg_steps-IsFresh :
    (prefix : String) (index : ℕ) (legs : List IbcLeg) → All IsFresh (leg_steps prefix index legs)
unfolding leg_steps
leg_steps-IsFresh prefix index [] = tt
leg_steps-IsFresh prefix index (leg ∷ legs) = (
  record { status = refl; tx_hash = refl; error = refl },
  leg_steps-IsFresh prefix (suc index) legs,
)

length-leg_steps :
    (prefix : String) (index : ℕ) (legs : List IbcLeg)
    → length (leg_steps prefix index legs) ≡ length legs
unfolding leg_steps
length-leg_steps prefix index [] = refl
length-leg_steps prefix index (leg ∷ legs) = omega (arith, length-leg_steps prefix (suc index) legs)

abbrev pub swap_count : Option SwapQuote → ℕ
swap_count none = 0
swap_count (some quote) = 1

-- The number of signatures that a route asks of the user.
abbrev pub step_count : TransferMode → Route → ℕ
step_count mode no_route = 0
step_count mode (direct none) = 0
step_count mode (direct (some leg)) = 1
step_count mode (indirect route) =
    if is_smart mode && route.supports_pfm then 1 else length route.legs
step_count mode (broker_swap route) =
    if is_some (whole_contract mode route)
    then 1
    else if is_some (whole_memo mode route)
    then 1
    else length route.inbound_legs + swap_count route.swap + length route.outbound_legs

swap_steps_lem :
    (route : BrokerSwapRoute) (swap : Option SwapQuote)
    → All IsFresh (swap_steps route swap) × (length (swap_steps route swap) ≡ swap_count swap)
unfolding swap_steps
swap_steps_lem route none = (tt, refl)
swap_steps_lem route (some quote) =
    ((record { status = refl; tx_hash = refl; error = refl }, tt), refl)

-- What is claimed of a list of new steps.
abbrev pub Counts : ℕ → List TransferStep → Type 0
Counts n steps = All IsFresh steps × (length steps ≡ n)

manual_swap_steps-Counts :
    (route : BrokerSwapRoute)
    → Counts
        (length route.inbound_legs + swap_count route.swap + length route.outbound_legs)
        (manual_swap_steps route)
unfolding manual_swap_steps
manual_swap_steps-Counts route =
    let inbound = leg_steps "inbound-" 1 route.inbound_legs in
    let swap = swap_steps route route.swap in
    let outbound = leg_steps "outbound-" 0 route.outbound_legs in
    (
      All-append IsFresh inbound (swap ++ outbound)
          (leg_steps-IsFresh "inbound-" 1 route.inbound_legs)
          (All-append IsFresh swap outbound (swap_steps_lem route route.swap).0
            (leg_steps-IsFresh "outbound-" 0 route.outbound_legs)),
      omega (
        arith,
        length-append inbound (swap ++ outbound),
        length-append swap outbound,
        length-leg_steps "inbound-" 1 route.inbound_legs,
        length-leg_steps "outbound-" 0 route.outbound_legs,
        (swap_steps_lem route route.swap).1,
      ),
    )

abbrev single : TransferStep → List TransferStep
single step = step ∷ []

-- A single step that is made from an optional leg.
from_leg-Counts :
    (f : IbcLeg → TransferStep) (leg : Option IbcLeg) {steps : List TransferStep}
    → ((l : IbcLeg) → IsFresh (f l))
    → Option.map (λ l. f l ∷ []) leg ≡ some steps
    → Counts 1 steps
from_leg-Counts f none fresh e = cc
from_leg-Counts f (some l) fresh e = rw (← eq_of_some e) ((fresh l, tt), refl)

indirect_steps-Counts :
    (mode : TransferMode) (route : IndirectRoute) {steps : List TransferStep}
    → indirect_steps mode route ≡ some steps
    → Counts (step_count mode (indirect route)) steps
unfolding indirect_steps
indirect_steps-Counts mode route e = elim (Bool-cases (is_smart mode && route.supports_pfm)) [
  | inl single ↦ rw single (
      from_leg-Counts _ (get_elem? route.legs 0)
        (λ l. record { status = refl; tx_hash = refl; error = refl }) (rw single at e))
  | inr each ↦ rw each (
      rw (← eq_of_some (rw each at e))
        (leg_steps-IsFresh "leg-" 0 route.legs, length-leg_steps "leg-" 0 route.legs))
]

uncontracted_steps-Counts :
    (mode : TransferMode) (route : BrokerSwapRoute) {steps : List TransferStep}
    → whole_contract mode route ≡ none
    → uncontracted_steps mode route ≡ some steps
    → Counts (step_count mode (broker_swap route)) steps
unfolding uncontracted_steps memo_steps
uncontracted_steps-Counts mode route no_contract e = elim (Option-cases (whole_memo mode route)) [
  | inr (memo, is) ↦
      rw (no_contract, is)
        (from_leg-Counts _ (get_elem? route.inbound_legs 0)
          (λ l. record { status = refl; tx_hash = refl; error = refl })
          (rw (is, uncontracted_steps) at e))
  | inl no_memo ↦
      rw (no_contract, no_memo)
        (rw (← eq_of_some (rw (no_memo, uncontracted_steps) at e)) (manual_swap_steps-Counts route))
]

broker_steps-Counts :
    (mode : TransferMode) (route : BrokerSwapRoute) {steps : List TransferStep}
    → broker_steps mode route ≡ some steps
    → Counts (step_count mode (broker_swap route)) steps
unfolding broker_steps wasm_step
broker_steps-Counts mode route e = elim (Option-cases (whole_contract mode route)) [
  | inr (contract, is) ↦ rw is (
      rw (← eq_of_some (rw (is, broker_steps) at e))
        ((record { status = refl; tx_hash = refl; error = refl }, tt), refl))
  | inl no_contract ↦
      uncontracted_steps-Counts mode route no_contract (rw (no_contract, broker_steps) at e)
]

direct_steps-Counts :
    (transfer : Option IbcLeg)
    → Counts (step_count manual (direct transfer)) (direct_steps transfer)
unfolding direct_steps
direct_steps-Counts none = (tt, refl)
direct_steps-Counts (some leg) =
    ((record { status = refl; tx_hash = refl; error = refl }, tt), refl)

route_steps-Counts :
    (mode : TransferMode) (route : Route) {steps : List TransferStep}
    → route_steps mode route ≡ some steps
    → Counts (step_count mode route) steps
unfolding route_steps
route_steps-Counts mode no_route e = rw (← eq_of_some e) (tt, refl)
route_steps-Counts mode (direct none) e = rw (← eq_of_some e) (direct_steps-Counts none)
route_steps-Counts mode (direct (some leg)) e = rw (← eq_of_some e) (direct_steps-Counts (some leg))
route_steps-Counts mode (indirect route) e = indirect_steps-Counts mode route e
route_steps-Counts mode (broker_swap route) e = broker_steps-Counts mode route e

-- The generated steps are all pending, with no hash and no error. Their number is 0 for an
-- unsuccessful response; 1 for a direct transfer, for a smart transfer over packet forwarding, and
-- for a smart swap by one contract call or one memo; otherwise one for each leg and one for the
-- swap, if there is one.
pub generate_steps-Counts :
    (response : FindPathResponse) (mode : TransferMode) {steps : List TransferStep}
    → generate_steps_from_response response mode ≡ some steps
    → Counts (if response.success then step_count mode response.route else 0) steps
unfolding generate_steps_from_response
generate_steps-Counts response mode e = elim (Bool-cases response.success) [
  | inl ok ↦ rw ok (route_steps-Counts mode response.route (rw ok at e))
  | inr failed ↦ rw failed (rw (← eq_of_some (rw failed at e)) (tt, refl))
]

-- The routes on which a leg is read that is not there.
abbrev pub LacksLeg : TransferMode → Route → Type 0
LacksLeg mode no_route = ⊥
LacksLeg mode (direct transfer) = ⊥
LacksLeg mode (indirect route) = (mode ≡ smart) × (route.supports_pfm ≡ true) × (route.legs ≡ [])
LacksLeg mode (broker_swap route) =
    (whole_contract mode route ≡ none) × (whole_memo mode route ≢ none) × (route.inbound_legs ≡ [])

get_elem?-zero-eq-none_iff {ℓ} : {A : Type ℓ} (xs : List A) → (get_elem? xs 0 ≡ none) ↔ (xs ≡ [])
get_elem?-zero-eq-none_iff [] = (λ _. refl, λ _. refl)
get_elem?-zero-eq-none_iff (x ∷ xs) = (λ e. cc, λ e. cc)

route_steps-eq-none_iff :
    (mode : TransferMode) (route : Route) → (route_steps mode route ≡ none) ↔ LacksLeg mode route
unfolding route_steps direct_steps indirect_steps broker_steps uncontracted_steps memo_steps
route_steps-eq-none_iff mode no_route = ground arith
route_steps-eq-none_iff mode (direct transfer) = ground arith
route_steps-eq-none_iff mode (indirect route) =
    ground (arith, get_elem?-zero-eq-none_iff route.legs)
route_steps-eq-none_iff mode (broker_swap route) =
    ground (arith, get_elem?-zero-eq-none_iff route.inbound_legs)

-- The function throws exactly on a successful response with a smart forwarded route without legs,
-- or with a swap that runs by a memo and has no inbound leg.
pub generate_steps-throws_iff :
    (response : FindPathResponse) (mode : TransferMode)
    → (generate_steps_from_response response mode ≡ none)
      ↔ ((response.success ≡ true) × LacksLeg mode response.route)
unfolding generate_steps_from_response
generate_steps-throws_iff response mode =
    ground (arith, route_steps-eq-none_iff mode response.route)
