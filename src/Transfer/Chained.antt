-- ===== src/Transfer/Chained.antt =====
-- The steps of `generateStepsFromResponse` follow the route
-- (client_app/src/context/transferContext.tsx).
use spectra_portal.Base.{
  ℕ, suc, ◌≡◌, refl, String, true, List, [], ◌∷◌, ◌++◌, Option, none, some, length, get_elem?,
  get_last?,
}
use spectra_portal.Pathfinder.{
  IbcLeg, Route, FindPathResponse, no_route, direct, indirect, broker_swap, BrokerSwapRoute,
  SwapQuote,
}
use spectra_portal.Transfer.Types.{manual, TransferStep}
use spectra_portal.Transfer.Steps.{
  leg_steps, direct_steps, swap_steps, manual_swap_steps, route_steps, generate_steps_from_response,
  extract_chain_path,
}

-- The legs lead from one chain to another, each from where the one before it ends.
abbrev pub Connects : Option String → List IbcLeg → Option String → Type 0
Connects a [] b = a ≡ b
Connects a (leg ∷ legs) b = (some leg.from_chain ≡ a) × Connects (some leg.to_chain) legs b

-- So do the steps.
abbrev pub Leads : Option String → List TransferStep → Option String → Type 0
Leads a [] b = a ≡ b
Leads a (step ∷ steps) b = (step.from_chain ≡ a) × Leads step.to_chain steps b

-- A route whose legs follow its path: the inbound legs lead to the chain that the swap is on.
abbrev pub FollowsPath : Route → Type 0
FollowsPath no_route = Unit
FollowsPath (direct transfer) = Unit
FollowsPath (indirect route) = Connects (get_elem? route.path 0) route.legs (get_last? route.path)
FollowsPath (broker_swap route) =
    Connects (get_elem? route.path 0) route.inbound_legs
      (get_elem? route.path (length route.inbound_legs))
    × Connects (get_elem? route.path (length route.inbound_legs)) route.outbound_legs
        (get_last? route.path)

leg_steps-Leads :
    (prefix : String) (index : ℕ) (legs : List IbcLeg) (a b : Option String)
    → Connects a legs b
    → Leads a (leg_steps prefix index legs) b
unfolding leg_steps
leg_steps-Leads prefix index [] a b h = h
leg_steps-Leads prefix index (leg ∷ legs) a b h =
    (h.0, leg_steps-Leads prefix (suc index) legs (some leg.to_chain) b h.1)

Leads-append :
    (steps more : List TransferStep) (a b c : Option String)
    → Leads a steps b
    → Leads b more c
    → Leads a (steps ++ more) c
Leads-append [] more a b c h k = rw h k
Leads-append (step ∷ steps) more a b c h k = (h.0, Leads-append steps more step.to_chain b c h.1 k)

swap_steps-Leads :
    (route : BrokerSwapRoute) (swap : Option SwapQuote)
    → Leads
        (get_elem? route.path (length route.inbound_legs))
        (swap_steps route swap)
        (get_elem? route.path (length route.inbound_legs))
unfolding swap_steps
swap_steps-Leads route none = refl
swap_steps-Leads route (some quote) = (refl, refl)

manual_swap_steps-Leads :
    (route : BrokerSwapRoute)
    → FollowsPath (broker_swap route)
    → Leads (get_elem? route.path 0) (manual_swap_steps route) (get_last? route.path)
unfolding manual_swap_steps
manual_swap_steps-Leads route h =
    Leads-append _ _ _ _ _ (leg_steps-Leads "inbound-" 1 route.inbound_legs _ _ h.0) (
      Leads-append _ _ _ _ _ (swap_steps-Leads route route.swap)
        (leg_steps-Leads "outbound-" 0 route.outbound_legs _ _ h.1))

-- In manual mode a successful response whose legs follow its path always yields steps, and these
-- lead from the first chain of the extracted chain path to its last, each step from where the one
-- before it ends.
pub generate_steps-Leads :
    (response : FindPathResponse)
    → response.success ≡ true
    → FollowsPath response.route
    → (steps : List TransferStep) × (generate_steps_from_response response manual ≡ some steps)
      × Leads
          (get_elem? (extract_chain_path response) 0)
          steps
          (get_last? (extract_chain_path response))
unfolding generate_steps_from_response extract_chain_path
generate_steps-Leads response ok h = rw ok (go response.route h)
  where
    go :
        (r : Route)
        → FollowsPath r
        → (steps : List TransferStep) × (route_steps manual r ≡ some steps)
          × Leads
              (get_elem?
                (extract_chain_path (record { success = true; error_message = ""; route = r }))
                0)
              steps
              (get_last?
                (extract_chain_path (record { success = true; error_message = ""; route = r })))
    go no_route k = ([], refl, refl)
    go (direct none) k = ([], refl, refl)
    go (direct (some leg)) k = (direct_steps (some leg), refl, (refl, refl))
    go (indirect route) k =
        (leg_steps "leg-" 0 route.legs, refl, leg_steps-Leads "leg-" 0 route.legs _ _ k)
    go (broker_swap route) k = (manual_swap_steps route, refl, manual_swap_steps-Leads route k)
