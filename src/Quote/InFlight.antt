-- ===== src/Quote/InFlight.antt =====
-- The calls of the hook in client_app/src/hooks/usePathfinderQuery.ts that are in flight together:
-- the service may answer them in any order, and the user goes on typing meanwhile.
use spectra_portal.Base.{
  ℕ, ◌+◌, ◌≡◌, String, Bool, List, [], ◌∷◌, ◌++◌, Option, none, some, if◌then◌else◌, ◌==◌,
}
use spectra_portal.Pathfinder.{FindPathResponse}
use spectra_portal.Quote.Hook.{
  PathfinderQueryParams, QueryState, initial_query, Call, FetchOutcome, responded, threw,
  fetch_start, fetch_finish,
}

-- `answers` is a history: each call that was responded to, with the response.
pub record Session : Type 0 where
  pub state : QueryState
  pub in_flight : List Call
  pub answers : List (Call × FindPathResponse)

abbrev pub new_session : Session
new_session = record { state = initial_query; in_flight = []; answers = [] }

abbrev pub and_call : Option Call → List Call → List Call
and_call none calls = calls
and_call (some call) calls = call ∷ calls

abbrev pub and_answer :
    Call → FetchOutcome → List (Call × FindPathResponse) → List (Call × FindPathResponse)
and_answer call (responded response) answers = (call, response) ∷ answers
and_answer call (threw message) answers = answers

unfoldable pub asked :
    (String → Bool) → Option PathfinderQueryParams → Bool → String → Session → Session
unfolding fetch_start
asked is_positive params enabled amount w =
    let (state, call) = fetch_start is_positive params enabled amount w.state in
    record w { state = state; in_flight = and_call call w.in_flight }

unfoldable pub settled : Call → List Call → FetchOutcome → ℕ → Session → Session
unfolding fetch_finish
settled call others outcome now w = record {
  state = (fetch_finish call.id outcome now w.state).0;
  in_flight = others;
  answers = and_answer call outcome w.answers;
}

pub data Step (is_positive : String → Bool) : Session → Session → Type 0 where
  ask :
      (params : Option PathfinderQueryParams) (enabled : Bool) (amount : String) (w : Session)
      → Step is_positive w (asked is_positive params enabled amount w)
  settle :
      (before after : List Call) (call : Call) (outcome : FetchOutcome) (now : ℕ) (w : Session)
      → w.in_flight ≡ before ++ call ∷ after
      → Step is_positive w (settled call (before ++ after) outcome now w)

pub data Reach (is_positive : String → Bool) : Session → Type 0 where
  here : Reach is_positive new_session
  next : {v w : Session} → Reach is_positive v → Step is_positive v w → Reach is_positive w

-- How many calls with an id are in flight.
abbrev pub count : ℕ → List Call → ℕ
count id [] = 0
count id (call ∷ calls) = (if call.id == id then 1 else 0) + count id calls
