-- ===== src/Quote/Hook.antt =====
-- `usePathfinderQuery` of client_app/src/hooks/usePathfinderQuery.ts: its state, and the two parts of
-- `fetchRouteInternal`, before and after its `await`.
use spectra_portal.Base.{
  ℕ, suc, ◌-◌, String, Bool, true, false, Option, none, some, if◌then◌else◌, ◌&&◌, ◌==◌, not,
  is_truthy, is_some, str_eq, opt_or, str_or, or_else, ltb,
}
use spectra_portal.Pathfinder.{FindPathRequest, FindPathResponse}

pub record PathfinderQueryParams : Type 0 where
  pub chain_from : String
  pub token_from_denom : String
  pub amount_in : String
  pub chain_to : String
  pub token_to_denom : Option String
  pub sender_address : String
  pub receiver_address : String
  pub smart_route : Option Bool
  pub slippage_bps : Option ℕ

pub record PathfinderQueryOptions : Type 0 where
  pub debounce_ms : ℕ
  pub auto_refresh_ms : ℕ
  pub stale_after_ms : ℕ

abbrev pub default_query_options : PathfinderQueryOptions
default_query_options = record {
  debounce_ms = 1000;
  auto_refresh_ms = 30000;
  stale_after_ms = 15000;
}

-- The hook's state, with `requestIdRef` as `request_id`.
pub record QueryState : Type 0 where
  pub data_ : Option FindPathResponse
  pub is_loading : Bool
  pub error : Option String
  pub last_fetched_at : Option ℕ
  pub request_id : ℕ

abbrev pub initial_query : QueryState
initial_query = record {
  data_ = none;
  is_loading = false;
  error = none;
  last_fetched_at = none;
  request_id = 0;
}

-- A call of the service that has not been answered.
pub record Call : Type 0 where
  pub id : ℕ
  pub request : FindPathRequest

-- What a call ends with: a response, or an exception with its message if it is an `Error`.
pub data FetchOutcome : Type 0 where
  responded : FindPathResponse → FetchOutcome
  threw : Option String → FetchOutcome

unfoldable pub request_of : PathfinderQueryParams → String → FindPathRequest
request_of params amount = record {
  chain_from = params.chain_from;
  token_from_denom = params.token_from_denom;
  amount_in = amount;
  chain_to = params.chain_to;
  token_to_denom = opt_or params.token_to_denom "";
  sender_address = params.sender_address;
  receiver_address = params.receiver_address;
  smart_route = or_else params.smart_route false;
  slippage_bps = or_else params.slippage_bps 100;
}

abbrev pub has_fields : PathfinderQueryParams → Bool
has_fields params =
    is_truthy params.chain_from
    && (is_truthy params.chain_to
        && (is_truthy params.token_from_denom
            && (is_truthy params.sender_address && is_truthy params.receiver_address)))

-- `is_positive` is the test that `Number.parseFloat(amount)` is a number above 0.
module _ (is_positive : String → Bool) where
  -- The request, if the three guards let it through.
  unfoldable pub guarded_request :
      Option PathfinderQueryParams → Bool → String → Option FindPathRequest
  unfolding request_of
  guarded_request none enabled amount = none
  guarded_request (some params) enabled amount =
      if enabled && (has_fields params && is_positive amount)
      then some (request_of params amount)
      else none

  -- `fetchRouteInternal` up to `client.findPath`: the new state, and the call that is made.
  unfoldable pub fetch_start :
      Option PathfinderQueryParams → Bool → String → QueryState → QueryState × Option Call
  unfolding guarded_request
  fetch_start params enabled amount s = elim (guarded_request params enabled amount) [
    | none ↦ (record s { data_ = none }, none)
    | some request ↦ (
      record s { is_loading = true; error = none; request_id = suc s.request_id },
      some (record { id = suc s.request_id; request = request }),
    )
  ]

-- What the latest call's outcome makes of the state, the `finally` included.
unfoldable pub settle_latest : FetchOutcome → ℕ → QueryState → QueryState × Option FindPathResponse
settle_latest (responded response) now s =
    if response.success
    then (
      record s {
        data_ = some response;
        error = none;
        last_fetched_at = some now;
        is_loading = false;
      },
      some response,
    )
    else (
      record s {
        data_ = none;
        error = some (str_or response.error_message "Failed to find route");
        is_loading = false;
      },
      none,
    )
settle_latest (threw message) now s = (
  record s {
    data_ = none;
    error = some (or_else message "Unknown error occurred");
    is_loading = false;
  },
  none,
)

-- `fetchRouteInternal` from its `await` on; `now` is `Date.now()`.
unfoldable pub fetch_finish :
    ℕ → FetchOutcome → ℕ → QueryState → QueryState × Option FindPathResponse
unfolding settle_latest
fetch_finish id outcome now s =
    if id == s.request_id then settle_latest outcome now s else (s, none)

-- `isStale`; a quote that is fetched after the last tick of `now` has no age yet.
unfoldable pub is_stale : PathfinderQueryOptions → ℕ → QueryState → Bool
is_stale opts now s = elim s.last_fetched_at [
  | none ↦ false
  | some at ↦ if at == 0 then false else ltb opts.stale_after_ms (now - at)
]

-- `params?.amountIn !== debouncedAmount`
unfoldable pub is_pending : Option PathfinderQueryParams → String → Bool
is_pending none debounced = true
is_pending (some params) debounced = not (str_eq params.amount_in debounced)

-- The amount of `refetchFresh`, where `none` is its early return.
unfoldable pub fresh_amount : Option PathfinderQueryParams → Option String
fresh_amount none = none
fresh_amount (some params) = if is_truthy params.amount_in then some params.amount_in else none

-- Whether the interval of the automatic refresh is set, and fetches.
unfoldable pub auto_refreshes :
    PathfinderQueryOptions → Option PathfinderQueryParams → Bool → QueryState → Bool
auto_refreshes opts params enabled s =
    enabled && (is_some s.data_ && (not (opts.auto_refresh_ms == 0) && is_some params))
