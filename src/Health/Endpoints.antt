-- ===== src/Health/Endpoints.antt =====
-- `checkEndpointsHealth` of client_app/src/app/api/health/route.ts, without its logging.
use spectra_portal.Base.{
  ℕ, ◌+◌, ◌-◌, String, Bool, List, [], ◌∷◌, map, none, some, if◌then◌else◌, ◌&&◌, ltb, leb, filter,
}
use spectra_portal.Health.Checks.{
  Network, HealthCheckResult, check_rpc_health, check_api_health, is_false,
}

pub data Kind : Type 0 where
  rpc : Kind
  api : Kind

abbrev acceptable_height_diff : ℕ
acceptable_height_diff = 100

-- The block height of a result, 0 if it is undefined or NaN: both are falsy.
abbrev pub height_of : HealthCheckResult → ℕ
height_of result = elim result.last_block_height [ none ↦ 0 | some height ↦ height ]

-- The loop that finds `highestBlockHeight`.
unfoldable pub highest_block_height : List HealthCheckResult → ℕ → ℕ
highest_block_height [] highest = highest
highest_block_height (result ∷ results) highest = highest_block_height results (
    if ltb 0 (height_of result) && ltb highest (height_of result)
    then height_of result
    else highest)

-- The condition on a result, with `Math.abs` of the difference.
unfoldable pub is_healthy : Kind → ℕ → HealthCheckResult → Bool
is_healthy rpc highest result =
    result.healthy
    && (ltb 0 (height_of result)
        && leb ((highest - height_of result) + (height_of result - highest)) acceptable_height_diff)
is_healthy api highest result = result.healthy && is_false result.syncing

unfoldable pub check_one : Network → Kind → String → HealthCheckResult
unfolding check_rpc_health check_api_health
check_one net rpc endpoint = check_rpc_health net endpoint
check_one net api endpoint = check_api_health net endpoint

abbrev pub start_height : Kind → List HealthCheckResult → ℕ
unfolding highest_block_height
start_height rpc results = highest_block_height results 0
start_height api results = 0

unfoldable pub check_endpoints_health : Network → List String → Kind → List String
unfolding is_healthy check_one highest_block_height
check_endpoints_health net endpoints kind =
    let results = map (check_one net kind) endpoints in
    map (λ result. result.endpoint) (filter (is_healthy kind (start_height kind results)) results)
