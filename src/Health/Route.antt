-- ===== src/Health/Route.antt =====
-- The handler `GET` of client_app/src/app/api/health/route.ts, its table of chains and its cache.
use spectra_portal.Base.{
  ℕ, ◌+◌, ◌-◌, ◌*◌, ◌/◌, String, Bool, true, false, List, map, Option, none, some, if◌then◌else◌,
  is_truthy, ltb, ◌==◌, ◌<>◌, show_nat,
}
use spectra_portal.Base.Dict
use spectra_portal.Base.Dict.{Dict}
use spectra_portal.Config.Lookup.{FullClientConfig, get_chain_apis, get_chain_rpcs}
use spectra_portal.Health.Checks.{Network}
use spectra_portal.Health.Endpoints.{Kind, check_endpoints_health}

pub record Endpoints : Type 0 where
  pub apis : List String
  pub rpcs : List String

pub record CachedHealth : Type 0 where
  pub apis : List String
  pub rpcs : List String
  pub timestamp : ℕ

abbrev pub cache_ttl : ℕ
cache_ttl = 120 * 1000

-- `chainPaths`, of one chain.
unfoldable pub endpoints_of : FullClientConfig → String → Endpoints
endpoints_of full id = record { apis = get_chain_apis full id; rpcs = get_chain_rpcs full id }

-- `chainPaths`, filled in the order of the chains.
unfoldable pub chain_paths : FullClientConfig → Dict Endpoints
unfolding endpoints_of
chain_paths full =
    Dict.of_entries (map (λ chain. (chain.id, endpoints_of full chain.id)) full.config.chains)

pub record HealthyEndpoints : Type 0 where
  pub chain_path : String
  pub apis : List String
  pub rpcs : List String
  pub cached : Bool
  pub age : String

-- The status and the JSON of the response.
pub data HealthResponse : Type 0 where
  missing_chain_path : HealthResponse
  chain_not_found : HealthResponse
  endpoints : HealthyEndpoints → HealthResponse

unfoldable pub status_of : HealthResponse → ℕ
status_of missing_chain_path = 400
status_of chain_not_found = 404
status_of (endpoints found) = 200

-- The text of `Math.round(ms / 1000)` seconds, also when the clock went back since `at`.
unfoldable pub age_text : ℕ → ℕ → String
age_text now at =
    let behind = (at - now + 499) / 1000 in
    if ltb now at
    then if behind == 0 then "0s" else "-" <> show_nat behind <> "s"
    else show_nat ((now - at + 500) / 1000) <> "s"

-- Whether `timeSinceCached < CACHE_TTL`; it may be negative, and then stops at 0 here.
unfoldable pub is_fresh : ℕ → CachedHealth → Bool
is_fresh now entry = ltb (now - entry.timestamp) cache_ttl

-- The cached entry that may be answered.
unfoldable pub fresh_entry : Dict CachedHealth → ℕ → String → Option CachedHealth
unfolding is_fresh
fresh_entry cache now id = elim (Dict.get id cache) [
  | none ↦ none
  | some entry ↦ if is_fresh now entry then some entry else none
]

unfoldable pub from_cache : String → ℕ → CachedHealth → HealthResponse
unfolding age_text
from_cache id now entry = endpoints (record {
  chain_path = id;
  apis = entry.apis;
  rpcs = entry.rpcs;
  cached = true;
  age = age_text now entry.timestamp;
})

-- The checks, the entry that is cached, and the response; `done` is the time after the checks.
unfoldable pub checked : Network → Endpoints → ℕ → CachedHealth
unfolding check_endpoints_health
checked net paths done = record {
  apis = check_endpoints_health net paths.apis Kind.api;
  rpcs = check_endpoints_health net paths.rpcs Kind.rpc;
  timestamp = done;
}

-- `healthCache.set`
abbrev pub store : String → CachedHealth → Dict CachedHealth → Dict CachedHealth
store id entry cache = Dict.set id entry cache

abbrev pub from_checks : String → CachedHealth → HealthResponse
from_checks id entry =
    endpoints
      (record { chain_path = id; apis = entry.apis; rpcs = entry.rpcs; cached = false; age = "0s" })

module _ (full : FullClientConfig) where
  -- The part of the handler for a chain of the table.
  unfoldable pub answer_chain :
      Network → ℕ → ℕ → String → Endpoints → Dict CachedHealth → HealthResponse × Dict CachedHealth
  unfolding fresh_entry from_cache checked
  answer_chain net now done id paths cache = elim (fresh_entry cache now id) [
    | some entry ↦ (from_cache id now entry, cache)
    | none ↦ let entry = checked net paths done in (from_checks id entry, store id entry cache)
  ]

  -- `GET`, with the times of its two readings of the clock.
  unfoldable pub get_health :
      Network → ℕ → ℕ → Option String → Dict CachedHealth → HealthResponse × Dict CachedHealth
  unfolding answer_chain chain_paths
  get_health net now done none cache = (missing_chain_path, cache)
  get_health net now done (some id) cache =
      if is_truthy id
      then elim (Dict.get id (chain_paths full)) [
        | none ↦ (chain_not_found, cache)
        | some paths ↦ answer_chain net now done id paths cache
      ]
      else (missing_chain_path, cache)
