-- ===== src/Health/Tests.antt =====
-- Runs of client_app/src/app/api/health/route.ts on a configuration of one chain.
use spectra_portal.Base.{
  ℕ, ◌+◌, ◌≡◌, ◌↔◌, refl, String, true, false, List, [], ◌∷◌, map, none, some, if◌then◌else◌,
  str_eq, Mem, All, arith,
}
use spectra_portal.Config.{ClientEndpoint, ClientChain}
use spectra_portal.Config.Lookup.{
  FullClientConfig, new_full_client_config, get_chain_apis, get_chain_rpcs,
}
use spectra_portal.Health.Checks.{Network, contents, replied, check_rpc_health, abci_url}
use spectra_portal.Health.Endpoints.{Kind, check_endpoints_health}
use spectra_portal.Health.Listed.{Serves, IsAtMost, check_endpoints_health-rpc_iff}
use spectra_portal.Base.Dict.{Dict}
use spectra_portal.Health.Route.{
  CachedHealth, HealthyEndpoints, endpoints, get_health, age_text, store, checked,
}
use spectra_portal.Health.Cache.{empty}
use spectra_portal.Health.Reuse.{nothing, called, ended, get_health-reuse}
use spectra_portal.Health.Client.{
  get_random_healthy_api, received, get_random_healthy_api-IsConfigured,
}

abbrev endpoint : String → ClientEndpoint
endpoint url = record { url = url; provider = none }

abbrev osmosis : ClientChain
osmosis = record {
  name = "osmosis";
  id = "osmosis-1";
  bech32_prefix = "osmo";
  cosmos_sdk_version = "v0.50.1";
  chain_logo = none;
  rpc_endpoints = endpoint "r" ∷ endpoint "s" ∷ [];
  rest_endpoints = endpoint "a" ∷ [];
  native_tokens = [];
  ibc_tokens = [];
  connected_chains = [];
  is_dex = false;
  keplr_chain_config = record { fee_currencies = [] };
}

abbrev full : FullClientConfig
unfolding new_full_client_config
full = new_full_client_config (record { version = "1"; chains = osmosis ∷ []; all_tokens = [] })

-- The endpoint `s` is 200 blocks behind.
abbrev net : Network
net = record {
  preflight = λ url. some (some "*");
  abci_info = λ url. replied 200 (
      contents (record {
        version = some "1";
        app_name = some "osmosis";
        last_block_height = some (if str_eq url "s/abci_info" then 300 else 500);
      }));
  node_info = λ url. replied 200 (contents (record { version = some "1"; app_name = some "o" }));
  syncing = λ url. replied 200 (contents (some false));
}

abbrev rpcs : List String
rpcs = "r" ∷ "s" ∷ []

listed_rpcs : check_endpoints_health net rpcs Kind.rpc ≡ "r" ∷ []
unfolding check_endpoints_health
listed_rpcs = refl

check_endpoints_health-rpc_example : Mem "r" (check_endpoints_health net rpcs Kind.rpc) ↔ (
    Mem "r" rpcs
    × (height : ℕ) × Serves net "r" (net.abci_info (abci_url net "r")) height
    × All (IsAtMost (height + 100)) (map (check_rpc_health net) rpcs))
check_endpoints_health-rpc_example = check_endpoints_health-rpc_iff net rpcs "r"

abbrev fetched : HealthyEndpoints
fetched = record {
  chain_path = "osmosis-1";
  apis = "a" ∷ [];
  rpcs = "r" ∷ [];
  cached = false;
  age = "0s";
}

abbrev entry : CachedHealth
entry = record { apis = "a" ∷ []; rpcs = "r" ∷ []; timestamp = 7 }

first_call :
    get_health full net 5 7 (some "osmosis-1") [] ≡ (endpoints fetched, ("osmosis-1", entry) ∷ [])
unfolding get_health get_chain_apis get_chain_rpcs full
first_call = refl

-- After another call for the chain, and the end of one for another chain.
abbrev current : Dict CachedHealth
current =
    store "noble-1" (checked net (record { apis = []; rpcs = [] }) 50)
      (get_health full net 20 30 (some "osmosis-1") (("osmosis-1", entry) ∷ [])).1

get_health-reuse_example : get_health full net 107 108 (some "osmosis-1") current ≡ (
  endpoints (record {
    chain_path = "osmosis-1";
    apis = "a" ∷ [];
    rpcs = "r" ∷ [];
    cached = true;
    age = age_text 107 7;
  }),
  current,
)
get_health-reuse_example =
    get_health-reuse full net net 5 7 107 108 "osmosis-1" [] current {found = fetched}
      {after = ("osmosis-1", entry) ∷ []} first_call refl
      (ended net 50 "noble-1" (record { apis = []; rpcs = [] })
        (get_health full net 20 30 (some "osmosis-1") (("osmosis-1", entry) ∷ [])).1 refl
        (called net 20 30 (some "osmosis-1") (("osmosis-1", entry) ∷ []) (λ e. omega arith)
          nothing))
      (omega arith)

abbrev first : ℕ → ℕ
first n = 0

chosen :
    get_random_healthy_api first (received (get_health full net 5 7 (some "osmosis-1") []).0)
    ≡ some "a"
unfolding get_random_healthy_api received get_health get_chain_apis get_chain_rpcs full
chosen = refl

get_random_healthy_api-IsConfigured_example : Mem "a" (get_chain_apis full "osmosis-1")
get_random_healthy_api-IsConfigured_example =
    get_random_healthy_api-IsConfigured full first net 5 7 "osmosis-1" [] {url = "a"} empty chosen
