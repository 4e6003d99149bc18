-- ===== src/Config/Lookup.antt =====
-- `FullClientConfig` of client_app/src/lib/config/config.ts: the lookups on the configuration.
use mathlib.Core.Option
use spectra_portal.Base.{
  String, List, [], ◌∷◌, ◌++◌, map, Option, none, some, if◌then◌else◌, find, str_eq, ◌<>◌,
}
use spectra_portal.Base.Dict
use spectra_portal.Base.Dict.{Dict}
use spectra_portal.Transfer.{ClientToken}
use spectra_portal.Config.{
  ClientEndpoint, ConnectedChainInfo, ClientChain, ClientTokenSummary, ClientConfig,
}

pub record FullClientConfig : Type 0 where
  pub chains : Dict ClientChain
  pub token_summaries : Dict ClientTokenSummary
  pub config : ClientConfig

abbrev pub chain_entries : List ClientChain → List (String × ClientChain)
chain_entries chains = map (λ chain. (chain.id, chain)) chains

abbrev pub token_entries : List ClientTokenSummary → List (String × ClientTokenSummary)
token_entries tokens = map (λ token. (token.base_denom, token)) tokens

-- The constructor.
unfoldable pub new_full_client_config : ClientConfig → FullClientConfig
new_full_client_config config = record {
  chains = Dict.of_entries (chain_entries config.chains);
  token_summaries = Dict.of_entries (token_entries config.all_tokens);
  config = config;
}

unfoldable pub get_chain_by_id : FullClientConfig → String → Option ClientChain
get_chain_by_id full chain_id = Dict.get chain_id full.chains

unfoldable pub get_chain_by_name : FullClientConfig → String → Option ClientChain
get_chain_by_name full chain_name =
    find (λ chain. str_eq chain.name chain_name) (Dict.values full.chains)

unfoldable pub get_tokens_for_chain : FullClientConfig → String → List ClientToken
unfolding get_chain_by_id
get_tokens_for_chain full chain_id = elim (get_chain_by_id full chain_id) [
  | none ↦ []
  | some chain ↦ chain.native_tokens ++ chain.ibc_tokens
]

unfoldable pub get_token_by_symbol : FullClientConfig → String → String → Option ClientToken
unfolding get_tokens_for_chain
get_token_by_symbol full chain_id symbol =
    find (λ token. str_eq token.symbol symbol) (get_tokens_for_chain full chain_id)

unfoldable pub get_connected_chains : FullClientConfig → String → List ConnectedChainInfo
unfolding get_chain_by_id
get_connected_chains full chain_id = elim (get_chain_by_id full chain_id) [
  | none ↦ []
  | some chain ↦ chain.connected_chains
]

unfoldable pub get_sendable_tokens : FullClientConfig → String → String → List String
unfolding get_chain_by_id
get_sendable_tokens full from_chain_id to_chain_id = elim (get_chain_by_id full from_chain_id) [
  | none ↦ []
  | some chain ↦ elim (find (λ c. str_eq c.id to_chain_id) chain.connected_chains) [
    | none ↦ []
    | some connected ↦ connected.sendable_tokens
  ]
]

unfoldable pub get_token_logo : FullClientConfig → String → Option String
get_token_logo full denom =
    Option.map (λ summary. summary.icon) (Dict.get denom full.token_summaries)

unfoldable pub get_chain_logo : FullClientConfig → String → Option String
unfolding get_chain_by_id
get_chain_logo full chain_id = elim (get_chain_by_id full chain_id) [
  | none ↦ none
  | some chain ↦ chain.chain_logo
]

abbrev pub urls : List ClientEndpoint → List String
urls endpoints = map (λ endpoint. endpoint.url) endpoints

unfoldable pub get_chain_apis : FullClientConfig → String → List String
unfolding get_chain_by_id
get_chain_apis full chain_id = elim (get_chain_by_id full chain_id) [
  | none ↦ []
  | some chain ↦ urls chain.rest_endpoints
]

unfoldable pub get_chain_rpcs : FullClientConfig → String → List String
unfolding get_chain_by_id
get_chain_rpcs full chain_id = elim (get_chain_by_id full chain_id) [
  | none ↦ []
  | some chain ↦ urls chain.rpc_endpoints
]

-- `formatsToTry`, where `none` is the exception on another format.
unfoldable pub formats_to_try : Option String → Option (List String)
formats_to_try none = some ("toml" ∷ "json" ∷ [])
formats_to_try (some format) =
    if str_eq format ""
    then some ("toml" ∷ "json" ∷ [])
    else if str_eq format "toml"
    then some (format ∷ [])
    else if str_eq format "json"
    then some (format ∷ [])
    else none

-- `LoadConfig`: `join` is the `join` of node:path, and `cwd` is `process.cwd()`.
module _ (join : List String → String) (cwd : String) where
  abbrev pub possible_paths : String → List String
  possible_paths name =
      join (cwd ∷ ".." ∷ "generated_configs" ∷ name ∷ [])
      ∷ join (cwd ∷ "generated_configs" ∷ name ∷ [])
      ∷ join (cwd ∷ name ∷ [])
      ∷ []

-- What `LoadConfig` resolves to, or the exception that it rejects with.
pub data Loaded : Type 0 where
  loaded : FullClientConfig → Loaded
  bad_format : Loaded
  not_parsed : Loaded
  not_found : Loaded

-- `contents` is the text of a file that exists; `parse` is `TOML.parse` or `JSON.parse`, by the format,
-- where `none` is its exception.
module _ (join : List String → String) (cwd : String) (contents : String → Option String)
    (parse : String → String → Option ClientConfig) where
  unfoldable pub read_config : String → String → Loaded
  unfolding new_full_client_config
  read_config format text = elim (parse format text) [
    | some config ↦ loaded (new_full_client_config config)
    | none ↦ not_parsed
  ]

  -- The two nested loops over the formats and the paths.
  unfoldable pub try_paths : String → List String → Option Loaded
  unfolding read_config
  try_paths format [] = none
  try_paths format (path ∷ paths) = elim (contents path) [
    | some text ↦ some (read_config format text)
    | none ↦ try_paths format paths
  ]

  unfoldable pub try_formats : List String → Loaded
  unfolding try_paths
  try_formats [] = not_found
  try_formats (format ∷ formats) =
      elim (try_paths format (possible_paths join cwd ("client_config." <> format))) [
        | some result ↦ result
        | none ↦ try_formats formats
      ]

  unfoldable pub load_config : Option String → Loaded
  unfolding formats_to_try try_formats
  load_config format = elim (formats_to_try format) [
    | none ↦ bad_format
    | some formats ↦ try_formats formats
  ]
