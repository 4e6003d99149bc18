-- ===== src/Config/Tests.antt =====
-- A lookup in a small configuration, as in client_app/src/lib/config/config.ts.
use spectra_portal.Base.{false, String, [], ◌∷◌, none}
use spectra_portal.Config.{ClientChain, ClientConfig}

abbrev chain_of : String → ClientChain
chain_of id = record {
  name = id;
  id = id;
  bech32_prefix = "osmo";
  cosmos_sdk_version = "v0.50.1";
  chain_logo = none;
  rpc_endpoints = [];
  rest_endpoints = [];
  native_tokens = [];
  ibc_tokens = [];
  connected_chains = [];
  is_dex = false;
  keplr_chain_config = record { fee_currencies = [] };
}

abbrev config : ClientConfig
config = record {
  version = "1";
  chains = chain_of "osmosis-1" ∷ chain_of "atomone-1" ∷ [];
  all_tokens = [];
}
