-- ===== src/Config.antt =====
-- client_app/src/components/modules/tomlTypes.ts: the client's configuration, with the fields that
-- the modelled code reads.
use spectra_portal.Base.{String, Bool, List, Option}
use spectra_portal.Transfer.{ClientToken}
pub mod Lookup
pub mod Agreement
mod Tests

pub record ClientEndpoint : Type 0 where
  pub url : String
  pub provider : Option String

pub record ConnectedChainInfo : Type 0 where
  pub id : String
  pub name : String
  pub logo : Option String
  pub sendable_tokens : List String

-- An entry of `fee_currencies`; the price is kept as the text that it is shown as.
pub record FeeCurrency : Type 0 where
  pub coin_minimal_denom : String
  pub average : String

pub record KeplrChainConfig : Type 0 where
  pub fee_currencies : List FeeCurrency

pub record ClientChain : Type 0 where
  pub name : String
  pub id : String
  pub bech32_prefix : String
  pub cosmos_sdk_version : String
  pub chain_logo : Option String
  pub rpc_endpoints : List ClientEndpoint
  pub rest_endpoints : List ClientEndpoint
  pub native_tokens : List ClientToken
  pub ibc_tokens : List ClientToken
  pub connected_chains : List ConnectedChainInfo
  pub is_dex : Bool
  pub keplr_chain_config : KeplrChainConfig

pub record ClientTokenSummary : Type 0 where
  pub base_denom : String
  pub symbol : String
  pub name : String
  pub icon : String

pub record ClientConfig : Type 0 where
  pub version : String
  pub chains : List ClientChain
  pub all_tokens : List ClientTokenSummary
