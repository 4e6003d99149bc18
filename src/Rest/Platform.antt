-- ===== src/Rest/Platform.antt =====
-- What the queries of client_app/src/lib/apiQueries/fetchApiData.ts use that is not in the repository:
-- `fetch`, the random numbers, `encodeURIComponent`, and the schemas of client_app/src/components/modules/cosmosApiData.ts
-- as they parse a document.
use spectra_portal.Base.{ℕ, String, Bool, List, Option}
use spectra_portal.Tracking.{TxResponse}
use spectra_portal.Health.Checks.{Reply}
use spectra_portal.Health.Client.{HealthJson}

-- A call may change the `Net`. A request that is aborted by its timer is one that fails. The parsers
-- are `none` where the schema throws.
pub record Rest : Type 1 where
  pub Net : Type 0
  pub Document : Type 0
  pub fetch_health : String → Net → Reply HealthJson × Net
  pub pick : ℕ → Net → ℕ × Net
  pub fetch : String → Net → Reply Document × Net
  pub encode_uri_component : String → String
  pub status_text : ℕ → String
  pub parse_transaction : Document → Option TxResponse
  pub parse_ev_transaction : Document → Option (List TxResponse)
  pub parse_error : Document → Option (ℕ × String)
  pub is_transaction_not_found : Document → Bool
  pub now : Net → ℕ × Net
  pub new_controller : Net → Net
  pub aborted : Net → Bool × Net
  pub sleep : ℕ → Net → Net
  pub get_time : String → Option ℕ
