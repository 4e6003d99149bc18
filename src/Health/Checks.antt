-- ===== src/Health/Checks.antt =====
-- The checks of one endpoint: `checkCorsPreflightHealthy`, `checkRpcHealth` and `checkApiHealth` of
-- client_app/src/app/api/health/route.ts.
use spectra_portal.Base.{
  ℕ, String, Bool, true, false, Option, none, some, if◌then◌else◌, ◌&&◌, ◌||◌, not, str_eq,
  is_truthy, leb, ltb, ◌<>◌, show_nat,
}

abbrev pub app_url : String
app_url = "https://portal.thespectra.io"

-- What a request answers: an exception, or a status with a body; reading the body may throw too, when
-- it is no JSON or lacks an object that is read into. Exceptions carry their message.
pub data Body (A : Type 0) : Type 0 where
  unreadable : String → Body A
  contents : A → Body A

pub data Reply (A : Type 0) : Type 0 where
  failed : String → Reply A
  replied : ℕ → Body A → Reply A

-- `data.result.response` of /abci_info: the height is `parseInt` of its text, where `none` is NaN, and
-- a negative number counts as 0, which no test tells apart.
pub record AbciInfo : Type 0 where
  pub version : Option String
  pub app_name : Option String
  pub last_block_height : Option ℕ

-- `default_node_info.version` and `application_version.app_name` of /node_info.
pub record NodeInfo : Type 0 where
  pub version : Option String
  pub app_name : Option String

-- The requests that are made during one call of the route, and what they answer. For a preflight,
-- `none` is an exception and the text is the header Access-Control-Allow-Origin, if there is one.
pub record Network : Type 0 where
  pub preflight : String → Option (Option String)
  pub abci_info : String → Reply AbciInfo
  pub node_info : String → Reply NodeInfo
  pub syncing : String → Reply (Option Bool)

pub record HealthCheckResult : Type 0 where
  pub endpoint : String
  pub healthy : Bool
  pub version : Option String
  pub abci_app_name : Option String
  pub last_block_height : Option ℕ
  pub syncing : Option Bool
  pub error : Option String

abbrev pub unhealthy : String → String → HealthCheckResult
unhealthy endpoint error = record {
  endpoint = endpoint;
  healthy = false;
  version = none;
  abci_app_name = none;
  last_block_height = none;
  syncing = none;
  error = some error;
}

-- `s !== ""`, where `s` may be undefined.
abbrev pub is_not_empty : Option String → Bool
is_not_empty none = true
is_not_empty (some s) = is_truthy s

-- `response.ok`
abbrev pub is_ok : ℕ → Bool
is_ok status = leb 200 status && leb status 299

-- `n > 0`, where `none` is NaN.
abbrev pub is_positive : Option ℕ → Bool
is_positive none = false
is_positive (some n) = ltb 0 n

-- `=== false`
abbrev pub is_false : Option Bool → Bool
is_false none = false
is_false (some b) = not b

abbrev allows : Option String → Bool
allows none = false
allows (some header) = str_eq header "*" || str_eq header app_url

module _ (net : Network) where
  unfoldable pub check_cors_preflight_healthy : String → Bool
  check_cors_preflight_healthy url = elim (net.preflight url) [
    | none ↦ false
    | some header ↦ allows header
  ]

  abbrev pub abci_url : String → String
  abci_url rpc = rpc <> "/abci_info"

  -- The result of an RPC whose preflight and status are good.
  unfoldable pub rpc_result : String → Body AbciInfo → HealthCheckResult
  rpc_result rpc (unreadable error) = unhealthy rpc error
  rpc_result rpc (contents info) = record {
    endpoint = rpc;
    healthy =
        is_not_empty info.version
        && (is_not_empty info.app_name && is_positive info.last_block_height);
    version = info.version;
    abci_app_name = info.app_name;
    last_block_height = info.last_block_height;
    syncing = none;
    error = none;
  }

  unfoldable pub rpc_answered : String → ℕ → Body AbciInfo → HealthCheckResult
  unfolding check_cors_preflight_healthy rpc_result
  rpc_answered rpc status body =
      if check_cors_preflight_healthy (abci_url rpc)
      then if is_ok status then rpc_result rpc body else unhealthy rpc ("HTTP " <> show_nat status)
      else unhealthy rpc "CORS preflight failed"

  unfoldable pub rpc_reply : String → Reply AbciInfo → HealthCheckResult
  unfolding rpc_answered
  rpc_reply rpc (failed error) = unhealthy rpc error
  rpc_reply rpc (replied status body) = rpc_answered rpc status body

  unfoldable pub check_rpc_health : String → HealthCheckResult
  unfolding rpc_reply
  check_rpc_health rpc = rpc_reply rpc (net.abci_info (abci_url rpc))

  abbrev pub node_info_url : String → String
  node_info_url api = api <> "/cosmos/base/tendermint/v1beta1/node_info"

  abbrev pub syncing_url : String → String
  syncing_url api = api <> "/cosmos/base/tendermint/v1beta1/syncing"

  -- `Promise.all` rejects with whichever of the two requests fails first; the messages differ in that
  -- alone, and the first request is taken here.
  unfoldable pub api_result : String → Body NodeInfo → Body (Option Bool) → HealthCheckResult
  api_result api (unreadable error) syncing = unhealthy api error
  api_result api (contents info) (unreadable error) = unhealthy api error
  api_result api (contents info) (contents syncing) = record {
    endpoint = api;
    healthy = is_not_empty info.version && (is_not_empty info.app_name && is_false syncing);
    version = info.version;
    abci_app_name = info.app_name;
    last_block_height = none;
    syncing = syncing;
    error = none;
  }

  unfoldable pub api_answered :
      String → ℕ → Body NodeInfo → ℕ → Body (Option Bool) → HealthCheckResult
  unfolding check_cors_preflight_healthy api_result
  api_answered api status1 body1 status2 body2 =
      if check_cors_preflight_healthy (node_info_url api)
        && check_cors_preflight_healthy (syncing_url api)
      then if is_ok status1 && is_ok status2
        then api_result api body1 body2
        else unhealthy api ("HTTP " <> show_nat status1 <> "/" <> show_nat status2)
      else unhealthy api "CORS preflight failed"

  unfoldable pub api_replies : String → Reply NodeInfo → Reply (Option Bool) → HealthCheckResult
  unfolding api_answered
  api_replies api (failed error) reply = unhealthy api error
  api_replies api (replied status body) (failed error) = unhealthy api error
  api_replies api (replied status1 body1) (replied status2 body2) =
      api_answered api status1 body1 status2 body2

  unfoldable pub check_api_health : String → HealthCheckResult
  unfolding api_replies
  check_api_health api =
      api_replies api (net.node_info (node_info_url api)) (net.syncing (syncing_url api))
