-- ===== src/Rest/Fetch.antt =====
-- `fetchTransactionByHash`, `fetchTransactionByEvents` and `makeUrlForTransactionByEvents` of
-- client_app/src/lib/apiQueries/fetchApiData.ts, without their logging.
use Prim.Native.Nat.{Ordering}
use Prim.Native.String.{compare}
use spectra_portal.Base.{
  ℕ, String, Bool, true, false, List, [], map, Option, none, some, if◌then◌else◌, ◌<>◌, join,
  show_nat, length,
}
use spectra_portal.Config.{ClientChain}
use spectra_portal.Tracking.{TxResponse, FetchResult, found, failed, missing, ChainApi}
use spectra_portal.Health.Checks.{Reply, replied, unreadable, contents, is_ok}
use spectra_portal.Health.Client.{HealthJson, get_random_healthy_api}
use spectra_portal.Rest.Platform.{Rest}

pub record TransactionRequestByEvents : Type 0 where
  pub queries : List String
  pub limit : ℕ

-- `chainConfig.cosmos_sdk_version < "v0.50.0"`, which compares texts.
unfoldable pub is_before_v0_50 : String → Bool
is_before_v0_50 version = elim (compare version "v0.50.0") [ Ordering.lt ↦ true | _ ↦ false ]

module _ (encode : String → String) where
  -- The loop over the queries: `join` puts the `&` between them.
  unfoldable pub events_path : List String → String
  events_path queries = join "&" (map (λ query. "events=" <> encode query) queries)

  unfoldable pub query_path : String → TransactionRequestByEvents → String
  unfolding is_before_v0_50 events_path
  query_path version request =
      let order = encode "ORDER_BY_UNSPECIFIED" in
      if is_before_v0_50 version
      then events_path request.queries
        <> "&order_by="
        <> order
        <> "&limit="
        <> show_nat request.limit
      else "order_by="
        <> order
        <> "&limit="
        <> show_nat request.limit
        <> "&query="
        <> encode (join " AND " request.queries)

  unfoldable pub make_url_for_transaction_by_events :
      String → ClientChain → TransactionRequestByEvents → String
  unfolding query_path
  make_url_for_transaction_by_events api chain request =
      api <> "/cosmos/tx/v1beta1/txs?" <> query_path chain.cosmos_sdk_version request

-- `getRandomHealthyApiImperative`: a random number is drawn where there is a list.
module _ (rest : Rest) where
  open rest use {
    Net, Document, fetch_health, pick, fetch, encode_uri_component, status_text, parse_transaction,
    parse_ev_transaction, parse_error, is_transaction_not_found, now, new_controller, aborted,
    sleep, get_time,
  }

  abbrev pub apis_of : Reply HealthJson → List String
  apis_of (Reply.failed error) = []
  apis_of (replied status (unreadable error)) = []
  apis_of (replied status (contents json)) = elim json.apis [ none ↦ [] | some apis ↦ apis ]

  unfoldable pub choose_api : String → Net → Option String × Net
  choose_api chain_id net =
      let (reply, net1) = fetch_health chain_id net in
      let (index, net2) = pick (length (apis_of reply)) net1 in
      (get_random_healthy_api (λ n. index) reply, net2)

  -- The result of a query by hash, from what its request answers.
  unfoldable pub read_transaction : Reply Document → Option TxResponse
  read_transaction (Reply.failed error) = none
  read_transaction (replied status (unreadable error)) = none
  read_transaction (replied status (contents document)) =
      if is_ok status then parse_transaction document else none

  unfoldable pub fetch_transaction_by_hash : String → String → Net → Option TxResponse × Net
  unfolding choose_api read_transaction
  fetch_transaction_by_hash chain_id hash net =
      let (api, net1) = choose_api chain_id net in
      elim api [
        | none ↦ (none, net1)
        | some url ↦
            let (reply, net2) = fetch (url <> "/cosmos/tx/v1beta1/txs/" <> hash) net1 in
            (read_transaction reply, net2)
      ]

  -- The response by events, or the error that is made of one.
  unfoldable pub parse_events : Document → FetchResult
  parse_events document =
      if is_transaction_not_found document then missing else elim (parse_ev_transaction document) [
        | some txs ↦ found txs
        | none ↦ elim (parse_error document) [
          | some (code, message) ↦ failed code message
          | none ↦ failed 500 "Unexpected response format from API"
        ]
      ]

  abbrev pub not_gotten : ClientChain → List String → FetchResult
  not_gotten chain queries =
      failed 500
        ("Failed to get transaction for chain " <> chain.id <> " and events " <> join "," queries)

  unfoldable pub events_of : ClientChain → List String → Reply Document → FetchResult
  unfolding parse_events
  events_of chain queries (Reply.failed error) = not_gotten chain queries
  events_of chain queries (replied status (unreadable error)) =
      if is_ok status then not_gotten chain queries else failed status (status_text status)
  events_of chain queries (replied status (contents document)) =
      if is_ok status then parse_events document else failed status (status_text status)

  unfoldable pub fetch_transaction_by_events :
      ClientChain → TransactionRequestByEvents → Net → FetchResult × Net
  unfolding choose_api make_url_for_transaction_by_events events_of
  fetch_transaction_by_events chain request net =
      let (api, net1) = choose_api chain.id net in
      elim api [
        | none ↦ (failed 400 "No healthy API found for chain", net1)
        | some url ↦
            let (reply, net2) =
              fetch (make_url_for_transaction_by_events encode_uri_component url chain request)
                net1 in
            (events_of chain request.queries reply, net2)
      ]

  -- The chains as the tracking sees them.
  unfoldable pub chain_api : ChainApi
  unfolding fetch_transaction_by_events fetch_transaction_by_hash
  chain_api = record {
    Net = Net;
    healthy_api = choose_api;
    by_events = λ chain queries net.
        fetch_transaction_by_events chain (record { queries = queries; limit = 1 }) net;
    by_hash = fetch_transaction_by_hash;
    now = now;
    new_controller = new_controller;
    aborted = aborted;
    sleep = sleep;
    get_time = get_time;
  }
