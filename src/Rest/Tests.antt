-- ===== src/Rest/Tests.antt =====
-- A packet that is found over the REST queries of client_app/src/lib/apiQueries/fetchApiData.ts.
use spectra_portal.Base.{
  ◌≡◌, refl, String, true, false, List, [], ◌∷◌, none, some, join, text_length,
}
use spectra_portal.Config.{ClientChain}
use spectra_portal.Tracking.{
  PacketData, EventAttribute, TxResponse, found, query_ibc_receive, estimate_query_length,
  check_responses, extract_ibc_packet_data, get_recv_packet_event, verify_packet_data,
  gather_event_pkt_data, verify_transaction_timestamp,
}
use spectra_portal.Tracking.Receive.{Receives}
use spectra_portal.Health.Checks.{replied, contents}
use spectra_portal.Health.Client.{get_random_healthy_api}
use spectra_portal.Rest.Platform.{Rest}
use spectra_portal.Rest.Fetch.{chain_api, is_before_v0_50}
use spectra_portal.Rest.Answers.{IsDocumented, query_ibc_receive-IsDocumented}

abbrev packet : PacketData
packet = record {
  packet_data_hex = "0a";
  packet_timeout = "";
  packet_sequence = "7";
  packet_src_port = "";
  packet_src_channel = "channel-0";
  packet_dst_port = "";
  packet_dst_channel = "channel-1";
  packet_channel_ordering = "";
  packet_connection_id = "";
}

abbrev attribute : String → String → EventAttribute
attribute key value = record { key = key; value = value }

abbrev receive : TxResponse
receive = record {
  txhash = "AB";
  code = 0;
  timestamp = "now";
  events =
      record {
        type = "recv_packet";
        attributes =
            attribute "packet_data_hex" "0a"
            ∷ attribute "packet_sequence" "7"
            ∷ attribute "packet_src_channel" "channel-0"
            ∷ attribute "packet_dst_channel" "channel-1"
            ∷ [];
      }
      ∷ [];
}

abbrev chain : ClientChain
chain = record {
  name = "b";
  id = "b";
  bech32_prefix = "b";
  cosmos_sdk_version = "v0.50.1";
  chain_logo = none;
  rpc_endpoints = [];
  rest_endpoints = [];
  native_tokens = [];
  ibc_tokens = [];
  connected_chains = [];
  is_dex = false;
  keplr_chain_config = record { fee_currencies = [] };
}

-- Every request is answered with the same transaction.
abbrev answering : Rest
answering = record {
  Net = Unit;
  Document = List TxResponse;
  fetch_health = λ id net.
      (replied 200 (contents (record { apis = some ("https://api" ∷ []); rpcs = none })), net);
  pick = λ n net. (0, net);
  fetch = λ url net. (replied 200 (contents (receive ∷ [])), net);
  encode_uri_component = λ s. s;
  status_text = λ status. "";
  parse_transaction = λ document. none;
  parse_ev_transaction = λ document. some document;
  parse_error = λ document. none;
  is_transaction_not_found = λ document. false;
  now = λ net. (0, net);
  new_controller = λ net. net;
  aborted = λ net. (false, net);
  sleep = λ time net. net;
  get_time = λ text. some 0;
}

start : (chain_api answering).Net
unfolding chain_api
start = tt

received :
    (query_ibc_receive (chain_api answering) chain packet "now" start).0 ≡ found (receive ∷ [])
unfolding chain_api start query_ibc_receive get_random_healthy_api estimate_query_length text_length
    join check_responses extract_ibc_packet_data get_recv_packet_event verify_packet_data
    gather_event_pkt_data verify_transaction_timestamp
received = refl

query_ibc_receive-IsDocumented_example :
    (queries : List String) × IsDocumented answering chain
      (record { queries = queries; limit = 1 })
      (receive ∷ [])
    × (response : TxResponse) × (others : List TxResponse) × (receive ∷ [] ≡ response ∷ others)
    × Receives answering.get_time packet "now" response
query_ibc_receive-IsDocumented_example =
    query_ibc_receive-IsDocumented answering chain packet "now" start {txs = receive ∷ []} received

newer-is_before : is_before_v0_50 "v0.100.0" ≡ true
unfolding is_before_v0_50
newer-is_before = refl
