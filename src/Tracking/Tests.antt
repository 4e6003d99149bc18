-- ===== src/Tracking/Tests.antt =====
-- Runs of the tracking of client_app/src/hooks/useIbcTracking.ts over chains that answer at once.
use spectra_portal.Base.{
  Option, ℕ, suc, ◌≤◌, ◌≡◌, refl, arith, String, true, false, List, [], ◌∷◌, none, some, length,
  text_length, join,
}
use spectra_portal.Config.{ClientChain}
use spectra_portal.Tracking.Types.{
  PacketData, EventAttribute, TxResponse, found, ChainApi, default_options,
}
use spectra_portal.Tracking.Util.{
  query_ibc_receive, estimate_query_length, check_responses, extract_ibc_packet_data,
  extract_send_packet, get_recv_packet_event, get_send_packet_event, verify_packet_data,
  gather_event_pkt_data, verify_transaction_timestamp,
}
use spectra_portal.Tracking.Hook.{
  wait_for_confirmation, verdict, get_packet_data, track_smart_transfer_multi_hop,
}
use spectra_portal.Tracking.Receive.{Found, query_ibc_receive-Found}
use spectra_portal.Tracking.Confirmation.{Reports, Sent, wait_for_confirmation-Reports}
use spectra_portal.Tracking.Hops.{Arrives, track_smart_transfer_multi_hop-Arrives}
use spectra_portal.Tracking.Bounds.{Counter, wait_for_confirmation-calls}

abbrev packet : PacketData
packet = record {
  packet_data_hex = "0a";
  packet_timeout = "";
  packet_sequence = "7";
  packet_src_port = "";
  packet_src_channel = "channel-0";
  packet_dst_port = "";
  packet_dst_channel = "channel-1";
  packet_channel_ordering = "";
  packet_connection_id = "";
}

abbrev attribute : String → String → EventAttribute
attribute key value = record { key = key; value = value }

abbrev attributes : List EventAttribute
attributes =
    attribute "packet_data_hex" "0a"
    ∷ attribute "packet_sequence" "7"
    ∷ attribute "packet_src_channel" "channel-0"
    ∷ attribute "packet_dst_channel" "channel-1"
    ∷ []

-- A transaction that receives the packet and sends it on.
abbrev relay : TxResponse
relay = record {
  txhash = "AB";
  code = 0;
  timestamp = "now";
  events =
      record { type = "recv_packet"; attributes = attributes }
      ∷ record { type = "send_packet"; attributes = attributes }
      ∷ [];
}

abbrev chain : String → ClientChain
chain id = record {
  name = id;
  id = id;
  bech32_prefix = id;
  cosmos_sdk_version = "0.50";
  chain_logo = none;
  rpc_endpoints = [];
  rest_endpoints = [];
  native_tokens = [];
  ibc_tokens = [];
  connected_chains = [];
  is_dex = false;
  keplr_chain_config = record { fee_currencies = [] };
}

-- Every chain answers each query with the relay; the state counts the event queries.
abbrev answering : ChainApi
answering = record {
  Net = ℕ;
  healthy_api = λ _ n. (some "https://api", n);
  by_events = λ _ _ n. (found (relay ∷ []), suc n);
  by_hash = λ _ _ n. (some relay, n);
  now = λ n. (0, n);
  new_controller = λ n. n;
  aborted = λ n. (false, n);
  sleep = λ _ n. n;
  get_time = λ _. some 0;
}

abbrev counter : Counter answering
counter = record {
  calls = λ n. n;
  by_events = λ _ _ n. omega arith;
  healthy_api = λ _ n. omega arith;
  now = λ n. omega arith;
  aborted = λ n. omega arith;
  new_controller = λ n. omega arith;
  sleep = λ _ n. omega arith;
}

relay_received : (query_ibc_receive answering (chain "b") packet "now" 0).0 ≡ found (relay ∷ [])
unfolding query_ibc_receive estimate_query_length text_length join check_responses
    extract_ibc_packet_data get_recv_packet_event verify_packet_data gather_event_pkt_data
    verify_transaction_timestamp
relay_received = refl

query_ibc_receive-Found_example : Found answering (chain "b") packet "now" (relay ∷ [])
query_ibc_receive-Found_example =
    query_ibc_receive-Found answering (chain "b") packet "now" 0 {rs = relay ∷ []} relay_received

confirmed :
    (wait_for_confirmation answering default_options (chain "b") packet "now" 0).0.success ≡ true
unfolding wait_for_confirmation verdict query_ibc_receive estimate_query_length text_length join
    check_responses extract_ibc_packet_data get_recv_packet_event verify_packet_data
    gather_event_pkt_data verify_transaction_timestamp
confirmed = refl

wait_for_confirmation-Reports_example :
    Reports answering
      (chain "b")
      packet
      "now"
      (wait_for_confirmation answering default_options (chain "b") packet "now" 0).0
wait_for_confirmation-Reports_example =
    wait_for_confirmation-Reports answering default_options (chain "b") packet "now" 0 confirmed

wait_for_confirmation-calls_example :
    (wait_for_confirmation answering default_options (chain "b") packet "now" 0).1 ≤ 60
wait_for_confirmation-calls_example =
    wait_for_confirmation-calls answering counter (chain "b") packet "now" default_options 0

-- Keeps the last report of a hop.
abbrev report : ℕ → ℕ → ℕ × ℕ → ℕ × ℕ
report completed total _ = (completed, total)

abbrev path : List String
path = "a" ∷ "b" ∷ "c" ∷ []

abbrev known : List ClientChain
known = chain "b" ∷ chain "c" ∷ []

all_arrive :
    (track_smart_transfer_multi_hop answering default_options report "a" "AA" path known 0
      (0, 0)).0.success
    ≡ true
unfolding track_smart_transfer_multi_hop get_packet_data extract_send_packet get_send_packet_event
    wait_for_confirmation verdict query_ibc_receive estimate_query_length text_length join
    check_responses extract_ibc_packet_data get_recv_packet_event verify_packet_data
    gather_event_pkt_data verify_transaction_timestamp
all_arrive = refl

track_smart_transfer_multi_hop-Arrives_example :
    (sent : PacketData) × (ts : String) × Sent answering "a" "AA" (sent, ts)
    × Arrives answering default_options report
        (length path)
        0
        ("b" ∷ "c" ∷ [])
        sent
        ts
        (0, 0)
        (track_smart_transfer_multi_hop answering default_options report "a" "AA" path known 0
          (0, 0)).2
track_smart_transfer_multi_hop-Arrives_example =
    track_smart_transfer_multi_hop-Arrives answering default_options report "a" "AA" "a" "b"
      ("c" ∷ []) known 0 (0, 0) all_arrive

-- The length of a text stands for its time.
abbrev length_time : String → Option ℕ
length_time text = some (text_length text)
