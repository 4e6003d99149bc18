-- ===== src/Tracking/Util.antt =====
-- client_app/src/hooks/ibcTracking/util.ts, with the event accessors of
-- client_app/src/components/modules/cosmosApiData.ts.
use mathlib.Core.Option
use spectra_portal.Base.{
  ℕ, ◌+◌, String, Bool, true, false, List, [], ◌∷◌, Option, none, some, if◌then◌else◌, leb, str_eq,
  find, join, text_length, ◌<>◌, ◌&&◌, is_truthy, opt_or,
}
use spectra_portal.Config.{ClientChain}
use spectra_portal.Tracking.Types.{
  PacketData, TransactionEvents, TxResponse, FetchResult, found, failed, missing, ChainApi,
}

abbrev pub max_query_length : ℕ
max_query_length = 450

unfoldable pub estimate_query_length : List String → ℕ
estimate_query_length queries = text_length (join " AND " queries)

-- `recv_packet.<key>='<value>'`
abbrev pub query : String → String → String
query key value = "recv_packet." <> key <> "='" <> value <> "'"

abbrev pub strategy1 : PacketData → List String
strategy1 p =
    query "packet_data_hex" p.packet_data_hex
    ∷ query "packet_sequence" p.packet_sequence
    ∷ query "packet_src_channel" p.packet_src_channel
    ∷ []

abbrev pub strategy2 : PacketData → List String
strategy2 p =
    query "packet_data_hex" p.packet_data_hex ∷ query "packet_sequence" p.packet_sequence ∷ []

abbrev pub strategy3 : PacketData → List String
strategy3 p =
    query "packet_sequence" p.packet_sequence
    ∷ query "packet_src_channel" p.packet_src_channel
    ∷ query "packet_dst_channel" p.packet_dst_channel
    ∷ query "packet_timeout_timestamp" p.packet_timeout
    ∷ []

unfoldable pub build_query_strategies : PacketData → List (List String)
build_query_strategies p =
    if leb (estimate_query_length (strategy1 p)) max_query_length
    then strategy1 p ∷ []
    else if leb (estimate_query_length (strategy2 p)) max_query_length
    then strategy2 p ∷ []
    else strategy3 p ∷ []

-- `getAttr`
abbrev pub get_attr : TransactionEvents → String → String
get_attr event key =
    opt_or (Option.map (λ a. a.value) (find (λ a. str_eq a.key key) event.attributes)) ""

unfoldable pub gather_event_pkt_data : TransactionEvents → PacketData
gather_event_pkt_data event = record {
  packet_data_hex = get_attr event "packet_data_hex";
  packet_timeout = get_attr event "packet_timeout_timestamp";
  packet_sequence = get_attr event "packet_sequence";
  packet_src_port = get_attr event "packet_src_port";
  packet_src_channel = get_attr event "packet_src_channel";
  packet_dst_port = get_attr event "packet_dst_port";
  packet_dst_channel = get_attr event "packet_dst_channel";
  packet_channel_ordering = get_attr event "packet_channel_ordering";
  packet_connection_id = get_attr event "connection_id";
}

abbrev find_event : String → List TransactionEvents → Option TransactionEvents
find_event type events = find (λ e. str_eq e.type type) events

unfoldable pub get_recv_packet_event : List TransactionEvents → Option TransactionEvents
get_recv_packet_event events = find_event "recv_packet" events

unfoldable pub get_send_packet_event : List TransactionEvents → Option TransactionEvents
get_send_packet_event events = find_event "send_packet" events

unfoldable pub extract_ibc_packet_data : List TxResponse → Option PacketData
extract_ibc_packet_data [] = none
extract_ibc_packet_data (r ∷ rs) = Option.map gather_event_pkt_data (get_recv_packet_event r.events)

unfoldable pub extract_send_packet : TxResponse → Option PacketData
extract_send_packet r = Option.map gather_event_pkt_data (get_send_packet_event r.events)

unfoldable pub verify_packet_data : PacketData → PacketData → Bool
verify_packet_data received expected =
    str_eq received.packet_data_hex expected.packet_data_hex
    && (str_eq received.packet_sequence expected.packet_sequence
        && str_eq received.packet_src_channel expected.packet_src_channel
        && str_eq received.packet_dst_channel expected.packet_dst_channel)

-- A comparison with NaN is false; `new Date` does not throw, so the `catch` is never reached.
unfoldable pub verify_transaction_timestamp : (String → Option ℕ) → String → String → Bool
verify_transaction_timestamp get_time receive_ts source_ts = elim (get_time receive_ts) [
  | none ↦ false
  | some receive ↦ elim (get_time source_ts) [
    | none ↦ false
    | some source ↦ leb source (receive + 10000)
  ]
]

-- What the loop of `queryIbcReceive` makes of a response: a match, a packet of another transfer, or
-- an older transaction.
pub data Check : Type 0 where
  matched mismatch stale : Check

unfoldable pub check_timestamp : (String → Option ℕ) → List TxResponse → String → Check
check_timestamp get_time [] source_ts = stale
check_timestamp get_time (r ∷ rs) source_ts =
    if is_truthy source_ts
    then if verify_transaction_timestamp get_time r.timestamp source_ts then matched else stale
    else matched

unfoldable pub check_responses : (String → Option ℕ) → PacketData → String → List TxResponse → Check
unfolding check_timestamp
check_responses get_time packet source_ts responses = elim (extract_ibc_packet_data responses) [
  | none ↦ mismatch
  | some received ↦
      if verify_packet_data received packet
      then check_timestamp get_time responses source_ts
      else mismatch
]

abbrev pub is_last {ℓ} : {A : Type ℓ} → List A → Bool
is_last [] = true
is_last (x ∷ xs) = false

module _ (api : ChainApi) where
  open api use {Net, healthy_api, by_events, get_time}

  unfoldable pub try_strategies :
      ClientChain → PacketData → String → List (List String) → Net → FetchResult × Net
  try_strategies dest packet source_ts [] net = (missing, net)
  try_strategies dest packet source_ts (queries ∷ rest) net =
      let (result, net') = by_events dest queries net in
      elim result [
        | missing ↦ try_strategies dest packet source_ts rest net'
        | failed code message ↦ (if is_last rest then failed code message else missing, net')
        | found responses ↦ elim (check_responses get_time packet source_ts responses) [
          | matched ↦ (found responses, net')
          | stale ↦ (missing, net')
          | mismatch ↦ try_strategies dest packet source_ts rest net'
        ]
      ]

  unfoldable pub query_ibc_receive : ClientChain → PacketData → String → Net → FetchResult × Net
  unfolding try_strategies build_query_strategies
  query_ibc_receive dest packet source_ts net =
      let (url, net') = healthy_api dest.id net in
      if is_truthy (opt_or url "")
      then try_strategies dest packet source_ts (build_query_strategies packet) net'
      else (failed 400 "No healthy API found for chain", net')
