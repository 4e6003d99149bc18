-- ===== src/Tracking/Receive.antt =====
-- What `queryIbcReceive` accepts (client_app/src/hooks/ibcTracking/util.ts).
use mathlib.Core.Option
use mathlib.Core.Path.{subst}
use spectra_portal.Base.{
  ◌↔◌, ℕ, ◌+◌, ◌≤◌, ◌≡◌, refl, ◌≢◌, ◌⊎◌, inl, inr, String, true, List, [], ◌∷◌, Option, none, some,
  arith, eq_iff, Option-cases, Bool-cases, is_truthy, opt_or, sym, ◌∙◌,
}
use spectra_portal.Config.{ClientChain}
use spectra_portal.Tracking.Types.{
  PacketData, TxResponse, FetchResult, found, failed, missing, ChainApi,
}
use spectra_portal.Tracking.Util.{
  Check, matched, mismatch, stale, get_recv_packet_event, gather_event_pkt_data,
  extract_ibc_packet_data, verify_packet_data, verify_transaction_timestamp, check_timestamp,
  check_responses, try_strategies, query_ibc_receive, build_query_strategies,
}

pub FetchResult-cases :
    (r : FetchResult)
    → ((r ≡ missing) ⊎ ((code : ℕ) × (message : String) × (r ≡ failed code message)))
      ⊎ ((rs : List TxResponse) × (r ≡ found rs))
FetchResult-cases (found rs) = inr (rs, refl)
FetchResult-cases (failed code message) = inl (inr (code, message, refl))
FetchResult-cases missing = inl (inl refl)

pub Check-cases : (c : Check) → ((c ≡ matched) ⊎ (c ≡ mismatch)) ⊎ (c ≡ stale)
Check-cases matched = inl (inl refl)
Check-cases mismatch = inl (inr refl)
Check-cases stale = inr refl

-- The same packet: its bytes, sequence and channels.
pub record SamePacket (p q : PacketData) : Type 0 where
  pub hex : p.packet_data_hex ≡ q.packet_data_hex
  pub sequence : p.packet_sequence ≡ q.packet_sequence
  pub src_channel : p.packet_src_channel ≡ q.packet_src_channel
  pub dst_channel : p.packet_dst_channel ≡ q.packet_dst_channel

verify_packet_data-SamePacket : (p q : PacketData) → verify_packet_data p q ≡ true → SamePacket p q
unfolding verify_packet_data
verify_packet_data-SamePacket p q h = ground (
  arith,
  eq_iff p.packet_data_hex q.packet_data_hex,
  eq_iff p.packet_sequence q.packet_sequence,
  eq_iff p.packet_src_channel q.packet_src_channel,
  eq_iff p.packet_dst_channel q.packet_dst_channel,
)

-- Not more than ten seconds older than the source; an empty source timestamp is not compared.
abbrev pub IsInTime : (String → Option ℕ) → String → String → Type 0
IsInTime get_time receive_ts source_ts =
    source_ts ≢ ""
    → (receive : ℕ) × (source : ℕ) × (get_time receive_ts ≡ some receive)
      × (get_time source_ts ≡ some source)
      × (source ≤ receive + 10000)

-- The transaction received the packet, and passes the comparison of the timestamps.
pub record Receives (get_time : String → Option ℕ) (packet : PacketData) (source_ts : String)
    (r : TxResponse) : Type 0 where
  pub received : PacketData
  pub event : Option.map gather_event_pkt_data (get_recv_packet_event r.events) ≡ some received
  pub same : SamePacket received packet
  pub time : IsInTime get_time r.timestamp source_ts

verify_transaction_timestamp_lem :
    (get_time : String → Option ℕ) (receive_ts source_ts : String)
    → verify_transaction_timestamp get_time receive_ts source_ts ≡ true
    → (receive : ℕ) × (source : ℕ) × (get_time receive_ts ≡ some receive)
      × (get_time source_ts ≡ some source)
      × (source ≤ receive + 10000)
unfolding verify_transaction_timestamp
verify_transaction_timestamp_lem get_time receive_ts source_ts h =
    elim (Option-cases (get_time receive_ts)) [
      | inl bad ↦ absurd (cc (rw (bad, verify_transaction_timestamp) at h))
      | inr (receive, is) ↦ elim (Option-cases (get_time source_ts)) [
        | inl bad ↦ absurd (cc (rw (is, bad, verify_transaction_timestamp) at h))
        | inr (source, is') ↦ (
          receive,
          source,
          is,
          is',
          ground (arith, rw (is, is', verify_transaction_timestamp) at h),
        )
      ]
    ]

-- A receive transaction passes the check of the timestamps exactly when both parse and the source is at
-- most ten seconds later.
pub verify_transaction_timestamp_iff :
    (get_time : String → Option ℕ) (receive_ts source_ts : String)
    → (verify_transaction_timestamp get_time receive_ts source_ts ≡ true) ↔ (
        (receive : ℕ) × (source : ℕ) × (get_time receive_ts ≡ some receive)
        × (get_time source_ts ≡ some source)
        × (source ≤ receive + 10000))
unfolding verify_transaction_timestamp
verify_transaction_timestamp_iff get_time receive_ts source_ts = (
  verify_transaction_timestamp_lem get_time receive_ts source_ts,
  λ (receive, source, received, sent, le).
      rw (received, sent, verify_transaction_timestamp) (ground (arith, le)),
)

check_timestamp-IsInTime :
    (get_time : String → Option ℕ) (r : TxResponse) (rs : List TxResponse) (source_ts : String)
    → check_timestamp get_time (r ∷ rs) source_ts ≡ matched
    → IsInTime get_time r.timestamp source_ts
unfolding check_timestamp
check_timestamp-IsInTime get_time r rs source_ts h sent =
    verify_transaction_timestamp_lem get_time r.timestamp source_ts
      (ground (arith, eq_iff source_ts ""))

extract_none : extract_ibc_packet_data [] ≡ none
unfolding extract_ibc_packet_data
extract_none = refl

extract_first :
    (r : TxResponse) (rest : List TxResponse)
    → extract_ibc_packet_data (r ∷ rest)
      ≡ Option.map gather_event_pkt_data (get_recv_packet_event r.events)
unfolding extract_ibc_packet_data
extract_first r rest = refl

check_responses-Receives :
    (get_time : String → Option ℕ) (packet : PacketData) (source_ts : String) (rs : List TxResponse)
    → check_responses get_time packet source_ts rs ≡ matched
    → (r : TxResponse) × (rest : List TxResponse) × (rs ≡ r ∷ rest)
      × Receives get_time packet source_ts r
unfolding check_responses
check_responses-Receives get_time packet source_ts [] h =
    absurd (cc (rw (extract_none, check_responses) at h))
check_responses-Receives get_time packet source_ts (r ∷ rest) h =
    elim (Option-cases (extract_ibc_packet_data (r ∷ rest))) [
      | inl none_found ↦ absurd (cc (rw (none_found, check_responses) at h))
      | inr (received, event) ↦ elim (Bool-cases (verify_packet_data received packet)) [
        | inl same ↦ (
          r,
          rest,
          refl,
          record {
            received = received;
            event = sym (extract_first r rest) ∙ event;
            same = verify_packet_data-SamePacket received packet same;
            time =
                check_timestamp-IsInTime get_time r rest source_ts
                  (rw (event, same, check_responses) at h);
          },
        )
        | inr other ↦ absurd (cc (rw (event, other, check_responses) at h))
      ]
    ]

module _ (api : ChainApi) (dest : ClientChain) (packet : PacketData) (source_ts : String) where
  open api use {Net, healthy_api, by_events, get_time}

  -- A transaction that an API of the destination chain has returned, and that received the packet.
  pub record Found (rs : List TxResponse) : Type 0 where
    pub response : TxResponse
    pub others : List TxResponse
    pub first : rs ≡ response ∷ others
    pub receives : Receives get_time packet source_ts response
    pub queries : List String
    pub asked : Net
    pub answer : (by_events dest queries asked).0 ≡ found rs

  found_inj : {rs ss : List TxResponse} → found rs ≡ found ss → rs ≡ ss
  found_inj e = cc

  matched-Found :
      (rs : List TxResponse) (queries : List String) (net : Net)
      → (by_events dest queries net).0 ≡ found rs
      → check_responses get_time packet source_ts rs ≡ matched
      → Found rs
  matched-Found rs queries net answer h =
      let (r, rest, is, receives) = check_responses-Receives get_time packet source_ts rs h in
      record {
        response = r;
        others = rest;
        first = is;
        receives = receives;
        queries = queries;
        asked = net;
        answer = answer;
      }

  try_strategies-Found :
      (strategies : List (List String)) (net : Net) {rs : List TxResponse}
      → (try_strategies api dest packet source_ts strategies net).0 ≡ found rs
      → Found rs
  unfolding try_strategies
  try_strategies-Found [] net e = absurd (cc)
  try_strategies-Found (queries ∷ rest) net {rs} e =
      elim (FetchResult-cases (by_events dest queries net).0) [
        | inl (inl is) ↦
            try_strategies-Found rest (by_events dest queries net).1 (rw (is, try_strategies) at e)
        | inl (inr (code, message, is)) ↦ absurd (ground (arith, rw (is, try_strategies) at e))
        | inr (responses, is) ↦
            elim (Check-cases (check_responses get_time packet source_ts responses)) [
              | inl (inl ok) ↦
                  subst Found (found_inj (rw (is, ok, try_strategies) at e))
                    (matched-Found responses queries net is ok)
              | inl (inr other) ↦
                  try_strategies-Found rest (by_events dest queries net).1
                    (rw (is, other, try_strategies) at e)
              | inr old ↦ absurd (cc (rw (is, old, try_strategies) at e))
            ]
      ]

  -- Whatever `queryIbcReceive` returns as found is an answer of the destination chain's API to some
  -- queries, and begins with a transaction whose recv_packet event has the expected bytes, sequence
  -- and channels, and which is at most ten seconds older than the source, if that has a timestamp.
  pub query_ibc_receive-Found :
      (net : Net) {rs : List TxResponse}
      → (query_ibc_receive api dest packet source_ts net).0 ≡ found rs
      → Found rs
  unfolding query_ibc_receive
  query_ibc_receive-Found net e =
      elim (Bool-cases (is_truthy (opt_or (healthy_api dest.id net).0 ""))) [
        | inl has_url ↦
            try_strategies-Found (build_query_strategies packet) (healthy_api dest.id net).1
              (rw (has_url, query_ibc_receive) at e)
        | inr no_url ↦ absurd (cc (rw (no_url, query_ibc_receive) at e))
      ]
