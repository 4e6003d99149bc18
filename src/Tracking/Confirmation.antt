-- ===== src/Tracking/Confirmation.antt =====
-- What `waitForConfirmation` and `trackIbcTransfer` have seen when they succeed
-- (client_app/src/hooks/useIbcTracking.ts).
use spectra_portal.Base.{
  ℕ, zero, suc, ◌-◌, ◌≡◌, inl, inr, String, true, List, ◌∷◌, Option, none, some, Option-cases,
  Bool-cases, ==_iff, ◌==◌, eq_of_some, ltb, ap, sym, ◌∙◌,
}
use spectra_portal.Config.{ClientChain}
use spectra_portal.Tracking.Types.{
  PacketData, TxResponse, found, IbcTrackingResult, TrackingOptions, ChainApi,
}
use spectra_portal.Tracking.Util.{query_ibc_receive, extract_send_packet}
use spectra_portal.Tracking.Hook.{
  verdict, pause, poll, wait_for_confirmation, get_packet_data, fetch_again,
}
use spectra_portal.Tracking.Receive.{Receives, query_ibc_receive-Found, FetchResult-cases}

-- The chain's API has answered some queries with the transaction `r`, which has code 0 and received
-- the packet, not before it was sent.
pub record Confirms (api : ChainApi) (dest : ClientChain) (packet : PacketData) (source_ts : String)
    (r : TxResponse) : Type 0 where
  pub queries : List String
  pub asked : api.Net
  pub others : List TxResponse
  pub answer : (api.by_events dest queries asked).0 ≡ found (r ∷ others)
  pub receives : Receives api.get_time packet source_ts r
  pub code : r.code ≡ 0

-- A result that reports such a transaction: its hash, the packet that it sent on, and its timestamp.
pub record Reports (api : ChainApi) (dest : ClientChain) (packet : PacketData) (source_ts : String)
    (result : IbcTrackingResult) : Type 0 where
  pub response : TxResponse
  pub confirms : Confirms api dest packet source_ts response
  pub tx_hash : result.tx_hash ≡ some response.txhash
  pub next : result.next_send_packet ≡ extract_send_packet response
  pub timestamp : result.recv_timestamp ≡ some response.timestamp

-- The source chain's API has answered with a transaction that sent the packet at that time.
pub record Sent (api : ChainApi) (chain_id tx_hash : String) (sent : PacketData × String)
    : Type 0 where
  pub asked : api.Net
  pub response : TxResponse
  pub answer : (api.by_hash chain_id tx_hash asked).0 ≡ some response
  pub packet : extract_send_packet response ≡ some sent.0
  pub time : response.timestamp ≡ sent.1

module _ (api : ChainApi) (options : TrackingOptions) where
  open api use {Net, by_hash, now, aborted}

  get_packet_data-Sent :
      (chain_id tx_hash : String) (net : Net) {sent : PacketData × String}
      → (get_packet_data api chain_id tx_hash net).0 ≡ some sent
      → Sent api chain_id tx_hash sent
  unfolding get_packet_data
  get_packet_data-Sent chain_id tx_hash net e =
      elim (Option-cases (by_hash chain_id tx_hash net).0) [
        | inl nothing ↦ absurd (cc (rw (nothing, get_packet_data) at e))
        | inr (r, is) ↦ elim (Option-cases (extract_send_packet r)) [
          | inl no_event ↦ absurd (cc (rw (is, no_event, get_packet_data) at e))
          | inr (packet, has) ↦
              let same = eq_of_some (rw (is, has, get_packet_data) at e) in
              record {
                asked = net;
                response = r;
                answer = is;
                packet = has ∙ ap (λ (x : PacketData × String). some x.0) same;
                time = ap (λ (x : PacketData × String). x.1) same;
              }
        ]
      ]

  pub fetch_again-Sent :
      (chain_id tx_hash : String) (left : ℕ) (first : Option (PacketData × String)) (net : Net)
      {sent : PacketData × String}
      → ((x : PacketData × String) → first ≡ some x → Sent api chain_id tx_hash x)
      → (fetch_again api options chain_id tx_hash left first net).0 ≡ some sent
      → Sent api chain_id tx_hash sent
  unfolding fetch_again
  fetch_again-Sent chain_id tx_hash left (some x) net sound e = sound _ e
  fetch_again-Sent chain_id tx_hash zero none net sound e = absurd (cc)
  fetch_again-Sent chain_id tx_hash (suc left) none net sound e =
      let again = get_packet_data api chain_id tx_hash (api.sleep options.poll_interval net) in
      fetch_again-Sent chain_id tx_hash left again.0 again.1
        (λ x is. get_packet_data-Sent chain_id tx_hash (api.sleep options.poll_interval net) is) e

  pub first-Sent :
      (chain_id tx_hash : String) (left : ℕ) (net : Net) {sent : PacketData × String}
      → (fetch_again api options chain_id tx_hash left
          (get_packet_data api chain_id tx_hash net).0
          (get_packet_data api chain_id tx_hash net).1).0
        ≡ some sent
      → Sent api chain_id tx_hash sent
  first-Sent chain_id tx_hash left net e =
      fetch_again-Sent chain_id tx_hash left (get_packet_data api chain_id tx_hash net).0
        (get_packet_data api chain_id tx_hash net).1
        (λ x is. get_packet_data-Sent chain_id tx_hash net is) e

  verdict-Reports :
      (dest : ClientChain) (packet : PacketData) (source_ts : String) (net : Net)
      {result : IbcTrackingResult}
      → verdict (query_ibc_receive api dest packet source_ts net).0 ≡ some result
      → result.success ≡ true
      → Reports api dest packet source_ts result
  unfolding verdict
  verdict-Reports dest packet source_ts net {result} e ok =
      elim (FetchResult-cases (query_ibc_receive api dest packet source_ts net).0) [
        | inl (inl is) ↦ absurd (cc (rw (is, verdict) at e))
        | inl (inr (code, message, is)) ↦ absurd (cc (rw (is, verdict) at e))
        | inr (rs, is) ↦
            let f = query_ibc_receive-Found api dest packet source_ts net is in
            let e' = rw (is ∙ ap found f.first, verdict) at e in
            elim (Bool-cases (f.response.code == 0)) [
              | inl zero_code ↦
                  let same = eq_of_some (rw zero_code at e') in
                  record {
                    response = f.response;
                    confirms = record {
                      queries = f.queries;
                      asked = f.asked;
                      others = f.others;
                      answer = f.answer ∙ ap found f.first;
                      receives = f.receives;
                      code = (==_iff _ _).0 zero_code;
                    };
                    tx_hash = ap (λ r. r.tx_hash) (sym same);
                    next = ap (λ r. r.next_send_packet) (sym same);
                    timestamp = ap (λ r. r.recv_timestamp) (sym same);
                  }
              | inr bad_code ↦
                  absurd (cc (ap (λ r. r.success) (eq_of_some (rw bad_code at e')), ok))
            ]
      ]

  poll-Reports :
      (dest : ClientChain) (packet : PacketData) (source_ts : String) (start left : ℕ) (net : Net)
      → (poll api options dest packet source_ts start left net).0.success ≡ true
      → Reports api dest packet source_ts (poll api options dest packet source_ts start left net).0
  unfolding poll
  poll-Reports dest packet source_ts start zero net ok = absurd (cc)
  poll-Reports dest packet source_ts start (suc left) net ok = elim (Bool-cases (aborted net).0) [
    | inl stopped ↦ absurd (cc (rw (stopped, poll) at ok))
    | inr going ↦ elim (Bool-cases (ltb options.timeout ((now (aborted net).1).0 - start))) [
      | inl late ↦ absurd (cc (rw (going, late, poll) at ok))
      | inr in_time ↦
          let net2 = (now (aborted net).1).1 in
          let asked = query_ibc_receive api dest packet source_ts net2 in
          elim (Option-cases (verdict asked.0)) [
            | inr (result, is) ↦
                rw (going, in_time, is, poll)
                  (verdict-Reports dest packet source_ts net2 is
                    (rw (going, in_time, is, poll) at ok))
            | inl again ↦
                rw (going, in_time, again, poll)
                  (poll-Reports dest packet source_ts start left (pause api options left asked.1)
                    (rw (going, in_time, again, poll) at ok))
          ]
    ]
  ]

  -- If the wait for a confirmation succeeds, then the destination chain's API has answered with a
  -- transaction of code 0 that received the packet, and the result reports that transaction's hash and
  -- timestamp and the packet that it sent on. If the source timestamp is not empty, both timestamps
  -- parse, and the transaction is at most ten seconds older than the source; an empty one puts no bound
  -- on the age of the transaction.
  pub wait_for_confirmation-Reports :
      (dest : ClientChain) (packet : PacketData) (source_ts : String) (net : Net)
      → (wait_for_confirmation api options dest packet source_ts net).0.success ≡ true
      → Reports api dest packet source_ts
          (wait_for_confirmation api options dest packet source_ts net).0
  unfolding wait_for_confirmation
  wait_for_confirmation-Reports dest packet source_ts net ok =
      let started = now (api.new_controller net) in
      poll-Reports dest packet source_ts started.0 options.max_attempts started.1 ok
