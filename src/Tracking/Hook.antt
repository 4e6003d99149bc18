-- ===== src/Tracking/Hook.antt =====
-- `useIbcTracking` of client_app/src/hooks/useIbcTracking.ts. The callback `onProgress` only logs and
-- is left out.
use mathlib.Core.Option
use spectra_portal.Base.{
  ℕ, zero, suc, ◌-◌, String, true, false, List, [], ◌∷◌, Option, none, some, if◌then◌else◌, ltb,
  ◌==◌, str_eq, find, ◌<>◌, show_nat, or_else, length, ◌⊎◌, inl, inr,
}
use spectra_portal.Config.{ClientChain}
use spectra_portal.Tracking.Types.{
  PacketData, FetchResult, found, failed, missing, IbcTrackingResult, TrackingOptions, failure,
  ChainApi,
}
use spectra_portal.Tracking.Util.{extract_send_packet, query_ibc_receive}

-- The result of a poll, or none to go on polling.
unfoldable pub verdict : FetchResult → Option IbcTrackingResult
verdict missing = none
verdict (failed code message) = none
verdict (found []) = none
verdict (found (r ∷ rs)) =
    if r.code == 0
    then some (record {
      success = true;
      tx_hash = some r.txhash;
      error = none;
      next_send_packet = extract_send_packet r;
      recv_timestamp = some r.timestamp;
    })
    else some (failure ("Receive transaction failed with code " <> show_nat r.code) (some r.txhash))

abbrev pub tail : List String → List String
tail [] = []
tail (x ∷ xs) = xs

module _ (api : ChainApi) where
  open api use {Net, by_hash, now, new_controller, aborted, sleep}

  unfoldable pub get_packet_data : String → String → Net → Option (PacketData × String) × Net
  get_packet_data chain_id tx_hash net =
      let (response, net') = by_hash chain_id tx_hash net in
      elim response [
        | none ↦ (none, net')
        | some r ↦ (Option.map (λ p. (p, r.timestamp)) (extract_send_packet r), net')
      ]

  -- The pause between two polls; there is none after the last.
  abbrev pub pause : TrackingOptions → ℕ → Net → Net
  pause options left net = if left == 0 then net else sleep options.poll_interval net

  module _ (options : TrackingOptions) where
    -- The loop of `waitForConfirmation`, with `left` attempts to go.
    unfoldable pub poll :
        ClientChain → PacketData → String → (start : ℕ) → (left : ℕ) → Net → IbcTrackingResult × Net
    poll dest packet source_ts start zero net = (
      failure ("IBC confirmation not found after " <> show_nat options.max_attempts <> " attempts")
          none,
      net,
    )
    poll dest packet source_ts start (suc left) net =
        let (stopped, net1) = aborted net in
        elim stopped [
          | true ↦ (failure "Tracking cancelled" none, net1)
          | false ↦
              let (time, net2) = now net1 in
              elim (ltb options.timeout (time - start)) [
                | true ↦ (failure "Tracking timeout exceeded" none, net2)
                | false ↦
                    let (received, net3) = query_ibc_receive api dest packet source_ts net2 in
                    elim (verdict received) [
                      | some result ↦ (result, net3)
                      | none ↦ poll dest packet source_ts start left (pause options left net3)
                    ]
              ]
        ]

    unfoldable pub wait_for_confirmation :
        ClientChain → PacketData → String → Net → IbcTrackingResult × Net
    unfolding poll
    wait_for_confirmation dest packet source_ts net =
        let (start, net') = now (new_controller net) in
        poll dest packet source_ts start options.max_attempts net'

    -- The loop of `trackIbcTransfer` that fetches the packet of the source transaction.
    unfoldable pub fetch_packet :
        String
        → String
        → (start : ℕ) → (left : ℕ) → Net
        → (IbcTrackingResult ⊎ (PacketData × String)) × Net
    fetch_packet chain_id tx_hash start zero net = (
      inl (
          failure
            "Could not extract IBC packet data from source transaction after multiple attempts"
            none),
      net,
    )
    fetch_packet chain_id tx_hash start (suc left) net =
        let (time, net1) = now net in
        elim (ltb options.timeout (time - start)) [
          | true ↦ (inl (failure "Timeout while fetching source transaction" none), net1)
          | false ↦
              let (packet, net2) = get_packet_data chain_id tx_hash net1 in
              elim packet [
                | some sent ↦ (inr sent, net2)
                | none ↦ fetch_packet chain_id tx_hash start left (pause options left net2)
              ]
        ]

    unfoldable pub track_ibc_transfer :
        String → String → ClientChain → Net → IbcTrackingResult × Net
    unfolding fetch_packet wait_for_confirmation get_packet_data
    track_ibc_transfer chain_id tx_hash dest net =
        let (start, net1) = now net in
        let (fetched, net2) = fetch_packet chain_id tx_hash start options.max_attempts net1 in
        elim fetched [
          | inl failed_result ↦ (failed_result, net2)
          | inr (packet, timestamp) ↦ wait_for_confirmation dest packet timestamp net2
        ]

    -- The first `getPacketData` of `trackSmartTransferMultiHop`, and `left` more, after a pause each.
    unfoldable pub fetch_again :
        String
        → String
        → (left : ℕ) → Option (PacketData × String)
        → Net
        → Option (PacketData × String) × Net
    fetch_again chain_id tx_hash left (some sent) net = (some sent, net)
    fetch_again chain_id tx_hash zero none net = (none, net)
    fetch_again chain_id tx_hash (suc left) none net =
        let (packet, net') = get_packet_data chain_id tx_hash (sleep options.poll_interval net) in
        fetch_again chain_id tx_hash left packet net'

    -- `onHopComplete` acts on a state `S` of the caller.
    module _ {S : Type 0} (on_hop : (completed total : ℕ) → S → S) where
      -- The loop over the hops, down the chains behind the first; `done` hops are complete.
      unfoldable pub follow_hops :
          List ClientChain
          → (total done : ℕ) → List String
          → PacketData
          → String
          → Net
          → S
          → IbcTrackingResult × Net × S
      follow_hops chains total done [] packet source_ts net s = (
        record {
          success = true;
          tx_hash = none;
          error = none;
          next_send_packet = none;
          recv_timestamp = none;
        },
        net,
        s,
      )
      follow_hops chains total done (dest_id ∷ rest) packet source_ts net s =
          elim (find (λ c. str_eq c.id dest_id) chains) [
            | none ↦ (failure ("Chain config not found: " <> dest_id) none, net, s)
            | some dest ↦
                let (result, net') = wait_for_confirmation dest packet source_ts net in
                elim result.success [
                  | false ↦ (result, net', s)
                  | true ↦
                      let s' = on_hop (suc done) total s in
                      elim rest [
                        | [] ↦ (result, net', on_hop total total s')
                        | _ ∷ _ ↦ elim result.next_send_packet [
                          | none ↦ (
                            failure
                                ("No send_packet found in relay tx on " <> dest_id
                                  <> " — forwarding may have failed")
                                result.tx_hash,
                            net',
                            s',
                          )
                          | some next ↦
                              follow_hops chains total (suc done) rest next
                                (or_else result.recv_timestamp source_ts) net' s'
                        ]
                      ]
                ]
          ]

      unfoldable pub track_smart_transfer_multi_hop :
          String → String → List String → List ClientChain → Net → S → IbcTrackingResult × Net × S
      unfolding follow_hops fetch_again
      track_smart_transfer_multi_hop chain_id tx_hash chain_path chains net s =
          elim (ltb (length chain_path) 2) [
            | true ↦ (
              record {
                success = true;
                tx_hash = some tx_hash;
                error = none;
                next_send_packet = none;
                recv_timestamp = none;
              },
              net,
              s,
            )
            | false ↦
                let (first, net1) = get_packet_data chain_id tx_hash net in
                let (fetched, net2) =
                  fetch_again chain_id tx_hash options.max_attempts first net1 in
                elim fetched [
                  | none ↦ (
                    failure "Could not extract IBC packet data from source transaction" none,
                    net2,
                    s,
                  )
                  | some (packet, timestamp) ↦
                      follow_hops chains (length chain_path) 0 (tail chain_path) packet timestamp
                        net2 s
                ]
          ]
