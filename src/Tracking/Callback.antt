-- ===== src/Tracking/Callback.antt =====
-- What the callback `onHopComplete` of client_app/src/hooks/useIbcTracking.ts keeps, the tracking keeps.
use spectra_portal.Base.{
  ℕ, suc, String, List, [], ◌∷◌, Option-cases, Bool-cases, inl, inr, find, str_eq, ltb, length,
  or_else,
}
use spectra_portal.Config.{ClientChain}
use spectra_portal.Tracking.Types.{PacketData, TrackingOptions, ChainApi}
use spectra_portal.Tracking.Hook.{
  wait_for_confirmation, get_packet_data, fetch_again, follow_hops, track_smart_transfer_multi_hop,
  tail,
}

module _ (api : ChainApi) (options : TrackingOptions) {S : Type 0} (on_hop : ℕ → ℕ → S → S)
    (P : S → Type 0) (keeps : (completed total : ℕ) (s : S) → P s → P (on_hop completed total s))
    (chains : List ClientChain) where
  open api use {Net}

  follow_hops-Keeps :
      (total done : ℕ) (path : List String) (packet : PacketData) (ts : String) (net : Net) (s : S)
      → P s
      → P (follow_hops api options on_hop chains total done path packet ts net s).2
  unfolding follow_hops
  follow_hops-Keeps total done [] packet ts net s h = h
  follow_hops-Keeps total done (dest_id ∷ []) packet ts net s h =
      elim (Option-cases (find (λ c. str_eq c.id dest_id) chains)) [
        | inl unknown ↦ rw (unknown, follow_hops) h
        | inr (dest, is) ↦
            elim (Bool-cases (wait_for_confirmation api options dest packet ts net).0.success) [
              | inr bad ↦ rw (is, bad, follow_hops) h
              | inl seen ↦
                  rw (is, seen, follow_hops) (keeps total total _ (keeps (suc done) total s h))
            ]
      ]
  follow_hops-Keeps total done (dest_id ∷ next ∷ rest) packet ts net s h =
      elim (Option-cases (find (λ c. str_eq c.id dest_id) chains)) [
        | inl unknown ↦ rw (unknown, follow_hops) h
        | inr (dest, is) ↦
            let waited = wait_for_confirmation api options dest packet ts net in
            elim (Bool-cases waited.0.success) [
              | inr bad ↦ rw (is, bad, follow_hops) h
              | inl seen ↦ elim (Option-cases waited.0.next_send_packet) [
                | inl unsent ↦ rw (is, seen, unsent, follow_hops) (keeps (suc done) total s h)
                | inr (sent, forwarded) ↦
                    rw (is, seen, forwarded, follow_hops)
                      (follow_hops-Keeps total (suc done) (next ∷ rest) sent
                        (or_else waited.0.recv_timestamp ts) waited.1 (on_hop (suc done) total s)
                        (keeps (suc done) total s h))
              ]
            ]
      ]

  pub track_smart_transfer_multi_hop-Keeps :
      (chain_id tx_hash : String) (path : List String) (net : Net) (s : S)
      → P s
      → P (track_smart_transfer_multi_hop api options on_hop chain_id tx_hash path chains net s).2
  unfolding track_smart_transfer_multi_hop
  track_smart_transfer_multi_hop-Keeps chain_id tx_hash path net s h =
      elim (Bool-cases (ltb (length path) 2)) [
        | inl short ↦ rw (short, track_smart_transfer_multi_hop) h
        | inr long ↦
            let first = get_packet_data api chain_id tx_hash net in
            let fetched =
              fetch_again api options chain_id tx_hash options.max_attempts first.0 first.1 in
            elim (Option-cases fetched.0) [
              | inl nothing ↦ rw (long, nothing, track_smart_transfer_multi_hop) h
              | inr (sent, is) ↦
                  rw (long, is, track_smart_transfer_multi_hop)
                    (follow_hops-Keeps (length path) 0 (tail path) sent.0 sent.1 fetched.1 s h)
            ]
      ]
