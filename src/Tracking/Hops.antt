-- ===== src/Tracking/Hops.antt =====
-- Following a smart transfer over its hops (client_app/src/hooks/useIbcTracking.ts).
use mathlib.Core.Path.{subst}
use spectra_portal.Base.{
  ℕ, suc, ◌≡◌, refl, inl, inr, String, true, false, List, [], ◌∷◌, some, arith, Option-cases,
  Bool-cases, eq_of_some, ltb, ap, sym, ◌∙◌, str_eq, find, or_else, length, eq_iff,
}
use spectra_portal.Config.{ClientChain}
use spectra_portal.Tracking.Types.{
  PacketData, TxResponse, IbcTrackingResult, TrackingOptions, ChainApi,
}
use spectra_portal.Tracking.Util.{extract_send_packet}
use spectra_portal.Tracking.Hook.{
  wait_for_confirmation, get_packet_data, fetch_again, follow_hops, track_smart_transfer_multi_hop,
}
use spectra_portal.Tracking.Confirmation.{
  Confirms, Reports, Sent, first-Sent, wait_for_confirmation-Reports,
}

-- A transaction on the configured chain with this id that confirms the packet.
pub record HopOn (api : ChainApi) (dest_id : String) (packet : PacketData) (ts : String)
    (r : TxResponse) : Type 0 where
  pub chain : ClientChain
  pub is : chain.id ≡ dest_id
  pub confirms : Confirms api chain packet ts r

-- Each chain of the path confirms the packet that the transaction on the chain before it sent on.
abbrev pub Trail : ChainApi → PacketData → String → List String → Type 0
Trail api packet ts [] = Unit
Trail api packet ts (dest ∷ []) = (r : TxResponse) × HopOn api dest packet ts r
Trail api packet ts (dest ∷ next ∷ rest) =
    (r : TxResponse) × (sent : PacketData) × HopOn api dest packet ts r
    × (extract_send_packet r ≡ some sent)
    × Trail api sent r.timestamp (next ∷ rest)

find_sound :
    (id : String) (chains : List ClientChain) {c : ClientChain}
    → find (λ x. str_eq x.id id) chains ≡ some c
    → c.id ≡ id
find_sound id [] e = cc
find_sound id (x ∷ xs) {c} e = elim (Bool-cases (str_eq x.id id)) [
  | inl same ↦ subst (λ y. y.id ≡ id) (eq_of_some (rw same at e)) ((eq_iff _ _).0 same)
  | inr other ↦ find_sound id xs (rw other at e)
]

module _ (api : ChainApi) (options : TrackingOptions) {S : Type 0} (on_hop : ℕ → ℕ → S → S) where
  open api use {Net}

  -- The calls of `onHopComplete` of a transfer that arrives: (done + 1, total), …, (total, total).
  abbrev pub notify : (total done : ℕ) → List String → S → S
  notify total done [] s = s
  notify total done (dest ∷ []) s = on_hop total total (on_hop (suc done) total s)
  notify total done (dest ∷ next ∷ rest) s =
      notify total (suc done) (next ∷ rest) (on_hop (suc done) total s)

  abbrev pub Arrives : (total done : ℕ) → List String → PacketData → String → S → S → Type 0
  Arrives total done path packet ts s s' =
      Trail api packet ts path × (s' ≡ notify total done path s)

  module _ (chains : List ClientChain) (total : ℕ) where
    hop :
        (dest_id : String) (packet : PacketData) (ts : String) {dest : ClientChain}
        {result : IbcTrackingResult}
        → find (λ c. str_eq c.id dest_id) chains ≡ some dest
        → (report : Reports api dest packet ts result) → HopOn api dest_id packet ts report.response
    hop dest_id packet ts {dest} is report = record {
      chain = dest;
      is = find_sound dest_id chains is;
      confirms = report.confirms;
    }

    follow_hops-Arrives :
        (done : ℕ) (path : List String) (packet : PacketData) (ts : String) (net : Net) (s : S)
        → (follow_hops api options on_hop chains total done path packet ts net s).0.success ≡ true
        → Arrives total done path packet ts s
            (follow_hops api options on_hop chains total done path packet ts net s).2
    unfolding follow_hops
    follow_hops-Arrives done [] packet ts net s ok = (tt, refl)
    follow_hops-Arrives done (dest_id ∷ []) packet ts net s ok =
        elim (Option-cases (find (λ c. str_eq c.id dest_id) chains)) [
          | inl unknown ↦ absurd (cc (rw (unknown, follow_hops) at ok))
          | inr (dest, is) ↦
              elim (Bool-cases (wait_for_confirmation api options dest packet ts net).0.success) [
                | inr not_seen ↦ absurd (cc (rw (is, not_seen, follow_hops) at ok, not_seen))
                | inl seen ↦
                    let report =
                      wait_for_confirmation-Reports api options dest packet ts net seen in
                    rw (is, seen, follow_hops)
                      ((report.response, hop dest_id packet ts is report), refl)
              ]
        ]
    follow_hops-Arrives done (dest_id ∷ next ∷ rest) packet ts net s ok =
        elim (Option-cases (find (λ c. str_eq c.id dest_id) chains)) [
          | inl unknown ↦ absurd (cc (rw (unknown, follow_hops) at ok))
          | inr (dest, is) ↦
              let waited = wait_for_confirmation api options dest packet ts net in
              elim (Bool-cases waited.0.success) [
                | inr not_seen ↦ absurd (cc (rw (is, not_seen, follow_hops) at ok, not_seen))
                | inl seen ↦
                    let report =
                      wait_for_confirmation-Reports api options dest packet ts net seen in
                    elim (Option-cases waited.0.next_send_packet) [
                      | inl unsent ↦ absurd (cc (rw (is, seen, unsent, follow_hops) at ok))
                      | inr (sent, forwarded) ↦
                          let later =
                            follow_hops-Arrives (suc done) (next ∷ rest) sent
                              (or_else waited.0.recv_timestamp ts) waited.1
                              (on_hop (suc done) total s)
                              (rw (is, seen, forwarded, follow_hops) at ok) in
                          let stamp : or_else waited.0.recv_timestamp ts
                              ≡ report.response.timestamp =
                            ap (λ t. or_else t ts) report.timestamp in
                          rw (is, seen, forwarded, follow_hops)
                            (
                              (
                                report.response,
                                sent,
                                hop dest_id packet ts is report,
                                sym report.next ∙ forwarded,
                                subst (λ t. Trail api sent t (next ∷ rest)) stamp later.0,
                              ),
                              later.1,
                            )
                    ]
              ]
        ]

  enough : (rest : List String) → ltb (suc (suc (length rest))) 2 ≡ false
  enough rest = ground arith

  -- If the tracking of a smart transfer over two chains or more succeeds, then the source chain's API
  -- has answered with a transaction that sent a packet; from there each further chain of the path
  -- confirms the packet that the transaction before it sent on; and the progress was reported for each
  -- hop in order, and for the arrival.
  pub track_smart_transfer_multi_hop-Arrives :
      (chain_id tx_hash first second : String) (rest : List String) (chains : List ClientChain)
      (net : Net) (s : S)
      → (track_smart_transfer_multi_hop api options on_hop chain_id tx_hash
          (first ∷ second ∷ rest)
          chains
          net
          s).0.success
        ≡ true
      → (packet : PacketData) × (ts : String) × Sent api chain_id tx_hash (packet, ts)
        × Arrives
            (length (first ∷ second ∷ rest))
            0
            (second ∷ rest)
            packet
            ts
            s
            (track_smart_transfer_multi_hop api options on_hop chain_id tx_hash
              (first ∷ second ∷ rest)
              chains
              net
              s).2
  unfolding track_smart_transfer_multi_hop
  track_smart_transfer_multi_hop-Arrives chain_id tx_hash first second rest chains net s ok =
      let sent = get_packet_data api chain_id tx_hash net in
      let fetched = fetch_again api options chain_id tx_hash options.max_attempts sent.0 sent.1 in
      elim (Option-cases fetched.0) [
        | inl nothing ↦
            absurd (cc (rw (enough rest, nothing, track_smart_transfer_multi_hop) at ok))
        | inr ((packet, ts), is) ↦
            let arrived =
              follow_hops-Arrives chains (length (first ∷ second ∷ rest)) 0 (second ∷ rest) packet
                ts fetched.1 s (rw (enough rest, is, track_smart_transfer_multi_hop) at ok) in
            rw (enough rest, is, track_smart_transfer_multi_hop)
              (
                packet,
                ts,
                first-Sent api options chain_id tx_hash options.max_attempts net is,
                arrived,
              )
      ]
