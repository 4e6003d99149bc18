-- ===== src/Tracking/Queries.antt =====
-- The query strategies of client_app/src/hooks/ibcTracking/util.ts.
use spectra_portal.Base.{
  ℕ, ◌+◌, ◌≤◌, ◌<◌, ◌≡◌, String, List, [], ◌∷◌, arith, join, text_length, text_length-append,
  length, All,
}
use spectra_portal.Tracking.Types.{PacketData}
use spectra_portal.Tracking.Util.{
  max_query_length, estimate_query_length, strategy1, strategy2, strategy3, build_query_strategies,
}

-- The fields of a packet in the query that does not hold the packet's bytes.
abbrev pub short_fields : PacketData → ℕ
short_fields p =
    text_length p.packet_sequence
    + text_length p.packet_src_channel
    + text_length p.packet_dst_channel
    + text_length p.packet_timeout

estimate-strategy3 : (p : PacketData) → estimate_query_length (strategy3 p) ≡ short_fields p + 150
unfolding estimate_query_length join text_length
estimate-strategy3 p = simp text_length-append (omega arith)

-- A strategy list with a fitting query, or with the query that has no packet bytes.
abbrev pub IsTiered : PacketData → List (List String) → Type 0
IsTiered p strategies =
    (length strategies ≡ 1)
    × (short_fields p ≤ 300 → All (λ q. estimate_query_length q ≤ max_query_length) strategies)
    × ((estimate_query_length (strategy1 p) ≤ max_query_length → strategies ≡ strategy1 p ∷ [])
        × (max_query_length < estimate_query_length (strategy1 p)
            → estimate_query_length (strategy2 p) ≤ max_query_length
            → strategies ≡ strategy2 p ∷ [])
        × (max_query_length < estimate_query_length (strategy1 p)
            → max_query_length < estimate_query_length (strategy2 p)
            → strategies ≡ strategy3 p ∷ []))

-- There is always exactly one strategy: the most specific one whose length is at most 450, and the
-- one without the packet's bytes if neither of the first two is. If the sequence, the channels and
-- the timeout have at most 300 characters together, then its length is at most 450.
pub build_query_strategies-IsTiered : (p : PacketData) → IsTiered p (build_query_strategies p)
unfolding build_query_strategies
build_query_strategies-IsTiered p = ground (arith, estimate-strategy3 p)
