-- ===== src/Tracking/Bounds.antt =====
-- How many event queries a wait for a confirmation sends (client_app/src/hooks/useIbcTracking.ts).
use spectra_portal.Base.{
  ℕ, zero, suc, ◌+◌, ◌-◌, ◌≤◌, inl, inr, String, List, [], ◌∷◌, arith, length, Bool-cases,
  Option-cases, ltb, is_truthy, opt_or, ◌==◌,
}
use spectra_portal.Config.{ClientChain}
use spectra_portal.Tracking.Types.{PacketData, TrackingOptions, ChainApi}
use spectra_portal.Tracking.Util.{
  check_responses, try_strategies, query_ibc_receive, build_query_strategies,
}
use spectra_portal.Tracking.Hook.{verdict, pause, poll, wait_for_confirmation}
use spectra_portal.Tracking.Queries.{build_query_strategies-IsTiered}
use spectra_portal.Tracking.Receive.{FetchResult-cases, Check-cases}

-- A count of the event queries that were sent: only `by_events` raises it, by at most one.
pub record Counter (api : ChainApi) : Type 0 where
  pub calls : api.Net → ℕ
  pub by_events :
      (c : ClientChain) (qs : List String) (n : api.Net)
      → calls (api.by_events c qs n).1 ≤ suc (calls n)
  pub healthy_api : (id : String) (n : api.Net) → calls (api.healthy_api id n).1 ≤ calls n
  pub now : (n : api.Net) → calls (api.now n).1 ≤ calls n
  pub aborted : (n : api.Net) → calls (api.aborted n).1 ≤ calls n
  pub new_controller : (n : api.Net) → calls (api.new_controller n) ≤ calls n
  pub sleep : (ms : ℕ) (n : api.Net) → calls (api.sleep ms n) ≤ calls n

module _ (api : ChainApi) (counter : Counter api) where
  open api use {Net, get_time}
  open counter use {calls}

  module _ (dest : ClientChain) (packet : PacketData) (source_ts : String) where
    try_strategies-calls :
        (strategies : List (List String)) (net : Net)
        → calls (try_strategies api dest packet source_ts strategies net).1
          ≤ calls net + length strategies
    unfolding try_strategies
    try_strategies-calls [] net = omega arith
    try_strategies-calls (queries ∷ rest) net =
        let asked = api.by_events dest queries net in
        let one = counter.by_events dest queries net in
        let more = try_strategies-calls rest asked.1 in
        elim (FetchResult-cases asked.0) [
          | inl (inl is) ↦ rw (is, try_strategies) (omega arith)
          | inl (inr (code, message, is)) ↦ rw (is, try_strategies) (omega arith)
          | inr (rs, is) ↦ elim (Check-cases (check_responses get_time packet source_ts rs)) [
            | inl (inl ok) ↦ rw (is, ok, try_strategies) (omega arith)
            | inl (inr other) ↦ rw (is, other, try_strategies) (omega arith)
            | inr old ↦ rw (is, old, try_strategies) (omega arith)
          ]
        ]

    query_ibc_receive-calls :
        (net : Net) → calls (query_ibc_receive api dest packet source_ts net).1 ≤ calls net + 1
    unfolding query_ibc_receive
    query_ibc_receive-calls net =
        let url = api.healthy_api dest.id net in
        let asked = counter.healthy_api dest.id net in
        elim (Bool-cases (is_truthy (opt_or url.0 ""))) [
          | inl has ↦
              rw (has, query_ibc_receive)
                (omega (
                  arith,
                  asked,
                  try_strategies-calls (build_query_strategies packet) url.1,
                  (build_query_strategies-IsTiered packet).0,
                ))
          | inr hasnt ↦ rw (hasnt, query_ibc_receive) (omega (arith, asked))
        ]

    module _ (options : TrackingOptions) where
      pause-calls : (left : ℕ) (net : Net) → calls (pause api options left net) ≤ calls net
      pause-calls left net = elim (Bool-cases (left == 0)) [
        | inl last ↦ rw last (omega arith)
        | inr more ↦ rw more (counter.sleep options.poll_interval net)
      ]

      poll-calls :
          (start left : ℕ) (net : Net)
          → calls (poll api options dest packet source_ts start left net).1 ≤ calls net + left
      unfolding poll
      poll-calls start zero net = omega arith
      poll-calls start (suc left) net =
          let stop = api.aborted net in
          let time = api.now stop.1 in
          let asked = query_ibc_receive api dest packet source_ts time.1 in
          let c1 = counter.aborted net in
          let c2 = counter.now stop.1 in
          let c3 = query_ibc_receive-calls time.1 in
          let c4 = pause-calls left asked.1 in
          let c5 = poll-calls start left (pause api options left asked.1) in
          elim (Bool-cases stop.0) [
            | inl stopped ↦ rw (stopped, poll) (omega arith)
            | inr going ↦ elim (Bool-cases (ltb options.timeout (time.0 - start))) [
              | inl late ↦ rw (going, late, poll) (omega arith)
              | inr in_time ↦ elim (Option-cases (verdict asked.0)) [
                | inl again ↦ rw (going, in_time, again, poll) (omega arith)
                | inr (result, is) ↦ rw (going, in_time, is, poll) (omega arith)
              ]
            ]
          ]

      -- A wait for a confirmation sends at most `maxAttempts` event queries, whatever the chain
      -- answers.
      pub wait_for_confirmation-calls :
          (net : Net)
          → calls (wait_for_confirmation api options dest packet source_ts net).1
            ≤ calls net + options.max_attempts
      unfolding wait_for_confirmation
      wait_for_confirmation-calls net =
          let started = api.now (api.new_controller net) in
          omega (
            arith,
            counter.new_controller net,
            counter.now (api.new_controller net),
            poll-calls started.0 options.max_attempts started.1,
          )
